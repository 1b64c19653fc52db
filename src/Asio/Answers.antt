-- ===== src/Asio/Answers.antt =====
-- example/asio.cpp: what `AsioTimer` makes of the reports on its wait, in the whole program.
use curlion.Common.{ℕ, ◌≡◌, refl, ◌∙◌, Bool, true, false, ◌&&◌, List, [], ◌∷◌, ◌==◌}
use curlion.Manager.State.{Effect, timer_start, timer_stop, MultiLibrary, Handlers, Object}
use curlion.Asio.State.{ErrorCode, success, operation_aborted, failure, Watcher}
use curlion.Asio.Timer
use curlion.Asio.Timer.{TimerIo, expires_from_now, async_wait, cancel, expired, callback}
use curlion.Asio.Contract.{System, play, play_all}
use curlion.Asio.Loop
use curlion.Asio.Loop.{
  new_whole, Whole, Joint, timer_aborted, timer_fires, wait_aborted, wait_reports,
  connection_changes, JointReach, here, next,
}

-- Each report of a wait that was not aborted has at once been followed by one call of its callback,
-- and no other call was made.
abbrev pub answered : List TimerIo → Bool
answered [] = true
answered (expires_from_now ms ∷ older) = answered older
answered (async_wait f ∷ older) = answered older
answered (cancel ∷ older) = answered older
answered (expired f operation_aborted ∷ older) = answered older
answered (expired f success ∷ older) = false
answered (expired f (failure n) ∷ older) = false
answered (callback f ∷ expired g success ∷ older) = (f == g) && answered older
answered (callback f ∷ expired g (failure n) ∷ older) = (f == g) && answered older
answered (callback f ∷ older) = false

timer_triggered-answered :
    (error : ErrorCode) (io : List TimerIo)
    → answered (Timer.timer_triggered 0 error (expired 0 error ∷ io)) ≡ answered io
unfolding Timer.timer_triggered
timer_triggered-answered operation_aborted io = refl
timer_triggered-answered success io = refl
timer_triggered-answered (failure n) io = refl

play-answered : (e : Effect) (sys : System) → answered (play e sys).timer ≡ answered sys.timer
unfolding play Timer.start Timer.stop
play-answered (timer_start ms) sys = refl
play-answered timer_stop sys = refl
play-answered (Effect.watch s e) sys = refl
play-answered (Effect.stop_watching s) sys = refl

play_all-answered :
    (new : List Effect) (sys : System) → answered (play_all new sys).timer ≡ answered sys.timer
unfolding play_all
play_all-answered [] sys = refl
play_all-answered (e ∷ older) sys =
    play-answered e (play_all older sys) ∙ play_all-answered older sys

module _ (lib : MultiLibrary) (handlers : Handlers lib) where
  Joint-answered :
      {u v : Whole lib handlers}
      → Joint lib handlers u v
      → answered v.system.timer ≡ answered u.system.timer
  Joint-answered {u} (Joint.starts a are_open) = play_all-answered _ u.system
  Joint-answered {u} (Joint.aborts a are_open) = play_all-answered _ u.system
  Joint-answered {u} (timer_aborted error e) = timer_triggered-answered error u.system.timer
  Joint-answered {u} (timer_fires error fuel w' e fired are_open) =
      play_all-answered _ _ ∙ timer_triggered-answered error u.system.timer
  Joint-answered {u} (wait_aborted w b error waits e) = refl
  Joint-answered {u} (wait_reports w b error fuel w' waits e fired are_open) = play_all-answered _ _
  Joint-answered {u} (Loop.opens socket_type family opened) = refl
  Joint-answered {u} (Loop.closes s error) = refl
  Joint-answered (connection_changes a f) = refl

  JointReach-answered :
      {u v : Whole lib handlers}
      → JointReach lib handlers u v
      → answered v.system.timer ≡ answered u.system.timer
  JointReach-answered here = refl
  JointReach-answered (next r step) = Joint-answered step ∙ JointReach-answered r

  -- A new manager behind a new `AsioTimer` and a new `AsioSocketManager`. After any calls of the
  -- program's, reports of asio's on the timer and on waits that have been started, with any errors
  -- and in any order, sockets opened and closed, and whatever happens to the connections meanwhile,
  -- where only open sockets are watched: each report on the timer that is not of an aborted wait
  -- has at once been followed by one call of the timer's callback, and this callback was called at
  -- no other time.
  pub JointReach-new_world-answered :
      (factory : Bool) (objects : ℕ → Object) (memory : ℕ → Watcher) (u : Whole lib handlers)
      → JointReach lib handlers (new_whole lib handlers factory objects memory) u
      → answered u.system.timer ≡ true
  unfolding new_whole
  JointReach-new_world-answered factory objects memory u r = JointReach-answered r
