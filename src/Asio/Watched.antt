-- ===== src/Asio/Watched.antt =====
-- What the whole program keeps waiting at asio for the sockets that its manager has watched.
use curlion.Common.{
  ℕ, ◌+◌, ◌≡◌, ap, ◌∙◌, Bool, true, false, some, List, [], ◌∷◌, arith, Bool-cases, Option-cases,
  inl, inr,
}
use curlion.Manager.Table.{find}
use curlion.Manager.State.{Event, Effect, timer_start, timer_stop, MultiLibrary, Handlers, Object}
use curlion.Manager.Obeys.{SocketLaws}
use curlion.Asio.State.{Watcher, SocketManager}
use curlion.Asio.Step.{opens, closes, run_action, open_socket, close_socket}
use curlion.Asio.Waits.{outstanding, aborts, wanted, is_single, Continual, none_busy, only}
use curlion.Asio.Continual.{
  new-Continual, watch-Continual, stop_watching-Continual, run_action-Continual, reported-Continual,
  stopped-Continual, again-Continual,
}
use curlion.Asio.Contract.{System, view, watched_event, play, play_all}
use curlion.Asio.Loop
use curlion.Asio.Loop.{
  new_whole, resume, handle_of, called, resumed, Whole, settled, Joint, timer_aborted, timer_fires,
  wait_aborted, wait_reports, connection_changes, JointReach, here, next,
}
use curlion.Asio.Promise.{JointReach-Fits, new_whole-Fits}

play-Continual :
    (busy : ℕ → Bool) (e : Effect) (sys : System)
    → Continual busy sys.socket_manager
    → Continual busy (play e sys).socket_manager
unfolding play
play-Continual busy (timer_start ms) sys c = c
play-Continual busy timer_stop sys c = c
play-Continual busy (Effect.watch s e) sys c = watch-Continual busy s e 0 sys.socket_manager c
play-Continual busy (Effect.stop_watching s) sys c =
    stop_watching-Continual busy s sys.socket_manager c

play_all-Continual :
    (busy : ℕ → Bool) (new : List Effect) (sys : System)
    → Continual busy sys.socket_manager
    → Continual busy (play_all new sys).socket_manager
unfolding play_all
play_all-Continual busy [] sys c = c
play_all-Continual busy (e ∷ older) sys c =
    play-Continual busy e (play_all older sys) (play_all-Continual busy older sys c)

resume-Continual :
    (w : ℕ) (m : SocketManager) → Continual (only w) m → Continual none_busy (resume w m)
unfolding resume
resume-Continual w m c = elim (Bool-cases (m.single_watchers w).is_stopped) [
  | inl stopped ↦ rw (stopped, resume) (stopped-Continual w m stopped c)
  | inr runs ↦ rw (runs, resume) (again-Continual w m c)
]

running-watcher :
    (s : ℕ) (e : Event) (m : SocketManager)
    → view m s ≡ some e
    → (w : ℕ) × (find s m.watchers ≡ some w)
      × ((m.single_watchers w).event ≡ e)
      × ((m.single_watchers w).is_stopped ≡ false)
running-watcher s e m h = elim (Option-cases (find s m.watchers)) [
  | inl unknown ↦ absurd (cc (rw unknown at h))
  | inr (w, there) ↦ let h' = rw there at h in (w, there, ground (arith, h'), ground (arith, h'))
]

module _ (lib : MultiLibrary) (laws : SocketLaws lib) (handlers : Handlers lib) where
  abbrev Waits : Whole lib handlers → Type 0
  Waits u = Continual none_busy u.system.socket_manager

  Joint-Waits : {u v : Whole lib handlers} → Joint lib handlers u v → Waits u → Waits v
  unfolding open_socket close_socket run_action
  Joint-Waits {u} (Joint.starts a are_open) c = play_all-Continual none_busy _ u.system c
  Joint-Waits {u} (Joint.aborts a are_open) c = play_all-Continual none_busy _ u.system c
  Joint-Waits {u} (timer_aborted error e) c = c
  Joint-Waits {u} (timer_fires error fuel w' e fired are_open) c =
      play_all-Continual none_busy _ _ c
  Joint-Waits {u} (wait_aborted w b error waits e) c =
      rw e at (reported-Continual w b error u.system.socket_manager waits c)
  Joint-Waits {u} (wait_reports w b error fuel w' waits e fired are_open) c =
      let busy = rw e at (reported-Continual w b error u.system.socket_manager waits c) in
      resume-Continual w _ (
        play_all-Continual (only w) _ (called w b error u.system)
          (record { unborn = busy.unborn; born = busy.born; single = busy.single }))
  Joint-Waits {u} (Loop.opens socket_type family opened) c =
      run_action-Continual none_busy (opens socket_type family opened) u.system.socket_manager c
  Joint-Waits {u} (Loop.closes s error) c =
      run_action-Continual none_busy (closes s error) u.system.socket_manager c
  Joint-Waits (connection_changes a f) c = c

  JointReach-Waits : {u v : Whole lib handlers} → JointReach lib handlers u v → Waits u → Waits v
  JointReach-Waits here c = c
  JointReach-Waits (next r step) c = Joint-Waits step (JointReach-Waits r c)

  -- A new manager behind a new `AsioTimer` and a new `AsioSocketManager`, with a libcurl that keeps
  -- a socket's pointer as it documents and has only open sockets watched. After any calls of the
  -- program's, reports of asio's on the timer and on waits that have been started, and sockets
  -- opened and closed, and whatever happens to the connections meanwhile: a socket that the manager
  -- has asked to watch for reading alone or for writing alone, and not to stop watching since, has
  -- a watcher for that event, which has exactly one wait of that kind at asio and none of the
  -- other, where a wait that asio reported as aborted counts as had.
  pub JointReach-new_world-one_wait :
      (factory : Bool) (objects : ℕ → Object) (memory : ℕ → Watcher) (u : Whole lib handlers)
      (s : ℕ) (e : Event) (can_write : Bool)
      → JointReach lib handlers (new_whole lib handlers factory objects memory) u
      → watched_event s u.manager.effects ≡ some e
      → is_single e ≡ true
      → let m = u.system.socket_manager in
        (w : ℕ) × (find s m.watchers ≡ some w)
        × ((m.single_watchers w).event ≡ e)
        × (outstanding w can_write m.io + aborts w can_write m.io ≡ wanted e can_write)
  unfolding new_whole
  JointReach-new_world-one_wait factory objects memory u s e can_write r asked one =
      let m = u.system.socket_manager in
      let f =
        JointReach-Fits lib laws handlers r
          (new_whole-Fits lib laws handlers factory objects memory) in
      let c = JointReach-Waits r (new-Continual memory) in
      let (w, there, same, runs) = running-watcher s e m (f.does.events s ∙ asked) in
      let (born, _) = f.does.live.known s w there in
      (
        w,
        there,
        same,
        c.single w can_write born (ap is_single same ∙ one) runs
            ∙ ap (λ x. wanted x can_write) same,
      )
