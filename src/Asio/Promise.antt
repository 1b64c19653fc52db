-- ===== src/Asio/Promise.antt =====
-- The whole program keeps what `timer.h` and `socket_watcher.h` ask of it, on both sides.
use curlion.Common.{sym, ℕ, ◌≡◌, refl, Bool, List, ◌∷◌, ◌++◌, ◌≤◌, if◌then◌else◌, arith, subst}
use curlion.Manager.Table.{find}
use curlion.Manager.State.{Effect, MultiLibrary, World, Handlers, Object, new_world, change_object}
use curlion.Manager.Step.{timer_triggered}
use curlion.Manager.Obeys.{timer_on, Obeys, SocketLaws}
use curlion.Manager.Watching.{
  IsWatched, start_connection-IsWatched, abort_connection-IsWatched, act-IsWatched,
}
use curlion.Manager.Run.{new_world-IsWatched}
use curlion.Manager.Effects.{
  Extends, added, added-append, start_connection-Extends, abort_connection-Extends, act-Extends,
}
use curlion.Asio.State.{ErrorCode, Watcher, SocketManager, new_socket_manager}
use curlion.Asio.Timer
use curlion.Asio.Timer.{TimerIo, expired, waiting}
use curlion.Asio.Live.{watch_once-same, open_socket-same, close_socket-same, new-Live}
use curlion.Asio.Contract.{System, view, watched_event, play_all, Agrees, play_all-Agrees}
use curlion.Asio.Loop.{
  new_whole, resume, called, resumed, Whole, event_callback, settled, AreOpen, Joint, starts,
  aborts, timer_aborted, timer_fires, wait_aborted, wait_reports, opens, closes, connection_changes,
  JointReach, here, next,
}

-- The system does what the calls so far ask for, whatever sockets are open.
abbrev pub Does : List Effect → System → Type 0
Does effects sys = Agrees effects sys.socket_manager.sockets sys

-- Of the socket manager, its watchers matter.
alike-Does :
    (effects : List Effect) (sys : System) (m : SocketManager)
    → (m.watchers ≡ sys.socket_manager.watchers)
      × (m.single_watchers ≡ sys.socket_manager.single_watchers)
      × (m.next_watcher ≡ sys.socket_manager.next_watcher)
    → Does effects sys
    → Does effects (record sys { socket_manager = m })
alike-Does effects sys m (t, o, n) d = record {
  live = rw (t, o, n) d.live;
  events = λ s. rw (t, o) (d.events s);
  timers = d.timers;
  sockets = refl;
}

resume-same :
    (w : ℕ) (m : SocketManager)
    → ((resume w m).watchers ≡ m.watchers)
      × ((resume w m).single_watchers ≡ m.single_watchers)
      × ((resume w m).next_watcher ≡ m.next_watcher)
unfolding resume
resume-same w m = (
  ground (arith, watch_once-same w m),
  ground (arith, watch_once-same w m),
  ground (arith, watch_once-same w m),
)

resume-Does :
    (effects : List Effect) (w : ℕ) (sys : System) → Does effects sys → Does effects (resumed w sys)
resume-Does effects w sys d = alike-Does effects sys _ (resume-same w sys.socket_manager) d

reported-Does :
    (effects : List Effect) (error : ErrorCode) (sys : System)
    → Does effects sys
    → Does effects
        (record sys { timer = Timer.timer_triggered 0 error (expired 0 error ∷ sys.timer) })
unfolding Timer.timer_triggered
reported-Does effects error sys d = record {
  live = d.live;
  events = d.events;
  timers = ground (arith, d.timers);
  sockets = refl;
}

module _ (lib : MultiLibrary) (laws : SocketLaws lib) (handlers : Handlers lib) where
  pub record Fits (u : Whole lib handlers) : Type 0 where
    pub watched : IsWatched lib u.manager
    pub does : Does u.manager.effects u.system

  settled-Fits :
      (w w' : World lib) (sys : System)
      → Extends w.effects w'.effects
      → AreOpen lib handlers w w' sys
      → IsWatched lib w'
      → Does w.effects sys
      → Fits (settled lib handlers w w' sys)
  settled-Fits w w' sys grown are_open i d =
      let new = added w.effects w'.effects in
      let e = added-append w.effects w'.effects grown in
      let obeys : Obeys (new ++ w.effects) = subst Obeys e i.obeys in
      let a = play_all-Agrees sys.socket_manager.sockets new w.effects sys obeys are_open d in
      record {
        watched = i;
        does =
            subst (λ l. Does l (play_all new sys)) (sym e)
              (record { live = a.live; events = a.events; timers = a.timers; sockets = refl });
      }

  Joint-Fits : {u v : Whole lib handlers} → Joint lib handlers u v → Fits u → Fits v
  unfolding timer_triggered event_callback change_object
  Joint-Fits {u} (starts a are_open) f =
      settled-Fits u.manager _ u.system (start_connection-Extends lib a u.manager) are_open
        (start_connection-IsWatched lib laws a u.manager f.watched) f.does
  Joint-Fits {u} (aborts a are_open) f =
      settled-Fits u.manager _ u.system (abort_connection-Extends lib a u.manager) are_open
        (abort_connection-IsWatched lib laws a u.manager f.watched) f.does
  Joint-Fits {u} (timer_aborted error e) f = record {
    watched = f.watched;
    does = reported-Does _ error u.system f.does;
  }
  Joint-Fits {u} (timer_fires error fuel w' e fired are_open) f =
      settled-Fits u.manager w' _ (act-Extends lib handlers fuel _ _ u.manager w' fired) are_open
        (act-IsWatched lib laws handlers fuel _ _ u.manager w' fired f.watched)
        (reported-Does _ error u.system f.does)
  Joint-Fits {u} (wait_aborted w b error waits e) f = record {
    watched = f.watched;
    does = alike-Does _ u.system _ (refl, refl, refl) f.does;
  }
  Joint-Fits {u} (wait_reports w b error fuel w' waits e fired are_open) f =
      let g =
        settled-Fits u.manager w' (called w b error u.system)
          (act-Extends lib handlers fuel _ _ u.manager w' fired) are_open
          (act-IsWatched lib laws handlers fuel _ _ u.manager w' fired f.watched)
          (alike-Does _ u.system _ (refl, refl, refl) f.does) in
      record { watched = g.watched; does = resume-Does _ w _ g.does }
  Joint-Fits {u} (opens socket_type family opened) f = record {
    watched = f.watched;
    does =
        alike-Does _ u.system _ (open_socket-same socket_type family opened u.system.socket_manager)
          f.does;
  }
  Joint-Fits {u} (closes s error) f = record {
    watched = f.watched;
    does = alike-Does _ u.system _ (close_socket-same s error u.system.socket_manager) f.does;
  }
  Joint-Fits {u} (connection_changes a g) f = record {
    watched = record { obeys = f.watched.obeys; agrees = f.watched.agrees };
    does = f.does;
  }

  pub JointReach-Fits : {u v : Whole lib handlers} → JointReach lib handlers u v → Fits u → Fits v
  JointReach-Fits here f = f
  JointReach-Fits (next r step) f = Joint-Fits step (JointReach-Fits r f)

  pub new_whole-Fits :
      (factory : Bool) (objects : ℕ → Object) (memory : ℕ → Watcher)
      → Fits (new_whole lib handlers factory objects memory)
  unfolding new_whole new_world new_socket_manager find
  new_whole-Fits factory objects memory = record {
    watched = new_world-IsWatched lib handlers laws factory objects;
    does = record {
      live = new-Live memory;
      events = λ s. refl;
      timers = omega arith;
      sockets = refl;
    };
  }

  -- A new manager behind a new `AsioTimer` and a new `AsioSocketManager`, with a libcurl that keeps
  -- a socket's pointer as it documents and has only open sockets watched. After any calls of the
  -- program's, reports of asio's on the timer and on waits that have been started, and sockets
  -- opened and closed, and whatever happens to the connections meanwhile: the manager has kept its
  -- promise on `Watch`, `StopWatching` and `Start`; the socket manager has a running watcher for
  -- exactly the sockets that are to be watched, for the event asked for last; and the timer has at
  -- most one wait that is not cancelled, and none when it is not to run.
  pub JointReach-new_world-view :
      (factory : Bool) (objects : ℕ → Object) (memory : ℕ → Watcher) (u : Whole lib handlers)
      → JointReach lib handlers (new_whole lib handlers factory objects memory) u
      → Obeys u.manager.effects
        × ((s : ℕ) → view u.system.socket_manager s ≡ watched_event s u.manager.effects)
        × (waiting u.system.timer ≤ (if timer_on u.manager.effects then 1 else 0))
  JointReach-new_world-view factory objects memory u r =
      let f = JointReach-Fits r (new_whole-Fits factory objects memory) in
      (f.watched.obeys, f.does.events, f.does.timers)
