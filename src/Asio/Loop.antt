-- ===== src/Asio/Loop.antt =====
-- The program of example/asio.cpp: a `ConnectionManager` whose timer is an `AsioTimer`, and whose socket
-- factory and socket watcher are an `AsioSocketManager`, with what asio reports to the two.
use curlion.Common.{[], ◌<◌, ℕ, ◌≡◌, Bool, true, false, Option, none, some, ◌∷◌, if◌then◌else◌}
use curlion.Manager.State.{
  MultiLibrary, AnyConnection, change_object, World, Handlers, Object, new_world, select_in,
  select_out,
}
use curlion.Manager.Step.{start_connection, abort_connection, timer_triggered, act}
use curlion.Manager.Effects.{added}
use curlion.Asio.State.{ErrorCode, completed, Watcher, SocketManager, new_socket_manager, emit}
use curlion.Asio.Step.{watch_once, SocketType, open_socket, close_socket, announced, is_aborted}
use curlion.Asio.Waits.{outstanding}
use curlion.Asio.Timer
use curlion.Asio.Timer.{TimerIo, expired, waiting, latest_call}
use curlion.Asio.Contract.{System, play_all, AllOpen}

-- `AsioSingleSocketWatcher::EventTriggered` behind the event callback.
unfoldable pub resume : ℕ → SocketManager → SocketManager
unfolding watch_once
resume w m = if (m.single_watchers w).is_stopped then m else watch_once w m

-- `native_handle` of a watcher's socket.
abbrev pub handle_of : ℕ → System → Option ℕ
handle_of w sys = let m = sys.socket_manager in m.asio_sockets (m.single_watchers w).socket

-- asio has reported a wait, and the event callback is called.
abbrev pub called : ℕ → Bool → ErrorCode → System → System
called w can_write error sys = record sys {
  socket_manager = announced w can_write (emit (completed w can_write error) sys.socket_manager);
}

abbrev pub resumed : ℕ → System → System
resumed w sys = record sys { socket_manager = resume w sys.socket_manager }

module _ (lib : MultiLibrary) (handlers : Handlers lib) where
  pub record Whole : Type 0 where
    pub manager : World lib
    pub system : System

  -- The manager, the timer and the socket manager that `main` makes.
  unfoldable pub new_whole : Bool → (ℕ → Object) → (ℕ → Watcher) → Whole
  unfolding new_world new_socket_manager
  new_whole factory objects memory = record {
    manager = new_world lib factory objects;
    system = record { timer = []; socket_manager = new_socket_manager memory };
  }

  -- The event callback, which is `SocketEventTriggered`. The native handle of a closed socket is -1,
  -- which is `CURL_SOCKET_TIMEOUT`, too.
  unfoldable pub event_callback : ℕ → Option ℕ → Bool → World lib → Option (World lib)
  event_callback fuel handle can_write =
      act lib handlers fuel handle (if can_write then select_out else select_in)

  -- A manager has gone from `w` to `w'`, and its calls meanwhile have been made.
  abbrev pub settled : World lib → World lib → System → Whole
  settled w w' sys = record { manager = w'; system = play_all (added w.effects w'.effects) sys }

  -- The sockets that it watches meanwhile are open.
  abbrev pub AreOpen : World lib → World lib → System → Type 0
  AreOpen w w' sys = AllOpen (added w.effects w'.effects) sys.socket_manager.sockets

  -- The number 0 stands for the callback that the manager gives to its timer, `TimerTriggered`. Whether a
  -- report calls it is what `AsioTimer` makes of the report.
  --
  -- What happens next: a call of the program's, a report on the timer or on a wait of a watcher, a
  -- socket that libcurl has opened or closed, or a change of a connection, by public methods, calls of
  -- libcurl's or a blocking start. A report is on a wait that has been started and not
  -- reported; of the reports' order and errors nothing is assumed.
  pub data Joint (u : Whole) : Whole → Type 0 where
    starts :
        (a : ℕ)
        → AreOpen u.manager (start_connection lib a u.manager).0 u.system
        → Joint u (settled u.manager (start_connection lib a u.manager).0 u.system)
    aborts :
        (a : ℕ)
        → AreOpen u.manager (abort_connection lib a u.manager).0 u.system
        → Joint u (settled u.manager (abort_connection lib a u.manager).0 u.system)
    timer_aborted :
        (error : ErrorCode)
        → latest_call (Timer.timer_triggered 0 error (expired 0 error ∷ u.system.timer)) ≡ none
        → Joint u (record u {
          system = record (u.system) {
            timer = Timer.timer_triggered 0 error (expired 0 error ∷ u.system.timer);
          };
        })
    timer_fires :
        (error : ErrorCode) (fuel : ℕ) (w' : World lib)
        → latest_call (Timer.timer_triggered 0 error (expired 0 error ∷ u.system.timer)) ≡ some 0
        → timer_triggered lib handlers fuel u.manager ≡ some w'
        → AreOpen u.manager w' u.system
        → Joint u (
            settled u.manager w' (record (u.system) {
              timer = Timer.timer_triggered 0 error (expired 0 error ∷ u.system.timer);
            }))
    wait_aborted :
        (w : ℕ) (can_write : Bool) (error : ErrorCode)
        → 0 < outstanding w can_write u.system.socket_manager.io
        → is_aborted error ≡ true
        → Joint u (record u {
          system = record (u.system) {
            socket_manager = emit (completed w can_write error) u.system.socket_manager;
          };
        })
    wait_reports :
        (w : ℕ) (can_write : Bool) (error : ErrorCode) (fuel : ℕ) (w' : World lib)
        → 0 < outstanding w can_write u.system.socket_manager.io
        → is_aborted error ≡ false
        → event_callback fuel (handle_of w u.system) can_write u.manager ≡ some w'
        → AreOpen u.manager w' u.system
        → Joint u (record {
          manager = w';
          system =
              resumed w
                (play_all (added u.manager.effects w'.effects) (called w can_write error u.system));
        })
    opens :
        (socket_type : SocketType) (family : ℕ) (opened : Option ℕ)
        → Joint u (record u {
          system = record (u.system) {
            socket_manager = (open_socket socket_type family opened u.system.socket_manager).0;
          };
        })
    closes :
        (s : ℕ) (error : ErrorCode)
        → Joint u (record u {
          system = record (u.system) {
            socket_manager = (close_socket s error u.system.socket_manager).0;
          };
        })
    connection_changes :
        (a : ℕ) (f : AnyConnection → AnyConnection)
        → Joint u (record u { manager = change_object lib a f u.manager })

  pub data JointReach (u : Whole) : Whole → Type 0 where
    here : JointReach u u
    next : {v x : Whole} → JointReach u v → Joint v x → JointReach u x
