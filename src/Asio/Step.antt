-- ===== src/Asio/Step.antt =====
-- example/asio.cpp: the methods of `AsioSingleSocketWatcher` and `AsioSocketManager`.
use curlion.Common.{
  ℕ, suc, Bool, true, false, Option, none, some, List, [], ◌∷◌, ◌==◌, if◌then◌else◌,
}
use curlion.Manager.Table.{find, insert, erase}
use curlion.Manager.State.{Event, read, write, read_write}
use curlion.Asio.State.{
  ErrorCode, success, operation_aborted, failure, async_read_some, async_write_some, cancel, close,
  event, completed, SocketManager, emit, update,
}

-- `watch_read_event` and `watch_write_event`.
abbrev pub watches_read : Event → Bool
watches_read read = true
watches_read write = false
watches_read read_write = true

abbrev pub watches_write : Event → Bool
watches_write read = false
watches_write write = true
watches_write read_write = true

-- `AsioSingleSocketWatcher::Watch`.
unfoldable pub watch_once : ℕ → SocketManager → SocketManager
watch_once w m =
    let s = (m.single_watchers w).socket in
    let e = (m.single_watchers w).event in
    let reading = if watches_read e then emit (async_read_some s w) m else m in
    if watches_write e then emit (async_write_some s w) reading else reading

-- `AsioSingleSocketWatcher::Start`.
unfoldable pub start : ℕ → SocketManager → SocketManager
unfolding watch_once
start w m = watch_once w m

-- `AsioSingleSocketWatcher::Stop`.
unfoldable pub stop : ℕ → SocketManager → SocketManager
stop w m =
    let watcher = m.single_watchers w in
    let stopped = record m {
      single_watchers = update m.single_watchers w (record watcher { is_stopped = true });
    } in
    elim (m.asio_sockets watcher.socket) [
      | none ↦ stopped
      | some handle ↦ emit (cancel watcher.socket) stopped
    ]

-- `curlsocktype`, and the address family `AF_INET`.
pub data SocketType : Type 0 where
  ipcxn accept : SocketType

abbrev af_inet : ℕ
af_inet = 2

abbrev is_supported : SocketType → ℕ → Bool
is_supported ipcxn family = family == af_inet
is_supported accept family = false

-- `AsioSocketManager::Open`. `opened` is the native handle of the new asio socket, or `none` if asio
-- reports an error.
unfoldable pub open_socket : SocketType → ℕ → Option ℕ → SocketManager → SocketManager × Option ℕ
open_socket socket_type family none m = (m, none)
open_socket socket_type family (some handle) m =
    if is_supported socket_type family
    then (
      record m {
        sockets = insert handle m.next_socket m.sockets;
        asio_sockets = update m.asio_sockets m.next_socket (some handle);
        next_socket = suc m.next_socket;
      },
      some handle,
    )
    else (m, none)

-- `AsioSocketManager::Close`. The error is asio's; the asio socket is closed with it, too.
unfoldable pub close_socket : ℕ → ErrorCode → SocketManager → SocketManager × Bool
close_socket s error m = elim (find s m.sockets) [
  | none ↦ (m, false)
  | some a ↦ (
    emit (close a)
        (record m { sockets = erase s m.sockets; asio_sockets = update m.asio_sockets a none }),
    elim error [ success ↦ true | _ ↦ false ],
  )
]

-- `AsioSocketManager::Watch`.
unfoldable pub watch : ℕ → Event → ℕ → SocketManager → SocketManager
unfolding start
watch s e callback m = elim (find s m.sockets) [
  | none ↦ m
  | some a ↦
      let w = m.next_watcher in
      let made = record m {
        single_watchers =
            update m.single_watchers w
              (record { socket = a; event = e; callback = callback; is_stopped = false });
        next_watcher = suc w;
      } in
      let started = start w made in record started { watchers = insert s w started.watchers }
]

-- `AsioSocketManager::StopWatching`.
unfoldable pub stop_watching : ℕ → SocketManager → SocketManager
unfolding stop
stop_watching s m = elim (find s m.watchers) [
  | none ↦ m
  | some w ↦ let stopped = stop w m in record stopped { watchers = erase s stopped.watchers }
]

-- What an event callback asks of the socket manager.
pub data Action : Type 0 where
  opens : SocketType → ℕ → Option ℕ → Action
  closes : ℕ → ErrorCode → Action
  watches : ℕ → Event → ℕ → Action
  stops : ℕ → Action

unfoldable pub run_action : Action → SocketManager → SocketManager
unfolding open_socket close_socket watch stop_watching
run_action (opens socket_type family opened) m = (open_socket socket_type family opened m).0
run_action (closes s error) m = (close_socket s error m).0
run_action (watches s e callback) m = watch s e callback m
run_action (stops s) m = stop_watching s m

unfoldable pub run_actions : List Action → SocketManager → SocketManager
unfolding run_action
run_actions [] m = m
run_actions (a ∷ as') m = run_actions as' (run_action a m)

-- What the event callbacks do: each has a number, and is called with a handle and the kind of event.
abbrev pub Callbacks : Type 0
Callbacks = ℕ → Option ℕ → Bool → SocketManager → List Action

abbrev pub is_aborted : ErrorCode → Bool
is_aborted operation_aborted = true
is_aborted success = false
is_aborted (failure n) = false

-- The call of the user's event callback, and what the callback then asks for.
abbrev pub announced : ℕ → Bool → SocketManager → SocketManager
announced w can_write m =
    let watcher = m.single_watchers w in
    emit (event watcher.callback (m.asio_sockets watcher.socket) can_write) m

abbrev pub asked : Callbacks → ℕ → Bool → SocketManager → List Action
asked callbacks w can_write m =
    let watcher = m.single_watchers w in
    callbacks watcher.callback (m.asio_sockets watcher.socket) can_write (announced w can_write m)

module _ (callbacks : Callbacks) where
  -- The callback's part of `EventTriggered`.
  unfoldable pub call_back : ℕ → Bool → SocketManager → SocketManager
  unfolding run_actions
  call_back w can_write m = run_actions (asked callbacks w can_write m) (announced w can_write m)

  -- `AsioSingleSocketWatcher::EventTriggered`.
  unfoldable pub event_triggered : ℕ → Bool → ErrorCode → SocketManager → SocketManager
  unfolding call_back watch_once
  event_triggered w can_write error m =
      let after = call_back w can_write m in
      if is_aborted error
      then m
      else if (after.single_watchers w).is_stopped
      then after
      else watch_once w after

  -- asio runs the handler of a wait.
  unfoldable pub complete : ℕ → Bool → ErrorCode → SocketManager → SocketManager
  unfolding event_triggered
  complete w can_write error m =
      event_triggered w can_write error (emit (completed w can_write error) m)
