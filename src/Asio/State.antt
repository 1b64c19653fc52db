-- ===== src/Asio/State.antt =====
-- example/asio.cpp: the members of `AsioSocketManager` and `AsioSingleSocketWatcher`, and what passes
-- between them and boost::asio.
use curlion.Common.{ℕ, Bool, Option, none, List, [], ◌∷◌, ◌==◌, if◌then◌else◌}
use curlion.Manager.Table.{Table}
use curlion.Manager.State.{Event}

-- `boost::system::error_code`.
pub data ErrorCode : Type 0 where
  success operation_aborted : ErrorCode
  failure : ℕ → ErrorCode

-- The calls on an asio socket, by its address, those of the user's callbacks, and the completions
-- that asio reports. A wait has the watcher's address in its handler; an event callback is called
-- with the native handle, which is `none` for a closed socket.
pub data Io : Type 0 where
  async_read_some async_write_some : ℕ → ℕ → Io
  cancel close : ℕ → Io
  event : ℕ → Option ℕ → Bool → Io
  completed : ℕ → Bool → ErrorCode → Io

-- `AsioSingleSocketWatcher`; an `EventCallback` is known by a number.
pub record Watcher : Type 0 where
  pub socket : ℕ
  pub event : Event
  pub callback : ℕ
  pub is_stopped : Bool

-- `AsioSocketManager` with the objects that its pointers refer to: the asio sockets with their native
-- handles while they are open, and the watchers, which a wait keeps alive. New objects stand at the
-- next addresses. The latest of `io` stands first.
pub record SocketManager : Type 0 where
  pub sockets : Table
  pub watchers : Table
  pub asio_sockets : ℕ → Option ℕ
  pub single_watchers : ℕ → Watcher
  pub next_socket : ℕ
  pub next_watcher : ℕ
  pub io : List Io

unfoldable pub new_socket_manager : (ℕ → Watcher) → SocketManager
new_socket_manager memory = record {
  sockets = [];
  watchers = [];
  asio_sockets = λ a. none;
  single_watchers = memory;
  next_socket = 0;
  next_watcher = 0;
  io = [];
}

abbrev pub emit : Io → SocketManager → SocketManager
emit e m = record m { io = e ∷ m.io }

-- An object with another value.
abbrev pub update {ℓ} : {A : Type ℓ} → (ℕ → A) → ℕ → A → ℕ → A
update f a x b = if a == b then x else f b
