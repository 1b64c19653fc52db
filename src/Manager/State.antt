-- ===== src/Manager/State.antt =====
-- The state of a `ConnectionManager`, the connections that it refers to, and the parts of libcurl's
-- multi interface that it calls.
use curlion.Common.{ℕ, Bool, true, false, Option, List, [], ℤ, ◌==◌, if◌then◌else◌}
use curlion.Curl.{CurlOption, null, this, function, StaticFunction}
use curlion.Connection.State.{Connection, will_start, reset_options}
use curlion.Connection.Calls.{apply}
use curlion.Connection.Options.{set_option}
use curlion.Http.State.{HttpConnection, on_base, will_start_http}
use curlion.Http.Requests.{HttpSetting, http_options_reset, apply_http}
use curlion.Manager.Table.{Table}

-- `CURL_POLL_IN` and so on; `other` is any other action.
pub data Poll : Type 0 where
  poll_in poll_out poll_inout poll_remove : Poll
  other : ℕ → Poll

-- The `ev_bitmask` of `curl_multi_socket_action`.
pub data Select : Type 0 where
  select_none select_in select_out : Select

-- `SocketWatcher::Event`.
pub data Event : Type 0 where
  read write read_write : Event

-- The calls that libcurl makes on the manager from within a call of the multi interface.
pub data Callback : Type 0 where
  timer : ℤ → Callback
  socket : ℕ → Poll → Callback

-- `CURLMsg`: whether it is `CURLMSG_DONE`, and the transfer's handle and code.
pub record Message : Type 0 where
  pub is_done : Bool
  pub easy_handle : ℕ
  pub result : ℕ

-- libcurl's multi interface. A function returns the new multi handle, its result, and the calls
-- that it makes on the manager meanwhile. `none` is `CURL_SOCKET_TIMEOUT`. `socketp` says whether
-- the pointer that libcurl keeps for a socket is the manager's tag; `forget` is what libcurl does
-- with it behind a callback for `CURL_POLL_REMOVE`.
pub record MultiLibrary : Type 1 where
  pub Multi : Type 0
  pub multi_init : Multi
  pub add_handle : ℕ → Multi → Multi × ℕ × List Callback
  pub remove_handle : ℕ → Multi → Multi × ℕ × List Callback
  pub socket_action : Option ℕ → Select → Multi → Multi × List Callback
  pub info_read : Multi → Multi × Option Message
  pub assign : ℕ → Multi → Multi
  pub forget : ℕ → Multi → Multi
  pub socketp : Multi → ℕ → Bool

-- The calls that the manager makes on its `Timer` and its `SocketWatcher`.
pub data Effect : Type 0 where
  timer_start : ℤ → Effect
  timer_stop : Effect
  watch : ℕ → Event → Effect
  stop_watching : ℕ → Effect

-- A connection object: its easy handle, and its state by its class.
pub data AnyConnection : Type 0 where
  plain : Connection → AnyConnection
  http : HttpConnection → AnyConnection

pub record Object : Type 0 where
  pub easy : ℕ
  pub state : AnyConnection

unfoldable pub base_of : AnyConnection → Connection
base_of (plain c) = c
base_of (http h) = h.base

unfoldable pub map_base : (Connection → Connection) → AnyConnection → AnyConnection
unfolding on_base
map_base f (plain c) = plain (f c)
map_base f (http h) = http (on_base f h)

-- `WillStart`, with the virtual call that it makes.
unfoldable pub will_start_any : AnyConnection → AnyConnection
will_start_any (plain c) = plain (will_start c)
will_start_any (http h) = http (will_start_http h)

-- What `StartConnection` sets on the easy handle, with a socket factory and without one.
unfoldable pub set_socket_options : Bool → Connection → Connection
unfolding set_option
set_socket_options true c = set_option CurlOption.closesocket_data this (
    set_option CurlOption.closesocket_function (function StaticFunction.curl_close_socket_callback)
      (set_option CurlOption.opensocket_data this (
        set_option CurlOption.opensocket_function
          (function StaticFunction.curl_open_socket_callback) c)))
set_socket_options false c =
    set_option CurlOption.closesocket_function null
      (set_option CurlOption.opensocket_function null c)

-- A public call on an object; a `Connection` has only the methods of its class. `ResetOptions`
-- dispatches.
unfoldable pub base_setting : HttpSetting → Connection → Connection
unfolding apply reset_options
base_setting (HttpSetting.plain s) c = apply s c
base_setting http_options_reset c = reset_options c
base_setting _ c = c

unfoldable pub apply_any : HttpSetting → AnyConnection → AnyConnection
unfolding base_setting apply_http
apply_any s (plain c) = plain (base_setting s c)
apply_any s (http h) = http (apply_http s h)

-- What a finished callback does: it starts and aborts connections, and calls the public methods of
-- any of them.
pub data Request : Type 0 where
  starts aborts : ℕ → Request
  configures : ℕ → HttpSetting → Request

module _ (lib : MultiLibrary) where
  -- The manager with the objects of the program by their addresses, and the calls that it has made
  -- on its timer and its socket watcher, the latest first.
  pub record World : Type 0 where
    pub has_socket_factory : Bool
    pub multi_handle : lib.Multi
    pub running_connections : Table
    pub objects : ℕ → Object
    pub effects : List Effect

  -- What the finished callbacks of the user's do: each has a number, and is called with the
  -- connection's address.
  abbrev pub Handlers : Type 0
  Handlers = ℕ → ℕ → World → List Request

  -- The constructor.
  unfoldable pub new_world : Bool → (ℕ → Object) → World
  new_world has_socket_factory objects = record {
    has_socket_factory = has_socket_factory;
    multi_handle = lib.multi_init;
    running_connections = [];
    objects = objects;
    effects = [];
  }

  unfoldable pub change_object : ℕ → (AnyConnection → AnyConnection) → World → World
  change_object a f w = record w {
    objects = λ b.
        if a == b
        then record { easy = (w.objects b).easy; state = f (w.objects b).state }
        else w.objects b;
  }
