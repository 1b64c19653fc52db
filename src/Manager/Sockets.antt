-- ===== src/Manager/Sockets.antt =====
-- connection_manager.cpp: opening and closing sockets through the `SocketFactory` (socket_factory.h).
use curlion.Common.{ℕ, ◌≡◌, Bool, not, Option, ◌==◌, if◌then◌else◌, arith}

-- The program's factory: `open` has `none` for `CURL_SOCKET_BAD`.
pub record SocketFactory : Type 0 where
  pub open_it : ℕ → ℕ → Option ℕ
  pub close_it : ℕ → Bool

unfoldable open_socket : SocketFactory → ℕ → ℕ → Option ℕ
open_socket factory socket_type address = factory.open_it socket_type address

pub close_socket : SocketFactory → ℕ → Bool
close_socket factory s = factory.close_it s

unfoldable curl_open_socket_callback : SocketFactory → ℕ → ℕ → Option ℕ
unfolding open_socket
curl_open_socket_callback factory socket_type address = open_socket factory socket_type address

-- The `bool` is returned as an `int`.
pub curl_close_socket_callback : SocketFactory → ℕ → ℕ
unfolding close_socket
curl_close_socket_callback factory s = if close_socket factory s then 1 else 0

-- libcurl documents 0 as the answer of a close callback that succeeded and 1 as that of one that
-- failed. The callback's answer says the opposite of what the factory reported, for every socket.
curl_close_socket_callback-not :
    (factory : SocketFactory) (s : ℕ)
    → (curl_close_socket_callback factory s == 0) ≡ not (close_socket factory s)
unfolding curl_close_socket_callback
curl_close_socket_callback-not factory s = ground arith
