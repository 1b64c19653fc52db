-- ===== src/Manager/Life.antt =====
-- Histories of a whole program: the manager's steps, public calls on the connections, the calls that
-- libcurl makes on a running one, and blocking starts, in any order.
use curlion.Common.{ℕ, ◌≡◌, true, false, none, some, List, Bytes}
use curlion.Curl.{Reply, CurlCode}
use curlion.Connection.State.{Connection, Client}
use curlion.Connection.Callbacks.{Transfer, transfer, transfers, start}
use curlion.Http.State.{HttpConnection, will_start_http, start_http}
use curlion.Http.Requests.{HttpSetting}
use curlion.Manager.State.{
  MultiLibrary, plain, http, World, Handlers, base_of, map_base, apply_any, change_object,
}
use curlion.Manager.Registered.{runs}
use curlion.Manager.Run.{Step}

-- `performs_http` is of a connection that has no finished callback when its transfer ends.
pub data Live (lib : MultiLibrary) (handlers : Handlers lib) (client : Client) (w : World lib)
    : World lib → Type 0 where
  manages : {w' : World lib} → Step lib handlers w w' → Live lib handlers client w w'
  configured :
      (a : ℕ) (s : HttpSetting) → Live lib handlers client w (change_object lib a (apply_any s) w)
  transferred :
      (a : ℕ) (t : Transfer) (c : Connection) (reply : Reply) (bytes : Bytes)
      → runs w.objects a ≡ true
      → transfer client (base_of (w.objects a).state) t ≡ some (c, reply, bytes)
      → Live lib handlers client w (change_object lib a (map_base (λ old. c)) w)
  performs :
      (a : ℕ) (ts : List Transfer) (result : CurlCode) (c c' : Connection)
      → (w.objects a).state ≡ plain c
      → start client c ts result ≡ some c'
      → Live lib handlers client w (change_object lib a (λ old. plain c') w)
  performs_http :
      (a : ℕ) (ts : List Transfer) (result : CurlCode) (h h' : HttpConnection) (c : Connection)
      (answers : List (Reply × Bytes))
      → (w.objects a).state ≡ http h
      → h.is_running ≡ false
      → transfers client (will_start_http h).base ts ≡ some (c, answers)
      → c.finished_callback ≡ none
      → start_http client h ts result ≡ some h'
      → Live lib handlers client w (change_object lib a (λ old. http h') w)

pub data Lives (lib : MultiLibrary) (handlers : Handlers lib) (client : Client) (w : World lib)
    : World lib → Type 0 where
  here : Lives lib handlers client w w
  next :
      {u v : World lib}
      → Lives lib handlers client w u
      → Live lib handlers client u v
      → Lives lib handlers client w v
