-- ===== src/Asio/Main.antt =====
-- example/asio.cpp: the request that `main` makes, and what its finished callback prints.
use curlion.Common.{
  ℕ, ◌<◌, ◌≡◌, refl, ap, ◌∙◌, subst, sym, Bool, true, false, none, some, List, [], ◌∷◌, ◌++◌, Bytes,
  ℤ, codes, length, ◌==◌, if◌then◌else◌, arith, size_mod,
}
use curlion.Curl.{CurlCode, curl_last, code}
use curlion.Connection.State.{Connection, Client, new}
use curlion.Connection.Options.{set_url, set_verbose, set_finished_callback}
use curlion.Connection.Callbacks.{Transfer}
use curlion.Connection.Quiet.{IsQuiet, headers_of, bodies_of}
use curlion.Http.State.{HttpConnection, new_http, on_base}
use curlion.Manager.Table.{find}
use curlion.Manager.State.{MultiLibrary, World, Handlers, Message, Object, http, base_of, new_world}
use curlion.Manager.Step.{start_connection, run_requests, handle_message}
use curlion.Manager.Registered.{Consistent}
use curlion.Manager.Finishing.{ended, notified}
use curlion.Manager.Request.{Progress, start_connection-handle_message}

-- A line that the program prints: a response code, a text, or the failure with its code.
pub data Line : Type 0 where
  response_code : ℤ → Line
  text : Bytes → Line
  failed : CurlCode → Line

-- `work`, which keeps `io_service.run()` from returning, and what was printed.
pub record Screen : Type 0 where
  pub has_work : Bool
  pub printed : List Line

unfoldable pub request_connection : HttpConnection
unfolding new_http on_base set_url set_verbose set_finished_callback
request_connection =
    on_base (set_finished_callback (some 0))
      (on_base (set_verbose true) (on_base (set_url (codes "http://www.bing.com")) new_http))

is_ok : CurlCode → Bool
is_ok curl_last = false
is_ok (code n) = n == 0

-- The finished callback. `GetResponseCode` asks libcurl, whose answer is an argument.
pub print_response : ℤ → Connection → Screen → Screen
unfolding is_ok
print_response answer c screen = record {
  has_work = false;
  printed =
      screen.printed
      ++ (if is_ok c.result
          then response_code answer ∷ text c.response_header ∷ text c.response_body ∷ []
          else failed c.result ∷ []);
}

-- What the screen shows once the finished callback that a connection has, if any, is called on it.
unfoldable pub call_finished : ℤ → Connection → Screen → Screen
call_finished answer c screen = elim c.finished_callback [
  | none ↦ screen
  | some f ↦ print_response answer c screen
]

abbrev pub expected : ℤ → ℕ → List Transfer → List Line
expected answer result ts =
    if result == 0
    then response_code answer ∷ text (headers_of ts) ∷ text (bodies_of ts) ∷ []
    else failed (code result) ∷ []

call_finished_lem :
    (answer : ℤ) (result f : ℕ) (ts : List Transfer) (c : Connection) (screen : Screen)
    → c.finished_callback ≡ some f
    → c.result ≡ code result
    → c.response_header ≡ headers_of ts
    → c.response_body ≡ bodies_of ts
    → call_finished answer c screen
      ≡ record { has_work = false; printed = screen.printed ++ expected answer result ts }
unfolding call_finished print_response is_ok
call_finished_lem answer result f ts c screen callback ended header body =
    rw (callback, ended, header, body)

module _ (lib : MultiLibrary) (client : Client) (handlers : Handlers lib) where
  -- The program's connection at an address, before a new manager starts it; libcurl accepts the
  -- handle. Whatever calls `ts` libcurl makes on it from then on, and whatever else happens meanwhile
  -- that leaves it alone: when a message says that its transfer is done, in a consistent world where
  -- it is registered for the message's handle, it is unregistered, and then its finished callback,
  -- which has the number 0, is called once, whatever that callback may ask of the manager. On the
  -- connection as it then is, the callback that it has prints the response code and exactly the
  -- header and the body of this transfer, if it succeeded, and libcurl's code if not, and drops the
  -- `work` that keeps `io_service.run()` from returning.
  pub call_finished-handle_message :
      (objects : ℕ → Object) (a : ℕ) (u : World lib) (ts : List Transfer) (msg : Message)
      (answer : ℤ) (screen : Screen)
      → (objects a).state ≡ http request_connection
      → (lib.add_handle (objects a).easy lib.multi_init).1 ≡ 0
      → Progress lib client a (start_connection lib a (new_world lib true objects)).0 ts u
      → Consistent lib u
      → msg.is_done ≡ true
      → find msg.easy_handle u.running_connections ≡ some a
      → let v = ended lib handlers msg a u in
        (handle_message lib handlers msg u ≡ run_requests lib (handlers 0 a v) v)
        × (find (v.objects a).easy v.running_connections ≡ none)
        × (call_finished answer (base_of (v.objects a).state) screen ≡ record {
          has_work = false;
          printed = screen.printed ++ expected answer msg.result ts;
        })
  unfolding new_world find run_requests request_connection base_of new_http on_base new
  call_finished-handle_message objects a u ts msg answer screen ours accepted p consistent done
        found =
      let w = new_world lib true objects in
      let quiet : IsQuiet (base_of (http request_connection)) = record {
        no_read = refl;
        no_header = refl;
        no_body = refl;
        no_progress = refl;
        no_debug = refl;
      } in
      let (handled, gone, idle, result, header, body, callback) =
        start_connection-handle_message lib handlers client a w u ts msg refl accepted
          (subst (λ o. IsQuiet (base_of o)) (sym ours) quiet)
          (subst (λ o. length (base_of o).request_body < size_mod) (sym ours) (omega arith)) p
          consistent done found in
      let v = ended lib handlers msg a u in
      (
        handled ∙ ap (λ o. notified lib handlers (base_of o).finished_callback a v) ours,
        gone,
        call_finished_lem answer msg.result 0 ts _ screen
            (callback ∙ ap (λ o. (base_of o).finished_callback) ours) result header body,
      )
