-- ===== src/Manager/LifeTests.antt =====
-- A history of a program whose body callback calls a public method of its connection.
use curlion.Common.{
  List, Bytes, inl, arith, ℕ, Bool, ◌≡◌, refl, true, false, some, [], ◌∷◌, codes, ◌==◌,
  if◌then◌else◌,
}
use curlion.Curl.{Reply, CurlCode, code, in_force, count}
use curlion.Connection.State.{Connection, Client, new, will_start, finish, did_finish}
use curlion.Connection.Calls.{Setting, url, write_body_callback, apply, apply_all}
use curlion.Connection.Callbacks.{
  Transfer, curl_write_body_callback, transfer, transfers, writes_body, start,
}
use curlion.Connection.Body.{write_body}
use curlion.Connection.Wiring.{new-IsWired}
use curlion.Connection.Public.{IsPublic, any_call}
use curlion.Connection.Tests.{silent, hello}
use curlion.Http.State.{HttpConnection, new_http, start_http}
use curlion.Http.Requests.{HttpSetting, new_http-IsHttpWired}
use curlion.Manager.Table.{find, Distinct}
use curlion.Manager.State.{
  World, plain, http, new_world, change_object, apply_any, map_base, base_of,
}
use curlion.Manager.Step.{start_connection, run_callbacks}
use curlion.Manager.Obeys.{Obeys}
use curlion.Manager.Registered.{runs}
use curlion.Manager.Wired.{IsAnyWired}
use curlion.Manager.Run.{Step}
use curlion.Manager.Life.{Live, Lives, here, next}
use curlion.Manager.Ready.{IsAnyReady}
use curlion.Manager.Reads.{Lives-returns}
use curlion.Connection.Ready.{keeps_body}
use curlion.Manager.Sound.{Lives-new_world}
use curlion.Manager.Example.{library, library-SocketLaws, objects, restart, fresh, started}

-- The body callback sets another URL.
abbrev moving : Client
moving = record silent { write_body = λ f c body. (apply (url body) c, true) }

moving-IsPublic :
    (allowed : Setting → Bool)
    → ((text : Bytes) → allowed (url text) ≡ true)
    → IsPublic allowed moving
unfolding apply_all
moving-IsPublic allowed can = record {
  read_body = λ f c n. ([], refl, refl);
  seek_body = λ f c origin offset. ([], refl, refl);
  write_header = λ f c header. ([], refl, refl);
  write_body = λ f c body. (url body ∷ [], rw (can body) refl, refl);
  progress = λ f c a b x y. ([], refl, refl);
  debug = λ f c type bytes. ([], refl, refl);
  finished = λ f c. ([], refl, refl);
}

if-IsAnyWired : (b : Bool) → IsAnyWired (if b then http new_http else plain hello)
unfolding new in_force
if-IsAnyWired true = new_http-IsHttpWired
if-IsAnyWired false = let w = new-IsWired in record { installed = w.installed; owned = w.owned }

objects-IsAnyWired : (a : ℕ) → IsAnyWired (objects a).state
objects-IsAnyWired a = if-IsAnyWired (a == 2)

abbrev with_callback : World library
with_callback =
    change_object library 1 (apply_any (HttpSetting.plain (write_body_callback (some 4)))) started

abbrev base_1 : Connection
base_1 = base_of (with_callback.objects 1).state

abbrev moved_1 : Connection
moved_1 = apply (url (codes "http://b")) base_1

abbrev moved : World library
moved = change_object library 1 (map_base (λ old. moved_1)) with_callback

base_1-runs : runs with_callback.objects 1 ≡ true
unfolding change_object apply_any start_connection base_of find new_world run_callbacks will_start
base_1-runs = refl

base_1-moves :
    transfer moving base_1 (writes_body (codes "http://b") 1 8) ≡ some (moved_1, count 8, [])
unfolding transfer curl_write_body_callback apply write_body base_of change_object apply_any
    start_connection find new_world run_callbacks
base_1-moves = refl

abbrev moved-Lives : Lives library restart moving fresh moved
moved-Lives =
    next
      (next (next here (Live.manages (Step.starts 1)))
        (Live.configured 1 (HttpSetting.plain (write_body_callback (some 4)))))
      (Live.transferred 1 (writes_body (codes "http://b") 1 8) moved_1 (count 8) [] base_1-runs
        base_1-moves)

-- The connection at 3 is then performed, with no call of libcurl's.
abbrev final : World library
final = change_object library 3 (λ old. plain (finish (will_start hello) (code 0))) moved

hello_3 : (moved.objects 3).state ≡ plain hello
unfolding change_object start_connection find new_world run_callbacks
hello_3 = refl

hello-start : start moving hello [] (code 0) ≡ some (finish (will_start hello) (code 0))
unfolding start did_finish new will_start transfers
hello-start = refl

Lives-new_world_example :
    Obeys final.effects
    × Distinct final.running_connections
    × ((e a : ℕ)
        → find e final.running_connections ≡ some a
        → ((final.objects a).easy ≡ e) × (runs final.objects a ≡ true))
    × ((a : ℕ) → IsAnyWired (final.objects a).state)
Lives-new_world_example =
    Lives-new_world library moving (moving-IsPublic any_call (λ text. refl)) restart
      library-SocketLaws true objects final objects-IsAnyWired
      (next moved-Lives (
        Live.performs 3 [] (code 0) hello (finish (will_start hello) (code 0)) hello_3 hello-start))

if-IsAnyReady : (b : Bool) → IsAnyReady (if b then http new_http else plain hello)
unfolding new new_http base_of
if-IsAnyReady true = record { fits = omega arith; within = λ runs. absurd (cc) }
if-IsAnyReady false = record { fits = omega arith; within = λ runs. absurd (cc) }

Lives-returns_example :
    ((a : ℕ) (t : Transfer)
      → runs moved.objects a ≡ true
      → (out : Connection × Reply × Bytes) × (transfer moving (base_of (moved.objects a).state) t
          ≡ some out))
    × ((a : ℕ) (c : Connection) (ts : List Transfer) (result : CurlCode)
        → (moved.objects a).state ≡ plain c
        → (c' : Connection) × (start moving c ts result ≡ some c'))
    × ((a : ℕ) (h : HttpConnection) (ts : List Transfer) (result : CurlCode)
        → (moved.objects a).state ≡ http h
        → (h' : HttpConnection) × (start_http moving h ts result ≡ some h'))
Lives-returns_example =
    Lives-returns library moving (moving-IsPublic keeps_body (λ text. refl)) restart (λ f a w. refl)
      true objects moved (λ a. if-IsAnyReady (a == 2)) moved-Lives (((tt, tt), inl refl), tt)
