-- ===== src/Connection/Ready.antt =====
-- When libcurl's calls cannot read out of bounds: the read position of a running connection lies in its
-- body, unless `SetRequestBody` is called while it runs.
use curlion.Common.{
  ℕ, ◌≡◌, ◌≤◌, ◌<◌, refl, ◌∙◌, Bool, true, false, none, some, List, [], ◌∷◌, Bytes, length, arith,
  size_mod, if◌then◌else◌, Bool-cases, Option-cases, inl, inr, size_mul,
}
use curlion.Curl.{Reply, count, readfunc_abort, CurlCode}
use curlion.Connection.State.{Connection, Client, will_start, finish, did_finish, reset_options}
use curlion.Connection.Calls.{Setting, request_body, debug_callback, options_reset, apply}
use curlion.Connection.Body.{Read, read_body}
use curlion.Connection.Callbacks.{
  Transfer, reads, seeks, writes_header, writes_body, progresses, debugs, reports_error, transfer,
  transfers, transfers-cons, start, curl_read_body_callback,
}
use curlion.Connection.Reading.{BodyIsSound, curl_read_body_callback_lem}
use curlion.Connection.Public.{IsPublic, IsKept, is_running-IsKept}
use curlion.Connection.Keeping.{transfer-kept}
use curlion.Connection.Lifecycle.{running_ignores}
use curlion.Connection.Starting.{start_idle}

pub record IsReady (c : Connection) : Type 0 where
  pub fits : length c.request_body < size_mod
  pub within : c.is_running ≡ true → c.request_body_read_length ≤ length c.request_body

abbrev pub keeps_body : Setting → Bool
keeps_body (request_body body) = false
keeps_body s = true

if-IsReady : (b : Bool) (x y : Connection) → IsReady x → IsReady y → IsReady (if b then x else y)
if-IsReady true x y i j = i
if-IsReady false x y i j = j

pub reset_options-IsReady : (c : Connection) → IsReady c → IsReady (reset_options c)
unfolding reset_options
reset_options-IsReady c i =
    if-IsReady c.is_running c _ i (record { fits = omega arith; within = λ runs. omega arith })

pub apply-IsReady :
    (s : Setting) (c : Connection) → keeps_body s ≡ true → IsReady c → IsReady (apply s c)
unfolding apply
apply-IsReady (request_body body) c ok i = absurd (cc)
apply-IsReady options_reset c ok i = reset_options-IsReady c i
apply-IsReady (debug_callback none) c ok i = record { fits = i.fits; within = i.within }
apply-IsReady (debug_callback (some f)) c ok i = record { fits = i.fits; within = i.within }
apply-IsReady _ c ok i = record { fits = i.fits; within = i.within }

pub IsReady-IsKept : IsKept keeps_body IsReady
IsReady-IsKept = record {
  settings = apply-IsReady;
  received = λ c at message header body within i. record {
    fits = i.fits;
    within = λ runs. within (record { within = i.within runs; fits = i.fits });
  };
}

-- Before a start the position does not matter.
pub will_start-IsReady :
    (c : Connection) → length c.request_body < size_mod → IsReady (will_start c)
unfolding will_start
will_start-IsReady c fits = record { fits = fits; within = λ runs. omega arith }

pub finish-IsReady : (c : Connection) (result : CurlCode) → IsReady c → IsReady (finish c result)
unfolding finish
finish-IsReady c result i = record { fits = i.fits; within = λ runs. absurd (cc) }

-- Each call that libcurl makes on a running connection returns.
read-returns :
    (client : Client) (c : Connection) (size nitems : ℕ)
    → BodyIsSound c
    → (out : Connection × Reply × Bytes) × (curl_read_body_callback client c size nitems ≡ some out)
unfolding curl_read_body_callback read_body
read-returns client c size nitems s = elim (Option-cases c.read_body_callback) [
  | inl own ↦ (_, curl_read_body_callback_lem client c size nitems own s)
  | inr (f, its) ↦
      let (c', is_succeeded, bytes, actual_length) = client.read_body f c (size_mul size nitems) in
      let r : Read = record {
        connection = c';
        is_succeeded = is_succeeded;
        body = bytes;
        actual_length = actual_length;
      } in
      let run : read_body client c (size_mul size nitems) ≡ some r = ground (arith, its) in
      (
        (c', (if is_succeeded then count actual_length else readfunc_abort), bytes),
        rw (run, curl_read_body_callback) refl,
      )
]

pub transfer-returns :
    (client : Client) (c : Connection) (t : Transfer)
    → BodyIsSound c
    → (out : Connection × Reply × Bytes) × (transfer client c t ≡ some out)
unfolding transfer
transfer-returns client c (reads size nitems) s = read-returns client c size nitems s
transfer-returns client c (seeks offset origin) s = (_, refl)
transfer-returns client c (writes_header buffer size nitems) s = (_, refl)
transfer-returns client c (writes_body buffer size nmemb) s = (_, refl)
transfer-returns client c (progresses a b x y) s = (_, refl)
transfer-returns client c (debugs type bytes) s = (_, refl)
transfer-returns client c (reports_error message) s = (_, refl)

module _ (client : Client) (public : IsPublic keeps_body client) where
  pub transfers-returns :
      (c : Connection) (ts : List Transfer)
      → c.is_running ≡ true
      → IsReady c
      → (c' : Connection) × (answers : List (Reply × Bytes)) × (transfers client c ts
          ≡ some (c', answers))
  unfolding transfers
  transfers-returns c [] running i = (c, [], refl)
  transfers-returns c (t ∷ ts) running i =
      let ((d, reply, bytes), first) =
        transfer-returns client c t (record { within = i.within running; fits = i.fits }) in
      let j =
        transfer-kept client keeps_body public IsReady IsReady-IsKept c t d reply bytes first i in
      let still =
        transfer-kept client keeps_body public (λ x. x.is_running ≡ true)
          (is_running-IsKept keeps_body true) c t d reply bytes first running in
      let (c', answers, rest) = transfers-returns d ts still j in
      (c', (reply, bytes) ∷ answers, transfers-cons client c t ts first rest)

  -- A blocking start ends.
  pub start-returns :
      (c : Connection) (ts : List Transfer) (result : CurlCode)
      → IsReady c
      → (c' : Connection) × (start client c ts result ≡ some c')
  unfolding will_start
  start-returns c ts result i = elim (Bool-cases c.is_running) [
    | inl running ↦ (c, (running_ignores client c ts result running).0)
    | inr idle ↦
        let (d, answers, run) =
          transfers-returns (will_start c) ts refl (will_start-IsReady c i.fits) in
        (did_finish client d result, start_idle client c ts result idle ∙ rw run refl)
  ]
