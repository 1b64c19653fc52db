-- ===== src/Manager/Reads.antt =====
-- No call of libcurl's reads out of bounds, over every history of a whole program in which
-- `SetRequestBody` is not called on a running connection.
use curlion.Common.{
  ℕ, ◌<◌, ◌≡◌, ◌⊎◌, sym, ◌∙◌, subst, Bool, true, false, some, List, Bytes, length, size_mod,
  some_eq, inl, inr, refl, arith, Bool-cases,
}
use curlion.Curl.{Reply, CurlCode}
use curlion.Connection.State.{Connection, did_finish, Client}
use curlion.Connection.Calls.{request_body, apply}
use curlion.Connection.Options.{set_request_body}
use curlion.Connection.Callbacks.{Transfer, transfer, start}
use curlion.Connection.Public.{IsPublic}
use curlion.Connection.Keeping.{transfer-kept, transfers-kept}
use curlion.Connection.Starting.{start-kept}
use curlion.Connection.Ready.{
  IsReady, keeps_body, IsReady-IsKept, will_start-IsReady, finish-IsReady, transfer-returns,
  start-returns, transfers-returns,
}
use curlion.Http.State.{HttpConnection, start_http, will_start_http}
use curlion.Http.Requests.{HttpSetting, apply_http}
use curlion.Http.Kept.{start_http_silent}
use curlion.Manager.State.{
  MultiLibrary, AnyConnection, http, Object, World, Handlers, base_of, map_base, base_setting,
  apply_any, new_world,
}
use curlion.Manager.Every.{Asking, Every, change_object-Every}
use curlion.Manager.Registered.{runs}
use curlion.Manager.Ready.{
  IsAnyReady, keeps_any, will_start_http-IsReady, apply_any-IsAnyReady, IsAnyReady-IsMaintained,
}
use curlion.Manager.Request.{base_of-map_base}
use curlion.Manager.Run.{Step-Every}
use curlion.Manager.Life.{
  Live, manages, configured, transferred, performs, performs_http, Lives, here, next,
}

module _ (lib : MultiLibrary) (client : Client) (public : IsPublic keeps_body client)
    (handlers : Handlers lib) (asking : Asking lib keeps_any handlers) where
  -- `SetRequestBody` is called on a connection that does not run, with a body whose length is a
  -- `size_t`.
  abbrev SetsBody : World lib → ℕ → HttpSetting → Type 0
  SetsBody w a s =
      (runs w.objects a ≡ false)
      × ((body : Bytes) × (s ≡ HttpSetting.plain (request_body body)) × (length body < size_mod))

  abbrev pub IsCareful : {w w' : World lib} → Live lib handlers client w w' → Type 0
  IsCareful {w} (configured a s) = (keeps_any s ≡ true) ⊎ SetsBody w a s
  IsCareful step = Unit {0}

  abbrev pub AllCareful : {w w' : World lib} → Lives lib handlers client w w' → Type 0
  AllCareful here = Unit {0}
  AllCareful (next l step) = AllCareful l × IsCareful step

  set_body-IsAnyReady :
      (body : Bytes) (o : AnyConnection)
      → (base_of o).is_running ≡ false
      → length body < size_mod
      → IsAnyReady (apply_any (HttpSetting.plain (request_body body)) o)
  unfolding base_of apply_any base_setting apply apply_http set_request_body
  set_body-IsAnyReady body (AnyConnection.plain c) idle fits = record {
    fits = fits;
    within = λ runs. absurd (cc);
  }
  set_body-IsAnyReady body (http h) idle fits = record { fits = fits; within = λ runs. absurd (cc) }

  transferred-IsReady :
      (c : Connection) (t : Transfer) (c' : Connection) (reply : Reply) (bytes : Bytes)
      → transfer client c t ≡ some (c', reply, bytes)
      → IsReady c
      → IsReady c'
  transferred-IsReady c t c' reply bytes e i =
      transfer-kept client keeps_body public IsReady IsReady-IsKept c t c' reply bytes e i

  Live-Every :
      {w w' : World lib}
      → (step : Live lib handlers client w w') → IsCareful step
      → Every lib IsAnyReady w
      → Every lib IsAnyReady w'
  unfolding base_of
  Live-Every (manages step) ok i =
      Step-Every lib handlers keeps_any IsAnyReady (IsAnyReady-IsMaintained lib) asking step i
  Live-Every {w} (configured a s) (inl ok) i =
      change_object-Every lib IsAnyReady a (apply_any s) w (apply_any-IsAnyReady s _ ok (i a)) i
  Live-Every {w} (configured a s) (inr (idle, (body, is, fits))) i =
      change_object-Every lib IsAnyReady a (apply_any s) w
        (subst (λ x. IsAnyReady (apply_any x (w.objects a).state)) (sym is)
          (set_body-IsAnyReady body _ idle fits))
        i
  Live-Every {w} (transferred a t c reply bytes running e) ok i =
      change_object-Every lib IsAnyReady a (map_base (λ old. c)) w
        (subst IsReady (sym (base_of-map_base c (w.objects a).state))
          (transferred-IsReady _ t c reply bytes e (i a)))
        i
  Live-Every {w} (performs a ts result c c' is e) ok i =
      let ended =
        (start-kept keeps_body client public IsReady IsReady-IsKept
          (λ d j. will_start-IsReady d j.fits) finish-IsReady c ts result c' e
          (subst IsAnyReady is (i a))).0 in
      change_object-Every lib IsAnyReady a (λ old. AnyConnection.plain c') w ended i
  Live-Every {w} (performs_http a ts result h h' c answers is idle run silent e) ok i =
      let ended =
        some_eq (sym (start_http_silent client h ts result c answers idle run silent) ∙ e) in
      let before : IsReady h.base = subst IsAnyReady is (i a) in
      let started : IsReady (will_start_http h).base = will_start_http-IsReady h before in
      let after =
        transfers-kept client keeps_body public IsReady IsReady-IsKept (will_start_http h).base ts c
          answers run started in
      change_object-Every lib IsAnyReady a (λ old. http h') w
        (subst (λ x. IsReady x.base) ended (finish-IsReady c result after)) i

  Lives-Every :
      {w w' : World lib}
      → (l : Lives lib handlers client w w') → AllCareful l
      → Every lib IsAnyReady w
      → Every lib IsAnyReady w'
  Lives-Every here ok i = i
  Lives-Every (next l step) (oks, ok) i = Live-Every step ok (Lives-Every l oks i)

  start_http-returns :
      (h : HttpConnection) (ts : List Transfer) (result : CurlCode)
      → IsReady h.base
      → (h' : HttpConnection) × (start_http client h ts result ≡ some h')
  unfolding start_http will_start_http
  start_http-returns h ts result i = elim (Bool-cases h.is_running) [
    | inl running ↦ (h, ground (arith, running))
    | inr idle ↦
        let (d, answers, run) =
          transfers-returns client public (will_start_http h).base ts refl
            (will_start_http-IsReady h i) in
        (
          record (will_start_http h) { base = did_finish client d result },
          ground (arith, idle, run),
        )
  ]

  -- A new manager, and connections with bodies whose lengths are `size_t`s that do not run. After any
  -- history of the program, as in `Live`, in which `SetRequestBody` is called only on connections that
  -- do not run, with a body whose length is a `size_t`, and not by callbacks: each call that libcurl
  -- can make on a running connection returns, so `ReadBody` never copies from beyond the body, and
  -- each blocking start ends.
  pub Lives-returns :
      (factory : Bool) (objects : ℕ → Object) (w : World lib)
      → ((a : ℕ) → IsAnyReady (objects a).state)
      → (l : Lives lib handlers client (new_world lib factory objects) w) → AllCareful l
      → ((a : ℕ) (t : Transfer)
          → runs w.objects a ≡ true
          → (out : Connection × Reply × Bytes) × (transfer client (base_of (w.objects a).state) t
              ≡ some out))
        × ((a : ℕ) (c : Connection) (ts : List Transfer) (result : CurlCode)
            → (w.objects a).state ≡ AnyConnection.plain c
            → (c' : Connection) × (start client c ts result ≡ some c'))
        × ((a : ℕ) (h : HttpConnection) (ts : List Transfer) (result : CurlCode)
            → (w.objects a).state ≡ http h
            → (h' : HttpConnection) × (start_http client h ts result ≡ some h'))
  unfolding new_world base_of
  Lives-returns factory objects w ready l careful =
      let i = Lives-Every l careful ready in
      (
        λ a t running.
            transfer-returns client _ t
              (record { within = (i a).within running; fits = (i a).fits }),
        λ a c ts result is. start-returns client public c ts result (subst IsAnyReady is (i a)),
        λ a h ts result is. start_http-returns h ts result (subst IsAnyReady is (i a)),
      )
