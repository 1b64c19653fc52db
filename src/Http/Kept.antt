-- ===== src/Http/Kept.antt =====
-- What stays true of an HTTP connection's base through a transfer: while it runs, no public call of
-- the base class takes its header list or its form from libcurl.
use curlion.Common.{
  Bytes, Bool, ◌≡◌, refl, sym, ap, ◌∙◌, subst, true, false, Option, none, some, List, [], arith,
  some_eq, ◌⊎◌,
}
use curlion.Curl.{Reply, CurlOption, OptionValue, slist, in_force, CurlCode}
use curlion.Connection.State.{Connection, Client, finish, did_finish}
use curlion.Connection.Calls.{Setting, debug_callback, options_reset, apply}
use curlion.Connection.Callbacks.{Transfer, transfers}
use curlion.Connection.Running.{apply-is_running}
use curlion.Connection.Wiring.{IsWired, running_ignored, apply-IsWired}
use curlion.Connection.Public.{IsPublic, IsKept}
use curlion.Connection.Keeping.{transfers-kept}
use curlion.Http.State.{HttpConnection, form_value, start_http, will_start_http}
use curlion.Http.Requests.{IsHttpWired}

-- A running connection is wired, and libcurl has these values for the headers and the form.
pub record IsLent (headers form : Option OptionValue) (c : Connection) : Type 0 where
  pub wired : IsWired c
  pub running : c.is_running ≡ true
  pub same_headers : in_force CurlOption.httpheader c.handle ≡ headers
  pub same_form : in_force CurlOption.httppost c.handle ≡ form

apply-httpheader :
    (s : Setting) (c : Connection)
    → c.is_running ≡ true
    → in_force CurlOption.httpheader (apply s c).handle ≡ in_force CurlOption.httpheader c.handle
unfolding apply in_force
apply-httpheader options_reset c running =
    ap (λ x. in_force CurlOption.httpheader x.handle) (running_ignored c running)
apply-httpheader (debug_callback none) c running = refl
apply-httpheader (debug_callback (some f)) c running = refl
apply-httpheader _ c running = refl

apply-httppost :
    (s : Setting) (c : Connection)
    → c.is_running ≡ true
    → in_force CurlOption.httppost (apply s c).handle ≡ in_force CurlOption.httppost c.handle
unfolding apply in_force
apply-httppost options_reset c running =
    ap (λ x. in_force CurlOption.httppost x.handle) (running_ignored c running)
apply-httppost (debug_callback none) c running = refl
apply-httppost (debug_callback (some f)) c running = refl
apply-httppost _ c running = refl

pub IsLent-IsKept :
    (allowed : Setting → Bool) (headers form : Option OptionValue)
    → IsKept allowed (IsLent headers form)
IsLent-IsKept allowed headers form = record {
  settings = λ s c ok l. record {
    wired = apply-IsWired s c l.wired;
    running = apply-is_running s c ∙ l.running;
    same_headers = apply-httpheader s c l.running ∙ l.same_headers;
    same_form = apply-httppost s c l.running ∙ l.same_form;
  };
  received = λ c at message header body within l. record {
    wired = record { installed = l.wired.installed; owned = l.wired.owned };
    running = l.running;
    same_headers = l.same_headers;
    same_form = l.same_form;
  };
}

-- A base that is lent can take the place of the one that lent it.
pub lent-IsHttpWired :
    (h : HttpConnection) (c : Connection)
    → IsLent (in_force CurlOption.httpheader h.handle) (in_force CurlOption.httppost h.handle) c
    → IsHttpWired h
    → IsHttpWired (record h { base = c })
lent-IsHttpWired h c l w = record {
  wired = l.wired;
  owns_headers =
      subst (λ v. (v ≡ some (slist h.request_headers)) ⊎ ((v ≡ none) × (h.request_headers ≡ [])))
        (sym l.same_headers) w.owns_headers;
  owns_form =
      subst (λ v. (v ≡ some (form_value h.form)) ⊎ ((v ≡ none) × (h.form ≡ none))) (sym l.same_form)
        w.owns_form;
}

will_start_http-IsHttpWired : (h : HttpConnection) → IsHttpWired h → IsHttpWired (will_start_http h)
unfolding will_start_http
will_start_http-IsHttpWired h w = record {
  wired = record { installed = w.wired.installed; owned = w.wired.owned };
  owns_headers = w.owns_headers;
  owns_form = w.owns_form;
}

will_start_http-IsLent :
    (h : HttpConnection)
    → IsHttpWired h
    → IsLent
        (in_force CurlOption.httpheader (will_start_http h).handle)
        (in_force CurlOption.httppost (will_start_http h).handle)
        (will_start_http h).base
unfolding will_start_http
will_start_http-IsLent h w = record {
  wired = record { installed = w.wired.installed; owned = w.wired.owned };
  running = refl;
  same_headers = refl;
  same_form = refl;
}

finish-IsHttpWired :
    (h : HttpConnection) (c : Connection) (result : CurlCode)
    → IsHttpWired (record h { base = c })
    → IsHttpWired (record h { base = finish c result })
unfolding finish
finish-IsHttpWired h c result w = record {
  wired = record { installed = w.wired.installed; owned = w.wired.owned };
  owns_headers = w.owns_headers;
  owns_form = w.owns_form;
}

pub start_http_silent :
    (client : Client) (h : HttpConnection) (ts : List Transfer) (result : CurlCode) (c : Connection)
    (answers : List (Reply × Bytes))
    → h.is_running ≡ false
    → transfers client (will_start_http h).base ts ≡ some (c, answers)
    → c.finished_callback ≡ none
    → start_http client h ts result ≡ some (record (will_start_http h) { base = finish c result })
unfolding start_http did_finish
start_http_silent client h ts result c answers idle run silent = ground (arith, idle, run, silent)

-- A start of an HTTP connection that is idle, and has no finished callback when the transfer ends,
-- leaves it wired and idle.
pub start_http-IsHttpWired :
    (allowed : Setting → Bool) (client : Client) (public : IsPublic allowed client)
    (h : HttpConnection) (ts : List Transfer) (result : CurlCode) (c : Connection)
    (answers : List (Reply × Bytes)) (h' : HttpConnection)
    → h.is_running ≡ false
    → transfers client (will_start_http h).base ts ≡ some (c, answers)
    → c.finished_callback ≡ none
    → start_http client h ts result ≡ some h'
    → IsHttpWired h
    → IsHttpWired h' × (h'.is_running ≡ false)
unfolding finish
start_http-IsHttpWired allowed client public h ts result c answers h' idle run silent e w =
    let v = will_start_http h in
    let lent =
      transfers-kept client allowed public (IsLent _ _) (IsLent-IsKept allowed _ _) v.base ts c
        answers run (will_start_http-IsLent h w) in
    let ended =
      some_eq (sym (start_http_silent client h ts result c answers idle run silent) ∙ e) in
    (
      subst IsHttpWired ended (
          finish-IsHttpWired v c result
            (lent-IsHttpWired v c lent (will_start_http-IsHttpWired h w))),
      ap (λ x. x.is_running) (sym ended),
    )
