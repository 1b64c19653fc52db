-- ===== src/Http/Requests.antt =====
-- The request headers and the form of an HTTP connection, and what stays true of its options.
use curlion.Common.{
  ◌≡◌, refl, sym, ap, ◌∙◌, ◌⊎◌, inl, inr, Bool, true, false, Option, none, some, List, [], ◌∷◌,
  ◌++◌, map, append_assoc, append-nil, Bytes, ℤ, if◌then◌else◌, arith,
}
use curlion.Curl.{CurlOption, slist, reset, in_force, c_str}
use curlion.Connection.State.{new, reset_options, initial_options}
use curlion.Connection.Calls.{Setting, debug_callback, options_reset, apply}
use curlion.Connection.Lifecycle.{in_force-setopts}
use curlion.Connection.Wiring.{IsWired, apply-IsWired, new-IsWired, initial_options-Holds}
use curlion.Http.Text.{make_http_header_line}
use curlion.Http.Multimap.{Multimap}
use curlion.Http.State.{
  HttpConnection, FormReference, new_http, on_base, set_use_post, append_request_headers,
  set_request_headers, add_request_header, form_value, set_request_form, set_auto_redirect,
  set_max_auto_redirect_count, reset_http_options,
}

-- The public calls that change an HTTP connection outside a transfer. `ResetOptions` dispatches.
pub data HttpSetting : Type 0 where
  plain : Setting → HttpSetting
  use_post auto_redirect : Bool → HttpSetting
  request_headers : Multimap → HttpSetting
  request_header : Bytes → Bytes → HttpSetting
  request_form : Option FormReference → HttpSetting
  max_auto_redirect_count : ℤ → HttpSetting
  http_options_reset : HttpSetting

unfoldable apply_plain : Setting → HttpConnection → HttpConnection
unfolding reset_http_options apply on_base
apply_plain options_reset h = reset_http_options h
apply_plain s h = on_base (apply s) h

unfoldable pub apply_http : HttpSetting → HttpConnection → HttpConnection
unfolding apply_plain set_use_post set_request_headers add_request_header set_request_form
    set_auto_redirect set_max_auto_redirect_count reset_http_options
apply_http (plain s) h = apply_plain s h
apply_http (use_post b) h = set_use_post b h
apply_http (auto_redirect b) h = set_auto_redirect b h
apply_http (request_headers hs) h = set_request_headers hs h
apply_http (request_header field value) h = add_request_header field value h
apply_http (request_form f) h = set_request_form f h
apply_http (max_auto_redirect_count n) h = set_max_auto_redirect_count n h
apply_http http_options_reset h = reset_http_options h

-- An option was never set since the last reset, and its member is as new, or it has the value that
-- the member stands for.
abbrev OwnsRequestHeaders : HttpConnection → Type 0
OwnsRequestHeaders h =
    (in_force CurlOption.httpheader h.handle ≡ some (slist h.request_headers))
    ⊎ ((in_force CurlOption.httpheader h.handle ≡ none) × (h.request_headers ≡ []))

abbrev OwnsForm : HttpConnection → Type 0
OwnsForm h =
    (in_force CurlOption.httppost h.handle ≡ some (form_value h.form))
    ⊎ ((in_force CurlOption.httppost h.handle ≡ none) × (h.form ≡ none))

pub record IsHttpWired (h : HttpConnection) : Type 0 where
  pub wired : IsWired h.base
  pub owns_headers : OwnsRequestHeaders h
  pub owns_form : OwnsForm h

if-IsHttpWired :
    (b : Bool) (x y : HttpConnection)
    → IsHttpWired x
    → IsHttpWired y
    → IsHttpWired (if b then x else y)
if-IsHttpWired true x y p q = p
if-IsHttpWired false x y p q = q

reset_http_options-IsHttpWired :
    (h : HttpConnection) → IsHttpWired h → IsHttpWired (reset_http_options h)
unfolding reset_http_options in_force
reset_http_options-IsHttpWired h w = if-IsHttpWired h.is_running h _ w (record {
  wired = record { installed = initial_options-Holds (reset ∷ h.handle); owned = inr (refl, refl) };
  owns_headers = inr (refl, refl);
  owns_form = inr (refl, refl);
})

apply_plain-IsHttpWired :
    (s : Setting) (h : HttpConnection) → IsHttpWired h → IsHttpWired (apply_plain s h)
unfolding apply_plain in_force
apply_plain-IsHttpWired options_reset h w = reset_http_options-IsHttpWired h w
apply_plain-IsHttpWired (debug_callback none) h w = record {
  wired = apply-IsWired (debug_callback none) h.base w.wired;
  owns_headers = w.owns_headers;
  owns_form = w.owns_form;
}
apply_plain-IsHttpWired (debug_callback (some f)) h w = record {
  wired = apply-IsWired (debug_callback (some f)) h.base w.wired;
  owns_headers = w.owns_headers;
  owns_form = w.owns_form;
}
apply_plain-IsHttpWired s h w = record {
  wired = apply-IsWired s h.base w.wired;
  owns_headers = w.owns_headers;
  owns_form = w.owns_form;
}

pub apply_http-IsHttpWired :
    (s : HttpSetting) (h : HttpConnection) → IsHttpWired h → IsHttpWired (apply_http s h)
unfolding apply_http in_force
apply_http-IsHttpWired (plain s) h w = apply_plain-IsHttpWired s h w
apply_http-IsHttpWired http_options_reset h w = reset_http_options-IsHttpWired h w
apply_http-IsHttpWired (request_headers hs) h w = record {
  wired = record { installed = w.wired.installed; owned = w.wired.owned };
  owns_headers = inl refl;
  owns_form = w.owns_form;
}
apply_http-IsHttpWired (request_header field value) h w = record {
  wired = record { installed = w.wired.installed; owned = w.wired.owned };
  owns_headers = inl refl;
  owns_form = w.owns_form;
}
apply_http-IsHttpWired (request_form f) h w = record {
  wired = record { installed = w.wired.installed; owned = w.wired.owned };
  owns_headers = w.owns_headers;
  owns_form = inl refl;
}
apply_http-IsHttpWired _ h w = record {
  wired = record { installed = w.wired.installed; owned = w.wired.owned };
  owns_headers = w.owns_headers;
  owns_form = w.owns_form;
}

pub new_http-IsHttpWired : IsHttpWired new_http
unfolding new_http in_force new
new_http-IsHttpWired = record {
  wired = new-IsWired;
  owns_headers = inr (refl, refl);
  owns_form = inr (refl, refl);
}

pub append_request_headers-map :
    (hs : Multimap) (lines : List Bytes)
    → append_request_headers hs lines ≡ lines ++ map (λ p. c_str (make_http_header_line p.0 p.1)) hs
unfolding append_request_headers
append_request_headers-map [] lines = sym (append-nil lines)
append_request_headers-map ((field, value) ∷ hs) lines =
    let line = c_str (make_http_header_line field value) in
    append_request_headers-map hs (lines ++ line ∷ []) ∙ append_assoc lines (line ∷ []) _

-- `SetRequestHeaders` replaces the lines set before by one line for each header, in its order, and
-- `AddRequestHeader` puts one more behind them. After each the list in force is the one held.
add-set_request_headers :
    (hs : Multimap) (field value : Bytes) (h : HttpConnection)
    → let lines = map (λ p. c_str (make_http_header_line p.0 p.1)) hs in
      let set = set_request_headers hs h in
      let added = add_request_header field value set in
      (set.request_headers ≡ lines)
      × (in_force CurlOption.httpheader set.handle ≡ some (slist lines))
      × (added.request_headers ≡ lines ++ c_str (make_http_header_line field value) ∷ [])
      × (in_force CurlOption.httpheader added.handle
          ≡ some (slist (lines ++ c_str (make_http_header_line field value) ∷ [])))
unfolding set_request_headers add_request_header in_force
add-set_request_headers hs field value h =
    let e = append_request_headers-map hs [] in
    let more = ap (λ l. l ++ c_str (make_http_header_line field value) ∷ []) e in
    (e, ap (λ l. some (slist l)) e, more, ap (λ l. some (slist l)) more)

-- `ResetOptions` on an HTTP connection that is not running: each option has the value that it has
-- in a new HTTP connection, no header or form is held, and so for the members of the base class.
pub reset_http_options-new :
    (h : HttpConnection) (o : CurlOption)
    → h.is_running ≡ false
    → (in_force o (reset_http_options h).handle ≡ in_force o new_http.handle)
      × ((reset_http_options h).request_headers ≡ [])
      × ((reset_http_options h).form ≡ none)
      × ((reset_http_options h).base ≡ reset_options h.base)
unfolding reset_http_options new_http new in_force reset_options
reset_http_options-new h o idle =
    let blank = in_force-setopts o initial_options (reset ∷ h.handle) [] refl in
    (ground (arith, idle, blank), ground (arith, idle), ground (arith, idle), ground (arith, idle))
