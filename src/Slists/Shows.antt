-- ===== src/Slists/Shows.antt =====
-- A connection whose lists are values, and the same with lists by their addresses: each call keeps
-- them alike.
use curlion.Common.{
  ℕ, ◌≡◌, refl, sym, subst, Bool, true, false, Option, none, some, List, [], ◌∷◌, Bytes,
  if◌then◌else◌,
}
use curlion.Curl.{CurlOption, OptionValue, slist, in_force}
use curlion.Connection.State.{new, finish}
use curlion.Connection.Calls.{Setting, dns_resolve_items, options_reset, debug_callback}
use curlion.Connection.Wiring.{append_resolve_items-map}
use curlion.Http.State.{HttpConnection, new_http, reset_http_options, will_start_http, on_base}
use curlion.Http.Requests.{
  HttpSetting, plain, request_headers, request_header, http_options_reset, apply_http,
  append_request_headers-map,
}
use curlion.Slists.State.{
  SlistCall, Append, SlistLaws, Pointers, new_pointers, release, Call, sets, begins, finishes,
  append_all, set_dns_resolve_items, set_request_headers, add_request_header, reset_options,
  apply_setting, apply_call, apply_calls, resolve_lines, header_lines, call_http, call_http_all,
}
use curlion.Slists.Safety.{new_pointers-IsHeld}
use curlion.Slists.Contents.{
  NeverFails, IsHolding, swap-IsHolding, release-IsHolding, append_all-IsHolding,
}

-- An option's value, by a member's text and whether libcurl was given it.
abbrev pub value_given : List Bytes → Option (Option ℕ) → Option OptionValue
value_given l none = none
value_given l (some p) = some (slist l)

pub record Shows (s : Pointers) (h : HttpConnection) : Type 0 where
  pub holding :
      IsHolding s.dns_resolve_items.pointer s.request_headers.pointer h.dns_resolve_items
        h.request_headers s.log
  pub resolve :
      in_force CurlOption.resolve h.handle
      ≡ value_given h.dns_resolve_items s.dns_resolve_items.given
  pub httpheader :
      in_force CurlOption.httpheader h.handle
      ≡ value_given h.request_headers s.request_headers.given
  pub running : h.is_running ≡ s.is_running

module _ (result : Append) (laws : SlistLaws result) (never_fails : NeverFails result) where
  dns_resolve_items-Shows :
      (pairs : List (Bytes × Bytes)) (s : Pointers) (h : HttpConnection)
      → Shows s h
      → Shows
          (set_dns_resolve_items result pairs s)
          (apply_http (plain (dns_resolve_items pairs)) h)
  unfolding set_dns_resolve_items apply_http in_force
  dns_resolve_items-Shows pairs s h i = record {
    holding =
        let (p, log) =
          append_all result (resolve_lines pairs) none
            (release s.dns_resolve_items.pointer s.log) in
        subst (λ l. IsHolding p s.request_headers.pointer l h.request_headers log)
          (sym (append_resolve_items-map pairs []))
          (append_all-IsHolding result laws never_fails (resolve_lines pairs) none _ [] _ _
            (release-IsHolding _ _ _ _ s.log i.holding));
    resolve = refl;
    httpheader = i.httpheader;
    running = i.running;
  }

  request_headers-Shows :
      (headers : List (Bytes × Bytes)) (s : Pointers) (h : HttpConnection)
      → Shows s h
      → Shows (set_request_headers result headers s) (apply_http (request_headers headers) h)
  unfolding set_request_headers apply_http in_force
  request_headers-Shows headers s h i = record {
    holding =
        let (p, log) =
          append_all result (header_lines headers) none (release s.request_headers.pointer s.log) in
        subst (λ l. IsHolding s.dns_resolve_items.pointer p h.dns_resolve_items l log)
          (sym (append_request_headers-map headers []))
          (swap-IsHolding _ _ _ _ _ (
            append_all-IsHolding result laws never_fails (header_lines headers) none _ [] _ _
              (release-IsHolding _ _ _ _ s.log (swap-IsHolding _ _ _ _ s.log i.holding))));
    resolve = i.resolve;
    httpheader = refl;
    running = i.running;
  }

  request_header-Shows :
      (field value : Bytes) (s : Pointers) (h : HttpConnection)
      → Shows s h
      → Shows (add_request_header result field value s) (apply_http (request_header field value) h)
  unfolding add_request_header apply_http in_force
  request_header-Shows field value s h i = record {
    holding = swap-IsHolding _ _ _ _ _ (
        append_all-IsHolding result laws never_fails (header_lines ((field, value) ∷ [])) _ _ _ _ _
          (swap-IsHolding _ _ _ _ s.log i.holding));
    resolve = i.resolve;
    httpheader = refl;
    running = i.running;
  }

  pub reset-IsHolding :
      (x y : Option ℕ) (a b : List Bytes) (log : List SlistCall)
      → IsHolding x y a b log
      → IsHolding none none [] [] (release y (release x log))
  reset-IsHolding x y a b log i =
      release-IsHolding y none b [] (release x log)
        (swap-IsHolding none y [] b (release x log) (release-IsHolding x y a b log i))

  if-Shows :
      (b c : Bool) (s u : Pointers) (h k : HttpConnection)
      → c ≡ b
      → Shows s h
      → Shows u k
      → Shows (if b then s else u) (if c then h else k)
  if-Shows true true s u h k e i j = i
  if-Shows true false s u h k e i j = cc
  if-Shows false true s u h k e i j = cc
  if-Shows false false s u h k e i j = j

  reset_options-Shows :
      (s : Pointers) (h : HttpConnection)
      → Shows s h
      → Shows (reset_options result s) (reset_http_options h)
  unfolding reset_options reset_http_options in_force
  reset_options-Shows s h i = if-Shows s.is_running h.is_running s _ h _ i.running i (record {
    holding = reset-IsHolding _ _ _ _ s.log i.holding;
    resolve = refl;
    httpheader = refl;
    running = i.running;
  })

  plain-Shows :
      (c : Setting) (s : Pointers) (h : HttpConnection)
      → Shows s h
      → Shows (apply_setting result (plain c) s) (apply_http (plain c) h)
  unfolding apply_setting apply_http in_force
  plain-Shows (dns_resolve_items pairs) s h i = dns_resolve_items-Shows pairs s h i
  plain-Shows options_reset s h i = reset_options-Shows s h i
  plain-Shows (debug_callback none) s h i = record {
    holding = i.holding;
    resolve = i.resolve;
    httpheader = i.httpheader;
    running = i.running;
  }
  plain-Shows (debug_callback (some f)) s h i = record {
    holding = i.holding;
    resolve = i.resolve;
    httpheader = i.httpheader;
    running = i.running;
  }
  plain-Shows _ s h i = record {
    holding = i.holding;
    resolve = i.resolve;
    httpheader = i.httpheader;
    running = i.running;
  }

  apply_setting-Shows :
      (c : HttpSetting) (s : Pointers) (h : HttpConnection)
      → Shows s h
      → Shows (apply_setting result c s) (apply_http c h)
  unfolding apply_setting apply_http in_force
  apply_setting-Shows (plain c) s h i = plain-Shows c s h i
  apply_setting-Shows (request_headers headers) s h i = request_headers-Shows headers s h i
  apply_setting-Shows (request_header field value) s h i = request_header-Shows field value s h i
  apply_setting-Shows http_options_reset s h i = reset_options-Shows s h i
  apply_setting-Shows _ s h i = record {
    holding = i.holding;
    resolve = i.resolve;
    httpheader = i.httpheader;
    running = i.running;
  }

  apply_call-Shows :
      (c : Call) (s : Pointers) (h : HttpConnection)
      → Shows s h
      → Shows (apply_call result c s) (call_http c h)
  unfolding apply_call call_http will_start_http on_base finish
  apply_call-Shows (sets c) s h i = apply_setting-Shows c s h i
  apply_call-Shows begins s h i = record {
    holding = i.holding;
    resolve = i.resolve;
    httpheader = i.httpheader;
    running = refl;
  }
  apply_call-Shows (finishes n) s h i = record {
    holding = i.holding;
    resolve = i.resolve;
    httpheader = i.httpheader;
    running = refl;
  }

  pub apply_calls-Shows :
      (cs : List Call) (s : Pointers) (h : HttpConnection)
      → Shows s h
      → Shows (apply_calls result cs s) (call_http_all cs h)
  unfolding apply_calls call_http_all
  apply_calls-Shows [] s h i = i
  apply_calls-Shows (c ∷ cs) s h i =
      apply_calls-Shows cs (apply_call result c s) (call_http c h) (apply_call-Shows c s h i)

  pub new-Shows : Shows new_pointers new_http
  unfolding new_pointers new_http new in_force
  new-Shows = record {
    holding = record {
      owned = (new_pointers-IsHeld result laws).owned;
      only = λ p h. h;
      first_items = refl;
      second_items = refl;
    };
    resolve = refl;
    httpheader = refl;
    running = refl;
  }
