-- ===== src/Slists/State.antt =====
-- connection.cpp and http_connection.cpp: `dns_resolve_items_` and `request_headers_` by their
-- addresses, and the destructors.
use curlion.Common.{
  ℕ, ◌≡◌, Bool, true, false, Option, none, some, List, [], ◌∷◌, Bytes, ◌==◌, if◌then◌else◌, map,
}
use curlion.Curl.{c_str, code}
use curlion.Connection.State.{finish}
use curlion.Connection.Options.{resolve_item}
use curlion.Connection.Calls.{dns_resolve_items, options_reset}
use curlion.Http.Text.{make_http_header_line}
use curlion.Http.State.{HttpConnection, on_base, will_start_http}
use curlion.Http.Requests.{
  HttpSetting, plain, request_headers, request_header, http_options_reset, apply_http,
}

-- A call of `curl_slist_append` with what it returned, and one of `curl_slist_free_all`. Lists are
-- known by their addresses; `none` is the null pointer. The latest call stands first.
pub data SlistCall : Type 0 where
  append : Option ℕ → Bytes → Option ℕ → SlistCall
  free_all : ℕ → SlistCall

-- Whether there is a list at an address.
abbrev pub live : ℕ → List SlistCall → Bool
live p [] = false
live p (append none item none ∷ older) = live p older
live p (append none item (some q) ∷ older) = if q == p then true else live p older
live p (append (some r) item q ∷ older) = live p older
live p (free_all q ∷ older) = if q == p then false else live p older

-- What `curl_slist_append` returns behind some calls, and what libcurl documents of it: a new list
-- for the null pointer and the same list otherwise, or the null pointer if anything went wrong.
abbrev pub Append : Type 0
Append = List SlistCall → Option ℕ → Bytes → Option ℕ

pub record SlistLaws (result : Append) : Type 0 where
  pub fresh :
      (log : List SlistCall) (item : Bytes) (p : ℕ)
      → result log none item ≡ some p
      → live p log ≡ false
  pub same :
      (log : List SlistCall) (r : ℕ) (item : Bytes) (q : ℕ)
      → result log (some r) item ≡ some q
      → q ≡ r

-- A member that points to a list, and the pointer that libcurl has for its option, if it was set
-- since the last reset.
pub record Member : Type 0 where
  pub pointer : Option ℕ
  pub given : Option (Option ℕ)

pub record Pointers : Type 0 where
  pub dns_resolve_items : Member
  pub request_headers : Member
  pub is_running : Bool
  pub log : List SlistCall

abbrev pub unset : Member
unset = record { pointer = none; given = none }

unfoldable pub new_pointers : Pointers
new_pointers = record {
  dns_resolve_items = unset;
  request_headers = unset;
  is_running = false;
  log = [];
}

-- `ReleaseDnsResolveItems` and `ReleaseRequestHeaders`; the member is null then.
unfoldable pub release : Option ℕ → List SlistCall → List SlistCall
release none log = log
release (some p) log = free_all p ∷ log

-- The calls of the public methods, and the parts of `Start` that change the members of a connection.
pub data Call : Type 0 where
  sets : HttpSetting → Call
  begins : Call
  finishes : ℕ → Call

-- The lines that the two loops append.
abbrev pub resolve_lines : List (Bytes × Bytes) → List Bytes
resolve_lines = map (λ p. c_str (resolve_item p))

abbrev pub header_lines : List (Bytes × Bytes) → List Bytes
header_lines = map (λ p. c_str (make_http_header_line p.0 p.1))

module _ (result : Append) where
  -- The loops of `SetDnsResolveItems` and `SetRequestHeaders`.
  unfoldable pub append_all : List Bytes → Option ℕ → List SlistCall → Option ℕ × List SlistCall
  append_all [] p log = (p, log)
  append_all (item ∷ items) p log =
      let q = result log p item in append_all items q (append p item q ∷ log)

  unfoldable pub set_dns_resolve_items : List (Bytes × Bytes) → Pointers → Pointers
  unfolding release append_all
  set_dns_resolve_items pairs s =
      let (p, log) =
        append_all (resolve_lines pairs) none (release s.dns_resolve_items.pointer s.log) in
      record s { dns_resolve_items = record { pointer = p; given = some p }; log = log }

  unfoldable pub set_request_headers : List (Bytes × Bytes) → Pointers → Pointers
  unfolding release append_all
  set_request_headers headers s =
      let (p, log) =
        append_all (header_lines headers) none (release s.request_headers.pointer s.log) in
      record s { request_headers = record { pointer = p; given = some p }; log = log }

  unfoldable pub add_request_header : Bytes → Bytes → Pointers → Pointers
  unfolding append_all
  add_request_header field value s =
      let (p, log) =
        append_all (header_lines ((field, value) ∷ [])) s.request_headers.pointer s.log in
      record s { request_headers = record { pointer = p; given = some p }; log = log }

  -- `ResetOptions`: `curl_easy_reset`, then `ResetOptionResources`, which releases both.
  unfoldable pub reset_options : Pointers → Pointers
  unfolding release
  reset_options s = if s.is_running then s else record s {
    dns_resolve_items = unset;
    request_headers = unset;
    log = release s.request_headers.pointer (release s.dns_resolve_items.pointer s.log);
  }

  -- `~Connection`. `curl_easy_cleanup` follows, and makes no call on a list.
  unfoldable pub destroy_connection : Pointers → List SlistCall
  unfolding release
  destroy_connection s = release s.dns_resolve_items.pointer s.log

  -- `~HttpConnection`, and then the destructor of its base class.
  unfoldable pub destroy : Pointers → List SlistCall
  unfolding release destroy_connection
  destroy s = destroy_connection (record s { log = release s.request_headers.pointer s.log })

  unfoldable pub apply_setting : HttpSetting → Pointers → Pointers
  unfolding set_dns_resolve_items set_request_headers add_request_header reset_options
  apply_setting (plain (dns_resolve_items pairs)) s = set_dns_resolve_items pairs s
  apply_setting (plain options_reset) s = reset_options s
  apply_setting (request_headers headers) s = set_request_headers headers s
  apply_setting (request_header field value) s = add_request_header field value s
  apply_setting http_options_reset s = reset_options s
  apply_setting _ s = s

  unfoldable pub apply_call : Call → Pointers → Pointers
  unfolding apply_setting
  apply_call (sets setting) s = apply_setting setting s
  apply_call begins s = record s { is_running = true }
  apply_call (finishes n) s = record s { is_running = false }

  unfoldable pub apply_calls : List Call → Pointers → Pointers
  unfolding apply_call
  apply_calls [] s = s
  apply_calls (c ∷ cs) s = apply_calls cs (apply_call c s)

-- The same calls on a connection whose lists are values.
unfoldable pub call_http : Call → HttpConnection → HttpConnection
unfolding apply_http will_start_http on_base finish
call_http (sets setting) h = apply_http setting h
call_http begins h = will_start_http h
call_http (finishes n) h = on_base (λ c. finish c (code n)) h

unfoldable pub call_http_all : List Call → HttpConnection → HttpConnection
unfolding call_http
call_http_all [] h = h
call_http_all (c ∷ cs) h = call_http_all cs (call_http c h)
