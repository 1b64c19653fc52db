-- ===== src/Http/State.antt =====
-- http_connection.h and http_connection.cpp: `HttpConnection`, its setters, what it overrides, and
-- `GetResponseHeaders`.
use curlion.Common.{
  ℕ, Bool, true, false, Option, none, some, List, [], ◌∷◌, ◌++◌, Bytes, ℤ, if◌then◌else◌,
}
use curlion.Curl.{
  CurlOption, OptionValue, null, flag, long, slist, httppost, curl_easy_reset, c_str, CurlCode,
}
use curlion.Connection.State.{
  Connection, Client, new, set_initial_options, reset_option_resources, reset_response_states,
  did_finish,
}
use curlion.Connection.Options.{set_option}
use curlion.Connection.Callbacks.{Transfer, transfers}
use curlion.Http.Text.{make_http_header_line, split_string, field_separator, line_end}
use curlion.Http.Multimap.{Multimap, insert}

-- A form of the user's: which one, and the `curl_httppost` that `GetHandle` returns for it.
pub record FormReference : Type 0 where
  pub form : ℕ
  pub handle : Option ℕ

pub record HttpConnection : Type 0 where
  pub base : Connection
  pub open base use *
  pub request_headers : List Bytes
  pub form : Option FormReference
  pub has_parsed_response_headers : Bool
  pub response_headers : Multimap

-- The constructor.
unfoldable pub new_http : HttpConnection
new_http = record {
  base = new;
  request_headers = [];
  form = none;
  has_parsed_response_headers = false;
  response_headers = [];
}

-- A method of the base class that calls nothing virtual.
unfoldable pub on_base : (Connection → Connection) → HttpConnection → HttpConnection
on_base f h = record h { base = f h.base }

unfoldable pub set_use_post : Bool → HttpConnection → HttpConnection
unfolding on_base set_option
set_use_post use_post = on_base (set_option CurlOption.post (flag use_post))

unfoldable release_request_headers : HttpConnection → HttpConnection
release_request_headers h = record h { request_headers = [] }

unfoldable pub append_request_headers : Multimap → List Bytes → List Bytes
unfolding make_http_header_line c_str
append_request_headers [] headers = headers
append_request_headers ((field, value) ∷ rest) headers =
    append_request_headers rest (headers ++ c_str (make_http_header_line field value) ∷ [])

unfoldable pub set_request_headers : Multimap → HttpConnection → HttpConnection
unfolding release_request_headers append_request_headers on_base set_option
set_request_headers headers h =
    let released = release_request_headers h in
    let appended = append_request_headers headers released.request_headers in
    on_base (set_option CurlOption.httpheader (slist appended))
      (record released { request_headers = appended })

unfoldable pub add_request_header : Bytes → Bytes → HttpConnection → HttpConnection
unfolding make_http_header_line c_str on_base set_option
add_request_header field value h =
    let appended = h.request_headers ++ c_str (make_http_header_line field value) ∷ [] in
    on_base (set_option CurlOption.httpheader (slist appended))
      (record h { request_headers = appended })

unfoldable pub form_value : Option FormReference → OptionValue
form_value none = null
form_value (some f) = elim f.handle [ none ↦ null | some p ↦ httppost p ]

unfoldable pub set_request_form : Option FormReference → HttpConnection → HttpConnection
unfolding form_value on_base set_option
set_request_form form h =
    on_base (set_option CurlOption.httppost (form_value form)) (record h { form = form })

unfoldable pub set_auto_redirect : Bool → HttpConnection → HttpConnection
unfolding on_base set_option
set_auto_redirect auto_redirect =
    on_base (set_option CurlOption.followlocation (flag auto_redirect))

unfoldable pub set_max_auto_redirect_count : ℤ → HttpConnection → HttpConnection
unfolding on_base set_option
set_max_auto_redirect_count count = on_base (set_option CurlOption.maxredirs (long count))

-- The overrides.
unfoldable reset_http_response_states : HttpConnection → HttpConnection
unfolding reset_response_states
reset_http_response_states h = record h {
  base = reset_response_states h.base;
  has_parsed_response_headers = false;
  response_headers = [];
}

unfoldable reset_http_option_resources : HttpConnection → HttpConnection
unfolding release_request_headers reset_option_resources
reset_http_option_resources h =
    record (release_request_headers (record h { base = reset_option_resources h.base })) {
      form = none;
    }

-- `WillStart` and `ResetOptions` of the base class, which call the overrides.
unfoldable pub will_start_http : HttpConnection → HttpConnection
unfolding reset_http_response_states
will_start_http h =
    reset_http_response_states (record h { base = record (h.base) { is_running = true } })

unfoldable pub reset_http_options : HttpConnection → HttpConnection
unfolding reset_http_option_resources set_initial_options
reset_http_options h =
    if h.is_running
    then h
    else reset_http_option_resources (record h {
      base = set_initial_options (record (h.base) { handle = curl_easy_reset h.handle });
    })

-- `Start` of the base class on an HTTP connection.
unfoldable pub start_http :
    Client → HttpConnection → List Transfer → CurlCode → Option HttpConnection
start_http client h performed result =
    if h.is_running
    then some h
    else let started = will_start_http h in
      elim (transfers client started.base performed) [
        | none ↦ none
        | some (c, answers) ↦ some (record started { base = did_finish client c result })
      ]

-- A line's first two parts make a header; a line of fewer parts is passed over.
pub insert_parts : List Bytes → Multimap → Multimap
insert_parts [] m = m
insert_parts (key ∷ []) m = m
insert_parts (key ∷ value ∷ rest) m = insert key value m

unfoldable pub parse_lines : List Bytes → Multimap → Option Multimap
unfolding insert_parts
parse_lines [] m = some m
parse_lines (line ∷ lines) m = elim (split_string line field_separator) [
  | none ↦ none
  | some parts ↦ parse_lines lines (insert_parts parts m)
]

-- `none` would be a `SplitString` that does not end.
unfoldable pub parse_response_headers : HttpConnection → Option HttpConnection
unfolding parse_lines
parse_response_headers h = elim (split_string h.response_header line_end) [
  | none ↦ none
  | some lines ↦ elim (parse_lines lines h.response_headers) [
    | none ↦ none
    | some m ↦ some (record h { response_headers = m })
  ]
]

unfoldable pub get_response_headers : HttpConnection → Option (HttpConnection × Multimap)
get_response_headers h =
    if h.has_parsed_response_headers
    then some (h, h.response_headers)
    else elim (parse_response_headers h) [
      | none ↦ none
      | some parsed ↦
          some (record parsed { has_parsed_response_headers = true }, parsed.response_headers)
    ]
