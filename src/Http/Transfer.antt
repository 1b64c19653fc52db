-- ===== src/Http/Transfer.antt =====
-- A whole transfer of an `HttpConnection`, from `Start` to `GetResponseHeaders`.
use curlion.Common.{
  ◌<◌, ◌≡◌, ◌∙◌, refl, true, false, none, some, List, Bytes, length, arith, size_mod, [],
}
use curlion.Curl.{CurlCode}
use curlion.Connection.State.{Client, did_finish, reset_response_states}
use curlion.Connection.Callbacks.{Transfer}
use curlion.Connection.Quiet.{IsQuiet, left, headers_of, bodies_of}
use curlion.Connection.Response.{transfers_quiet}
use curlion.Http.Text.{line_end, field_separator}
use curlion.Http.Multimap.{Multimap, values, IsSorted}
use curlion.Http.Split.{Lacks}
use curlion.Http.State.{HttpConnection, will_start_http, start_http, get_response_headers}
use curlion.Http.Headers.{block, AllCarried, get_response_headers-block}

-- `Start` on an HTTP connection that is not running and has no callbacks: it ends with the result
-- and the body of this transfer.
start_http_quiet :
    (client : Client) (h : HttpConnection) (ts : List Transfer) (result : CurlCode)
    → h.is_running ≡ false
    → IsQuiet h.base
    → h.finished_callback ≡ none
    → length h.request_body < size_mod
    → (h' : HttpConnection) × (start_http client h ts result ≡ some h')
      × (h'.is_running ≡ false)
      × (h'.base.result ≡ result)
      × (h'.response_body ≡ bodies_of ts)
      × (h'.response_header ≡ headers_of ts)
      × (h'.has_parsed_response_headers ≡ false)
      × (h'.response_headers ≡ [])
unfolding start_http will_start_http reset_response_states did_finish
start_http_quiet client h ts result idle q silent fits =
    let (at, message, answers, within, run) =
      transfers_quiet client (will_start_http h).base ts
        (record {
          no_read = q.no_read;
          no_header = q.no_header;
          no_body = q.no_body;
          no_progress = q.no_progress;
          no_debug = q.no_debug;
        })
        (record { within = omega arith; fits = fits }) in
    (
      record (will_start_http h) {
        base = record (left (will_start_http h).base at message (headers_of ts) (bodies_of ts)) {
          is_running = false;
          result = result;
        };
      },
      ground (arith, idle, run, silent),
      refl,
      refl,
      refl,
      refl,
      refl,
      refl,
    )

-- A whole request on an HTTP connection that is not running and has no callbacks, whatever it held
-- before, with a body whose length is a `size_t`. If the header pieces that libcurl writes are, put
-- together, a block of a status line and header lines as `GetResponseHeaders` reads them back,
-- `Start` ends with libcurl's code and this transfer's body, and `GetResponseHeaders` then returns
-- a sorted multimap that has, for each field, exactly the values received for it in this transfer,
-- in order.
pub start_http-get_response_headers :
    (client : Client) (h : HttpConnection) (ts : List Transfer) (result : CurlCode) (line : Bytes)
    (hs : Multimap)
    → h.is_running ≡ false
    → IsQuiet h.base
    → h.finished_callback ≡ none
    → length h.request_body < size_mod
    → headers_of ts ≡ block line hs
    → Lacks line_end line
    → Lacks field_separator line
    → AllCarried hs
    → (h' : HttpConnection) × (m : Multimap) × (start_http client h ts result ≡ some h')
      × (h'.is_running ≡ false)
      × (h'.base.result ≡ result)
      × (h'.response_body ≡ bodies_of ts)
      × (get_response_headers h'
          ≡ some (record h' { has_parsed_response_headers = true; response_headers = m }, m))
      × IsSorted m
      × ((k : Bytes) → values k m ≡ values k hs)
start_http-get_response_headers client h ts result line hs idle q silent fits received whole plain
      all =
    let (h', run, stopped, code, body, header, fresh, empty) =
      start_http_quiet client h ts result idle q silent fits in
    let (m, parsed, sorted, same) =
      get_response_headers-block h' line hs fresh empty (header ∙ received) whole plain all in
    (h', m, run, stopped, code, body, parsed, sorted, same)
