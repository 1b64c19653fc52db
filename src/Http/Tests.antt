-- ===== src/Http/Tests.antt =====
-- The theorems on `HttpConnection` and on the functions that split a header, at a small response.
use curlion.Common.{◌≡◌, refl, true, false, none, some, List, [], ◌∷◌, ◌++◌, Bytes, codes, arith}
use curlion.Curl.{code, CurlOption, in_force}
use curlion.Connection.State.{new, reset_options}
use curlion.Connection.Tests.{silent}
use curlion.Connection.Callbacks.{Transfer, writes_header, writes_body}
use curlion.Http.Transfer.{start_http-get_response_headers}
use curlion.Http.Text.{
  line_end, make_http_header_line, split_string, split_loop, find, find_from, starts_with, end_of,
  substr, field_separator,
}
use curlion.Http.Multimap.{Multimap, insert, lt_bytes, values, IsSorted}
use curlion.Http.Split.{AllLack, two, terminated}
use curlion.Http.Pieces.{Spells, split_string_total, split_string-terminated}
use curlion.Http.State.{
  start_http, HttpConnection, new_http, reset_http_options, parse_lines, parse_response_headers,
  get_response_headers,
}
use curlion.Http.Headers.{
  block, get_response_headers-block, get_response_headers_total, parse_lines_cut,
}
use curlion.Http.Requests.{reset_http_options-new}

abbrev ok_line : Bytes
ok_line = codes "HTTP/1.1 200 OK"

abbrev fields : Multimap
fields = (codes "B", codes "1") ∷ (codes "A", codes "2") ∷ (codes "B", codes "3") ∷ []

-- A connection that has received these fields.
abbrev received : HttpConnection
received = record new_http { base = record new { response_header = block ok_line fields } }

abbrev parsed : HttpConnection
parsed = record received {
  has_parsed_response_headers = true;
  response_headers = (codes "A", codes "2") ∷ (codes "B", codes "1") ∷ (codes "B", codes "3") ∷ [];
}

-- The model runs.
headers_run : get_response_headers received ≡ some (parsed, parsed.response_headers)
unfolding get_response_headers parse_response_headers parse_lines split_string split_loop find
    find_from starts_with end_of substr insert lt_bytes new_http make_http_header_line
headers_run = refl

line_end_run : split_string (codes "a--b--") (codes "--") ≡ some (codes "a" ∷ codes "b" ∷ [])
unfolding split_string split_loop find find_from starts_with end_of substr
line_end_run = refl

get_response_headers-block_example :
    (m : Multimap) × (get_response_headers received
      ≡ some (record received { has_parsed_response_headers = true; response_headers = m }, m))
    × IsSorted m
    × ((k : Bytes) → values k m ≡ values k fields)
unfolding new_http new make_http_header_line starts_with
get_response_headers-block_example =
    get_response_headers-block received ok_line fields refl refl refl (ground arith) (ground arith)
      (ground arith)

split_string_total_example :
    (ps : List Bytes) × (split_string (codes "a\r\nb") (two 13 10) ≡ some ps)
    × AllLack (two 13 10) ps
    × Spells (two 13 10) ps (codes "a\r\nb")
split_string_total_example = split_string_total 13 10 (codes "a\r\nb") (omega arith)

split_string-terminated_example :
    split_string (terminated (two 13 10) (codes "a" ∷ [] ∷ []) ++ codes "b") (two 13 10)
    ≡ some (codes "a" ∷ [] ∷ codes "b" ∷ [])
unfolding starts_with
split_string-terminated_example =
    split_string-terminated 13 10 (codes "a" ∷ [] ∷ []) (codes "b") (omega arith) (ground arith)
      (ground arith)

get_response_headers_total_example :
    (m : Multimap) × (get_response_headers received
      ≡ some (record received { has_parsed_response_headers = true; response_headers = m }, m))
get_response_headers_total_example = get_response_headers_total received

parse_lines_cut_example :
    parse_lines
      (make_http_header_line (codes "A") (codes "x" ++ (field_separator ++ codes "y")) ∷ [])
      []
    ≡ some (insert (codes "A") (codes "x") [])
unfolding starts_with
parse_lines_cut_example =
    parse_lines_cut (codes "A") (codes "x") (codes "y") [] (ground arith) (ground arith)

reset_http_options-new_example :
    (in_force CurlOption.httpheader (reset_http_options parsed).handle
      ≡ in_force CurlOption.httpheader new_http.handle)
    × ((reset_http_options parsed).request_headers ≡ [])
    × ((reset_http_options parsed).form ≡ none)
    × ((reset_http_options parsed).base ≡ reset_options parsed.base)
unfolding new new_http
reset_http_options-new_example = reset_http_options-new parsed CurlOption.httpheader refl

-- A transfer whose header comes in two pieces.
abbrev response : List Transfer
response =
    writes_header (ok_line ++ line_end) 1 17
    ∷ writes_header (codes "B: 1\r\nA: 2\r\nB: 3\r\n\r\n") 1 20
    ∷ writes_body (codes "xyz") 1 3
    ∷ []

start_http-get_response_headers_example :
    (h' : HttpConnection) × (m : Multimap) × (start_http silent parsed response (code 0) ≡ some h')
    × (h'.is_running ≡ false)
    × (h'.base.result ≡ code 0)
    × (h'.response_body ≡ codes "xyz")
    × (get_response_headers h'
        ≡ some (record h' { has_parsed_response_headers = true; response_headers = m }, m))
    × IsSorted m
    × ((k : Bytes) → values k m ≡ values k fields)
unfolding new_http new make_http_header_line starts_with
start_http-get_response_headers_example =
    start_http-get_response_headers silent parsed response (code 0) ok_line fields refl
      (record {
        no_read = refl;
        no_header = refl;
        no_body = refl;
        no_progress = refl;
        no_debug = refl;
      })
      refl (omega arith) refl (ground arith) (ground arith) (ground arith)
