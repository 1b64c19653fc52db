-- ===== src/Connection/Callbacks.antt =====
-- connection.cpp: the static functions that libcurl calls, and a transfer as the calls that it makes.
use curlion.Common.{
  ℕ, ◌≡◌, Option, none, some, List, [], ◌∷◌, Bytes, ℤ, pos, negsuc, take, if◌then◌else◌, size_mul,
}
use curlion.Curl.{
  Whence, seek_set, seek_cur, seek_end, InfoType, info_text, header_in, header_out, data_in,
  data_out, ssl_data_in, ssl_data_out, Reply, count, readfunc_abort, status, CurlCode,
}
use curlion.Connection.State.{
  Connection, Client, SeekOrigin, begin, current, DebugDataType, information, received_header,
  received_body, sent_body, received_ssl_data, sent_ssl_data, will_start, did_finish,
}
use curlion.Connection.Body.{read_body, seek_body, write_header, write_body, progress, debug}

-- A callback leaves the connection, its answer, and what it put into the caller's buffer.
abbrev Answer : Type 0
Answer = Connection × Reply × Bytes

unfoldable pub curl_read_body_callback : Client → Connection → ℕ → ℕ → Option Answer
curl_read_body_callback client c size nitems = elim (read_body client c (size_mul size nitems)) [
  | none ↦ none
  | some r ↦
      some
        (r.connection, (if r.is_succeeded then count r.actual_length else readfunc_abort), r.body)
]

-- The `switch` of `CurlSeekBodyCallback`: `none` where it returns 1 at once. The case of `SEEK_END`
-- has no `break`, so it falls through to `default`.
unfoldable pub seek_origin : Whence → Option SeekOrigin
seek_origin seek_set = some begin
seek_origin seek_cur = some current
seek_origin seek_end = none
seek_origin (Whence.other n) = none

unfoldable pub curl_seek_body_callback : Client → Connection → ℤ → Whence → Answer
curl_seek_body_callback client c offset origin = elim (seek_origin origin) [
  | none ↦ (c, status (pos 1), [])
  | some o ↦
      let (c', is_succeeded) = seek_body client c o offset in
      (c', status (if is_succeeded then pos 0 else pos 1), [])
]

-- The buffer holds `size * nitems` bytes.
unfoldable pub curl_write_header_callback : Client → Connection → Bytes → ℕ → ℕ → Answer
curl_write_header_callback client c buffer size nitems =
    let len = size_mul size nitems in
    let (c', is_succeeded) = write_header client c (take len buffer) in
    (c', count (if is_succeeded then len else 0), [])

unfoldable pub curl_write_body_callback : Client → Connection → Bytes → ℕ → ℕ → Answer
curl_write_body_callback client c buffer size nmemb =
    let len = size_mul size nmemb in
    let (c', is_succeeded) = write_body client c (take len buffer) in
    (c', count (if is_succeeded then len else 0), [])

unfoldable pub curl_progress_callback : Client → Connection → ℤ → ℤ → ℤ → ℤ → Answer
curl_progress_callback client c dltotal dlnow ultotal ulnow =
    let (c', is_succeeded) = progress client c dltotal dlnow ultotal ulnow in
    (c', status (if is_succeeded then pos 0 else negsuc 0), [])

-- The `switch` of `CurlDebugCallback`: the case of `CURLINFO_HEADER_OUT` has no `break`, so it goes
-- on with the assignment of `CURLINFO_DATA_IN`.
unfoldable pub debug_data_type : InfoType → DebugDataType
debug_data_type info_text = information
debug_data_type header_in = received_header
debug_data_type header_out = received_body
debug_data_type data_in = received_body
debug_data_type data_out = sent_body
debug_data_type ssl_data_in = received_ssl_data
debug_data_type ssl_data_out = sent_ssl_data
debug_data_type (InfoType.other n) = information

unfoldable pub curl_debug_callback : Client → Connection → InfoType → Bytes → Answer
curl_debug_callback client c type bytes =
    (debug client c (debug_data_type type) bytes, status (pos 0), [])

-- One call that libcurl makes during a transfer, or a message that it writes into the error buffer.
pub data Transfer : Type 0 where
  reads : ℕ → ℕ → Transfer
  seeks : ℤ → Whence → Transfer
  writes_header : Bytes → ℕ → ℕ → Transfer
  writes_body : Bytes → ℕ → ℕ → Transfer
  progresses : ℤ → ℤ → ℤ → ℤ → Transfer
  debugs : InfoType → Bytes → Transfer
  reports_error : Bytes → Transfer

unfoldable pub transfer : Client → Connection → Transfer → Option Answer
transfer client c (reads size nitems) = curl_read_body_callback client c size nitems
transfer client c (seeks offset origin) = some (curl_seek_body_callback client c offset origin)
transfer client c (writes_header buffer size nitems) =
    some (curl_write_header_callback client c buffer size nitems)
transfer client c (writes_body buffer size nmemb) =
    some (curl_write_body_callback client c buffer size nmemb)
transfer client c (progresses dltotal dlnow ultotal ulnow) =
    some (curl_progress_callback client c dltotal dlnow ultotal ulnow)
transfer client c (debugs type bytes) = some (curl_debug_callback client c type bytes)
transfer client c (reports_error message) =
    some (record c { error_buffer = message }, status (pos 0), [])

-- The calls of a transfer in turn, and all that they answered; `none` where one reads out of bounds.
unfoldable pub transfers :
    Client → Connection → List Transfer → Option (Connection × List (Reply × Bytes))
transfers client c [] = some (c, [])
transfers client c (t ∷ ts) = elim (transfer client c t) [
  | none ↦ none
  | some (c', reply, bytes) ↦ elim (transfers client c' ts) [
    | none ↦ none
    | some (c'', answers) ↦ some (c'', (reply, bytes) ∷ answers)
  ]
]

-- A run of calls is its first call and the rest.
pub transfers-cons :
    (client : Client) (c : Connection) (t : Transfer) (ts : List Transfer) {c' c'' : Connection}
    {reply : Reply} {bytes : Bytes} {answers : List (Reply × Bytes)}
    → transfer client c t ≡ some (c', reply, bytes)
    → transfers client c' ts ≡ some (c'', answers)
    → transfers client c (t ∷ ts) ≡ some (c'', (reply, bytes) ∷ answers)
unfolding transfers
transfers-cons client c t ts first rest = rw (first, transfers) (rw rest)

-- `Start`: the calls that `curl_easy_perform` makes and the code that it returns are arguments.
unfoldable pub start : Client → Connection → List Transfer → CurlCode → Option Connection
start client c performed result =
    if c.is_running then some c else elim (transfers client (will_start c) performed) [
      | none ↦ none
      | some (c', answers) ↦ some (did_finish client c' result)
    ]
