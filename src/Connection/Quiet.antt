-- ===== src/Connection/Quiet.antt =====
-- One call of libcurl's on a connection with no user callbacks.
use curlion.Common.{
  ℕ, ◌+◌, ◌≤◌, ◌≡◌, refl, Bool, true, false, none, some, List, [], ◌∷◌, ◌++◌, append-nil, Bytes, ℤ,
  pos, length, take, leb, if◌then◌else◌, arith, size_mul, size_add, size_of_off, Bool-cases, inl,
  inr, leb→le,
}
use curlion.Curl.{Reply, count, status, Whence, seek_set, seek_cur, seek_end}
use curlion.Connection.State.{Connection, Client, SeekOrigin, begin, current}
use curlion.Connection.Body.{
  write_header, write_body, progress, debug, seek_stored_body, original_position,
}
use curlion.Connection.Callbacks.{
  Transfer, reads, seeks, writes_header, writes_body, progresses, debugs, reports_error,
  curl_seek_body_callback, curl_write_header_callback, curl_write_body_callback,
  curl_progress_callback, curl_debug_callback, seek_origin, transfer,
}
use curlion.Connection.Seeking.{seek_body_free}
use curlion.Connection.Reading.{
  BodyIsSound, unread, amount, curl_read_body_callback_lem, advance-BodyIsSound,
}

-- No function of the user's takes part in a transfer.
pub record IsQuiet (c : Connection) : Type 0 where
  pub no_read : c.read_body_callback ≡ none
  pub no_header : c.write_header_callback ≡ none
  pub no_body : c.write_body_callback ≡ none
  pub no_progress : c.progress_callback ≡ none
  pub no_debug : c.debug_callback ≡ none

-- At most a function for the response body does.
pub record IsBodyOnly (c : Connection) : Type 0 where
  pub no_read : c.read_body_callback ≡ none
  pub no_header : c.write_header_callback ≡ none
  pub no_progress : c.progress_callback ≡ none
  pub no_debug : c.debug_callback ≡ none

abbrev pub is_body : Transfer → Bool
is_body (writes_body buffer size nmemb) = true
is_body _ = false

-- The pieces of response that the calls of a transfer bring.
abbrev pub headers_of : List Transfer → Bytes
headers_of [] = []
headers_of (reads n m ∷ ts) = headers_of ts
headers_of (seeks o w ∷ ts) = headers_of ts
headers_of (writes_header buffer size nitems ∷ ts) =
    take (size_mul size nitems) buffer ++ headers_of ts
headers_of (writes_body buffer size nmemb ∷ ts) = headers_of ts
headers_of (progresses a b c d ∷ ts) = headers_of ts
headers_of (debugs type bytes ∷ ts) = headers_of ts
headers_of (reports_error message ∷ ts) = headers_of ts

abbrev pub bodies_of : List Transfer → Bytes
bodies_of [] = []
bodies_of (reads n m ∷ ts) = bodies_of ts
bodies_of (seeks o w ∷ ts) = bodies_of ts
bodies_of (writes_header buffer size nitems ∷ ts) = bodies_of ts
bodies_of (writes_body buffer size nmemb ∷ ts) = take (size_mul size nmemb) buffer ++ bodies_of ts
bodies_of (progresses a b c d ∷ ts) = bodies_of ts
bodies_of (debugs type bytes ∷ ts) = bodies_of ts
bodies_of (reports_error message ∷ ts) = bodies_of ts

-- `c` with another read position, error message and response.
abbrev pub left : Connection → ℕ → Bytes → Bytes → Bytes → Connection
left c at message header body = record c {
  request_body_read_length = at;
  error_buffer = message;
  response_header = header;
  response_body = body;
}

-- One call of a transfer, whatever it is, answers, and changes nothing but these four members.
abbrev pub Steps : Client → Connection → Transfer → Type 0
Steps client c t =
    (at : ℕ) × (message : Bytes) × (reply : Reply) × (bytes : Bytes) × (at ≤ length c.request_body)
    × (transfer client c t
        ≡ some (
          left c at message (c.response_header ++ headers_of (t ∷ []))
              (c.response_body ++ bodies_of (t ∷ [])),
          reply,
          bytes,
        ))

seek_stored_body_left :
    (c : Connection) (origin : SeekOrigin) (offset : ℤ)
    → BodyIsSound c
    → (at : ℕ) × (done : Bool) × (at ≤ length c.request_body)
      × (seek_stored_body c origin offset ≡ (record c { request_body_read_length = at }, done))
unfolding seek_stored_body
seek_stored_body_left c origin offset s =
    let to = size_add (original_position c origin) (size_of_off offset) in
    elim (Bool-cases (leb to (length c.request_body))) [
      | inl fit ↦ (to, true, leb→le _ _ fit, ground arith)
      | inr out ↦ (c.request_body_read_length, false, s.within, ground arith)
    ]

module _ (client : Client) (c : Connection) (q : IsBodyOnly c) (s : BodyIsSound c) where
  step_reads : (size nitems : ℕ) → Steps client c (reads size nitems)
  unfolding transfer
  step_reads size nitems = (
    c.request_body_read_length + amount (size_mul size nitems) c,
    c.error_buffer,
    count (amount (size_mul size nitems) c),
    take (size_mul size nitems) (unread c),
    (advance-BodyIsSound (size_mul size nitems) c s).within,
    rw (append-nil, append-nil) (curl_read_body_callback_lem client c size nitems q.no_read s),
  )

  seek_answer :
      (o : SeekOrigin) (offset : ℤ) (origin : Whence)
      → seek_origin origin ≡ some o
      → Steps client c (seeks offset origin)
  unfolding transfer curl_seek_body_callback
  seek_answer o offset origin e =
      let (at, done, within, sought) = seek_stored_body_left c o offset s in
      (
        at,
        c.error_buffer,
        status (if done then pos 0 else pos 1),
        [],
        within,
        rw (append-nil, append-nil)
            (rw (e, curl_seek_body_callback)
              (rw (seek_body_free client c o offset q.no_read) (rw sought))),
      )

  step_seeks : (offset : ℤ) (origin : Whence) → Steps client c (seeks offset origin)
  unfolding seek_origin
  step_seeks offset seek_set = seek_answer begin offset seek_set refl
  step_seeks offset seek_cur = seek_answer current offset seek_cur refl
  step_seeks offset seek_end = (
    c.request_body_read_length,
    c.error_buffer,
    status (pos 1),
    [],
    s.within,
    unfold transfer curl_seek_body_callback in rw (append-nil, append-nil),
  )
  step_seeks offset (Whence.other n) = (
    c.request_body_read_length,
    c.error_buffer,
    status (pos 1),
    [],
    s.within,
    unfold transfer curl_seek_body_callback in rw (append-nil, append-nil),
  )

  step_writes_header :
      (buffer : Bytes) (size nitems : ℕ) → Steps client c (writes_header buffer size nitems)
  unfolding transfer curl_write_header_callback write_header
  step_writes_header buffer size nitems = (
    c.request_body_read_length,
    c.error_buffer,
    count (size_mul size nitems),
    [],
    s.within,
    ground (
      arith,
      q.no_header,
      append-nil (take (size_mul size nitems) buffer),
      append-nil c.response_body,
    ),
  )

  pub step_other : (t : Transfer) → is_body t ≡ false → Steps client c t
  unfolding transfer curl_progress_callback progress curl_debug_callback debug
  step_other (reads size nitems) h = step_reads size nitems
  step_other (seeks offset origin) h = step_seeks offset origin
  step_other (writes_header buffer size nitems) h = step_writes_header buffer size nitems
  step_other (writes_body buffer size nmemb) h = absurd (cc)
  step_other (progresses dltotal dlnow ultotal ulnow) h = (
    c.request_body_read_length,
    c.error_buffer,
    status (pos 0),
    [],
    s.within,
    ground (arith, q.no_progress, append-nil c.response_header, append-nil c.response_body),
  )
  step_other (debugs type bytes) h = (
    c.request_body_read_length,
    c.error_buffer,
    status (pos 0),
    [],
    s.within,
    ground (arith, q.no_debug, append-nil c.response_header, append-nil c.response_body),
  )
  step_other (reports_error message) h = (
    c.request_body_read_length,
    message,
    status (pos 0),
    [],
    s.within,
    ground (arith, append-nil c.response_header, append-nil c.response_body),
  )

module _ (client : Client) (c : Connection) (q : IsQuiet c) (s : BodyIsSound c) where
  step_writes_body :
      (buffer : Bytes) (size nmemb : ℕ) → Steps client c (writes_body buffer size nmemb)
  unfolding transfer curl_write_body_callback write_body
  step_writes_body buffer size nmemb = (
    c.request_body_read_length,
    c.error_buffer,
    count (size_mul size nmemb),
    [],
    s.within,
    ground (
      arith,
      q.no_body,
      append-nil (take (size_mul size nmemb) buffer),
      append-nil c.response_header,
    ),
  )

  pub step : (t : Transfer) → Steps client c t
  step (writes_body buffer size nmemb) = step_writes_body buffer size nmemb
  step t =
      step_other client c
        (record {
          no_read = q.no_read;
          no_header = q.no_header;
          no_progress = q.no_progress;
          no_debug = q.no_debug;
        })
        s t refl
