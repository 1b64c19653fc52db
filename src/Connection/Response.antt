-- ===== src/Connection/Response.antt =====
-- The response of a transfer, for a connection with no user callbacks.
use curlion.Common.{
  ℕ, ◌≤◌, ◌≡◌, refl, some, List, [], ◌∷◌, ◌++◌, append_assoc, append-nil, Bytes, length, arith,
}
use curlion.Curl.{Reply}
use curlion.Connection.State.{Connection, Client}
use curlion.Connection.Callbacks.{
  Transfer, reads, writes_header, writes_body, transfers, transfers-cons,
}
use curlion.Connection.Reading.{BodyIsSound}
use curlion.Connection.Quiet.{IsQuiet, headers_of, bodies_of, left, step}

pub headers_of-cons :
    (t : Transfer) (ts : List Transfer) → headers_of (t ∷ ts) ≡ headers_of (t ∷ []) ++ headers_of ts
headers_of-cons (writes_header buffer size nitems) ts = rw append-nil
headers_of-cons (reads n m) ts = refl
headers_of-cons _ ts = refl

pub bodies_of-cons :
    (t : Transfer) (ts : List Transfer) → bodies_of (t ∷ ts) ≡ bodies_of (t ∷ []) ++ bodies_of ts
bodies_of-cons (writes_body buffer size nmemb) ts = rw append-nil
bodies_of-cons (reads n m) ts = refl
bodies_of-cons _ ts = refl

-- Any calls of libcurl's, in any order, on a connection without callbacks whose read position lies
-- in its body: none reads out of bounds, the response header and body grow by exactly the pieces
-- that were written, in order, and besides the read position and the error message nothing else
-- changes.
pub transfers_quiet :
    (client : Client) (c : Connection) (ts : List Transfer)
    → IsQuiet c
    → BodyIsSound c
    → (at : ℕ) × (message : Bytes) × (answers : List (Reply × Bytes)) × (at ≤ length c.request_body)
      × (transfers client c ts
          ≡ some (
            left c at message
                (c.response_header ++ headers_of ts)
                (c.response_body ++ bodies_of ts),
            answers,
          ))
unfolding transfers
transfers_quiet client c [] q s = (
  c.request_body_read_length,
  c.error_buffer,
  [],
  s.within,
  ground (arith, append-nil c.response_header, append-nil c.response_body),
)
transfers_quiet client c (t ∷ ts) q s =
    let (at, message, reply, bytes, within, first) = step client c q s t in
    let c' =
      left c at message (c.response_header ++ headers_of (t ∷ []))
        (c.response_body ++ bodies_of (t ∷ [])) in
    let (at', message', answers, within', rest) =
      transfers_quiet client c' ts
        (record {
          no_read = q.no_read;
          no_header = q.no_header;
          no_body = q.no_body;
          no_progress = q.no_progress;
          no_debug = q.no_debug;
        })
        (record { within = within; fits = s.fits }) in
    (
      at',
      message',
      (reply, bytes) ∷ answers,
      within',
      rw
          (
            headers_of-cons t ts,
            bodies_of-cons t ts,
            ← append_assoc c.response_header (headers_of (t ∷ [])) (headers_of ts),
            ← append_assoc c.response_body (bodies_of (t ∷ [])) (bodies_of ts),
          )
          (transfers-cons client c t ts first rest),
    )
