-- ===== src/Connection/Seeking.antt =====
-- Seeking in the stored request body: `SeekBody` in 64-bit words against whole numbers.
use curlion.Common.{
  ℕ, ◌+◌, ◌-◌, ◌≤◌, ◌<◌, ◌≡◌, refl, ap, Bool, true, false, ◌&&◌, Option, none, some, List, [], ◌∷◌,
  Bytes, ℤ, pos, negsuc, pos_part, neg_part, length, take, leb, if◌then◌else◌, arith, size_mod,
  off_limit,
}
use curlion.Curl.{Reply, status, seek_set, seek_end}
use curlion.Connection.State.{Connection, Client, SeekOrigin, begin, current, end}
use curlion.Connection.Body.{seek_body, seek_stored_body, original_position}
use curlion.Connection.Callbacks.{
  seeks, curl_seek_body_callback, seek_origin, transfer, transfers, transfers-cons,
}
use curlion.Connection.Reading.{
  BodyIsSound, advance, reading, requested, delivered, transfers-reading,
}

-- A `curl_off_t` has 64 bits.
abbrev IsOff : ℤ → Type 0
IsOff offset = (pos_part offset < off_limit) × (neg_part offset ≤ off_limit)

-- The position that lies `offset` away from `from`, if it is one of a body of `len` bytes.
pub target : ℕ → ℤ → ℕ → Option ℕ
target from offset len =
    let to = from + pos_part offset - neg_part offset in
    if leb (neg_part offset) (from + pos_part offset) && leb to len then some to else none

pub sought : Connection → Option ℕ → Connection × Bool
sought c none = (c, false)
sought c (some to) = (record c { request_body_read_length = to }, true)

-- If the read position lies in the body, the body has less than 2^63 bytes and the offset is a
-- `curl_off_t`: the sum that wraps around lands where the sum of whole numbers does, and is refused
-- where that is negative or beyond the end.
pub seek_stored_body-target :
    (c : Connection) (origin : SeekOrigin) (offset : ℤ)
    → BodyIsSound c
    → length c.request_body < off_limit
    → IsOff offset
    → seek_stored_body c origin offset
      ≡ sought c (target (original_position c origin) offset (length c.request_body))
unfolding seek_stored_body target sought original_position
seek_stored_body-target c begin (pos n) s short is_off = ground arith
seek_stored_body-target c begin (negsuc n) s short is_off = ground arith
seek_stored_body-target c current (pos n) s short is_off = ground arith
seek_stored_body-target c current (negsuc n) s short is_off = ground arith
seek_stored_body-target c end (pos n) s short is_off = ground arith
seek_stored_body-target c end (negsuc n) s short is_off = ground arith

pub seek_body_free :
    (client : Client) (c : Connection) (origin : SeekOrigin) (offset : ℤ)
    → c.read_body_callback ≡ none
    → seek_body client c origin offset ≡ seek_stored_body c origin offset
unfolding seek_body
seek_body_free client c origin offset free = ground arith

rewind :
    (c : Connection)
    → seek_stored_body c begin (pos 0) ≡ (record c { request_body_read_length = 0 }, true)
unfolding seek_stored_body original_position
rewind c = ground arith

rewind-BodyIsSound :
    (c : Connection)
    → length c.request_body < size_mod
    → BodyIsSound (record c { request_body_read_length = 0 })
rewind-BodyIsSound c h = record { within = omega arith; fits = h }

curl_seek_body_callback_rewind :
    (client : Client) (c : Connection)
    → c.read_body_callback ≡ none
    → curl_seek_body_callback client c (pos 0) seek_set
      ≡ (record c { request_body_read_length = 0 }, status (pos 0), [])
unfolding curl_seek_body_callback seek_origin
curl_seek_body_callback_rewind client c free =
    rw (seek_body_free client c begin (pos 0) free, curl_seek_body_callback) (rw (rewind c))

-- To send the body again libcurl seeks to its begin. Without a read callback, and with a body whose
-- length is a `size_t`, that succeeds at any position, and the reads that follow deliver the body
-- from its first byte, as much as they ask for.
pub rewind_rereads :
    (client : Client) (c : Connection) (rs : List (ℕ × ℕ))
    → c.read_body_callback ≡ none
    → length c.request_body < size_mod
    → (answers : List (Reply × Bytes)) × (final : Connection) × (transfers client c
          (seeks (pos 0) seek_set ∷ reading rs)
        ≡ some (final, (status (pos 0), []) ∷ answers))
      × (delivered answers ≡ take (requested rs) c.request_body)
unfolding transfer
rewind_rereads client c rs free h =
    let start = record c { request_body_read_length = 0 } in
    let (answers, run, pieces, counted) =
      transfers-reading client start rs free (rewind-BodyIsSound c h) in
    (
      answers,
      advance (length (delivered answers)) start,
      transfers-cons client c _ _ (ap some (curl_seek_body_callback_rewind client c free)) run,
      pieces,
    )

-- `SEEK_END` falls through to the refusal: on a connection without a read callback, with a body of
-- less than 2^63 bytes, the callback answers 1 and moves nothing for a negative offset that stays
-- within the body, though `SeekBody` from the end succeeds for it.
pub curl_seek_body_callback-seek_end :
    (client : Client) (c : Connection) (n : ℕ)
    → c.read_body_callback ≡ none
    → length c.request_body < off_limit
    → n < length c.request_body
    → (curl_seek_body_callback client c (negsuc n) seek_end ≡ (c, status (pos 1), []))
      × ((seek_body client c end (negsuc n)).1 ≡ true)
unfolding curl_seek_body_callback seek_origin seek_stored_body original_position
curl_seek_body_callback-seek_end client c n free short within =
    (refl, rw (seek_body_free client c end (negsuc n) free) (ground arith))
