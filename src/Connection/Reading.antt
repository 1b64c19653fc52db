-- ===== src/Connection/Reading.antt =====
-- Reading the stored request body: `ReadBody` against the bytes of the body.
use native.Mathlib.Decide.{dec_le}
use curlion.Common.{
  ℕ, ◌+◌, ◌≤◌, ◌<◌, ◌≡◌, refl, sym, ap, ◌∙◌, true, none, some, List, [], ◌∷◌, ◌++◌, append-nil,
  Bytes, min, length, take, drop, le→leb, lt→leb, arith, size_mod, size_add, size_sub, size_mul,
  length-append, length-take, length-drop, take-add, drop-drop, take_all, drop_all, take-nil,
}
use curlion.Curl.{Reply, count}
use curlion.Connection.State.{Connection, Client, will_start}
use curlion.Connection.Options.{set_request_body}
use curlion.Connection.Body.{Read, read_body, read_stored_body, after_copy, memcpy}
use curlion.Connection.Callbacks.{
  Transfer, reads, curl_read_body_callback, transfer, transfers, transfers-cons,
}

-- The read position lies within the body, and the body is no longer than a `std::string` can be.
pub record BodyIsSound (c : Connection) : Type 0 where
  pub within : c.request_body_read_length ≤ length c.request_body
  pub fits : length c.request_body < size_mod

-- The bytes that are left to read.
abbrev pub unread : Connection → Bytes
unread c = drop c.request_body_read_length c.request_body

abbrev pub advance : ℕ → Connection → Connection
advance n c = record c { request_body_read_length = c.request_body_read_length + n }

-- What one read should give: at most `n` of the unread bytes.
abbrev pub amount : ℕ → Connection → ℕ
amount n c = min (length (unread c)) n

abbrev read_of : ℕ → Connection → Read
read_of n c = record {
  connection = advance (amount n c) c;
  is_succeeded = true;
  body = take n (unread c);
  actual_length = amount n c;
}

take-min {ℓ} : {A : Type ℓ} (n : ℕ) (xs : List A) → take (min (length xs) n) xs ≡ take n xs
take-min n xs = elim (dec_le n (length xs)) [
  | yes h ↦ ap (λ k. take k xs) (omega arith)
  | no h ↦ take_all _ xs (omega arith) ∙ sym (take_all n xs (omega arith))
]

memcpy_within :
    (bytes : Bytes) (from n : ℕ)
    → from + n ≤ length bytes
    → memcpy bytes from n ≡ some (take n (drop from bytes))
unfolding memcpy
memcpy_within bytes from n h = rw (le→leb _ _ h)

memcpy_beyond : (bytes : Bytes) (from n : ℕ) → length bytes < from + n → memcpy bytes from n ≡ none
unfolding memcpy
memcpy_beyond bytes from n h = rw (lt→leb _ _ h)

read_stored_body_lem :
    (c : Connection) (n : ℕ) → BodyIsSound c → read_stored_body c n ≡ some (read_of n c)
unfolding read_stored_body after_copy
read_stored_body_lem c n s =
    let at = c.request_body_read_length in
    let remain : size_sub (length c.request_body) at ≡ length (unread c) =
      omega (arith, length-drop at c.request_body) in
    let sum : size_add at (amount n c) ≡ at + amount n c =
      omega (arith, length-drop at c.request_body) in
    let fit : at + amount n c ≤ length c.request_body =
      omega (arith, length-drop at c.request_body) in
    rw (remain) (
      rw (memcpy_within c.request_body at (amount n c) fit, sum, take-min n (unread c), after_copy))

read_body_free :
    (client : Client) (c : Connection) (n : ℕ)
    → c.read_body_callback ≡ none
    → read_body client c n ≡ read_stored_body c n
unfolding read_body
read_body_free client c n free = ground arith

-- The callback for a sound connection with no read callback of the user's.
pub curl_read_body_callback_lem :
    (client : Client) (c : Connection) (size nitems : ℕ)
    → c.read_body_callback ≡ none
    → BodyIsSound c
    → curl_read_body_callback client c size nitems
      ≡ some (
        advance (amount (size_mul size nitems) c) c,
        count (amount (size_mul size nitems) c),
        take (size_mul size nitems) (unread c),
      )
unfolding curl_read_body_callback
curl_read_body_callback_lem client c size nitems free s =
    rw (read_body_free client c (size_mul size nitems) free, curl_read_body_callback)
      (rw (read_stored_body_lem c (size_mul size nitems) s))

-- The requests of a transfer that only reads, and how many bytes they ask for.
abbrev pub reading : List (ℕ × ℕ) → List Transfer
reading [] = []
reading ((size, nitems) ∷ rs) = reads size nitems ∷ reading rs

abbrev pub requested : List (ℕ × ℕ) → ℕ
requested [] = 0
requested ((size, nitems) ∷ rs) = size_mul size nitems + requested rs

-- All bytes that the answers delivered, and what each answer counts.
abbrev pub delivered : List (Reply × Bytes) → Bytes
delivered [] = []
delivered ((reply, bytes) ∷ rest) = bytes ++ delivered rest

abbrev pub Counted : List (Reply × Bytes) → Type 0
Counted [] = Unit
Counted ((reply, bytes) ∷ rest) = (reply ≡ count (length bytes)) × Counted rest

pub advance-BodyIsSound :
    (n : ℕ) (c : Connection) → BodyIsSound c → BodyIsSound (advance (amount n c) c)
advance-BodyIsSound n c s = record {
  within = omega (arith, length-drop c.request_body_read_length c.request_body);
  fits = s.fits;
}

take-add-min {ℓ} :
    {A : Type ℓ} (n k : ℕ) (xs : List A)
    → take n xs ++ take k (drop (min (length xs) n) xs) ≡ take (n + k) xs
take-add-min n k xs = elim (dec_le n (length xs)) [
  | yes h ↦ let e : min (length xs) n ≡ n = omega arith in rw e (sym (take-add n k xs))
  | no h ↦
      let e : min (length xs) n ≡ length xs = omega arith in
      rw (e, drop_all (length xs) xs (omega arith), take-nil k, append-nil)
        (take_all n xs (omega arith) ∙ sym (take_all (n + k) xs (omega arith)))
]

unread-advance : (n : ℕ) (c : Connection) → unread (advance n c) ≡ drop n (unread c)
unread-advance n c = sym (drop-drop n c.request_body_read_length c.request_body)

take-amount :
    (n k : ℕ) (c : Connection)
    → take n (unread c) ++ take k (unread (advance (amount n c) c)) ≡ take (n + k) (unread c)
take-amount n k c = rw (unread-advance (amount n c) c) (take-add-min n k (unread c))

-- However the body of a connection without a read callback, whose read position lies in the body,
-- is asked for in pieces: no read leaves the buffer, the pieces put together are the unread bytes
-- up to what was asked for, and each answer counts its piece.
pub transfers-reading :
    (client : Client) (c : Connection) (rs : List (ℕ × ℕ))
    → c.read_body_callback ≡ none
    → BodyIsSound c
    → (answers : List (Reply × Bytes)) × (transfers client c (reading rs)
        ≡ some (advance (length (delivered answers)) c, answers))
      × (delivered answers ≡ take (requested rs) (unread c))
      × Counted answers
unfolding transfers transfer
transfers-reading client c [] free s = ([], ground arith, refl, tt)
transfers-reading client c ((size, nitems) ∷ rs) free s =
    let n = size_mul size nitems in
    let c' = advance (amount n c) c in
    let (answers, run, pieces, counted) =
      transfers-reading client c' rs free (advance-BodyIsSound n c s) in
    (
      (count (amount n c), take n (unread c)) ∷ answers,
      transfers-cons client c (reads size nitems) (reading rs)
            (curl_read_body_callback_lem client c size nitems free s) run
          ∙ ground (
            arith,
            length-append (take n (unread c)) (delivered answers),
            length-take n (unread c),
          ),
      rw (pieces) (take-amount n (requested rs) c),
      (ap count (omega (arith, length-take n (unread c))), counted),
    )

pub will_start-BodyIsSound :
    (c : Connection) → length c.request_body < size_mod → BodyIsSound (will_start c)
unfolding will_start
will_start-BodyIsSound c h = record { within = omega arith; fits = h }

unread-will_start : (c : Connection) → unread (will_start c) ≡ c.request_body
unfolding will_start
unread-will_start c = refl

-- A started connection without a read callback, with a body whose length is a `size_t`, sends its
-- request body from the first byte, wherever the position of an earlier transfer was left.
transfers-will_start :
    (client : Client) (c : Connection) (rs : List (ℕ × ℕ))
    → c.read_body_callback ≡ none
    → length c.request_body < size_mod
    → (answers : List (Reply × Bytes)) × (final : Connection) × (transfers client
          (will_start c)
          (reading rs)
        ≡ some (final, answers))
      × (delivered answers ≡ take (requested rs) c.request_body)
unfolding will_start
transfers-will_start client c rs free h =
    let (answers, run, pieces, counted) =
      transfers-reading client (will_start c) rs free (will_start-BodyIsSound c h) in
    (answers, advance (length (delivered answers)) (will_start c), run, pieces)

-- `SetRequestBody` keeps the read position. On a connection without a read callback, with a body
-- shorter than that position, the next read that asks for a byte copies from beyond the body.
pub read_body-set_request_body :
    (client : Client) (c : Connection) (body : Bytes) (n : ℕ)
    → c.read_body_callback ≡ none
    → length body < c.request_body_read_length
    → c.request_body_read_length < size_mod
    → 0 < n
    → read_body client (set_request_body body c) n ≡ none
unfolding set_request_body read_stored_body after_copy
read_body-set_request_body client c body n free short fits some_byte =
    rw (read_body_free client (set_request_body body c) n free) (
      rw (
        memcpy_beyond body c.request_body_read_length
          (min (size_sub (length body) c.request_body_read_length) n) (omega arith)))
