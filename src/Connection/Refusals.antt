-- ===== src/Connection/Refusals.antt =====
-- What the callbacks answer libcurl when the user's functions succeed or fail.
use curlion.Common.{
  ℕ, ◌≡◌, refl, sym, ap, ◌∙◌, Bool, true, false, ◌||◌, Option, none, some, [], ◌++◌, Bytes, ℤ, pos,
  negsuc, take, ◌==◌, if◌then◌else◌, size_mul, some_eq, Option-cases, inl, inr, eqb_refl,
}
use curlion.Curl.{Reply, count, readfunc_abort, status}
use curlion.Connection.State.{Connection, Client, SeekOrigin}
use curlion.Connection.Body.{
  Read, after_copy, read_stored_body, read_body, seek_stored_body, seek_body, write_header,
  write_body, progress,
}
use curlion.Connection.Callbacks.{
  Transfer, reads, seeks, writes_header, writes_body, progresses, debugs, reports_error, transfer,
  curl_read_body_callback, curl_seek_body_callback, curl_write_header_callback,
  curl_write_body_callback, curl_progress_callback, curl_debug_callback, seek_origin,
}

-- Whether an answer lets libcurl go on, by its documentation: a write callback has to take all the
-- bytes, a seek and a progress callback have to return 0, and a read callback returns
-- `CURL_READFUNC_ABORT` to stop.
abbrev is_zero : Reply → Bool
is_zero (status (pos n)) = n == 0
is_zero r = false

abbrev takes : ℕ → Reply → Bool
takes len (count n) = len == n
takes len r = false

abbrev gives : Reply → Bool
gives (count n) = true
gives r = false

abbrev pub goes_on : Transfer → Reply → Bool
goes_on (reads size nitems) r = gives r
goes_on (seeks offset origin) r = is_zero r
goes_on (writes_header buffer size nitems) r = takes (size_mul size nitems) r
goes_on (writes_body buffer size nmemb) r = takes (size_mul size nmemb) r
goes_on (progresses dltotal dlnow ultotal ulnow) r = is_zero r
goes_on (debugs type bytes) r = is_zero r
goes_on (reports_error message) r = is_zero r

-- What the user's function said, and what holds where there is none.
abbrev seek_says : Client → Connection → ℤ → Option SeekOrigin → Bool
seek_says client c offset none = false
seek_says client c offset (some o) = elim c.read_body_callback [
  | none ↦ (seek_stored_body c o offset).1
  | some f ↦ elim c.seek_body_callback [ none ↦ false | some g ↦ (client.seek_body g c o offset).1 ]
]

abbrev pub says : Client → Connection → Transfer → Bool
says client c (reads size nitems) = elim c.read_body_callback [
  | none ↦ true
  | some f ↦ (client.read_body f c (size_mul size nitems)).1
]
says client c (seeks offset origin) = seek_says client c offset (seek_origin origin)
says client c (writes_header buffer size nitems) = elim c.write_header_callback [
  | none ↦ true
  | some f ↦ (client.write_header f c (take (size_mul size nitems) buffer)).1
]
says client c (writes_body buffer size nmemb) = elim c.write_body_callback [
  | none ↦ true
  | some f ↦ (client.write_body f c (take (size_mul size nmemb) buffer)).1
]
says client c (progresses dltotal dlnow ultotal ulnow) = elim c.progress_callback [
  | none ↦ true
  | some f ↦ (client.progress f c dltotal dlnow ultotal ulnow).1
]
says client c (debugs type bytes) = true
says client c (reports_error message) = true

-- The refusal of a piece of no bytes cannot be told from its acceptance.
abbrev pub is_empty_piece : Transfer → Bool
is_empty_piece (writes_header buffer size nitems) = size_mul size nitems == 0
is_empty_piece (writes_body buffer size nmemb) = size_mul size nmemb == 0
is_empty_piece t = false

takes-if : (b : Bool) (n : ℕ) → takes n (count (if b then n else 0)) ≡ (b || (n == 0))
takes-if true n = eqb_refl n
takes-if false n = refl

zero-if :
    (b : Bool) (bad : ℤ)
    → is_zero (status bad) ≡ false
    → is_zero (status (if b then pos 0 else bad)) ≡ b
zero-if true bad e = refl
zero-if false bad e = e

gives-if : (b : Bool) (n : ℕ) → gives (if b then count n else readfunc_abort) ≡ b
gives-if true n = refl
gives-if false n = refl

or_false : (b : Bool) → (b || false) ≡ b
or_false true = refl
or_false false = refl

-- Whether a call of the user's function, or what stands in for it, succeeded.
succeeded :
    (callback : Option ℕ) (own : Connection × Bool) (call : ℕ → Connection × Bool)
    → let answer : Connection × Bool = elim callback [ some f ↦ call f | none ↦ own ] in
      answer.1 ≡ elim callback [ none ↦ own.1 | some f ↦ (call f).1 ]
succeeded none own call = refl
succeeded (some f) own call = refl

module _ (client : Client) (c : Connection) where
  after_copy-succeeded :
      (n : ℕ) (bytes : Option Bytes) (r : Read)
      → after_copy c n bytes ≡ some r
      → r.is_succeeded ≡ true
  unfolding after_copy
  after_copy-succeeded n none r e = absurd (cc)
  after_copy-succeeded n (some bytes) r e = sym (ap (λ x. x.is_succeeded) (some_eq e))

  read_says :
      (callback : Option ℕ) (n : ℕ) (r : Read)
      → elim callback [
        | none ↦ read_stored_body c n
        | some f ↦
            let (c', is_succeeded, bytes, actual_length) = client.read_body f c n in
            some (record {
              connection = c';
              is_succeeded = is_succeeded;
              body = bytes;
              actual_length = actual_length;
            })
      ]
        ≡ some r
      → r.is_succeeded ≡ elim callback [ none ↦ true | some f ↦ (client.read_body f c n).1 ]
  unfolding read_stored_body
  read_says none n r e = after_copy-succeeded _ _ r e
  read_says (some f) n r e = sym (ap (λ x. x.is_succeeded) (some_eq e))

  read-says :
      (size nitems : ℕ) (c' : Connection) (reply : Reply) (bytes : Bytes)
      → curl_read_body_callback client c size nitems ≡ some (c', reply, bytes)
      → gives reply ≡ says client c (reads size nitems)
  unfolding curl_read_body_callback read_body
  read-says size nitems c' reply bytes e =
      elim (Option-cases (read_body client c (size_mul size nitems))) [
        | inl out ↦ absurd (cc (rw (out, curl_read_body_callback) at e))
        | inr (r, here) ↦
            ap (λ x. gives x.1) (sym (some_eq (rw (here, curl_read_body_callback) at e)))
            ∙ gives-if r.is_succeeded r.actual_length
            ∙ read_says c.read_body_callback (size_mul size nitems) r here
      ]

  seek_body-says :
      (offset : ℤ) (o : SeekOrigin)
      → (seek_body client c o offset).1 ≡ seek_says client c offset (some o)
  unfolding seek_body
  seek_body-says offset o =
      elim c.read_body_callback
        as (λ reading.
          let answer : Connection × Bool = elim reading [
            | some f ↦ elim c.seek_body_callback [
              | some g ↦ client.seek_body g c o offset
              | none ↦ (c, false)
            ]
            | none ↦ seek_stored_body c o offset
          ] in
          answer.1 ≡ elim reading [
            | none ↦ (seek_stored_body c o offset).1
            | some f ↦ elim c.seek_body_callback [
              | none ↦ false
              | some g ↦ (client.seek_body g c o offset).1
            ]
          ]) [
            | none ↦ refl
            | some f ↦
                succeeded c.seek_body_callback (c, false) (λ g. client.seek_body g c o offset)
          ]

  seek_origin-says :
      (offset : ℤ) (origin : Option SeekOrigin)
      → let answer : Connection × Reply × Bytes = elim origin [
        | none ↦ (c, status (pos 1), [])
        | some o ↦
            let (c', is_succeeded) = seek_body client c o offset in
            (c', status (if is_succeeded then pos 0 else pos 1), [])
      ] in
        is_zero answer.1 ≡ seek_says client c offset origin
  seek_origin-says offset none = refl
  seek_origin-says offset (some o) = zero-if _ (pos 1) refl ∙ seek_body-says offset o

  -- What libcurl is told is what the user's function said, or what `Connection` does in its place: it
  -- goes on exactly when that succeeded. A piece of no bytes goes on either way, since libcurl cannot
  -- tell its refusal from its acceptance.
  pub transfer-goes_on :
      (t : Transfer) (c' : Connection) (reply : Reply) (bytes : Bytes)
      → transfer client c t ≡ some (c', reply, bytes)
      → goes_on t reply ≡ (says client c t || is_empty_piece t)
  unfolding transfer curl_seek_body_callback curl_write_header_callback curl_write_body_callback
      curl_progress_callback curl_debug_callback write_header write_body progress
  transfer-goes_on (reads size nitems) c' reply bytes e =
      read-says size nitems c' reply bytes e ∙ sym (or_false _)
  transfer-goes_on (seeks offset origin) c' reply bytes e =
      ap (λ x. is_zero x.1) (sym (some_eq e))
      ∙ seek_origin-says offset (seek_origin origin)
      ∙ sym (or_false _)
  transfer-goes_on (writes_header buffer size nitems) c' reply bytes e =
      let len = size_mul size nitems in
      let piece = take len buffer in
      ap (λ x. takes len x.1) (sym (some_eq e))
      ∙ takes-if _ len
      ∙ ap (λ b. b || (len == 0))
          (succeeded c.write_header_callback
            (record c { response_header = c.response_header ++ piece }, true)
            (λ f. client.write_header f c piece))
  transfer-goes_on (writes_body buffer size nmemb) c' reply bytes e =
      let len = size_mul size nmemb in
      let piece = take len buffer in
      ap (λ x. takes len x.1) (sym (some_eq e))
      ∙ takes-if _ len
      ∙ ap (λ b. b || (len == 0))
          (succeeded c.write_body_callback
            (record c { response_body = c.response_body ++ piece }, true)
            (λ f. client.write_body f c piece))
  transfer-goes_on (progresses a b x y) c' reply bytes e =
      ap (λ x. is_zero x.1) (sym (some_eq e))
      ∙ zero-if _ (negsuc 0) refl
      ∙ succeeded c.progress_callback (c, true) (λ f. client.progress f c a b x y)
      ∙ sym (or_false _)
  transfer-goes_on (debugs type bytes') c' reply bytes e = ap (λ x. is_zero x.1) (sym (some_eq e))
  transfer-goes_on (reports_error message) c' reply bytes e =
      ap (λ x. is_zero x.1) (sym (some_eq e))
