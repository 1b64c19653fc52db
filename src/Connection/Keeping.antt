-- ===== src/Connection/Keeping.antt =====
-- A transfer keeps what allowed public calls keep.
use curlion.Common.{
  ℕ, ◌≡◌, ap, subst, Bool, true, false, some, List, [], ◌∷◌, ◌++◌, Bytes, ℤ, take, some_eq, refl,
  ◌≤◌, length, min, leb, leb→le, size_sub, arith, Option-cases, inl, inr, size_mul, size_add,
  size_of_off, if◌then◌else◌,
}
use curlion.Curl.{Reply, Whence}
use curlion.Connection.State.{Connection, Client, SeekOrigin, DebugDataType}
use curlion.Connection.Calls.{Setting}
use curlion.Connection.Body.{
  Read, read_stored_body, read_body, seek_stored_body, original_position, seek_body, write_header,
  write_body, progress, debug,
}
use curlion.Connection.Callbacks.{
  Transfer, reads, seeks, writes_header, writes_body, progresses, debugs, reports_error, transfer,
  transfers, curl_read_body_callback, curl_seek_body_callback, curl_write_header_callback,
  curl_write_body_callback, curl_progress_callback, curl_debug_callback, seek_origin,
}
use curlion.Connection.Reading.{BodyIsSound}
use curlion.Connection.Public.{IsPublic, IsKept, Calls-kept, after_copy-kept}

module _ (client : Client) (allowed : Setting → Bool) (public : IsPublic allowed client)
    (P : Connection → Type 0) (kept : IsKept allowed P) where
  stored_within :
      (c : Connection) (n : ℕ)
      → BodyIsSound c
      → let remain = size_sub (length c.request_body) c.request_body_read_length in
        size_add c.request_body_read_length (min remain n) ≤ length c.request_body
  stored_within c n s = let w = s.within in let f = s.fits in omega arith

  read_body-kept :
      (c : Connection) (n : ℕ) (r : Read) → read_body client c n ≡ some r → P c → P r.connection
  unfolding read_stored_body read_body
  read_body-kept c n r e p = elim (Option-cases c.read_body_callback) [
    | inl own ↦
        after_copy-kept allowed P kept c _ _ r (rw (own, read_body) at e) (stored_within c n) p
    | inr (f, its) ↦
        subst (λ x. P x.connection) (some_eq (rw (its, read_body) at e))
          (Calls-kept allowed P kept c _ (public.read_body f c n) p)
  ]

  if-kept :
      (b : Bool) (x y : Connection × Bool) → (b ≡ true → P x.0) → P y.0 → P (if b then x else y).0
  if-kept true x y p q = p refl
  if-kept false x y p q = q

  seek_stored_body-kept :
      (c : Connection) (origin : SeekOrigin) (offset : ℤ)
      → P c
      → P (seek_stored_body c origin offset).0
  unfolding seek_stored_body
  seek_stored_body-kept c origin offset p =
      let to = size_add (original_position c origin) (size_of_off offset) in
      if-kept (leb to (length c.request_body)) _ (c, false)
        (λ fit.
          kept.received c to c.error_buffer c.response_header c.response_body
            (λ s. leb→le to (length c.request_body) fit) p)
        p

  seek_body-kept :
      (c : Connection) (origin : SeekOrigin) (offset : ℤ)
      → P c
      → P (seek_body client c origin offset).0
  unfolding seek_body
  seek_body-kept c origin offset p = elim (Option-cases c.read_body_callback) [
    | inl own ↦ rw (own, seek_body) (seek_stored_body-kept c origin offset p)
    | inr (f, its) ↦ elim (Option-cases c.seek_body_callback) [
      | inl no_seek ↦ rw (its, seek_body) (rw no_seek p)
      | inr (g, can) ↦
          rw (its, seek_body)
            (rw can (Calls-kept allowed P kept c _ (public.seek_body g c origin offset) p))
    ]
  ]

  write_header-kept : (c : Connection) (header : Bytes) → P c → P (write_header client c header).0
  unfolding write_header
  write_header-kept c header p = elim (Option-cases c.write_header_callback) [
    | inl own ↦
        rw (own, write_header)
          (kept.received c c.request_body_read_length c.error_buffer (c.response_header ++ header)
            c.response_body (λ s. s.within) p)
    | inr (f, its) ↦
        rw (its, write_header) (Calls-kept allowed P kept c _ (public.write_header f c header) p)
  ]

  write_body-kept : (c : Connection) (body : Bytes) → P c → P (write_body client c body).0
  unfolding write_body
  write_body-kept c body p = elim (Option-cases c.write_body_callback) [
    | inl own ↦
        rw (own, write_body)
          (kept.received c c.request_body_read_length c.error_buffer c.response_header
            (c.response_body ++ body) (λ s. s.within) p)
    | inr (f, its) ↦
        rw (its, write_body) (Calls-kept allowed P kept c _ (public.write_body f c body) p)
  ]

  progress-kept : (c : Connection) (a b x y : ℤ) → P c → P (progress client c a b x y).0
  unfolding progress
  progress-kept c a b x y p = elim (Option-cases c.progress_callback) [
    | inl own ↦ rw (own, progress) p
    | inr (f, its) ↦
        rw (its, progress) (Calls-kept allowed P kept c _ (public.progress f c a b x y) p)
  ]

  debug-kept :
      (c : Connection) (type : DebugDataType) (bytes : Bytes) → P c → P (debug client c type bytes)
  unfolding debug
  debug-kept c type bytes p = elim (Option-cases c.debug_callback) [
    | inl own ↦ rw (own, debug) p
    | inr (f, its) ↦ rw (its, debug) (Calls-kept allowed P kept c _ (public.debug f c type bytes) p)
  ]

  curl_read_body_callback-kept :
      (c : Connection) (size nitems : ℕ) (c' : Connection) (reply : Reply) (bytes : Bytes)
      → curl_read_body_callback client c size nitems ≡ some (c', reply, bytes)
      → P c
      → P c'
  unfolding curl_read_body_callback
  curl_read_body_callback-kept c size nitems c' reply bytes e p =
      elim (Option-cases (read_body client c (size_mul size nitems))) [
        | inl out ↦ absurd (cc (rw (out, curl_read_body_callback) at e))
        | inr (r, here) ↦
            subst P (ap (λ x. x.0) (some_eq (rw (here, curl_read_body_callback) at e)))
              (read_body-kept c (size_mul size nitems) r here p)
      ]

  curl_seek_body_callback-kept :
      (c : Connection) (offset : ℤ) (origin : Whence)
      → P c
      → P (curl_seek_body_callback client c offset origin).0
  unfolding curl_seek_body_callback
  curl_seek_body_callback-kept c offset origin p = elim (Option-cases (seek_origin origin)) [
    | inl refused ↦ rw (refused, curl_seek_body_callback) p
    | inr (o, known) ↦ rw (known, curl_seek_body_callback) (seek_body-kept c o offset p)
  ]

  pub transfer-kept :
      (c : Connection) (t : Transfer) (c' : Connection) (reply : Reply) (bytes : Bytes)
      → transfer client c t ≡ some (c', reply, bytes)
      → P c
      → P c'
  unfolding transfer curl_write_header_callback curl_write_body_callback curl_progress_callback
      curl_debug_callback
  transfer-kept c (reads size nitems) c' reply bytes e p =
      curl_read_body_callback-kept c size nitems c' reply bytes e p
  transfer-kept c (seeks offset origin) c' reply bytes e p =
      subst P (ap (λ x. x.0) (some_eq e)) (curl_seek_body_callback-kept c offset origin p)
  transfer-kept c (writes_header buffer size nitems) c' reply bytes e p =
      subst P (ap (λ x. x.0) (some_eq e))
        (write_header-kept c (take (size_mul size nitems) buffer) p)
  transfer-kept c (writes_body buffer size nmemb) c' reply bytes e p =
      subst P (ap (λ x. x.0) (some_eq e)) (write_body-kept c (take (size_mul size nmemb) buffer) p)
  transfer-kept c (progresses a b x y) c' reply bytes e p =
      subst P (ap (λ x. x.0) (some_eq e)) (progress-kept c a b x y p)
  transfer-kept c (debugs type bytes') c' reply bytes e p =
      subst P (ap (λ x. x.0) (some_eq e)) (debug-kept c _ bytes' p)
  transfer-kept c (reports_error message) c' reply bytes e p = subst P (ap (λ x. x.0) (some_eq e)) (
      kept.received c c.request_body_read_length message c.response_header c.response_body
        (λ s. s.within) p)

  pub transfers-kept :
      (c : Connection) (ts : List Transfer) (c' : Connection) (answers : List (Reply × Bytes))
      → transfers client c ts ≡ some (c', answers)
      → P c
      → P c'
  unfolding transfers
  transfers-kept c [] c' answers e p = subst P (ap (λ x. x.0) (some_eq e)) p
  transfers-kept c (t ∷ ts) c' answers e p = elim (Option-cases (transfer client c t)) [
    | inl out ↦ absurd (cc (rw (out, transfers) at e))
    | inr ((d, reply, bytes), one) ↦
        let q = transfer-kept c t d reply bytes one p in
        let e' = rw (one, transfers) at e in
        elim (Option-cases (transfers client d ts)) [
          | inl out ↦ absurd (cc (rw (out, transfers) at e'))
          | inr ((d', more), rest) ↦
              subst P (ap (λ x. x.0) (some_eq (rw rest at e'))) (transfers-kept d ts d' more rest q)
        ]
  ]
