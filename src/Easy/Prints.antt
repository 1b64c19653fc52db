-- ===== src/Easy/Prints.antt =====
-- What example/easy.cpp prints.
use curlion.Common.{
  ℕ, ◌≤◌, ◌≡◌, refl, sym, ap, ◌∙◌, false, some, List, [], ◌∷◌, ◌++◌, append_assoc, append-nil,
  Bytes, length, arith, size_mul, take,
}
use curlion.Curl.{Reply, CurlCode, count}
use curlion.Connection.State.{Connection, Client, new, will_start, did_finish, finish}
use curlion.Connection.Body.{write_body}
use curlion.Connection.Callbacks.{Transfer, writes_body, transfer, curl_write_body_callback}
use curlion.Connection.Reading.{BodyIsSound}
use curlion.Connection.Quiet.{IsBodyOnly, is_body, headers_of, bodies_of, left, step_other}
use curlion.Connection.Response.{headers_of-cons, bodies_of-cons}
use curlion.Easy.State.{Program, client_of, hear, perform, example_connection, main}

-- One call: the response header grows, the response body does not, and the global has the piece.
abbrev Hears : Client → Bytes → Connection → Transfer → Type 0
Hears others g_body c t =
    (at : ℕ) × (message : Bytes) × (reply : Reply) × (bytes : Bytes) × (at ≤ length c.request_body)
    × (transfer (client_of others g_body) c t
        ≡ some (
          left c at message (c.response_header ++ headers_of (t ∷ [])) c.response_body,
          reply,
          bytes,
        ))
    × (hear g_body c t ≡ g_body ++ bodies_of (t ∷ []))

quiet-bodies_of : (t : Transfer) → is_body t ≡ false → bodies_of (t ∷ []) ≡ []
quiet-bodies_of (writes_body buffer size nmemb) e = absurd (cc)
quiet-bodies_of t e = refl

quiet-append :
    (t : Transfer) → is_body t ≡ false → (text : Bytes) → text ++ bodies_of (t ∷ []) ≡ text
quiet-append t e text = ap (λ b. text ++ b) (quiet-bodies_of t e) ∙ append-nil text

quiet-hear :
    (g_body : Bytes) (c : Connection) (t : Transfer) → is_body t ≡ false → hear g_body c t ≡ g_body
unfolding hear
quiet-hear g_body c (writes_body buffer size nmemb) e = absurd (cc)
quiet-hear g_body c t e = refl

module _ (others : Client) (g_body : Bytes) (c : Connection) (f : ℕ) (q : IsBodyOnly c)
    (s : BodyIsSound c) (set : c.write_body_callback ≡ some f) where
  Hears-other : (t : Transfer) → is_body t ≡ false → Hears others g_body c t
  Hears-other t e =
      let (at, message, reply, bytes, within, run) =
        step_other (client_of others g_body) c q s t e in
      (
        at,
        message,
        reply,
        bytes,
        within,
        run
            ∙ ap
                (λ b.
                  some
                    (left c at message (c.response_header ++ headers_of (t ∷ [])) b, reply, bytes))
                (quiet-append t e c.response_body),
        quiet-hear g_body c t e ∙ sym (quiet-append t e g_body),
      )

  Hears-all : (t : Transfer) → Hears others g_body c t
  unfolding transfer curl_write_body_callback write_body client_of hear
  Hears-all (writes_body buffer size nmemb) = (
    c.request_body_read_length,
    c.error_buffer,
    count (size_mul size nmemb),
    [],
    s.within,
    ground (arith, set, append-nil c.response_header),
    ground (arith, set, append-nil (take (size_mul size nmemb) buffer)),
  )
  Hears-all t = Hears-other t refl

module _ (others : Client) where
  perform_lem :
      (g_body : Bytes) (c : Connection) (f : ℕ) (ts : List Transfer)
      → IsBodyOnly c
      → BodyIsSound c
      → c.write_body_callback ≡ some f
      → (at : ℕ) × (message : Bytes) × (perform others
            (record { g_body = g_body; connection = c })
            ts
          ≡ some (record {
            g_body = g_body ++ bodies_of ts;
            connection = left c at message (c.response_header ++ headers_of ts) c.response_body;
          }))
  unfolding perform
  perform_lem g_body c f [] q s set = (
    c.request_body_read_length,
    c.error_buffer,
    ground (arith, append-nil c.response_header, append-nil g_body),
  )
  perform_lem g_body c f (t ∷ ts) q s set =
      let (at, message, reply, bytes, within, run, heard) = Hears-all others g_body c f q s set t in
      let c' = left c at message (c.response_header ++ headers_of (t ∷ [])) c.response_body in
      let (at', message', rest) =
        perform_lem (g_body ++ bodies_of (t ∷ [])) c' f ts
          (record {
            no_read = q.no_read;
            no_header = q.no_header;
            no_progress = q.no_progress;
            no_debug = q.no_debug;
          })
          (record { within = within; fits = s.fits }) set in
      (
        at',
        message',
        rw
            (
              headers_of-cons t ts,
              bodies_of-cons t ts,
              ← append_assoc c.response_header (headers_of (t ∷ [])) (headers_of ts),
              ← append_assoc g_body (bodies_of (t ∷ [])) (bodies_of ts),
            )
            (rw (run, perform) (rw heard rest)),
      )

  -- Whatever calls libcurl makes in whatever order, and whatever code it ends with: `main` reads
  -- nothing out of bounds and prints that code and exactly the pieces of the body, in order. The
  -- connection is not running then, has the header, and has not kept the body.
  pub main-bodies_of :
      (ts : List Transfer) (result : CurlCode)
      → (p : Program) × (main others ts result ≡ some (p, result, bodies_of ts))
        × (p.connection.is_running ≡ false)
        × (p.connection.response_header ≡ headers_of ts)
        × (p.connection.response_body ≡ [])
  unfolding main did_finish finish example_connection will_start new
  main-bodies_of ts result =
      let c = will_start example_connection in
      let (at, message, run) =
        perform_lem [] c 0 ts
          (record { no_read = refl; no_header = refl; no_progress = refl; no_debug = refl })
          (record { within = omega arith; fits = omega arith }) refl in
      let ended = finish (left c at message (headers_of ts) []) result in
      (record { g_body = bodies_of ts; connection = ended }, rw (run, main) refl, refl, refl, refl)
