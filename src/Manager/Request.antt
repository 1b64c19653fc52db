-- ===== src/Manager/Request.antt =====
-- A whole request of a connection that a manager runs, from `StartConnection` to the message that its
-- transfer is done.
use curlion.Common.{
  ℕ, ◌<◌, ◌≡◌, refl, sym, ap, ◌∙◌, Bool, true, false, Option, none, some, List, [], ◌∷◌, ◌++◌,
  Bytes, length, arith, size_mod, some_eq, Option-cases, inl, inr,
}
use curlion.Curl.{Reply, code}
use curlion.Connection.State.{Connection, Client, will_start, reset_response_states}
use curlion.Connection.Callbacks.{Transfer, transfer, transfers, transfers-cons}
use curlion.Connection.Reading.{BodyIsSound}
use curlion.Connection.Quiet.{IsQuiet, headers_of, bodies_of}
use curlion.Connection.Response.{transfers_quiet}
use curlion.Http.State.{HttpConnection, on_base, will_start_http}
use curlion.Manager.Table.{find}
use curlion.Manager.State.{
  MultiLibrary, AnyConnection, plain, http, World, Handlers, Message, base_of, map_base,
  will_start_any, set_socket_options, change_object,
}
use curlion.Manager.Cases.{prepare, prepared}
use curlion.Manager.Step.{start_connection, add_running, handle_message}
use curlion.Manager.Registered.{Consistent}
use curlion.Manager.Consistent.{change_object_self}
use curlion.Manager.Behaviour.{
  registered, add_code, start_fresh, add_running-code, added_table, after_add_done,
}
use curlion.Manager.Finishing.{ended, notified, stop-fields, ended-state, handle_message_done}

-- libcurl has made the calls `ts` on the connection at `a`, in this order. Whatever else has happened
-- meanwhile left that connection alone.
pub data Progress (lib : MultiLibrary) (client : Client) (a : ℕ) (w : World lib)
    : List Transfer → World lib → Type 0 where
  begun : Progress lib client a w [] w
  called :
      {ts : List Transfer} {u : World lib} (t : Transfer) (c : Connection) (reply : Reply)
      (bytes : Bytes)
      → Progress lib client a w ts u
      → transfer client (base_of (u.objects a).state) t ≡ some (c, reply, bytes)
      → Progress lib client a w (ts ++ t ∷ []) (change_object lib a (map_base (λ old. c)) u)
  meanwhile :
      {ts : List Transfer} {u : World lib} (v : World lib)
      → Progress lib client a w ts u
      → v.objects a ≡ u.objects a
      → Progress lib client a w ts v

transfers-snoc :
    (client : Client) (ts : List Transfer) (t : Transfer) (c c' c'' : Connection)
    (answers : List (Reply × Bytes)) (reply : Reply) (bytes : Bytes)
    → transfers client c ts ≡ some (c', answers)
    → transfer client c' t ≡ some (c'', reply, bytes)
    → (all : List (Reply × Bytes)) × (transfers client c (ts ++ t ∷ []) ≡ some (c'', all))
unfolding transfers
transfers-snoc client [] t c c' c'' answers reply bytes run last =
    let same : c ≡ c' = ap (λ x. x.0) (some_eq run) in
    (
      (reply, bytes) ∷ [],
      transfers-cons client c t [] (ap (λ x. transfer client x t) same ∙ last) refl,
    )
transfers-snoc client (first ∷ ts) t c c' c'' answers reply bytes run last =
    elim (Option-cases (transfer client c first)) [
      | inl out ↦ absurd (cc (rw (out, transfers) at run))
      | inr ((d, r, b), one) ↦ elim (Option-cases (transfers client d ts)) [
        | inl out ↦ absurd (cc (rw (out, transfers) at (rw (one, transfers) at run)))
        | inr ((d', more), rest) ↦
            let same : d' ≡ c' =
              ap (λ x. x.0) (some_eq (rw rest at (rw (one, transfers) at run))) in
            let (all, end) =
              transfers-snoc client ts t d c' c'' more reply bytes
                (rest ∙ ap (λ x. some (x, more)) same) last in
            ((r, b) ∷ all, transfers-cons client c first (ts ++ t ∷ []) one end)
      ]
    ]

pub base_of-map_base : (c : Connection) (o : AnyConnection) → base_of (map_base (λ old. c) o) ≡ c
unfolding base_of map_base
base_of-map_base c (plain d) = refl
base_of-map_base c (http h) = refl

module _ (lib : MultiLibrary) (client : Client) (a : ℕ) where
  Progress-transfers :
      {w u : World lib} {ts : List Transfer}
      → Progress lib client a w ts u
      → (answers : List (Reply × Bytes)) × (transfers client (base_of (w.objects a).state) ts
          ≡ some (base_of (u.objects a).state, answers))
  unfolding transfers
  Progress-transfers begun = ([], refl)
  Progress-transfers {w} (called {ts} {u} t c reply bytes p run) =
      let (answers, before) = Progress-transfers p in
      let (all, after) = transfers-snoc client ts t _ _ c answers reply bytes before run in
      let state =
        ap (λ x. base_of x.state) (change_object_self lib a (map_base (λ old. c)) u)
        ∙ base_of-map_base c (u.objects a).state in
      (all, after ∙ ap (λ x. some (x, all)) (sym state))
  Progress-transfers (meanwhile v p same) =
      let (answers, run) = Progress-transfers p in
      (answers, run ∙ ap (λ x. some (base_of x.state, answers)) (sym same))

-- What a start makes of a connection, plain or HTTP.
record IsBegun (callback : Option ℕ) (d : Connection) : Type 0 where
  quiet : IsQuiet d
  sound : BodyIsSound d
  header : d.response_header ≡ []
  body : d.response_body ≡ []
  finished : d.finished_callback ≡ callback

begin_same :
    (with_factory : Bool) (c : Connection)
    → IsQuiet c
    → length c.request_body < size_mod
    → IsBegun c.finished_callback (will_start (set_socket_options with_factory c))
unfolding set_socket_options will_start
begin_same true c q fits = record {
  quiet = record {
    no_read = q.no_read;
    no_header = q.no_header;
    no_body = q.no_body;
    no_progress = q.no_progress;
    no_debug = q.no_debug;
  };
  sound = record { within = omega arith; fits = fits };
  header = refl;
  body = refl;
  finished = refl;
}
begin_same false c q fits = record {
  quiet = record {
    no_read = q.no_read;
    no_header = q.no_header;
    no_body = q.no_body;
    no_progress = q.no_progress;
    no_debug = q.no_debug;
  };
  sound = record { within = omega arith; fits = fits };
  header = refl;
  body = refl;
  finished = refl;
}

begin-http :
    (f : Connection → Connection) (h : HttpConnection)
    → (will_start_http (on_base f h)).base ≡ will_start (f h.base)
unfolding will_start_http will_start reset_response_states on_base
begin-http f h = refl

prepare-IsBegun :
    (lib : MultiLibrary) (w : World lib) (o : AnyConnection)
    → IsQuiet (base_of o)
    → length (base_of o).request_body < size_mod
    → IsBegun (base_of o).finished_callback (base_of (prepare lib w o))
unfolding base_of map_base will_start_any
prepare-IsBegun lib w (plain c) q fits = begin_same w.has_socket_factory c q fits
prepare-IsBegun lib w (http h) q fits =
    rw (begin-http (set_socket_options w.has_socket_factory) h)
      (begin_same w.has_socket_factory h.base q fits)

module _ (lib : MultiLibrary) (handlers : Handlers lib) where
  -- A connection without callbacks, with a body whose length is a `size_t`, that is not registered and
  -- that libcurl accepts. Whatever calls `ts` libcurl makes on it from then on, and whatever else
  -- happens meanwhile that leaves it alone: when a message says that its transfer is done, in a
  -- consistent world where it is registered for the message's handle, it is unregistered, not
  -- running, and has the code and exactly the header and the body of this transfer, and still the
  -- finished callback that it was started with; and then this callback is called, if there is one.
  pub start_connection-handle_message :
      (client : Client) (a : ℕ) (w u : World lib) (ts : List Transfer) (msg : Message)
      → registered lib a w ≡ none
      → add_code lib a w ≡ 0
      → IsQuiet (base_of (w.objects a).state)
      → length (base_of (w.objects a).state).request_body < size_mod
      → Progress lib client a (start_connection lib a w).0 ts u
      → Consistent lib u
      → msg.is_done ≡ true
      → find msg.easy_handle u.running_connections ≡ some a
      → let v = ended lib handlers msg a u in
        let c = base_of (v.objects a).state in
        (handle_message lib handlers msg u
          ≡ notified lib handlers (base_of (w.objects a).state).finished_callback a v)
        × (registered lib a v ≡ none)
        × (c.is_running ≡ false)
        × (c.result ≡ code msg.result)
        × (c.response_header ≡ headers_of ts)
        × (c.response_body ≡ bodies_of ts)
        × (c.finished_callback ≡ (base_of (w.objects a).state).finished_callback)
  start_connection-handle_message client a w u ts msg fresh accepted q fits p consistent done
        found =
      let r = add_running lib a (prepared lib a w) in
      let begun_world =
        start_fresh lib a w fresh
        ∙ after_add_done lib (w.objects a).easy r (add_running-code lib a w ∙ accepted) in
      let (t, o) = added_table lib a w in
      let state : ((start_connection lib a w).0.objects a).state
          ≡ prepare lib w (w.objects a).state =
        ap (λ x. (x.0.objects a).state) begun_world
        ∙ ap (λ x. (x a).state) o
        ∙ ap (λ x. x.state) (change_object_self lib a (prepare lib w) w) in
      let b = prepare-IsBegun lib w (w.objects a).state q fits in
      let (answers, run) = Progress-transfers lib client a p in
      let (at, message, others, within, quiet_run) =
        transfers_quiet client (base_of (prepare lib w (w.objects a).state)) ts b.quiet b.sound in
      let left_behind =
        ap (λ x. x.0)
          (some_eq (sym run ∙ ap (λ x. transfers client (base_of x) ts) state ∙ quiet_run)) in
      let (handled, gone, idle, result, _) =
        handle_message_done lib handlers msg a u consistent done found in
      let end = ended-state lib handlers msg a u in
      let (_, _, header, body, callback) = stop-fields msg.result (u.objects a).state in
      let kept = ap (λ x. x.finished_callback) left_behind ∙ b.finished in
      (
        handled ∙ ap (λ f. notified lib handlers f a (ended lib handlers msg a u)) kept,
        gone,
        idle,
        result,
        ap (λ x. (base_of x).response_header) end
            ∙ header
            ∙ ap (λ x. x.response_header) left_behind
            ∙ rw b.header,
        ap (λ x. (base_of x).response_body) end
            ∙ body
            ∙ ap (λ x. x.response_body) left_behind
            ∙ rw b.body,
        ap (λ x. (base_of x).finished_callback) end ∙ callback ∙ kept,
      )
