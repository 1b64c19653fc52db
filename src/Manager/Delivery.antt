-- ===== src/Manager/Delivery.antt =====
-- Every transfer that libcurl reports as done ends its connection, in the check that follows.
use curlion.Common.{
  ℕ, zero, suc, ◌<◌, ◌≡◌, refl, sym, ap, subst, ◌∙◌, Bool, true, false, Option, none, some, List,
  [], ◌∷◌, if◌then◌else◌, arith, length, Bool-cases, some_eq, ◌⊎◌, inl, inr,
}
use curlion.Manager.Table.{find}
use curlion.Manager.State.{MultiLibrary, AnyConnection, World, Handlers, Message, Select, base_of}
use curlion.Curl.{code}
use curlion.Manager.Finishing.{stop-fields}
use curlion.Manager.Step.{run_callbacks, handle_message, check_finished_connections, act}
use curlion.Manager.Registered.{Consistent}
use curlion.Manager.Consistent.{
  run_callbacks-same, run_callbacks-Consistent, handle_message-Consistent,
}
use curlion.Manager.Queue.{QueueLaws, outcome, queued, run_callbacks-queued}
use curlion.Manager.Round.{state_of_entry, AsksNothing, hits, handle_message-Round}

-- A connection's entry, and the connection, behind a check: with no message that its transfer is
-- done, and with a code that the first such message has.
abbrev pub entry_after : Option ℕ → ℕ → Option ℕ
entry_after none a = some a
entry_after (some result) a = none

abbrev pub IsSettled : Option ℕ → AnyConnection → AnyConnection → Type 0
IsSettled none o o' = o' ≡ o
IsSettled (some result) o o' =
    ((base_of o').is_running ≡ false)
    × ((base_of o').result ≡ code result)
    × ((base_of o').response_header ≡ (base_of o).response_header)
    × ((base_of o').response_body ≡ (base_of o).response_body)

abbrev is_some : Option ℕ → Bool
is_some none = false
is_some (some n) = true

abbrev settled_state : Option ℕ → Option ℕ → AnyConnection → AnyConnection
settled_state none entry o = o
settled_state (some result) entry o = state_of_entry entry result o

kept : {o : Option ℕ} (gone : Bool) (d : ℕ) → (if gone then none else o) ≡ some d → o ≡ some d
kept true d h = cc
kept false d h = h

entry_settled : (o : Option ℕ) (a : ℕ) → (if is_some o then none else some a) ≡ entry_after o a
entry_settled none a = refl
entry_settled (some r) a = refl

settled_state-IsSettled :
    (o : Option ℕ) (a : ℕ) (x : AnyConnection) → IsSettled o x (settled_state o (some a) x)
settled_state-IsSettled none a x = refl
settled_state-IsSettled (some result) a x =
    let (idle, same, header, body, _) = stop-fields result x in (idle, same, header, body)

queue_cases :
    (ms : List Message) → (ms ≡ []) ⊎ ((m : Message) × (rest : List Message) × (ms ≡ m ∷ rest))
queue_cases [] = inl refl
queue_cases (m ∷ ms) = inr (m, ms, refl)

module _ (lib : MultiLibrary) (laws : QueueLaws lib) where
  module _ (handlers : Handlers lib) (silent : AsksNothing lib handlers) where
    -- What a whole check leaves of the handle `e` and of its connection.
    abbrev Settled : ℕ → ℕ → World lib → World lib → Type 0
    Settled e a w w' =
        (find e w'.running_connections ≡ (
          if is_some (outcome e (queued lib laws w)) then none else find e w.running_connections))
        × ((w'.objects a).state
            ≡ settled_state (outcome e (queued lib laws w)) (find e w.running_connections)
                (w.objects a).state)

    check_settles :
        (fuel e a : ℕ) (w : World lib)
        → length (queued lib laws w) < fuel
        → Consistent lib w
        → (w.objects a).easy ≡ e
        → ((c : ℕ) → find e w.running_connections ≡ some c → c ≡ a)
        → (w' : World lib) × (check_finished_connections lib handlers fuel w ≡ some w')
          × Settled e a w w'
    unfolding check_finished_connections
    check_settles zero e a w h c own only = elim h [ ]
    check_settles (suc fuel) e a w h c own only = elim (queue_cases (queued lib laws w)) [
      | inl empty ↦ (
        record w { multi_handle = (lib.info_read w.multi_handle).0 },
        rw (laws.read_none w.multi_handle empty, check_finished_connections),
        (rw empty, rw empty),
      )
      | inr (msg, rest, more) ↦
          let (first, left) = laws.read_first w.multi_handle msg rest more in
          let read : World lib = record w { multi_handle = (lib.info_read w.multi_handle).0 } in
          let round = handle_message-Round lib laws handlers silent msg e a read c own only in
          let (w', run, (entry, state)) =
            check_settles fuel e a (handle_message lib handlers msg read)
              (omega (arith, round.rest, ap length left, ap length more))
              (handle_message-Consistent lib handlers msg read c) (round.easy ∙ own)
              (λ d there.
                only d (kept (hits lib laws handlers silent e msg) d (sym round.entry ∙ there))) in
          let others =
            round.others
            ∙ ap (λ ms. if hits lib laws handlers silent e msg then none else outcome e ms) left in
          (
            w',
            rw (first, check_finished_connections) run,
            elim (Bool-cases (hits lib laws handlers silent e msg)) [
              | inl hit ↦ (
                rw (more, hit) (entry ∙ rw (others, round.entry, hit)),
                rw (more, hit) (state ∙ rw (others, round.entry, round.state, hit)),
              )
              | inr miss ↦ (
                rw (more, miss) (entry ∙ rw (others, round.entry, miss)),
                rw (more, miss) (state ∙ rw (others, round.entry, round.state, miss)),
              )
            ],
          )
    ]

    -- libcurl keeps its messages in a queue as it documents (`QueueLaws`), and the finished callbacks
    -- ask for nothing. A connection that is registered in a consistent world, whatever the timer or a
    -- socket brings, with more fuel than libcurl then has messages: the check ends, and if one of
    -- these messages says that the connection's transfer is done, then behind the check it is not
    -- registered, not running, has the code of the first such message, and the header and the body
    -- that it had; and else it is registered and unchanged.
    pub act_settles :
        (fuel e a : ℕ) (s : Option ℕ) (events : Select) (w : World lib)
        → Consistent lib w
        → find e w.running_connections ≡ some a
        → length (laws.queue (lib.socket_action s events w.multi_handle).0) < fuel
        → let done = outcome e (laws.queue (lib.socket_action s events w.multi_handle).0) in
          (w' : World lib) × (act lib handlers fuel s events w ≡ some w')
          × (find e w'.running_connections ≡ entry_after done a)
          × IsSettled done (w.objects a).state (w'.objects a).state
    unfolding act
    act_settles fuel e a s events w c here h =
        let (multi, callbacks) = lib.socket_action s events w.multi_handle in
        let acted = record w { multi_handle = multi } in
        let v = run_callbacks lib callbacks acted in
        let (t, o) = run_callbacks-same lib callbacks acted in
        let q = run_callbacks-queued lib laws callbacks acted in
        let there = ap (find e) t ∙ here in
        let (w', run, (entry, state)) =
          check_settles fuel e a v (omega (arith, ap length q))
            (run_callbacks-Consistent lib callbacks acted
              (record { distinct = c.distinct; located = c.located; running = c.running }))
            (ap (λ x. (x a).easy) o ∙ c.located e a here) (λ d k. some_eq (sym k ∙ there)) in
        (
          w',
          run,
          entry ∙ rw (q, there) (entry_settled (outcome e (laws.queue multi)) a),
          subst (IsSettled (outcome e (laws.queue multi)) (w.objects a).state)
              (sym (state ∙ rw (q, there, o) refl))
              (settled_state-IsSettled (outcome e (laws.queue multi)) a (w.objects a).state),
        )
