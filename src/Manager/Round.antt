-- ===== src/Manager/Round.antt =====
-- What a message does to one connection, if the finished callbacks ask for nothing.
use curlion.Common.{
  ℕ, ◌≤◌, ◌≡◌, refl, sym, ap, subst, ◌∙◌, Bool, true, false, ◌&&◌, Option, none, some, [], ◌==◌,
  if◌then◌else◌, arith, length, Bool-cases, Option-cases, inl, inr, eqb_iff, ne→eqb,
}
use curlion.Manager.Table.{find, erase, find-erase}
use curlion.Manager.State.{
  MultiLibrary, AnyConnection, World, Handlers, Message, base_of, change_object,
}
use curlion.Manager.Cases.{stop, erased, finished}
use curlion.Manager.Step.{remove_running, run_requests, did_finish_at, handle_message}
use curlion.Manager.Registered.{Consistent}
use curlion.Manager.Consistent.{
  remove_running-same, easy-change_object, change_object_self, change_object_other,
}
use curlion.Manager.Finishing.{notified, handle_done, did_finish_at-notified}
use curlion.Manager.Queue.{
  QueueLaws, outcome, outcome-without, length-without, queued, remove_running-queued,
}

abbrev pub state_of_entry : Option ℕ → ℕ → AnyConnection → AnyConnection
state_of_entry none result o = o
state_of_entry (some a) result o = stop result o

-- Finished callbacks that neither start nor abort a connection.
abbrev pub AsksNothing : (lib : MultiLibrary) → Handlers lib → Type 0
AsksNothing lib handlers = (f a : ℕ) (w : World lib) → handlers f a w ≡ []

module _ (lib : MultiLibrary) (laws : QueueLaws lib) where
  module _ (handlers : Handlers lib) (silent : AsksNothing lib handlers) where
    silent_notified : (f : Option ℕ) (a : ℕ) (w : World lib) → notified lib handlers f a w ≡ w
    unfolding run_requests
    silent_notified none a w = refl
    silent_notified (some f) a w = rw (silent f a w)

    did_finish_at-silent :
        (a result : ℕ) (w : World lib)
        → did_finish_at lib handlers a result w ≡ finished lib handlers a result w
    did_finish_at-silent a result w =
        did_finish_at-notified lib handlers a result w
        ∙ silent_notified (base_of (w.objects a).state).finished_callback a
            (finished lib handlers a result w)

    -- Whether a message ends the transfer of the handle `e`.
    abbrev pub hits : ℕ → Message → Bool
    hits e msg = msg.is_done && (msg.easy_handle == e)

    -- What a round does to the queue, and to the handle `e` of the connection at `a`.
    pub record Round (msg : Message) (e a : ℕ) (w w' : World lib) : Type 0 where
      pub rest : length (queued lib laws w') ≤ length (queued lib laws w)
      pub others :
          outcome e (queued lib laws w')
          ≡ (if hits e msg then none else outcome e (queued lib laws w))
      pub entry :
          find e w'.running_connections
          ≡ (if hits e msg then none else find e w.running_connections)
      pub easy : (w'.objects a).easy ≡ (w.objects a).easy
      pub state : (w'.objects a).state ≡ (
          if hits e msg
          then state_of_entry (find e w.running_connections) msg.result (w.objects a).state
          else (w.objects a).state)

    finished-Round :
        (msg : Message) (e a b : ℕ) (w : World lib)
        → Consistent lib w
        → (w.objects a).easy ≡ e
        → ((c : ℕ) → find e w.running_connections ≡ some c → c ≡ a)
        → msg.is_done ≡ true
        → find msg.easy_handle w.running_connections ≡ some b
        → Round msg e a w (
            finished lib handlers b msg.result
              (erased lib msg.easy_handle (remove_running lib msg.easy_handle w).0))
    unfolding change_object
    finished-Round msg e a b w c own only done found =
        let k = msg.easy_handle in
        let removed = (remove_running lib k w).0 in
        let u = erased lib k removed in
        let (t, o) = remove_running-same lib k w in
        let q = remove_running-queued lib laws k w in
        record {
          rest = omega (arith, ap length q, length-without k (queued lib laws w));
          others = ap (outcome e) q ∙ outcome-without e k (queued lib laws w) ∙ ground arith;
          entry =
              ap (λ x. find e (erase k x)) t
              ∙ find-erase e k w.running_connections c.distinct
              ∙ ground arith;
          easy = easy-change_object lib b (stop msg.result) u a ∙ ap (λ x. (x a).easy) o;
          state = elim (Bool-cases (k == e)) [
            | inl same ↦
                let found' =
                  ap (λ x. find x w.running_connections) (sym ((eqb_iff k e).0 same)) ∙ found in
                rw (
                  done,
                  same,
                  found',
                  only b found',
                  change_object_self lib a (stop msg.result) u,
                  o,
                )
            | inr other ↦
                let apart : (b == a) ≡ false = ne→eqb b a (λ h.
                  let same = sym (c.located k b found) ∙ ap (λ x. (w.objects x).easy) h ∙ own in
                  cc ((eqb_iff k e).1 same)) in
                rw (done, other, change_object_other lib b (stop msg.result) u a apart, o)
          ];
        }

    handle_other :
        (msg : Message) (w : World lib)
        → msg.is_done ≡ false
        → handle_message lib handlers msg w ≡ w
    unfolding handle_message
    handle_other msg w other = rw (other, handle_message)

    handle_unknown :
        (msg : Message) (w : World lib)
        → msg.is_done ≡ true
        → find msg.easy_handle (remove_running lib msg.easy_handle w).0.running_connections ≡ none
        → handle_message lib handlers msg w ≡ (remove_running lib msg.easy_handle w).0
    unfolding handle_message
    handle_unknown msg w done unknown = rw (done, handle_message) (rw unknown)

    unknown-Round :
        (msg : Message) (e a : ℕ) (w : World lib)
        → msg.is_done ≡ true
        → find msg.easy_handle w.running_connections ≡ none
        → Round msg e a w (remove_running lib msg.easy_handle w).0
    unknown-Round msg e a w done unknown =
        let k = msg.easy_handle in
        let (t, o) = remove_running-same lib k w in
        let q = remove_running-queued lib laws k w in
        let absent : (k == e) ≡ true → find e w.running_connections ≡ none =
          λ same. ap (λ x. find x w.running_connections) (sym ((eqb_iff k e).0 same)) ∙ unknown in
        record {
          rest = omega (arith, ap length q, length-without k (queued lib laws w));
          others = ap (outcome e) q ∙ outcome-without e k (queued lib laws w) ∙ ground arith;
          entry = ap (find e) t ∙ ground (arith, absent);
          easy = ap (λ x. (x a).easy) o;
          state = ap (λ x. (x a).state) o ∙ elim (Bool-cases (k == e)) [
            | inl same ↦ rw (done, same, absent same)
            | inr other ↦ rw (done, other)
          ];
        }

    pub handle_message-Round :
        (msg : Message) (e a : ℕ) (w : World lib)
        → Consistent lib w
        → (w.objects a).easy ≡ e
        → ((c : ℕ) → find e w.running_connections ≡ some c → c ≡ a)
        → Round msg e a w (handle_message lib handlers msg w)
    handle_message-Round msg e a w c own only =
        let removed = (remove_running lib msg.easy_handle w).0 in
        let (t, o) = remove_running-same lib msg.easy_handle w in
        elim (Bool-cases msg.is_done) [
          | inr other ↦ subst (Round msg e a w) (sym (handle_other msg w other)) (record {
            rest = omega arith;
            others = rw other;
            entry = rw other;
            easy = refl;
            state = rw other;
          })
          | inl done ↦ elim (Option-cases (find msg.easy_handle w.running_connections)) [
            | inl unknown ↦
                subst (Round msg e a w) (sym (handle_unknown msg w done (rw t unknown)))
                  (unknown-Round msg e a w done unknown)
            | inr (b, found) ↦
                subst (Round msg e a w)
                  (sym (
                    handle_done lib handlers msg b w done (rw t found)
                    ∙ did_finish_at-silent b msg.result (erased lib msg.easy_handle removed)))
                  (finished-Round msg e a b w c own only done found)
          ]
        ]
