-- ===== src/Manager/Finishing.antt =====
-- What a finished transfer leaves.
use curlion.Common.{ℕ, ◌≡◌, refl, ap, ◌∙◌, true, false, Option, none, some, ◌==◌, arith, eqb_refl}
use curlion.Curl.{code}
use curlion.Connection.State.{finish}
use curlion.Manager.Table.{find, erase, find-erase}
use curlion.Manager.State.{
  MultiLibrary, AnyConnection, plain, http, World, Handlers, Message, base_of, map_base,
  change_object,
}
use curlion.Manager.Cases.{stop, erased, finished}
use curlion.Manager.Step.{remove_running, run_requests, did_finish_at, handle_message}
use curlion.Manager.Registered.{Consistent}
use curlion.Manager.Consistent.{
  remove_running-same, easy-change_object, change_object_self, change_object_other,
}
use curlion.Manager.Behaviour.{registered}

pub stop-fields :
    (result : ℕ) (o : AnyConnection)
    → ((base_of (stop result o)).is_running ≡ false)
      × ((base_of (stop result o)).result ≡ code result)
      × ((base_of (stop result o)).response_header ≡ (base_of o).response_header)
      × ((base_of (stop result o)).response_body ≡ (base_of o).response_body)
      × ((base_of (stop result o)).finished_callback ≡ (base_of o).finished_callback)
unfolding base_of map_base finish
stop-fields result (plain c) = (refl, refl, refl, refl, refl)
stop-fields result (http h) = (refl, refl, refl, refl, refl)

module _ (lib : MultiLibrary) where
  module _ (handlers : Handlers lib) where
    -- The world in which a finished callback is called.
    abbrev pub ended : Message → ℕ → World lib → World lib
    ended msg a w =
        finished lib handlers a msg.result
          (erased lib msg.easy_handle (remove_running lib msg.easy_handle w).0)

    -- The world behind the finished callback, if there is one.
    abbrev pub notified : Option ℕ → ℕ → World lib → World lib
    notified none a w = w
    notified (some f) a w = run_requests lib (handlers f a w) w

    pub did_finish_at-notified :
        (a result : ℕ) (w : World lib)
        → did_finish_at lib handlers a result w
          ≡ notified
              (base_of (w.objects a).state).finished_callback
              a
              (finished lib handlers a result w)
    unfolding did_finish_at
    did_finish_at-notified a result w = ground arith

    pub handle_done :
        (msg : Message) (a : ℕ) (w : World lib)
        → msg.is_done ≡ true
        → find msg.easy_handle (remove_running lib msg.easy_handle w).0.running_connections ≡ some a
        → handle_message lib handlers msg w
          ≡ did_finish_at lib handlers a msg.result
              (erased lib msg.easy_handle (remove_running lib msg.easy_handle w).0)
    unfolding handle_message
    handle_done msg a w done found = rw (done, handle_message) (rw found)

    pub ended-state :
        (msg : Message) (a : ℕ) (w : World lib)
        → ((ended msg a w).objects a).state ≡ stop msg.result (w.objects a).state
    ended-state msg a w =
        let u = erased lib msg.easy_handle (remove_running lib msg.easy_handle w).0 in
        let (t, o) = remove_running-same lib msg.easy_handle w in
        ap (λ x. x.state) (change_object_self lib a (stop msg.result) u)
        ∙ ap (λ x. stop msg.result (x a).state) o

    -- A message that a registered connection's transfer is done, in a consistent world: first the
    -- connection is unregistered, marked as not running and given the code, and no other connection
    -- changes; then, on that world, its finished callback is called, once, if it has one. So the
    -- callback may start the same connection again.
    pub handle_message_done :
        (msg : Message) (a : ℕ) (w : World lib)
        → Consistent lib w
        → msg.is_done ≡ true
        → find msg.easy_handle w.running_connections ≡ some a
        → let v = ended msg a w in
          let c = base_of (v.objects a).state in
          (handle_message lib handlers msg w
            ≡ notified (base_of (w.objects a).state).finished_callback a v)
          × (registered lib a v ≡ none)
          × (c.is_running ≡ false)
          × (c.result ≡ code msg.result)
          × ((b : ℕ) → (a == b) ≡ false → v.objects b ≡ w.objects b)
    unfolding change_object
    handle_message_done msg a w c done found =
        let removed = (remove_running lib msg.easy_handle w).0 in
        let (t, o) = remove_running-same lib msg.easy_handle w in
        let found' : find msg.easy_handle removed.running_connections ≡ some a = rw t found in
        let u = erased lib msg.easy_handle removed in
        let (idle, result, _, _, _) = stop-fields msg.result (u.objects a).state in
        let easy =
          easy-change_object lib a (stop msg.result) u a
          ∙ ap (λ x. (x a).easy) o
          ∙ c.located msg.easy_handle a found in
        let state = ap (λ x. x.state) (change_object_self lib a (stop msg.result) u) in
        (
          handle_done msg a w done found'
              ∙ did_finish_at-notified a msg.result u
              ∙ ap (λ x. notified (base_of (x a).state).finished_callback a (ended msg a w)) o,
          ap (λ k. find k (ended msg a w).running_connections) easy
              ∙ ap (λ table. find msg.easy_handle (erase msg.easy_handle table)) t
              ∙ find-erase msg.easy_handle msg.easy_handle w.running_connections c.distinct
              ∙ rw (eqb_refl msg.easy_handle),
          ap (λ x. (base_of x).is_running) state ∙ idle,
          ap (λ x. (base_of x).result) state ∙ result,
          λ b other. change_object_other lib a (stop msg.result) u b other ∙ ap (λ x. x b) o,
        )
