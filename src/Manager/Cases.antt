-- ===== src/Manager/Cases.antt =====
-- Case rules for the methods of the manager: to show something of the world that a method leaves,
-- show it of what each branch leaves.
use curlion.Common.{
  ℕ, zero, suc, ◌≡◌, subst, none, some, Bool-cases, Option-cases, some_eq, inl, inr,
}
use curlion.Curl.{code}
use curlion.Connection.State.{finish}
use curlion.Manager.Table.{find, erase}
use curlion.Manager.State.{
  MultiLibrary, World, Handlers, Message, AnyConnection, base_of, map_base, will_start_any,
  set_socket_options, change_object,
}
use curlion.Manager.Step.{
  add_running, after_add, start_connection, remove_running, abort_connection, run_requests,
  did_finish_at, handle_message, check_finished_connections,
}

-- What `DidFinish` does before it calls the finished callback.
abbrev pub stop : ℕ → AnyConnection → AnyConnection
stop result = map_base (λ c. finish c (code result))

module _ (lib : MultiLibrary) where
  -- What `StartConnection` does to the connection before it is added.
  abbrev pub prepare : World lib → AnyConnection → AnyConnection
  prepare w o = will_start_any (map_base (set_socket_options w.has_socket_factory) o)

  abbrev pub prepared : ℕ → World lib → World lib
  prepared a w = change_object lib a (prepare w) w

  abbrev pub erased : ℕ → World lib → World lib
  erased e w = record w { running_connections = erase e w.running_connections }

  pub start_cases {ℓ} :
      (P : World lib → Type ℓ) (a : ℕ) (w : World lib)
      → P w
      → (find (w.objects a).easy w.running_connections ≡ none
          → P (after_add lib (w.objects a).easy (add_running lib a (prepared a w))).0)
      → P (start_connection lib a w).0
  unfolding start_connection
  start_cases P a w running added =
      elim (Option-cases (find (w.objects a).easy w.running_connections)) [
        | inl e ↦ rw (e, start_connection) (added e)
        | inr (b, e) ↦ rw (e, start_connection) running
      ]

  pub abort_cases {ℓ} :
      (P : World lib → Type ℓ) (a : ℕ) (w : World lib)
      → P w
      → P (remove_running lib (w.objects a).easy (erased (w.objects a).easy w)).0
      → P (abort_connection lib a w).0
  unfolding abort_connection
  abort_cases P a w idle removed =
      elim (Option-cases (find (w.objects a).easy w.running_connections)) [
        | inl e ↦ rw (e, abort_connection) idle
        | inr (b, e) ↦ rw (e, abort_connection) removed
      ]

  module _ (handlers : Handlers lib) where
    abbrev pub finished : ℕ → ℕ → World lib → World lib
    finished a result w = change_object lib a (stop result) w

    pub did_finish_cases {ℓ} :
        (P : World lib → Type ℓ) (a result : ℕ) (w : World lib)
        → P (finished a result w)
        → ((f : ℕ)
            → P (run_requests lib (handlers f a (finished a result w)) (finished a result w)))
        → P (did_finish_at lib handlers a result w)
    unfolding did_finish_at
    did_finish_cases P a result w silent called =
        elim (Option-cases ((base_of (w.objects a).state).finished_callback)) [
          | inl e ↦ rw (e, did_finish_at) silent
          | inr (f, e) ↦ rw (e, did_finish_at) (called f)
        ]

    -- A message of another kind, one of a handle that is not running, and one that ends a running
    -- connection.
    pub message_cases {ℓ} :
        (P : World lib → Type ℓ) (msg : Message) (w : World lib)
        → P w
        → P (remove_running lib msg.easy_handle w).0
        → ((a : ℕ)
            → find msg.easy_handle (remove_running lib msg.easy_handle w).0.running_connections
              ≡ some a
            → P (
                did_finish_at lib handlers a msg.result
                  (erased msg.easy_handle (remove_running lib msg.easy_handle w).0)))
        → P (handle_message lib handlers msg w)
    unfolding handle_message
    message_cases P msg w other unknown ended = elim (Bool-cases msg.is_done) [
      | inr e ↦ rw (e, handle_message) other
      | inl done ↦
          elim (Option-cases
            (find msg.easy_handle (remove_running lib msg.easy_handle w).0.running_connections)) [
              | inl e ↦ rw (done, handle_message) (rw e unknown)
              | inr (a, e) ↦ rw (done, handle_message) (rw e (ended a e))
            ]
    ]

    -- What each round keeps, the whole loop keeps.
    pub check_invariant {ℓ} :
        (P : World lib → Type ℓ)
        → ((w : World lib) → P w → P (record w { multi_handle = (lib.info_read w.multi_handle).0 }))
        → ((msg : Message) (w : World lib) → P w → P (handle_message lib handlers msg w))
        → (fuel : ℕ) (w w' : World lib) → check_finished_connections lib handlers fuel w ≡ some w'
        → P w
        → P w'
    unfolding check_finished_connections
    check_invariant P reads handles zero w w' e p = absurd (cc)
    check_invariant P reads handles (suc fuel) w w' e p =
        elim (Option-cases (lib.info_read w.multi_handle).1) [
          | inl none_left ↦
              subst P (some_eq (rw (none_left, check_finished_connections) at e)) (reads w p)
          | inr (msg, next) ↦
              check_invariant P reads handles fuel
                (handle_message lib handlers msg
                  (record w { multi_handle = (lib.info_read w.multi_handle).0 }))
                w' (rw (next, check_finished_connections) at e) (handles msg _ (reads w p))
        ]
