-- ===== src/Manager/Termination.antt =====
-- The loop of `CheckFinishedConnections` ends.
use native.Mathlib.Nat.{le_trans}
use curlion.Common.{
  ℕ, zero, suc, ◌≤◌, ◌<◌, ◌≡◌, refl, Bool, Option, none, some, List, [], ◌∷◌, pos, negsuc, arith,
  Option-cases, inl, inr,
}
use curlion.Manager.State.{
  Poll, Callback, timer, socket, MultiLibrary, World, Handlers, Message, Request, starts, aborts,
  configures, apply_any, Select, change_object,
}
use curlion.Manager.Cases.{
  prepared, erased, finished, start_cases, abort_cases, did_finish_cases, message_cases,
}
use curlion.Manager.Step.{
  watch_socket, run_callback, run_callbacks, add_running, after_add, start_connection,
  remove_running, abort_connection, run_request, run_requests, did_finish_at, handle_message,
  check_finished_connections, act,
}

-- libcurl holds some messages. Reading one takes it away, and of the functions that the manager
-- calls while it reads them none brings a new one: a transfer makes progress only in
-- `curl_multi_socket_action`.
pub record MessageLaws (lib : MultiLibrary) : Type 0 where
  pub pending : lib.Multi → ℕ
  pub read_pending :
      (m : lib.Multi) (msg : Message)
      → (lib.info_read m).1 ≡ some msg
      → pending (lib.info_read m).0 < pending m
  pub add_pending : (e : ℕ) (m : lib.Multi) → pending (lib.add_handle e m).0 ≤ pending m
  pub remove_pending : (e : ℕ) (m : lib.Multi) → pending (lib.remove_handle e m).0 ≤ pending m
  pub assign_pending : (s : ℕ) (m : lib.Multi) → pending (lib.assign s m) ≤ pending m
  pub forget_pending : (s : ℕ) (m : lib.Multi) → pending (lib.forget s m) ≤ pending m

module _ (lib : MultiLibrary) (laws : MessageLaws lib) where
  abbrev pub held : World lib → ℕ
  held w = laws.pending w.multi_handle

  watch_socket-held :
      (s : ℕ) (action : Poll) (tag : Bool) (w : World lib)
      → held (watch_socket lib s action tag w) ≤ held w
  unfolding watch_socket
  watch_socket-held s action tag w = ground (arith, laws.assign_pending s w.multi_handle)

  run_callback-held : (c : Callback) (w : World lib) → held (run_callback lib c w) ≤ held w
  unfolding run_callback
  run_callback-held (timer (pos n)) w = omega arith
  run_callback-held (timer (negsuc n)) w = omega arith
  run_callback-held (socket s action) w =
      let v = watch_socket lib s action (lib.socketp w.multi_handle s) w in
      ground (
        arith,
        watch_socket-held s action (lib.socketp w.multi_handle s) w,
        laws.forget_pending s v.multi_handle,
      )

  run_callbacks-held : (cs : List Callback) (w : World lib) → held (run_callbacks lib cs w) ≤ held w
  unfolding run_callbacks
  run_callbacks-held [] w = omega arith
  run_callbacks-held (c ∷ cs) w =
      omega (arith, run_callbacks-held cs (run_callback lib c w), run_callback-held c w)

  add_running-held : (a : ℕ) (w : World lib) → held (add_running lib a w).0 ≤ held w
  unfolding add_running
  add_running-held a w =
      le_trans (run_callbacks-held _ _) (laws.add_pending (w.objects a).easy w.multi_handle)

  remove_running-held : (e : ℕ) (w : World lib) → held (remove_running lib e w).0 ≤ held w
  unfolding remove_running
  remove_running-held e w = le_trans (run_callbacks-held _ _) (laws.remove_pending e w.multi_handle)

  after_add-held : (e : ℕ) (r : World lib × ℕ) → held (after_add lib e r).0 ≤ held r.0
  unfolding after_add
  after_add-held e (w, result) = ground arith

  start_connection-held : (a : ℕ) (w : World lib) → held (start_connection lib a w).0 ≤ held w
  unfolding change_object
  start_connection-held a w =
      start_cases lib (λ v. held v ≤ held w) a w (omega arith)
        λ _.
          le_trans (after_add-held (w.objects a).easy (add_running lib a (prepared lib a w)))
            (add_running-held a (prepared lib a w))

  abort_connection-held : (a : ℕ) (w : World lib) → held (abort_connection lib a w).0 ≤ held w
  abort_connection-held a w =
      abort_cases lib (λ v. held v ≤ held w) a w (omega arith)
        (remove_running-held (w.objects a).easy (erased lib (w.objects a).easy w))

  run_requests-held : (rs : List Request) (w : World lib) → held (run_requests lib rs w) ≤ held w
  unfolding run_requests run_request change_object
  run_requests-held [] w = omega arith
  run_requests-held (starts a ∷ rs) w =
      le_trans (run_requests-held rs _) (start_connection-held a w)
  run_requests-held (aborts a ∷ rs) w =
      le_trans (run_requests-held rs _) (abort_connection-held a w)
  run_requests-held (configures a s ∷ rs) w =
      run_requests-held rs (change_object lib a (apply_any s) w)

  module _ (handlers : Handlers lib) where
    did_finish_at-held :
        (a result : ℕ) (w : World lib) → held (did_finish_at lib handlers a result w) ≤ held w
    unfolding change_object
    did_finish_at-held a result w =
        did_finish_cases lib handlers (λ v. held v ≤ held w) a result w (omega arith)
          λ f. run_requests-held _ (finished lib handlers a result w)

    handle_message-held :
        (msg : Message) (w : World lib) → held (handle_message lib handlers msg w) ≤ held w
    handle_message-held msg w =
        let removed = remove_running-held msg.easy_handle w in
        message_cases lib handlers (λ v. held v ≤ held w) msg w (omega arith) removed
          λ a _. le_trans (did_finish_at-held a msg.result _) removed

    -- The loop left the world `w'` when libcurl had no message any more.
    abbrev pub Drained : World lib → Type 0
    Drained w' =
        (v : World lib) × ((lib.info_read v.multi_handle).1 ≡ none)
        × (w' ≡ record v { multi_handle = (lib.info_read v.multi_handle).0 })

    check_total :
        (fuel : ℕ) (w : World lib)
        → held w < fuel
        → (w' : World lib) × (check_finished_connections lib handlers fuel w ≡ some w') × Drained w'
    unfolding check_finished_connections
    check_total zero w h = elim h [ ]
    check_total (suc fuel) w h = elim (Option-cases (lib.info_read w.multi_handle).1) [
      | inl last ↦ (
        record w { multi_handle = (lib.info_read w.multi_handle).0 },
        rw (last, check_finished_connections),
        (w, last, refl),
      )
      | inr (msg, more) ↦
          let read : World lib = record w { multi_handle = (lib.info_read w.multi_handle).0 } in
          let less = laws.read_pending w.multi_handle msg more in
          let (w', run, drained) =
            check_total fuel (handle_message lib handlers msg read)
              (omega (arith, handle_message-held msg read, less)) in
          (w', rw (more, check_finished_connections) run, drained)
    ]

    -- With a libcurl that brings messages only in `curl_multi_socket_action`: whatever the timer or
    -- a socket brings, and whatever the finished callbacks ask for, with more fuel than
    -- libcurl holds messages behind `curl_multi_socket_action`, `CheckFinishedConnections` ends,
    -- and it ends because no message is left.
    pub act_total :
        (fuel : ℕ) (s : Option ℕ) (events : Select) (w : World lib)
        → laws.pending (lib.socket_action s events w.multi_handle).0 < fuel
        → (w' : World lib) × (act lib handlers fuel s events w ≡ some w') × Drained w'
    unfolding act
    act_total fuel s events w h = check_total fuel _ (
        omega (
          arith,
          run_callbacks-held (lib.socket_action s events w.multi_handle).1
              (record w { multi_handle = (lib.socket_action s events w.multi_handle).0 }),
        ))
