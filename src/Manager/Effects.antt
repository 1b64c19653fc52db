-- ===== src/Manager/Effects.antt =====
-- The calls that a manager makes on its timer and its socket watcher only grow.
use curlion.Common.{
  take, length, length-append, take_left, ◌+◌, ◌-◌, ℕ, ◌≡◌, refl, sym, ap, ◌∙◌, Bool, true, false,
  Option, some, List, [], ◌∷◌, ◌++◌, append_assoc, pos, negsuc, arith, if◌then◌else◌,
}
use curlion.Manager.State.{
  Poll, poll_remove, Callback, timer, socket, MultiLibrary, Effect, timer_start, timer_stop, watch,
  stop_watching, World, Handlers, Message, Request, starts, aborts, configures, apply_any, Select,
  change_object,
}
use curlion.Manager.Cases.{
  prepared, erased, finished, start_cases, abort_cases, did_finish_cases, message_cases,
  check_invariant,
}
use curlion.Manager.Step.{
  event_of, is_remove, watch_socket, run_callback, run_callbacks, add_running, after_add,
  start_connection, remove_running, abort_connection, run_request, run_requests, did_finish_at,
  handle_message, act,
}

abbrev pub Extends : List Effect → List Effect → Type 0
Extends older effects = (new : List Effect) × (effects ≡ new ++ older)

-- What stands in front of the older calls.
abbrev pub added : List Effect → List Effect → List Effect
added older effects = take (length effects - length older) effects

pub added-append :
    (older effects : List Effect) → Extends older effects → effects ≡ added older effects ++ older
added-append older effects (new, e) =
    let more : length effects ≡ length new + length older = ap length e ∙ length-append new older in
    let there : take (length effects - length older) effects ≡ new =
      ap (λ n. take n effects) (omega (arith, more))
      ∙ ap (take (length new)) e
      ∙ take_left new older in
    e ∙ ap (λ l. l ++ older) (sym there)

module _ (lib : MultiLibrary) where
  -- The socket callback, at a tag that is known.
  socket-effects :
      (s : ℕ) (tag : Bool) (action : Poll) (w : World lib)
      → Extends w.effects (watch_socket lib s action tag w).effects
  unfolding watch_socket
  socket-effects s true poll_remove w = (stop_watching s ∷ [], refl)
  socket-effects s false poll_remove w = ([], refl)
  socket-effects s true action w = (watch s (event_of action) ∷ stop_watching s ∷ [], refl)
  socket-effects s false action w = (watch s (event_of action) ∷ [], refl)

  forget-effects :
      (b : Bool) (s : ℕ) (w : World lib)
      → (if b then record w { multi_handle = lib.forget s w.multi_handle } else w).effects
        ≡ w.effects
  forget-effects b s w = ground arith

  run_callback-effects :
      (c : Callback) (w : World lib) → Extends w.effects (run_callback lib c w).effects
  unfolding run_callback
  run_callback-effects (timer (pos n)) w = (timer_start (pos n) ∷ timer_stop ∷ [], refl)
  run_callback-effects (timer (negsuc n)) w = (timer_stop ∷ [], refl)
  run_callback-effects (socket s action) w =
      let tag = lib.socketp w.multi_handle s in
      let (new, e) = socket-effects s tag action w in
      (new, forget-effects (is_remove action) s (watch_socket lib s action tag w) ∙ e)

  module _ (older : List Effect) where
    abbrev Grown : World lib → Type 0
    Grown w = Extends older w.effects

    Grown-more : (w v : World lib) → Extends w.effects v.effects → Grown w → Grown v
    Grown-more w v (new, e) (more, h) =
        (new ++ more, e ∙ ap (λ l. new ++ l) h ∙ sym (append_assoc new more older))

    run_callbacks-Grown :
        (cs : List Callback) (w : World lib) → Grown w → Grown (run_callbacks lib cs w)
    unfolding run_callbacks
    run_callbacks-Grown [] w g = g
    run_callbacks-Grown (c ∷ cs) w g =
        run_callbacks-Grown cs (run_callback lib c w)
          (Grown-more w (run_callback lib c w) (run_callback-effects c w) g)

    remove_running-Grown : (e : ℕ) (w : World lib) → Grown w → Grown (remove_running lib e w).0
    unfolding remove_running
    remove_running-Grown e w g = run_callbacks-Grown _ _ g

    after_add-effects : (e : ℕ) (r : World lib × ℕ) → (after_add lib e r).0.effects ≡ r.0.effects
    unfolding after_add
    after_add-effects e (w, result) = ground arith

    add_running-Grown : (a : ℕ) (w : World lib) → Grown w → Grown (add_running lib a w).0
    unfolding add_running
    add_running-Grown a w g = run_callbacks-Grown _ _ g

    start_connection-Grown : (a : ℕ) (w : World lib) → Grown w → Grown (start_connection lib a w).0
    unfolding change_object
    start_connection-Grown a w g = start_cases lib Grown a w g λ _.
        let r = add_running lib a (prepared lib a w) in
        Grown-more r.0 (after_add lib (w.objects a).easy r).0
          ([], after_add-effects (w.objects a).easy r) (add_running-Grown a (prepared lib a w) g)

    abort_connection-Grown : (a : ℕ) (w : World lib) → Grown w → Grown (abort_connection lib a w).0
    abort_connection-Grown a w g =
        abort_cases lib Grown a w g
          (remove_running-Grown (w.objects a).easy (erased lib (w.objects a).easy w) g)

    run_requests-Grown :
        (rs : List Request) (w : World lib) → Grown w → Grown (run_requests lib rs w)
    unfolding run_requests run_request change_object
    run_requests-Grown [] w g = g
    run_requests-Grown (starts a ∷ rs) w g = run_requests-Grown rs _ (start_connection-Grown a w g)
    run_requests-Grown (aborts a ∷ rs) w g = run_requests-Grown rs _ (abort_connection-Grown a w g)
    run_requests-Grown (configures a s ∷ rs) w g =
        run_requests-Grown rs (change_object lib a (apply_any s) w) g

    module _ (handlers : Handlers lib) where
      did_finish_at-Grown :
          (a result : ℕ) (w : World lib) → Grown w → Grown (did_finish_at lib handlers a result w)
      unfolding change_object
      did_finish_at-Grown a result w g =
          did_finish_cases lib handlers Grown a result w g
            λ f. run_requests-Grown (handlers f a (finished lib handlers a result w)) _ g

      handle_message-Grown :
          (msg : Message) (w : World lib) → Grown w → Grown (handle_message lib handlers msg w)
      handle_message-Grown msg w g =
          let removed = remove_running-Grown msg.easy_handle w g in
          message_cases lib handlers Grown msg w g removed
            λ a _. did_finish_at-Grown a msg.result _ removed

      act-Grown :
          (fuel : ℕ) (s : Option ℕ) (events : Select) (w w' : World lib)
          → act lib handlers fuel s events w ≡ some w'
          → Grown w
          → Grown w'
      unfolding act
      act-Grown fuel s events w w' e g =
          check_invariant lib handlers Grown (λ v j. j) handle_message-Grown fuel _ w' e
            (run_callbacks-Grown _ _ g)

  pub act-Extends :
      (handlers : Handlers lib) (fuel : ℕ) (s : Option ℕ) (events : Select) (w w' : World lib)
      → act lib handlers fuel s events w ≡ some w'
      → Extends w.effects w'.effects
  act-Extends handlers fuel s events w w' e =
      act-Grown w.effects handlers fuel s events w w' e ([], refl)

  pub start_connection-Extends :
      (a : ℕ) (w : World lib) → Extends w.effects (start_connection lib a w).0.effects
  start_connection-Extends a w = start_connection-Grown w.effects a w ([], refl)

  pub abort_connection-Extends :
      (a : ℕ) (w : World lib) → Extends w.effects (abort_connection lib a w).0.effects
  abort_connection-Extends a w = abort_connection-Grown w.effects a w ([], refl)
