-- ===== src/Manager/Every.antt =====
-- What holds of every object of a program's, and how it is kept.
use curlion.Common.{
  ℕ, ◌≡◌, sym, ◌∙◌, subst, Bool, true, Option, some, List, [], ◌∷◌, ◌&&◌, ◌==◌, arith, Bool-cases,
  inl, inr, eqb_iff, and_true,
}
use curlion.Http.Requests.{HttpSetting}
use curlion.Manager.State.{
  MultiLibrary, AnyConnection, World, Handlers, Message, Request, starts, aborts, configures,
  Select, apply_any, change_object,
}
use curlion.Manager.Cases.{
  prepare, prepared, erased, finished, stop, start_cases, abort_cases, did_finish_cases,
  message_cases, check_invariant,
}
use curlion.Manager.Step.{
  run_callbacks, add_running, after_add, start_connection, remove_running, abort_connection,
  run_request, run_requests, did_finish_at, handle_message, act,
}
use curlion.Manager.Consistent.{
  run_callbacks-same, add_running-same, remove_running-same, change_object_self,
  change_object_other,
}

-- The public calls among what a finished callback asks for are allowed.
abbrev pub asks : (HttpSetting → Bool) → List Request → Bool
asks allowed [] = true
asks allowed (starts a ∷ rs) = asks allowed rs
asks allowed (aborts a ∷ rs) = asks allowed rs
asks allowed (configures a s ∷ rs) = allowed s && asks allowed rs

abbrev pub Asking : (lib : MultiLibrary) → (HttpSetting → Bool) → Handlers lib → Type 0
Asking lib allowed handlers = (f a : ℕ) (w : World lib) → asks allowed (handlers f a w) ≡ true

-- A property of a connection that the manager's own changes and the allowed calls keep.
pub record IsMaintained (lib : MultiLibrary) (allowed : HttpSetting → Bool)
    (P : AnyConnection → Type 0) : Type 0 where
  pub preparing : (w : World lib) (o : AnyConnection) → P o → P (prepare lib w o)
  pub stopping : (result : ℕ) (o : AnyConnection) → P o → P (stop result o)
  pub settings : (s : HttpSetting) (o : AnyConnection) → allowed s ≡ true → P o → P (apply_any s o)

module _ (lib : MultiLibrary) (P : AnyConnection → Type 0) where
  abbrev pub Every : World lib → Type 0
  Every w = (a : ℕ) → P (w.objects a).state

  pub change_object-Every :
      (a : ℕ) (f : AnyConnection → AnyConnection) (w : World lib)
      → P (f (w.objects a).state)
      → Every w
      → Every (change_object lib a f w)
  change_object-Every a f w changed i b = elim (Bool-cases (a == b)) [
    | inl here ↦
        rw (← (eqb_iff a b).0 here)
          (subst (λ x. P x.state) (sym (change_object_self lib a f w)) changed)
    | inr other ↦ subst (λ x. P x.state) (sym (change_object_other lib a f w b other)) (i b)
  ]

  same-Every : (w v : World lib) → v.objects ≡ w.objects → Every w → Every v
  same-Every w v e i a = subst (λ x. P (x a).state) (sym e) (i a)

after_add-objects :
    (lib : MultiLibrary) (e : ℕ) (r : World lib × ℕ) → (after_add lib e r).0.objects ≡ r.0.objects
unfolding after_add
after_add-objects lib e (w, result) = ground arith

module _ (lib : MultiLibrary) (allowed : HttpSetting → Bool) (P : AnyConnection → Type 0)
    (kept : IsMaintained lib allowed P) where
  pub start_connection-Every :
      (a : ℕ) (w : World lib) → Every lib P w → Every lib P (start_connection lib a w).0
  start_connection-Every a w i = start_cases lib (Every lib P) a w i λ _.
      let r = add_running lib a (prepared lib a w) in
      let (_, o) = add_running-same lib a (prepared lib a w) in
      same-Every lib P (prepared lib a w) (after_add lib (w.objects a).easy r).0
        (after_add-objects lib (w.objects a).easy r ∙ o)
        (change_object-Every lib P a (prepare lib w) w (kept.preparing w _ (i a)) i)

  pub abort_connection-Every :
      (a : ℕ) (w : World lib) → Every lib P w → Every lib P (abort_connection lib a w).0
  abort_connection-Every a w i =
      let (_, o) = remove_running-same lib (w.objects a).easy (erased lib (w.objects a).easy w) in
      abort_cases lib (Every lib P) a w i (
        same-Every lib P w
          (remove_running lib (w.objects a).easy (erased lib (w.objects a).easy w)).0 o i)

  run_requests-Every :
      (rs : List Request) (w : World lib)
      → asks allowed rs ≡ true
      → Every lib P w
      → Every lib P (run_requests lib rs w)
  unfolding run_requests run_request
  run_requests-Every [] w ok i = i
  run_requests-Every (starts a ∷ rs) w ok i =
      run_requests-Every rs _ ok (start_connection-Every a w i)
  run_requests-Every (aborts a ∷ rs) w ok i =
      run_requests-Every rs _ ok (abort_connection-Every a w i)
  run_requests-Every (configures a s ∷ rs) w ok i =
      let (first, rest) = and_true (allowed s) (asks allowed rs) ok in
      run_requests-Every rs (change_object lib a (apply_any s) w) rest
        (change_object-Every lib P a (apply_any s) w (kept.settings s _ first (i a)) i)

  module _ (handlers : Handlers lib) (asking : Asking lib allowed handlers) where
    did_finish_at-Every :
        (a result : ℕ) (w : World lib)
        → Every lib P w
        → Every lib P (did_finish_at lib handlers a result w)
    did_finish_at-Every a result w i =
        let stopped =
          change_object-Every lib P a (stop result) w (kept.stopping result _ (i a)) i in
        did_finish_cases lib handlers (Every lib P) a result w stopped λ f.
          run_requests-Every (handlers f a (finished lib handlers a result w)) _ (asking f a _)
            stopped

    handle_message-Every :
        (msg : Message) (w : World lib)
        → Every lib P w
        → Every lib P (handle_message lib handlers msg w)
    handle_message-Every msg w i =
        let (_, o) = remove_running-same lib msg.easy_handle w in
        let removed = same-Every lib P w (remove_running lib msg.easy_handle w).0 o i in
        message_cases lib handlers (Every lib P) msg w i removed λ a _.
          did_finish_at-Every a msg.result
            (erased lib msg.easy_handle (remove_running lib msg.easy_handle w).0) removed

    pub act-Every :
        (fuel : ℕ) (s : Option ℕ) (events : Select) (w w' : World lib)
        → act lib handlers fuel s events w ≡ some w'
        → Every lib P w
        → Every lib P w'
    unfolding act
    act-Every fuel s events w w' e i =
        let (multi, callbacks) = lib.socket_action s events w.multi_handle in
        let taken = record w { multi_handle = multi } in
        let (_, o) = run_callbacks-same lib callbacks taken in
        check_invariant lib handlers (Every lib P) (λ v j. j) handle_message-Every fuel
          (run_callbacks lib callbacks taken) w' e
          (same-Every lib P w (run_callbacks lib callbacks taken) o i)
