-- ===== src/Manager/Consistent.antt =====
-- `running_connections_` against the connections: each entry is of a running connection, under that
-- connection's easy handle.
use curlion.Common.{
  ℕ, ◌≡◌, refl, ap, ◌∙◌, true, false, Option, some, List, [], ◌∷◌, pos, negsuc, ◌==◌, arith,
  Bool-cases, inl, inr, eqb_iff, eqb_refl,
}
use curlion.Connection.State.{Connection, will_start}
use curlion.Http.Requests.{HttpSetting, http_options_reset}
use curlion.Connection.Running.{apply-is_running, reset_options-is_running}
use curlion.Http.Running.{apply_http-is_running}
use curlion.Http.State.{will_start_http}
use curlion.Manager.Table.{find, insert}
use curlion.Manager.State.{
  Callback, timer, socket, MultiLibrary, AnyConnection, plain, http, World, Handlers, Message,
  Request, starts, aborts, configures, apply_any, base_setting, Select, base_of, will_start_any,
  change_object,
}
use curlion.Manager.Cases.{
  prepare, prepared, stop, erased, finished, start_cases, abort_cases, did_finish_cases,
  message_cases, check_invariant,
}
use curlion.Manager.Step.{
  run_callback, run_callbacks, add_running, after_add, start_connection, remove_running,
  abort_connection, run_request, run_requests, handle_message, act,
}
use curlion.Manager.Registered.{
  Consistent, erase-IsConsistent, insert-IsConsistent, runs, stop-IsConsistent,
}

will_start_any-runs : (o : AnyConnection) → (base_of (will_start_any o)).is_running ≡ true
unfolding will_start_any base_of will_start will_start_http
will_start_any-runs (plain c) = refl
will_start_any-runs (http h) = refl

base_setting-is_running :
    (s : HttpSetting) (c : Connection) → (base_setting s c).is_running ≡ c.is_running
unfolding base_setting
base_setting-is_running (HttpSetting.plain s) c = apply-is_running s c
base_setting-is_running http_options_reset c = reset_options-is_running c
base_setting-is_running _ c = refl

pub apply_any-runs :
    (s : HttpSetting) (o : AnyConnection)
    → (base_of (apply_any s o)).is_running ≡ (base_of o).is_running
unfolding apply_any base_of
apply_any-runs s (plain c) = base_setting-is_running s c
apply_any-runs s (http h) = apply_http-is_running s h

module _ (lib : MultiLibrary) where
  run_callback-same :
      (c : Callback) (w : World lib)
      → ((run_callback lib c w).running_connections ≡ w.running_connections)
        × ((run_callback lib c w).objects ≡ w.objects)
  unfolding run_callback
  run_callback-same (timer (pos n)) w = (refl, refl)
  run_callback-same (timer (negsuc n)) w = (refl, refl)
  run_callback-same (socket s action) w = (ground arith, ground arith)

  pub run_callbacks-same :
      (cs : List Callback) (w : World lib)
      → ((run_callbacks lib cs w).running_connections ≡ w.running_connections)
        × ((run_callbacks lib cs w).objects ≡ w.objects)
  unfolding run_callbacks
  run_callbacks-same [] w = (refl, refl)
  run_callbacks-same (c ∷ cs) w =
      let (t, o) = run_callback-same c w in
      let (ts, os) = run_callbacks-same cs (run_callback lib c w) in (ts ∙ t, os ∙ o)

  pub run_callbacks-Consistent :
      (cs : List Callback) (w : World lib)
      → Consistent lib w
      → Consistent lib (run_callbacks lib cs w)
  run_callbacks-Consistent cs w c = let (t, o) = run_callbacks-same cs w in rw (t, o) c

  pub easy-change_object :
      (a : ℕ) (f : AnyConnection → AnyConnection) (w : World lib) (b : ℕ)
      → ((change_object lib a f w).objects b).easy ≡ (w.objects b).easy
  unfolding change_object
  easy-change_object a f w b = ground arith

  pub change_object_other :
      (a : ℕ) (f : AnyConnection → AnyConnection) (w : World lib) (b : ℕ)
      → (a == b) ≡ false
      → (change_object lib a f w).objects b ≡ w.objects b
  unfolding change_object
  change_object_other a f w b other = ground arith

  pub change_object_self :
      (a : ℕ) (f : AnyConnection → AnyConnection) (w : World lib)
      → (change_object lib a f w).objects a
        ≡ record { easy = (w.objects a).easy; state = f (w.objects a).state }
  unfolding change_object
  change_object_self a f w = rw (eqb_refl a)

  change_object-runs :
      (a : ℕ) (f : AnyConnection → AnyConnection) (w : World lib)
      → (base_of (f (w.objects a).state)).is_running ≡ (base_of (w.objects a).state).is_running
      → (b : ℕ) → runs (change_object lib a f w).objects b ≡ runs w.objects b
  change_object-runs a f w same b = elim (Bool-cases (a == b)) [
    | inl here ↦
        rw (← (eqb_iff a b).0 here)
          (ap (λ x. (base_of x.state).is_running) (change_object_self a f w) ∙ same)
    | inr other ↦ ap (λ x. (base_of x.state).is_running) (change_object_other a f w b other)
  ]

  pub prepared-runs : (a : ℕ) (w : World lib) → runs (prepared lib a w).objects a ≡ true
  prepared-runs a w =
      ap (λ x. (base_of x.state).is_running) (change_object_self a (prepare lib w) w)
      ∙ will_start_any-runs _

  prepared_others :
      (a : ℕ) (w : World lib) (b : ℕ)
      → runs w.objects b ≡ true
      → runs (prepared lib a w).objects b ≡ true
  prepared_others a w b h = elim (Bool-cases (a == b)) [
    | inl same ↦ rw (← (eqb_iff a b).0 same) (prepared-runs a w)
    | inr other ↦
        ap (λ x. (base_of x.state).is_running) (change_object_other a (prepare lib w) w b other) ∙ h
  ]

  pub add_running-same :
      (a : ℕ) (w : World lib)
      → ((add_running lib a w).0.running_connections
          ≡ insert (w.objects a).easy a w.running_connections)
        × ((add_running lib a w).0.objects ≡ w.objects)
  unfolding add_running
  add_running-same a w = run_callbacks-same _ _

  pub remove_running-same :
      (e : ℕ) (w : World lib)
      → ((remove_running lib e w).0.running_connections ≡ w.running_connections)
        × ((remove_running lib e w).0.objects ≡ w.objects)
  unfolding remove_running
  remove_running-same e w = run_callbacks-same _ _

  after_add-Consistent :
      (e : ℕ) (r : World lib × ℕ) → Consistent lib r.0 → Consistent lib (after_add lib e r).0
  unfolding after_add
  after_add-Consistent e (w, result) c = elim (Bool-cases (result == 0)) [
    | inl done ↦ rw (done, after_add) c
    | inr failed ↦ rw (failed, after_add) (erase-IsConsistent e w.running_connections w.objects c)
  ]

  pub start_connection-Consistent :
      (a : ℕ) (w : World lib) → Consistent lib w → Consistent lib (start_connection lib a w).0
  unfolding change_object
  start_connection-Consistent a w c =
      let v = prepared lib a w in
      let (t, o) = add_running-same a v in
      let easy = easy-change_object a (prepare lib w) w a in
      start_cases lib (Consistent lib) a w c λ fresh.
        after_add-Consistent (w.objects a).easy (add_running lib a v) (
          rw (t, o, easy)
            (insert-IsConsistent (w.objects a).easy a w.running_connections w.objects v.objects c
              fresh refl (easy-change_object a (prepare lib w) w) (prepared_others a w)
              (prepared-runs a w)))

  pub abort_connection-Consistent :
      (a : ℕ) (w : World lib) → Consistent lib w → Consistent lib (abort_connection lib a w).0
  abort_connection-Consistent a w c =
      let e = (w.objects a).easy in
      let (t, o) = remove_running-same e (erased lib e w) in
      abort_cases lib (Consistent lib) a w c
        (rw (t, o) (erase-IsConsistent e w.running_connections w.objects c))

  -- A connection may change if it goes on running, or goes on not to.
  pub change_object-Consistent :
      (a : ℕ) (f : AnyConnection → AnyConnection) (w : World lib)
      → (base_of (f (w.objects a).state)).is_running ≡ (base_of (w.objects a).state).is_running
      → Consistent lib w
      → Consistent lib (change_object lib a f w)
  unfolding change_object
  change_object-Consistent a f w same c = record {
    distinct = c.distinct;
    located = λ e b h. easy-change_object a f w b ∙ c.located e b h;
    running = λ e b h. change_object-runs a f w same b ∙ c.running e b h;
  }

  run_requests-Consistent :
      (rs : List Request) (w : World lib)
      → Consistent lib w
      → Consistent lib (run_requests lib rs w)
  unfolding run_requests run_request
  run_requests-Consistent [] w c = c
  run_requests-Consistent (starts a ∷ rs) w c =
      run_requests-Consistent rs _ (start_connection-Consistent a w c)
  run_requests-Consistent (aborts a ∷ rs) w c =
      run_requests-Consistent rs _ (abort_connection-Consistent a w c)
  run_requests-Consistent (configures a s ∷ rs) w c =
      run_requests-Consistent rs (change_object lib a (apply_any s) w)
        (change_object-Consistent a (apply_any s) w (apply_any-runs s (w.objects a).state) c)

  module _ (handlers : Handlers lib) where
    finished-Consistent :
        (e a result : ℕ) (w : World lib)
        → Consistent lib w
        → find e w.running_connections ≡ some a
        → Consistent lib (finished lib handlers a result (erased lib e w))
    unfolding change_object
    finished-Consistent e a result w c found =
        stop-IsConsistent e a w.running_connections w.objects
          (finished lib handlers a result (erased lib e w)).objects c found
          (easy-change_object a (stop result) (erased lib e w))
          λ b other.
            ap (λ x. (base_of x.state).is_running)
              (change_object_other a (stop result) (erased lib e w) b other)

    pub handle_message-Consistent :
        (msg : Message) (w : World lib)
        → Consistent lib w
        → Consistent lib (handle_message lib handlers msg w)
    handle_message-Consistent msg w c =
        let removed = (remove_running lib msg.easy_handle w).0 in
        let (t, o) = remove_running-same msg.easy_handle w in
        let c' : Consistent lib removed = rw (t, o) c in
        message_cases lib handlers (Consistent lib) msg w c c' λ a found.
          let stopped = finished-Consistent msg.easy_handle a msg.result removed c' found in
          did_finish_cases lib handlers (Consistent lib) a msg.result _ stopped
            λ f. run_requests-Consistent _ _ stopped

    pub act-Consistent :
        (fuel : ℕ) (s : Option ℕ) (events : Select) (w w' : World lib)
        → act lib handlers fuel s events w ≡ some w'
        → Consistent lib w
        → Consistent lib w'
    unfolding act
    act-Consistent fuel s events w w' e c =
        check_invariant lib handlers (Consistent lib) (λ v d. d) handle_message-Consistent fuel _ w'
          e (run_callbacks-Consistent _ _ c)
