-- ===== src/Manager/Watching.antt =====
-- What the manager promises its `Timer` and its `SocketWatcher` (timer.h, socket_watcher.h), and the
-- pointer by which it keeps that promise.
use curlion.Common.{
  ℕ, ◌≡◌, refl, sym, ◌∙◌, Bool, true, false, Option, some, List, [], ◌∷◌, ℤ, pos, negsuc,
  if◌then◌else◌, arith, eqb_refl,
}
use curlion.Manager.State.{
  Poll, poll_remove, Callback, timer, socket, MultiLibrary, Effect, watch, stop_watching, World,
  Handlers, Message, Request, starts, aborts, configures, apply_any, Event, Select, change_object,
}
use curlion.Manager.Cases.{
  prepared, erased, finished, start_cases, abort_cases, did_finish_cases, message_cases,
  check_invariant,
}
use curlion.Manager.Step.{
  emit, event_of, is_remove, set_timer, watch_socket, run_callback, run_callbacks, add_running,
  after_add, start_connection, remove_running, abort_connection, run_request, run_requests,
  did_finish_at, handle_message, act,
}
use curlion.Manager.Obeys.{Obeys, SocketLaws, watched}

-- The calls so far keep the promise, and the tag marks exactly the sockets that are watched.
abbrev Agrees : (lib : MultiLibrary) → lib.Multi → List Effect → Type 0
Agrees lib m effects = (s : ℕ) → watched s effects ≡ lib.socketp m s

pub record IsWatched (lib : MultiLibrary) (w : World lib) : Type 0 where
  pub obeys : Obeys w.effects
  pub agrees : (s : ℕ) → watched s w.effects ≡ lib.socketp w.multi_handle s

module _ (lib : MultiLibrary) (laws : SocketLaws lib) where
  set_timer-IsWatched :
      (ms : ℤ) (w : World lib) → IsWatched lib w → IsWatched lib (set_timer lib ms w)
  unfolding set_timer
  set_timer-IsWatched (pos n) w i = record { obeys = (refl, i.obeys); agrees = i.agrees }
  set_timer-IsWatched (negsuc n) w i = record { obeys = i.obeys; agrees = i.agrees }

  -- The socket callback, at a tag that is known.
  module _ (s : ℕ) (w : World lib) (i : IsWatched lib w) where
    tagged_watch :
        (event : Event)
        → lib.socketp w.multi_handle s ≡ true
        → IsWatched lib (emit lib (watch s event) (emit lib (stop_watching s) w))
    tagged_watch event tag = record {
      obeys = (rw (eqb_refl s), (i.agrees s ∙ tag, i.obeys));
      agrees = λ t. ground (arith, i.agrees t, i.agrees s);
    }

    fresh_watch :
        (event : Event)
        → lib.socketp w.multi_handle s ≡ false
        → IsWatched lib
            (emit lib (watch s event) (record w { multi_handle = lib.assign s w.multi_handle }))
    fresh_watch event tag = record {
      obeys = (i.agrees s ∙ tag, i.obeys);
      agrees = λ t. rw (laws.assign_socketp s w.multi_handle t, i.agrees t);
    }

    known-IsWatched :
        (tag : Bool) (action : Poll)
        → lib.socketp w.multi_handle s ≡ tag
        → let watched = watch_socket lib s action tag w in
          IsWatched lib (
            if is_remove action
            then record watched { multi_handle = lib.forget s watched.multi_handle }
            else watched)
    unfolding watch_socket
    known-IsWatched true poll_remove e = record {
      obeys = (i.agrees s ∙ e, i.obeys);
      agrees = λ t. rw (laws.forget_socketp s w.multi_handle t, i.agrees t);
    }
    known-IsWatched true action e = tagged_watch (event_of action) e
    known-IsWatched false poll_remove e = record {
      obeys = i.obeys;
      agrees = λ t. ground (
        arith,
        i.agrees t,
        i.agrees s,
        laws.forget_socketp s (lib.assign s w.multi_handle) t,
        laws.assign_socketp s w.multi_handle t,
      );
    }
    known-IsWatched false action e = fresh_watch (event_of action) e

  run_callback-IsWatched :
      (c : Callback) (w : World lib) → IsWatched lib w → IsWatched lib (run_callback lib c w)
  unfolding run_callback
  run_callback-IsWatched (timer ms) w i = set_timer-IsWatched ms w i
  run_callback-IsWatched (socket s action) w i =
      known-IsWatched s w i (lib.socketp w.multi_handle s) action refl

  run_callbacks-IsWatched :
      (cs : List Callback) (w : World lib)
      → IsWatched lib w
      → IsWatched lib (run_callbacks lib cs w)
  unfolding run_callbacks
  run_callbacks-IsWatched [] w i = i
  run_callbacks-IsWatched (c ∷ cs) w i =
      run_callbacks-IsWatched cs (run_callback lib c w) (run_callback-IsWatched c w i)

  add_running-IsWatched :
      (a : ℕ) (w : World lib) → IsWatched lib w → IsWatched lib (add_running lib a w).0
  unfolding add_running
  add_running-IsWatched a w i = run_callbacks-IsWatched _ _ (record {
    obeys = i.obeys;
    agrees = λ s. i.agrees s ∙ sym (laws.add_socketp (w.objects a).easy w.multi_handle s);
  })

  remove_running-IsWatched :
      (e : ℕ) (w : World lib) → IsWatched lib w → IsWatched lib (remove_running lib e w).0
  unfolding remove_running
  remove_running-IsWatched e w i = run_callbacks-IsWatched _ _ (record {
    obeys = i.obeys;
    agrees = λ s. i.agrees s ∙ sym (laws.remove_socketp e w.multi_handle s);
  })

  -- What is neither an effect nor the multi handle does not matter.
  abbrev Alike : World lib → World lib → Type 0
  Alike w v = (w.effects ≡ v.effects) × (w.multi_handle ≡ v.multi_handle)

  Alike-IsWatched : (w v : World lib) → Alike w v → IsWatched lib w → IsWatched lib v
  Alike-IsWatched w v (e, m) i = record {
    obeys = rw (← e) i.obeys;
    agrees = λ s. rw (← e, ← m) (i.agrees s);
  }

  after_add-IsWatched :
      (e : ℕ) (r : World lib × ℕ) → IsWatched lib r.0 → IsWatched lib (after_add lib e r).0
  unfolding after_add
  after_add-IsWatched e (w, result) i =
      Alike-IsWatched w (after_add lib e (w, result)).0 (ground arith, ground arith) i

  pub start_connection-IsWatched :
      (a : ℕ) (w : World lib) → IsWatched lib w → IsWatched lib (start_connection lib a w).0
  unfolding change_object
  start_connection-IsWatched a w i = start_cases lib (IsWatched lib) a w i λ _.
      after_add-IsWatched (w.objects a).easy (add_running lib a (prepared lib a w))
        (add_running-IsWatched a (prepared lib a w) (record { obeys = i.obeys; agrees = i.agrees }))

  pub abort_connection-IsWatched :
      (a : ℕ) (w : World lib) → IsWatched lib w → IsWatched lib (abort_connection lib a w).0
  abort_connection-IsWatched a w i = abort_cases lib (IsWatched lib) a w i (
      remove_running-IsWatched (w.objects a).easy (erased lib (w.objects a).easy w)
        (record { obeys = i.obeys; agrees = i.agrees }))

  run_requests-IsWatched :
      (rs : List Request) (w : World lib) → IsWatched lib w → IsWatched lib (run_requests lib rs w)
  unfolding run_requests run_request change_object
  run_requests-IsWatched [] w i = i
  run_requests-IsWatched (starts a ∷ rs) w i =
      run_requests-IsWatched rs _ (start_connection-IsWatched a w i)
  run_requests-IsWatched (aborts a ∷ rs) w i =
      run_requests-IsWatched rs _ (abort_connection-IsWatched a w i)
  run_requests-IsWatched (configures a s ∷ rs) w i =
      run_requests-IsWatched rs (change_object lib a (apply_any s) w)
        (record { obeys = i.obeys; agrees = i.agrees })

  module _ (handlers : Handlers lib) where
    did_finish_at-IsWatched :
        (a result : ℕ) (w : World lib)
        → IsWatched lib w
        → IsWatched lib (did_finish_at lib handlers a result w)
    unfolding change_object
    did_finish_at-IsWatched a result w i =
        let same : IsWatched lib (finished lib handlers a result w) = record {
          obeys = i.obeys;
          agrees = i.agrees;
        } in
        did_finish_cases lib handlers (IsWatched lib) a result w same
          λ f. run_requests-IsWatched (handlers f a (finished lib handlers a result w)) _ same

    handle_message-IsWatched :
        (msg : Message) (w : World lib)
        → IsWatched lib w
        → IsWatched lib (handle_message lib handlers msg w)
    handle_message-IsWatched msg w i =
        let removed = remove_running-IsWatched msg.easy_handle w i in
        message_cases lib handlers (IsWatched lib) msg w i removed λ a _.
          did_finish_at-IsWatched a msg.result _
            (record { obeys = removed.obeys; agrees = removed.agrees })

    pub act-IsWatched :
        (fuel : ℕ) (s : Option ℕ) (events : Select) (w w' : World lib)
        → act lib handlers fuel s events w ≡ some w'
        → IsWatched lib w
        → IsWatched lib w'
    unfolding act
    act-IsWatched fuel s events w w' e i =
        check_invariant lib handlers (IsWatched lib)
          (λ v j. record {
            obeys = j.obeys;
            agrees = λ t. j.agrees t ∙ sym (laws.read_socketp v.multi_handle t);
          })
          handle_message-IsWatched fuel _ w' e
          (run_callbacks-IsWatched _ _ (record {
            obeys = i.obeys;
            agrees = λ t. i.agrees t ∙ sym (laws.action_socketp s events w.multi_handle t);
          }))
