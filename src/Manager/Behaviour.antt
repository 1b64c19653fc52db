-- ===== src/Manager/Behaviour.antt =====
-- What `StartConnection` and `AbortConnection` leave, on each branch.
use curlion.Common.{
  ℕ, ◌≡◌, refl, sym, ap, ◌∙◌, ◌≢◌, true, Option, none, some, List, ◌==◌, if◌then◌else◌, arith,
  eqb_refl, ne→eqb,
}
use curlion.Curl.{CurlCode}
use curlion.Error.{no_error, assign, curl_multi_error_category}
use curlion.Connection.State.{Client, reset_options}
use curlion.Connection.Callbacks.{Transfer, start}
use curlion.Connection.Lifecycle.{running_ignores}
use curlion.Manager.Table.{find, insert, Distinct, find-insert, find-erase, insert-Distinct}
use curlion.Manager.State.{MultiLibrary, World, base_of, change_object}
use curlion.Manager.Cases.{prepare, prepared, erased}
use curlion.Manager.Step.{
  add_running, after_add, start_connection, remove_running, abort_connection,
}
use curlion.Manager.Registered.{Consistent, runs}
use curlion.Manager.Consistent.{
  add_running-same, remove_running-same, easy-change_object, prepared-runs,
}

module _ (lib : MultiLibrary) where
  -- What `curl_multi_add_handle` answers to a start of the connection at `a`.
  abbrev pub add_code : ℕ → World lib → ℕ
  add_code a w = (lib.add_handle (w.objects a).easy w.multi_handle).1

  abbrev pub registered : ℕ → World lib → Option ℕ
  registered a w = find (w.objects a).easy w.running_connections

  pub start_fresh :
      (a : ℕ) (w : World lib)
      → registered a w ≡ none
      → start_connection lib a w
        ≡ after_add lib (w.objects a).easy (add_running lib a (prepared lib a w))
  unfolding start_connection
  start_fresh a w fresh = rw (fresh, start_connection)

  pub add_running-code :
      (a : ℕ) (w : World lib) → (add_running lib a (prepared lib a w)).1 ≡ add_code a w
  unfolding add_running change_object
  add_running-code a w = rw (eqb_refl a)

  -- The table and the objects that a start leaves before its result is looked at.
  pub added_table :
      (a : ℕ) (w : World lib)
      → ((add_running lib a (prepared lib a w)).0.running_connections
          ≡ insert (w.objects a).easy a w.running_connections)
        × ((add_running lib a (prepared lib a w)).0.objects ≡ (prepared lib a w).objects)
  unfolding change_object
  added_table a w =
      let (t, o) = add_running-same lib a (prepared lib a w) in
      (
        t
            ∙ ap (λ e. insert e a w.running_connections)
                (easy-change_object lib a (prepare lib w) w a),
        o,
      )

  pub after_add_done : (e : ℕ) (r : World lib × ℕ) → r.1 ≡ 0 → after_add lib e r ≡ (r.0, no_error)
  unfolding after_add
  after_add_done e (w, result) h = ground (arith, h)

  after_add_failed :
      (e : ℕ) (r : World lib × ℕ)
      → r.1 ≢ 0
      → after_add lib e r ≡ (erased lib e r.0, assign r.1 curl_multi_error_category)
  unfolding after_add
  after_add_failed e (w, result) h = rw (ne→eqb result 0 h)

  start_again :
      (a b : ℕ) (w : World lib) → registered a w ≡ some b → start_connection lib a w ≡ (w, no_error)
  unfolding start_connection
  start_again a b w e = rw (e, start_connection)

  -- What is true of a world in which the connection at `a` is registered and marked as running.
  abbrev pub IsStarted : ℕ → World lib → Type 0
  IsStarted a w = (registered a w ≡ some a) × (runs w.objects a ≡ true)

  added-IsStarted :
      (a : ℕ) (w : World lib)
      → registered a w ≡ none
      → IsStarted a (add_running lib a (prepared lib a w)).0
  added-IsStarted a w fresh =
      let (t, o) = added_table a w in
      let easy = easy-change_object lib a (prepare lib w) w a in
      (
        rw (t, o, easy)
            (find-insert (w.objects a).easy (w.objects a).easy a w.running_connections fresh
              ∙ rw (eqb_refl (w.objects a).easy)),
        rw o (prepared-runs lib a w),
      )

  -- A start of a connection that is not registered, where libcurl accepts the handle: there is no
  -- error, the connection is registered and marked as running, and a second start changes nothing.
  pub start_connection_accepted :
      (a : ℕ) (w : World lib)
      → registered a w ≡ none
      → add_code a w ≡ 0
      → let (w', error) = start_connection lib a w in
        (error ≡ no_error) × IsStarted a w' × (start_connection lib a w' ≡ (w', no_error))
  start_connection_accepted a w fresh accepted =
      let r = add_running lib a (prepared lib a w) in
      let e =
        start_fresh a w fresh
        ∙ after_add_done (w.objects a).easy r (add_running-code a w ∙ accepted) in
      let started = added-IsStarted a w fresh in rw e (refl, started, start_again a a r.0 started.0)

  -- A start of a connection that is not registered, in a table of distinct handles, where libcurl
  -- refuses the handle: the error has libcurl's code, and the connection is not registered; but it
  -- stays marked as running, so that it ignores `ResetOptions` and the blocking `Start`.
  pub start_connection_refused :
      (a : ℕ) (w : World lib) (client : Client) (ts : List Transfer) (result : CurlCode)
      → Distinct w.running_connections
      → registered a w ≡ none
      → add_code a w ≢ 0
      → let (w', error) = start_connection lib a w in
        let c = base_of (w'.objects a).state in
        (error ≡ assign (add_code a w) curl_multi_error_category)
        × (registered a w' ≡ none)
        × (reset_options c ≡ c)
        × (start client c ts result ≡ some c)
  start_connection_refused a w client ts result distinct fresh refused =
      let r = add_running lib a (prepared lib a w) in
      let (t, o) = added_table a w in
      let key = (w.objects a).easy in
      let same_code = add_running-code a w in
      let failed : r.1 ≢ 0 = λ h. refused (sym same_code ∙ h) in
      let gone : registered a (erased lib key r.0) ≡ none =
        rw (t, o, easy-change_object lib a (prepare lib w) w a)
          (find-erase key key (insert key a w.running_connections)
              (insert-Distinct key a w.running_connections fresh distinct)
            ∙ rw (eqb_refl key)) in
      let (start_ignored, reset_ignored) =
        running_ignores client (base_of (r.0.objects a).state) ts result
          (added-IsStarted a w fresh).1 in
      rw (start_fresh a w fresh ∙ after_add_failed key r failed)
        (ap (λ n. assign n curl_multi_error_category) same_code, gone, reset_ignored, start_ignored)

  abort_running :
      (a b : ℕ) (w : World lib)
      → registered a w ≡ some b
      → abort_connection lib a w ≡ (
          let r = remove_running lib (w.objects a).easy (erased lib (w.objects a).easy w) in
          (r.0, (if r.1 == 0 then no_error else assign r.1 curl_multi_error_category)))
  unfolding abort_connection
  abort_running a b w e = rw (e, abort_connection)

  abort_idle :
      (a : ℕ) (w : World lib) → registered a w ≡ none → abort_connection lib a w ≡ (w, no_error)
  unfolding abort_connection
  abort_idle a w e = rw (e, abort_connection)

  -- An abort of a registered connection in a consistent world, whatever libcurl answers: it is not
  -- registered any more, no connection is changed and so no finished callback was called, and a
  -- second abort changes nothing; but the connection stays marked as running, so that it ignores
  -- `ResetOptions` and the blocking `Start`.
  pub abort_connection-registered :
      (a : ℕ) (w : World lib) (client : Client) (ts : List Transfer) (result : CurlCode)
      → Consistent lib w
      → registered a w ≡ some a
      → let (w', error) = abort_connection lib a w in
        let c = base_of (w'.objects a).state in
        (registered a w' ≡ none)
        × (w'.objects ≡ w.objects)
        × (abort_connection lib a w' ≡ (w', no_error))
        × (reset_options c ≡ c)
        × (start client c ts result ≡ some c)
  abort_connection-registered a w client ts result c e =
      let key = (w.objects a).easy in
      let r = remove_running lib key (erased lib key w) in
      let (t, o) = remove_running-same lib key (erased lib key w) in
      let gone : registered a r.0 ≡ none =
        rw (t, o) (find-erase key key w.running_connections c.distinct ∙ rw (eqb_refl key)) in
      let still : runs r.0.objects a ≡ true = rw o (c.running key a e) in
      let (start_ignored, reset_ignored) =
        running_ignores client (base_of (r.0.objects a).state) ts result still in
      rw (abort_running a a w e) (gone, o, abort_idle a r.0 gone, reset_ignored, start_ignored)
