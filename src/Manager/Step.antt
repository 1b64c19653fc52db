-- ===== src/Manager/Step.antt =====
-- connection_manager.cpp: the methods of `ConnectionManager`.
use curlion.Common.{
  ℕ, zero, suc, Bool, true, false, Option, none, some, List, [], ◌∷◌, ℤ, pos, negsuc, ◌==◌,
  if◌then◌else◌,
}
use curlion.Curl.{code}
use curlion.Error.{ErrorCondition, no_error, assign, curl_multi_error_category}
use curlion.Connection.State.{finish}
use curlion.Manager.Table.{find, insert, erase}
use curlion.Manager.State.{
  Poll, poll_in, poll_out, poll_inout, poll_remove, Select, select_none, select_in, select_out,
  Event, read, write, read_write, Callback, timer, socket, Message, MultiLibrary, Effect,
  timer_start, timer_stop, watch, stop_watching, base_of, map_base, will_start_any,
  set_socket_options, Request, starts, aborts, configures, apply_any, World, Handlers,
  change_object,
}

-- The `switch` of `WatchSocket`.
pub event_of : Poll → Event
event_of poll_in = read
event_of poll_out = write
event_of poll_inout = read_write
event_of poll_remove = read
event_of (Poll.other n) = read

pub is_remove : Poll → Bool
is_remove poll_remove = true
is_remove _ = false

module _ (lib : MultiLibrary) where
  abbrev pub emit : Effect → World lib → World lib
  emit e w = record w { effects = e ∷ w.effects }

  unfoldable pub set_timer : ℤ → World lib → World lib
  set_timer (pos n) w = emit (timer_start (pos n)) (emit timer_stop w)
  set_timer (negsuc n) w = emit timer_stop w

  -- The last argument says whether `socket_pointer` is `kIsNotNewSocketTag`.
  unfoldable pub watch_socket : ℕ → Poll → Bool → World lib → World lib
  unfolding event_of is_remove
  watch_socket s action is_not_new w =
      let known =
        if is_not_new
        then emit (stop_watching s) w
        else record w { multi_handle = lib.assign s w.multi_handle } in
      if is_remove action then known else emit (watch s (event_of action)) known

  -- `CurlTimerCallback` and `CurlSocketCallback`, as libcurl calls them.
  unfoldable pub run_callback : Callback → World lib → World lib
  unfolding set_timer watch_socket
  run_callback (timer timeout_ms) w = set_timer timeout_ms w
  run_callback (socket s action) w =
      let watched = watch_socket s action (lib.socketp w.multi_handle s) w in
      if is_remove action
      then record watched { multi_handle = lib.forget s watched.multi_handle }
      else watched

  unfoldable pub run_callbacks : List Callback → World lib → World lib
  unfolding run_callback
  run_callbacks [] w = w
  run_callbacks (c ∷ cs) w = run_callbacks cs (run_callback c w)

  unfoldable pub add_running : ℕ → World lib → World lib × ℕ
  add_running a w =
      let easy_handle = (w.objects a).easy in
      let inserted = record w {
        running_connections = insert easy_handle a w.running_connections;
      } in
      let (multi, result, callbacks) = lib.add_handle easy_handle w.multi_handle in
      (run_callbacks callbacks (record inserted { multi_handle = multi }), result)

  -- Behind `curl_multi_add_handle`.
  unfoldable pub after_add : ℕ → World lib × ℕ → World lib × ErrorCondition
  after_add easy_handle (w, result) = if result == 0 then (w, no_error) else (
    record w { running_connections = erase easy_handle w.running_connections },
    assign result curl_multi_error_category,
  )

  unfoldable pub start_connection : ℕ → World lib → World lib × ErrorCondition
  unfolding add_running after_add will_start_any set_socket_options map_base change_object
  start_connection a w =
      let easy_handle = (w.objects a).easy in
      let prepared =
        change_object lib a
          (λ o. will_start_any (map_base (set_socket_options w.has_socket_factory) o)) w in
      elim (find easy_handle w.running_connections) [
        | some b ↦ (w, no_error)
        | none ↦ after_add easy_handle (add_running a prepared)
      ]

  unfoldable pub remove_running : ℕ → World lib → World lib × ℕ
  remove_running easy_handle w =
      let (multi, result, callbacks) = lib.remove_handle easy_handle w.multi_handle in
      (run_callbacks callbacks (record w { multi_handle = multi }), result)

  unfoldable pub abort_connection : ℕ → World lib → World lib × ErrorCondition
  unfolding remove_running
  abort_connection a w =
      let easy_handle = (w.objects a).easy in
      let erased = record w { running_connections = erase easy_handle w.running_connections } in
      elim (find easy_handle w.running_connections) [
        | none ↦ (w, no_error)
        | some b ↦
            let (w', result) = remove_running easy_handle erased in
            (w', (if result == 0 then no_error else assign result curl_multi_error_category))
      ]

  unfoldable pub run_request : Request → World lib → World lib
  unfolding start_connection abort_connection change_object apply_any
  run_request (starts a) w = (start_connection a w).0
  run_request (aborts a) w = (abort_connection a w).0
  run_request (configures a s) w = change_object lib a (apply_any s) w

  unfoldable pub run_requests : List Request → World lib → World lib
  unfolding run_request
  run_requests [] w = w
  run_requests (r ∷ rs) w = run_requests rs (run_request r w)

  module _ (handlers : Handlers lib) where
    -- `DidFinish` on the connection at an address.
    unfoldable pub did_finish_at : ℕ → ℕ → World lib → World lib
    unfolding change_object map_base finish run_requests
    did_finish_at a result w =
        let finished = change_object lib a (map_base (λ c. finish c (code result))) w in
        elim (base_of (w.objects a).state).finished_callback [
          | none ↦ finished
          | some f ↦ run_requests (handlers f a finished) finished
        ]

    -- A round of `CheckFinishedConnections` on a message.
    unfoldable pub handle_message : Message → World lib → World lib
    unfolding did_finish_at remove_running
    handle_message msg w =
        let removed = (remove_running msg.easy_handle w).0 in
        let erased = record removed {
          running_connections = erase msg.easy_handle removed.running_connections;
        } in
        if msg.is_done
        then elim (find msg.easy_handle removed.running_connections) [
          | none ↦ removed
          | some a ↦ did_finish_at a msg.result erased
        ]
        else w

    -- The loop; `none` if the fuel runs out.
    unfoldable pub check_finished_connections : ℕ → World lib → Option (World lib)
    check_finished_connections zero w = none
    check_finished_connections (suc fuel) w =
        let (multi, msg) = lib.info_read w.multi_handle in
        let read = record w { multi_handle = multi } in
        elim msg [
          | none ↦ some read
          | some m ↦ check_finished_connections fuel (handle_message m read)
        ]

    -- `curl_multi_socket_action`, and the check behind it.
    unfoldable pub act : ℕ → Option ℕ → Select → World lib → Option (World lib)
    act fuel s events w =
        let (multi, callbacks) = lib.socket_action s events w.multi_handle in
        check_finished_connections fuel
          (run_callbacks callbacks (record w { multi_handle = multi }))

    unfoldable pub timer_triggered : ℕ → World lib → Option (World lib)
    unfolding act
    timer_triggered fuel = act fuel none select_none

    unfoldable pub socket_event_triggered : ℕ → ℕ → Bool → World lib → Option (World lib)
    unfolding act
    socket_event_triggered fuel s can_write =
        act fuel (some s) (if can_write then select_out else select_in)
