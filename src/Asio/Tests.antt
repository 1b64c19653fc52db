-- ===== src/Asio/Tests.antt =====
-- The theorems on the socket manager at short histories.
use curlion.Common.{
  ◌<◌, ℕ, ◌+◌, ◌≤◌, ◌≡◌, refl, true, false, if◌then◌else◌, none, some, [], ◌∷◌, arith, ap, ◌∙◌,
}
use curlion.Manager.Table.{find, insert, erase}
use curlion.Connection.State.{finish, will_start}
use curlion.Manager.State.{
  read, read_write, new_world, World, select_in, base_of, map_base, change_object,
}
use curlion.Manager.Step.{
  act, check_finished_connections, handle_message, did_finish_at, remove_running, run_requests,
  run_request, start_connection, run_callbacks, run_callback, watch_socket,
}
use curlion.Manager.Obeys.{timer_on, Obeys}
use curlion.Manager.Effects.{added}
use curlion.Manager.Example.{library, library-SocketLaws, objects, restart, fresh, started}
use curlion.Asio.State.{success, event, completed, Watcher, SocketManager, new_socket_manager}
use curlion.Asio.Step.{
  ipcxn, opens, watches, stops, Callbacks, run_action, open_socket, watch, start, watch_once,
  stop_watching, complete, is_aborted, event_triggered, call_back, run_actions,
}
use curlion.Asio.Entries.{entries}
use curlion.Asio.Live.{Obeying}
use curlion.Asio.Waits.{outstanding, aborts, wanted}
use curlion.Asio.History.{Reach, here, next, acts, completes, Reach-new-one_wait, Reach-new-entries}
use curlion.Asio.Reports.{
  Silent, cancelled, write_reports, complete-stop_watching, write_reports-outstanding,
}
use curlion.Asio.Timer.{waiting}
use curlion.Asio.Contract.{play, view, play_all, watched_event}
use curlion.Asio.Loop
use curlion.Asio.Loop.{
  Whole, settled, JointReach, starts, wait_reports, event_callback, AreOpen, new_whole, handle_of,
  called, resumed,
}
use curlion.Asio.Timer
use curlion.Asio.Watched.{JointReach-new_world-one_wait}
use curlion.Asio.Promise.{JointReach-new_world-view}

abbrev ignore : Callbacks
ignore f handle can_write m = []

-- The callback stops watching the socket that it is told of.
abbrev stop_it : Callbacks
stop_it f none can_write m = []
stop_it f (some s) can_write m = stops s ∷ []

stop_it-Obeying : Obeying stop_it
stop_it-Obeying f none can_write m = tt
stop_it-Obeying f (some s) can_write m = (tt, tt)

ignore-Obeying : Obeying ignore
ignore-Obeying f handle can_write m = tt

ignore-Silent : Silent ignore
ignore-Silent f handle can_write m = refl

abbrev memory : ℕ → Watcher
memory w = record { socket = 0; event = read; callback = 0; is_stopped = false }

abbrev empty : SocketManager
empty = new_socket_manager memory

-- The socket 1 is opened, and watched by the watcher 0.
abbrev opened : SocketManager
opened = run_action (opens ipcxn 2 (some 1)) empty

abbrev reading : SocketManager
reading = run_action (watches 1 read 7) opened

abbrev both : SocketManager
both = run_action (watches 1 read_write 7) opened

reading-Reach : (callbacks : Callbacks) → Reach callbacks empty reading
unfolding run_action open_socket new_socket_manager find
reading-Reach callbacks =
    next (next here (acts (opens ipcxn 2 (some 1)) tt)) (acts (watches 1 read 7) refl)

reading-waits : outstanding 0 false reading.io ≡ 1
unfolding run_action open_socket watch start watch_once new_socket_manager insert find
reading-waits = refl

reported-Reach :
    (callbacks : Callbacks) → Reach callbacks empty (complete callbacks 0 false success reading)
reported-Reach callbacks =
    next (reading-Reach callbacks) (completes 0 false success (omega (arith, reading-waits)))

Reach-new-one_wait_example :
    let m = complete ignore 0 false success reading in
    outstanding 0 false m.io + aborts 0 false m.io ≡ wanted (m.single_watchers 0).event false
unfolding complete event_triggered call_back run_actions run_action open_socket watch start
    watch_once new_socket_manager insert find
Reach-new-one_wait_example =
    Reach-new-one_wait ignore memory (complete ignore 0 false success reading) 0 false
      (reported-Reach ignore) (omega arith) refl refl

Reach-new-entries_example :
    let m = complete stop_it 0 false success reading in
    entries 0 m.watchers ≡ (if (m.single_watchers 0).is_stopped then 0 else 1)
unfolding complete event_triggered call_back run_actions run_action open_socket watch start
    watch_once new_socket_manager insert find
Reach-new-entries_example =
    Reach-new-entries stop_it stop_it-Obeying memory (complete stop_it 0 false success reading) 0
      (reported-Reach stop_it) (omega arith)

complete-stop_watching_example :
    let m' = stop_watching 1 reading in
    let watcher = reading.single_watchers 0 in
    (m'.io ≡ cancelled (reading.asio_sockets watcher.socket) watcher.socket reading.io)
    × ((complete ignore 0 false success m').io ≡ (
        if is_aborted success
        then completed 0 false success ∷ m'.io
        else event watcher.callback (reading.asio_sockets watcher.socket) false
          ∷ completed 0 false success
          ∷ m'.io))
unfolding run_action open_socket watch start watch_once new_socket_manager insert find
complete-stop_watching_example =
    complete-stop_watching ignore ignore-Silent 1 0 false success reading refl

write_reports-outstanding_example :
    let m' = write_reports ignore 0 3 both in
    (outstanding 0 true m'.io ≡ outstanding 0 true both.io)
    × (outstanding 0 false m'.io ≡ outstanding 0 false both.io + 3)
unfolding run_action open_socket watch start watch_once new_socket_manager insert find
write_reports-outstanding_example =
    write_reports-outstanding ignore ignore-Silent 0 3 both refl refl (omega arith)

-- A new manager over asio, that starts the connection 1 once a socket is open, and a report that the
-- socket can be read.
abbrev begun : Whole library restart
begun = settled library restart fresh started (record { timer = []; socket_manager = opened })

begun-JointReach : JointReach library restart (new_whole library restart true objects memory) begun
unfolding new_whole start_connection new_world run_callbacks run_callback watch_socket run_action
    open_socket new_socket_manager find insert
begun-JointReach =
    Loop.next (Loop.next Loop.here (Loop.opens ipcxn 2 (some 1))) (starts 1 (ground arith))

-- The transfer is done then, and the connection is started again.
abbrev later : World library
later = elim (act library restart 2 (some 1) select_in started) [ none ↦ started | some w ↦ w ]

later-runs : event_callback library restart 2 (some 1) false started ≡ some later
unfolding event_callback act check_finished_connections handle_message did_finish_at remove_running
    run_requests run_request start_connection new_world run_callbacks run_callback watch_socket find
    insert erase base_of map_base change_object finish will_start
later-runs = refl

later-AreOpen : AreOpen library restart started later begun.system
unfolding event_callback act check_finished_connections handle_message did_finish_at remove_running
    run_requests run_request start_connection new_world run_callbacks run_callback watch_socket find
    insert erase base_of map_base change_object finish will_start run_action open_socket
    new_socket_manager play_all play watch start watch_once Timer.start Timer.stop
later-AreOpen = ground arith

begun-handle : handle_of 0 begun.system ≡ some 1
unfolding event_callback act check_finished_connections handle_message did_finish_at remove_running
    run_requests run_request start_connection new_world run_callbacks run_callback watch_socket find
    insert erase base_of map_base change_object finish will_start run_action open_socket
    new_socket_manager play_all play watch start watch_once Timer.start Timer.stop
begun-handle = refl

begun-waits : 0 < outstanding 0 false begun.system.socket_manager.io
unfolding event_callback act check_finished_connections handle_message did_finish_at remove_running
    run_requests run_request start_connection new_world run_callbacks run_callback watch_socket find
    insert erase base_of map_base change_object finish will_start run_action open_socket
    new_socket_manager play_all play watch start watch_once Timer.start Timer.stop
begun-waits = omega arith

abbrev done : Whole library restart
done = record {
  manager = later;
  system =
      resumed 0
        (play_all (added started.effects later.effects) (called 0 false success begun.system));
}

done-JointReach : JointReach library restart (new_whole library restart true objects memory) done
done-JointReach = Loop.next begun-JointReach (
    wait_reports 0 false success 2 later begun-waits refl
      (ap (λ h. event_callback library restart 2 h false started) begun-handle ∙ later-runs)
      later-AreOpen)

JointReach-new_world-view_example :
    Obeys done.manager.effects
    × ((s : ℕ) → view done.system.socket_manager s ≡ watched_event s done.manager.effects)
    × (waiting done.system.timer ≤ (if timer_on done.manager.effects then 1 else 0))
JointReach-new_world-view_example =
    JointReach-new_world-view library library-SocketLaws restart true objects memory done
      done-JointReach

done-asked : watched_event 1 done.manager.effects ≡ some read
unfolding event_callback act check_finished_connections handle_message did_finish_at remove_running
    run_requests run_request start_connection new_world run_callbacks run_callback watch_socket find
    insert erase base_of map_base change_object finish will_start
done-asked = refl

JointReach-new_world-one_wait_example :
    let m = done.system.socket_manager in
    (w : ℕ) × (find 1 m.watchers ≡ some w)
    × ((m.single_watchers w).event ≡ read)
    × (outstanding w false m.io + aborts w false m.io ≡ wanted read false)
JointReach-new_world-one_wait_example =
    JointReach-new_world-one_wait library library-SocketLaws restart true objects memory done 1 read
      false done-JointReach done-asked refl
