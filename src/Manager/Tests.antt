-- ===== src/Manager/Tests.antt =====
-- The theorems on the manager at short histories.
use curlion.Common.{ℕ, ◌<◌, ◌≡◌, refl, true, false, none, some, ◌==◌, arith}
use curlion.Curl.{code}
use curlion.Error.{no_error, assign, curl_multi_error_category}
use curlion.Connection.State.{reset_options}
use curlion.Connection.Callbacks.{start}
use curlion.Connection.Tests.{silent, exchange}
use curlion.Manager.Table.{find, insert, erase}
use curlion.Manager.State.{Message, World, new_world, base_of, select_none}
use curlion.Manager.Step.{
  run_callbacks, run_callback, watch_socket, start_connection, abort_connection, handle_message,
  act, timer_triggered,
}
use curlion.Manager.Termination.{Drained, act_total}
use curlion.Manager.Run.{Reach, here, next, Step, timer_fires}
use curlion.Manager.Behaviour.{
  registered, add_code, IsStarted, start_connection_accepted, start_connection_refused,
  abort_connection-registered,
}
use curlion.Manager.Finishing.{notified, ended, handle_message_done}
use curlion.Manager.Example.{library, started-Consistent, message_laws, restart, fresh, started}

-- After a start of two connections and an abort of the second.
abbrev aborted : World library
aborted = (abort_connection library 2 (start_connection library 2 started).0).0

aborted-Reach : Reach library restart fresh aborted
aborted-Reach = next (next (next here (Step.starts 1)) (Step.starts 2)) (Step.aborts 2)

aborted-few :
    message_laws.pending (library.socket_action none select_none aborted.multi_handle).0 < 3
unfolding start_connection abort_connection find insert erase new_world run_callbacks run_callback
    watch_socket
aborted-few = omega arith

-- The timer fires then, the transfers are done, and the first connection is started again.
abbrev late :
    (w' : World library) × (act library restart 3 none select_none aborted ≡ some w')
    × Drained library message_laws restart w'
late = act_total library message_laws restart 3 none select_none aborted aborted-few

late-Reach : Reach library restart fresh late.0
unfolding timer_triggered
late-Reach = next aborted-Reach (timer_fires 3 late.1)

act_total_example :
    (w' : World library) × (act library restart 3 none select_none aborted ≡ some w')
    × Drained library message_laws restart w'
act_total_example = act_total library message_laws restart 3 none select_none aborted aborted-few

fresh-registered : (a : ℕ) → registered library a fresh ≡ none
unfolding new_world find
fresh-registered a = refl

start_connection_accepted_example :
    let (w', error) = start_connection library 1 fresh in
    (error ≡ no_error) × IsStarted library 1 w' × (start_connection library 1 w' ≡ (w', no_error))
unfolding new_world
start_connection_accepted_example =
    start_connection_accepted library 1 fresh (fresh-registered 1) refl

start_connection_refused_example :
    let (w', error) = start_connection library 9 fresh in
    let c = base_of (w'.objects 9).state in
    (error ≡ assign (add_code library 9 fresh) curl_multi_error_category)
    × (registered library 9 w' ≡ none)
    × (reset_options c ≡ c)
    × (start silent c exchange (code 0) ≡ some c)
unfolding new_world
start_connection_refused_example =
    start_connection_refused library 9 fresh silent exchange (code 0) tt (fresh-registered 9)
      (ground arith)

started-registered : registered library 1 started ≡ some 1
started-registered = start_connection_accepted_example.1.0

abort_connection-registered_example :
    let (w', error) = abort_connection library 1 started in
    let c = base_of (w'.objects 1).state in
    (registered library 1 w' ≡ none)
    × (w'.objects ≡ started.objects)
    × (abort_connection library 1 w' ≡ (w', no_error))
    × (reset_options c ≡ c)
    × (start silent c exchange (code 0) ≡ some c)
abort_connection-registered_example =
    abort_connection-registered library 1 started silent exchange (code 0) started-Consistent
      started-registered

started-found : find 1 started.running_connections ≡ some 1
unfolding start_connection find insert new_world run_callbacks
started-found = refl

abbrev done_1 : Message
done_1 = record { is_done = true; easy_handle = 1; result = 28 }

handle_message_done_example :
    let v = ended library restart done_1 1 started in
    let c = base_of (v.objects 1).state in
    (handle_message library restart done_1 started
      ≡ notified library restart (base_of (started.objects 1).state).finished_callback 1 v)
    × (registered library 1 v ≡ none)
    × (c.is_running ≡ false)
    × (c.result ≡ code 28)
    × ((b : ℕ) → (1 == b) ≡ false → v.objects b ≡ started.objects b)
handle_message_done_example =
    handle_message_done library restart done_1 1 started started-Consistent refl started-found
