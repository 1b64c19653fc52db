-- ===== src/Asio/MainTests.antt =====
-- The request of example/asio.cpp with one piece of the body, which succeeds.
use curlion.Common.{ℕ, ◌≡◌, refl, true, false, none, some, List, [], ◌∷◌, ◌++◌, codes, pos}
use curlion.Curl.{count}
use curlion.Connection.State.{Connection, new}
use curlion.Connection.Body.{write_body}
use curlion.Connection.Callbacks.{Transfer, writes_body, transfer, curl_write_body_callback}
use curlion.Connection.Tests.{silent}
use curlion.Http.State.{will_start_http}
use curlion.Manager.Table.{find, insert}
use curlion.Manager.State.{
  World, Handlers, starts, Message, Object, http, base_of, map_base, new_world, change_object,
}
use curlion.Manager.Step.{start_connection, run_requests, handle_message, run_callbacks}
use curlion.Manager.Registered.{Consistent}
use curlion.Manager.Consistent.{start_connection-Consistent, change_object-Consistent}
use curlion.Manager.Run.{new_world-Consistent}
use curlion.Manager.Finishing.{ended}
use curlion.Manager.Request.{Progress, begun, called}
use curlion.Manager.Example.{library}
use curlion.Asio.Main.{
  Screen, request_connection, expected, call_finished, call_finished-handle_message,
}

-- A finished callback that starts the connection again.
abbrev again : Handlers library
again f a w = starts a ∷ []

abbrev only : ℕ → Object
only a = record { easy = a; state = http request_connection }

abbrev begun_1 : World library
begun_1 = (start_connection library 1 (new_world library true only)).0

abbrev piece : List Transfer
piece = writes_body (codes "hi") 1 2 ∷ []

abbrev with_body : Connection
with_body = (curl_write_body_callback silent (base_of (begun_1.objects 1).state) (codes "hi") 1 2).0

abbrev received : World library
received = change_object library 1 (map_base (λ old. with_body)) begun_1

received-Progress : Progress library silent 1 begun_1 piece received
unfolding transfer curl_write_body_callback write_body base_of start_connection find new_world
    run_callbacks will_start_http request_connection new
received-Progress = called (writes_body (codes "hi") 1 2) with_body (count 2) [] begun refl

received-Consistent : Consistent library received
unfolding curl_write_body_callback write_body base_of map_base start_connection find new_world
    run_callbacks will_start_http request_connection new
received-Consistent =
    change_object-Consistent library 1 (map_base (λ old. with_body)) begun_1 refl (
      start_connection-Consistent library 1 (new_world library true only)
        (new_world-Consistent library again true only))

abbrev done_1 : Message
done_1 = record { is_done = true; easy_handle = 1; result = 0 }

received-found : find 1 received.running_connections ≡ some 1
unfolding find insert change_object start_connection new_world run_callbacks
received-found = refl

abbrev screen : Screen
screen = record { has_work = true; printed = [] }

call_finished-handle_message_example :
    let v = ended library again done_1 1 received in
    (handle_message library again done_1 received ≡ run_requests library (again 0 1 v) v)
    × (find (v.objects 1).easy v.running_connections ≡ none)
    × (call_finished (pos 200) (base_of (v.objects 1).state) screen
        ≡ record { has_work = false; printed = screen.printed ++ expected (pos 200) 0 piece })
call_finished-handle_message_example =
    call_finished-handle_message library silent again only 1 received piece done_1 (pos 200) screen
      refl refl received-Progress received-Consistent refl received-found
