-- ===== src/Manager/RequestTests.antt =====
-- Whole requests of the example's connections.
use curlion.Common.{
  ◌≡◌, refl, ap, ◌∙◌, Bool-cases, inl, inr, true, false, none, some, [], ◌∷◌, ◌==◌, arith, codes,
  eqb_iff,
}
use curlion.Curl.{code, count}
use curlion.Connection.State.{Connection, will_start, new}
use curlion.Connection.Tests.{silent}
use curlion.Manager.Table.{find, insert}
use curlion.Manager.State.{
  Message, World, Handlers, new_world, base_of, select_none, change_object, map_base,
}
use curlion.Manager.Step.{run_callbacks, run_callback, start_connection, handle_message, act}
use curlion.Manager.Registered.{Consistent}
use curlion.Manager.Consistent.{easy-change_object, change_object_self, change_object_other}
use curlion.Connection.Body.{write_header, write_body}
use curlion.Connection.Quiet.{IsQuiet, headers_of, bodies_of}
use curlion.Manager.Behaviour.{registered}
use curlion.Manager.Finishing.{notified, ended}
use curlion.Manager.Example.{library, queue_laws, restart, fresh, started, started-Consistent}
use curlion.Connection.Callbacks.{
  transfer, writes_header, writes_body, curl_write_header_callback, curl_write_body_callback,
}
use curlion.Manager.Queue.{outcome}
use curlion.Manager.Delivery.{entry_after, IsSettled, act_settles}
use curlion.Manager.Request.{
  Progress, begun, called, base_of-map_base, start_connection-handle_message,
}

-- Callbacks that ask for nothing.
abbrev ignore : Handlers library
ignore f a w = []

act_settles_example :
    let done =
      outcome 1
        (queue_laws.queue (library.socket_action none select_none started.multi_handle).0) in
    (w' : World library) × (act library ignore 5 none select_none started ≡ some w')
    × (find 1 w'.running_connections ≡ entry_after done 1)
    × IsSettled done (started.objects 1).state (w'.objects 1).state
unfolding start_connection find insert new_world run_callbacks run_callback
act_settles_example =
    act_settles library queue_laws ignore (λ f a w. refl) 5 1 1 none select_none started
      started-Consistent refl (omega arith)

-- The connection at 1 as it has been started, and behind two calls that libcurl makes on it.
abbrev begun_1 : Connection
begun_1 = base_of (started.objects 1).state

abbrev with_header : Connection
with_header = (curl_write_header_callback silent begun_1 (codes "A: b") 1 4).0

abbrev with_body : Connection
with_body = (curl_write_body_callback silent with_header (codes "xyz") 1 3).0

abbrev change : Connection → World library → World library
change c = change_object library 1 (map_base (λ old. c))

abbrev received : World library
received = change with_body (change with_header started)

received-Progress :
    Progress library silent 1 started
      (writes_header (codes "A: b") 1 4 ∷ writes_body (codes "xyz") 1 3 ∷ [])
      received
unfolding transfer change_object curl_write_header_callback write_header base_of start_connection
    find new_world run_callbacks will_start new curl_write_body_callback write_body
received-Progress =
    called (writes_body (codes "xyz") 1 3) with_body (count 3) []
      (called (writes_header (codes "A: b") 1 4) with_header (count 4) [] begun refl) refl

-- A connection that runs may be changed into one that runs.
change-Consistent :
    (c : Connection) (w : World library)
    → Consistent library w
    → c.is_running ≡ true
    → Consistent library (change c w)
unfolding change_object
change-Consistent c w consistent on = record {
  distinct = consistent.distinct;
  located =
      λ e b h. easy-change_object library 1 (map_base (λ old. c)) w b ∙ consistent.located e b h;
  running = λ e b h. elim (Bool-cases (1 == b)) [
    | inl same ↦ rw (← (eqb_iff 1 b).0 same) (
        ap (λ x. (base_of x.state).is_running)
          (change_object_self library 1 (map_base (λ old. c)) w)
        ∙ ap (λ x. x.is_running) (base_of-map_base c (w.objects 1).state)
        ∙ on)
    | inr other ↦
        ap (λ x. (base_of x.state).is_running)
          (change_object_other library 1 (map_base (λ old. c)) w b other)
        ∙ consistent.running e b h
  ];
}

received-Consistent : Consistent library received
unfolding curl_write_header_callback curl_write_body_callback write_header write_body base_of
    start_connection find new_world run_callbacks will_start new change_object
received-Consistent =
    change-Consistent with_body (change with_header started)
      (change-Consistent with_header started started-Consistent refl) refl

received-found : find 1 received.running_connections ≡ some 1
unfolding curl_write_header_callback curl_write_body_callback write_header write_body base_of
    start_connection find new_world run_callbacks will_start new change_object insert
received-found = refl

fresh-IsQuiet : IsQuiet (base_of (fresh.objects 1).state)
unfolding base_of new_world new
fresh-IsQuiet = record {
  no_read = refl;
  no_header = refl;
  no_body = refl;
  no_progress = refl;
  no_debug = refl;
}

abbrev done_1 : Message
done_1 = record { is_done = true; easy_handle = 1; result = 28 }

start_connection-handle_message_example :
    let ts = writes_header (codes "A: b") 1 4 ∷ writes_body (codes "xyz") 1 3 ∷ [] in
    let v = ended library restart done_1 1 received in
    let c = base_of (v.objects 1).state in
    (handle_message library restart done_1 received
      ≡ notified library restart (base_of (fresh.objects 1).state).finished_callback 1 v)
    × (registered library 1 v ≡ none)
    × (c.is_running ≡ false)
    × (c.result ≡ code 28)
    × (c.response_header ≡ headers_of ts)
    × (c.response_body ≡ bodies_of ts)
    × (c.finished_callback ≡ (base_of (fresh.objects 1).state).finished_callback)
unfolding new_world base_of find
start_connection-handle_message_example =
    start_connection-handle_message library restart silent 1 fresh received
      (writes_header (codes "A: b") 1 4 ∷ writes_body (codes "xyz") 1 3 ∷ []) done_1 refl refl
      fresh-IsQuiet (omega arith) received-Progress received-Consistent refl received-found
