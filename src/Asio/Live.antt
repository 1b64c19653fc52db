-- ===== src/Asio/Live.antt =====
-- Which watchers are alive: those in `watchers_`, and no others.
use curlion.Common.{
  ℕ, suc, ◌<◌, ◌≡◌, refl, Bool, true, false, Option, none, some, List, [], ◌∷◌, ◌==◌, arith,
  Bool-cases, Option-cases, inl, inr,
}
use curlion.Manager.Table.{
  Table, find, insert, erase, Distinct, find-insert, find-erase, insert-Distinct, erase-Distinct,
}
use curlion.Manager.State.{Event}
use curlion.Asio.State.{
  ErrorCode, completed, emit, Watcher, SocketManager, new_socket_manager, update,
}
use curlion.Asio.Step.{
  watch_once, start, stop, watch, is_aborted, stop_watching, Action, opens, closes, watches, stops,
  run_action, run_actions, open_socket, close_socket, Callbacks, call_back, announced, asked,
  event_triggered, complete, SocketType,
}

-- `t` has exactly the watchers below `n` that are not stopped, each for one socket.
pub record IsLive (t : Table) (o : ℕ → Watcher) (n : ℕ) : Type 0 where
  pub distinct : Distinct t
  pub known : (s w : ℕ) → find s t ≡ some w → (w < n) × ((o w).is_stopped ≡ false)
  pub owned : (w : ℕ) → w < n → (o w).is_stopped ≡ false → (s : ℕ) × (find s t ≡ some w)
  pub unique : (r s w : ℕ) → find r t ≡ some w → find s t ≡ some w → r ≡ s

abbrev pub Live : SocketManager → Type 0
Live m = IsLive m.watchers m.single_watchers m.next_watcher

insert-IsLive :
    (s : ℕ) (x : Watcher) (t : Table) (o : ℕ → Watcher) (n : ℕ)
    → find s t ≡ none
    → x.is_stopped ≡ false
    → IsLive t o n
    → IsLive (insert s n t) (update o n x) (suc n)
insert-IsLive s x t o n fresh runs i = record {
  distinct = insert-Distinct s n t fresh i.distinct;
  known = λ r w h. ground (arith, find-insert r s n t fresh, i.known r w);
  owned = λ w below live. elim (Bool-cases (n == w)) [
    | inl same ↦ (s, ground (arith, find-insert s s n t fresh))
    | inr other ↦
        let (r, h) = i.owned w (ground arith) (ground arith) in
        (r, ground (arith, find-insert r s n t fresh))
  ];
  unique = λ q r w h k. ground (
    arith,
    find-insert q s n t fresh,
    find-insert r s n t fresh,
    i.unique q r w,
    i.known q w,
    i.known r w,
  );
}

erase-IsLive :
    (s w : ℕ) (t : Table) (o : ℕ → Watcher) (n : ℕ)
    → find s t ≡ some w
    → IsLive t o n
    → IsLive (erase s t) (update o w (record (o w) { is_stopped = true })) n
erase-IsLive s w t o n here i = record {
  distinct = erase-Distinct s t i.distinct;
  known = λ r v h. ground (arith, find-erase r s t i.distinct, i.known r v, i.unique r s w);
  owned = λ v below live.
      let (r, h) = i.owned v below (ground arith) in
      (r, ground (arith, find-erase r s t i.distinct));
  unique = λ q r v h k.
      ground (arith, find-erase q s t i.distinct, find-erase r s t i.distinct, i.unique q r v);
}

-- A watcher's calls of asio change no member that `Live` reads.
pub watch_once-same :
    (w : ℕ) (m : SocketManager)
    → ((watch_once w m).watchers ≡ m.watchers)
      × ((watch_once w m).single_watchers ≡ m.single_watchers)
      × ((watch_once w m).next_watcher ≡ m.next_watcher)
unfolding watch_once
watch_once-same w m = (ground arith, ground arith, ground arith)

watch_once-Live : (w : ℕ) (m : SocketManager) → Live m → Live (watch_once w m)
watch_once-Live w m i = let (t, o, n) = watch_once-same w m in rw (t, o, n) i

pub watch-Live :
    (s : ℕ) (e : Event) (f : ℕ) (m : SocketManager)
    → find s m.watchers ≡ none
    → Live m
    → Live (watch s e f m)
unfolding watch start
watch-Live s e f m fresh i = elim (Option-cases (find s m.sockets)) [
  | inl unknown ↦ rw (unknown, watch) i
  | inr (a, opened) ↦
      let x : Watcher = record { socket = a; event = e; callback = f; is_stopped = false } in
      let made : SocketManager = record m {
        single_watchers = update m.single_watchers m.next_watcher x;
        next_watcher = suc m.next_watcher;
      } in
      let (t, o, n) = watch_once-same m.next_watcher made in
      rw (opened, watch)
        (rw (t, o, n) (insert-IsLive s x m.watchers m.single_watchers m.next_watcher fresh refl i))
]

pub stop-same :
    (w : ℕ) (m : SocketManager)
    → ((stop w m).watchers ≡ m.watchers)
      × ((stop w m).single_watchers
          ≡ update m.single_watchers w (record (m.single_watchers w) { is_stopped = true }))
      × ((stop w m).next_watcher ≡ m.next_watcher)
unfolding stop
stop-same w m = (ground arith, ground arith, ground arith)

pub stop_watching-Live : (s : ℕ) (m : SocketManager) → Live m → Live (stop_watching s m)
unfolding stop_watching
stop_watching-Live s m i = elim (Option-cases (find s m.watchers)) [
  | inl unknown ↦ rw (unknown, stop_watching) i
  | inr (w, here) ↦
      let (t, o, n) = stop-same w m in
      rw (here, stop_watching)
        (rw (t, o, n) (erase-IsLive s w m.watchers m.single_watchers m.next_watcher here i))
]

-- What `Watch` may rely on: it is not called for a socket that is being watched.
abbrev pub Allowed : Action → SocketManager → Type 0
Allowed (watches s e f) m = find s m.watchers ≡ none
Allowed (opens socket_type family opened) m = Unit {0}
Allowed (closes s error) m = Unit {0}
Allowed (stops s) m = Unit {0}

abbrev AllAllowed : List Action → SocketManager → Type 0
AllAllowed [] m = Unit {0}
AllAllowed (a ∷ rest) m = Allowed a m × AllAllowed rest (run_action a m)

abbrev pub Obeying : Callbacks → Type 0
Obeying callbacks =
    (f : ℕ) (handle : Option ℕ) (can_write : Bool) (m : SocketManager)
    → AllAllowed (callbacks f handle can_write m) m

pub open_socket-same :
    (socket_type : SocketType) (family : ℕ) (opened : Option ℕ) (m : SocketManager)
    → let m' = (open_socket socket_type family opened m).0 in
      (m'.watchers ≡ m.watchers)
      × (m'.single_watchers ≡ m.single_watchers)
      × (m'.next_watcher ≡ m.next_watcher)
unfolding open_socket
open_socket-same socket_type family none m = (refl, refl, refl)
open_socket-same socket_type family (some h) m = (ground arith, ground arith, ground arith)

pub close_socket-same :
    (s : ℕ) (error : ErrorCode) (m : SocketManager)
    → let m' = (close_socket s error m).0 in
      (m'.watchers ≡ m.watchers)
      × (m'.single_watchers ≡ m.single_watchers)
      × (m'.next_watcher ≡ m.next_watcher)
unfolding close_socket
close_socket-same s error m = (ground arith, ground arith, ground arith)

pub run_action-Live :
    (a : Action) (m : SocketManager) → Allowed a m → Live m → Live (run_action a m)
unfolding run_action
run_action-Live (opens socket_type family opened) m ok i =
    let (t, o, n) = open_socket-same socket_type family opened m in rw (t, o, n) i
run_action-Live (closes s error) m ok i =
    let (t, o, n) = close_socket-same s error m in rw (t, o, n) i
run_action-Live (watches s e f) m ok i = watch-Live s e f m ok i
run_action-Live (stops s) m ok i = stop_watching-Live s m i

run_actions-Live :
    (l : List Action) (m : SocketManager) → AllAllowed l m → Live m → Live (run_actions l m)
unfolding run_actions
run_actions-Live [] m ok i = i
run_actions-Live (a ∷ rest) m (ok, oks) i =
    run_actions-Live rest (run_action a m) oks (run_action-Live a m ok i)

pub new-Live : (memory : ℕ → Watcher) → Live (new_socket_manager memory)
unfolding new_socket_manager find
new-Live memory = record {
  distinct = tt;
  known = λ s w h. ground arith;
  owned = λ w h r. absurd (omega arith);
  unique = λ r s w h k. ground arith;
}

module _ (callbacks : Callbacks) where
  -- What `EventTriggered` can leave.
  pub event_triggered_cases :
      (P : SocketManager → Type 0) (w : ℕ) (can_write : Bool) (error : ErrorCode)
      (m : SocketManager)
      → let after = call_back callbacks w can_write m in
        (is_aborted error ≡ true → P m)
        → (is_aborted error ≡ false → (after.single_watchers w).is_stopped ≡ true → P after)
        → (is_aborted error ≡ false
            → (after.single_watchers w).is_stopped ≡ false
            → P (watch_once w after))
        → P (event_triggered callbacks w can_write error m)
  unfolding event_triggered
  event_triggered_cases P w can_write error m same ended again =
      elim (Bool-cases (is_aborted error)) [
        | inl aborted ↦ rw aborted (same aborted)
        | inr live ↦
            elim (Bool-cases ((call_back callbacks w can_write m).single_watchers w).is_stopped) [
              | inl stopped ↦ rw (live, stopped) (ended live stopped)
              | inr runs ↦ rw (live, runs) (again live runs)
            ]
      ]

module _ (callbacks : Callbacks) (obeying : Obeying callbacks) where
  call_back-Live :
      (w : ℕ) (can_write : Bool) (m : SocketManager)
      → Live m
      → Live (call_back callbacks w can_write m)
  unfolding call_back
  call_back-Live w can_write m i =
      run_actions-Live (asked callbacks w can_write m) (announced w can_write m)
        (obeying _ _ can_write _)
        (record { distinct = i.distinct; known = i.known; owned = i.owned; unique = i.unique })

  pub complete-Live :
      (w : ℕ) (can_write : Bool) (error : ErrorCode) (m : SocketManager)
      → Live m
      → Live (complete callbacks w can_write error m)
  unfolding complete
  complete-Live w can_write error m i =
      let reported = emit (completed w can_write error) m in
      let same : Live reported = record {
        distinct = i.distinct;
        known = i.known;
        owned = i.owned;
        unique = i.unique;
      } in
      let after = call_back-Live w can_write reported same in
      event_triggered_cases callbacks Live w can_write error reported (λ _. same) (λ _ _. after)
        (λ _ _. watch_once-Live w _ after)
