-- ===== src/Asio/Continual.antt =====
-- A watcher for one kind of event keeps one wait at asio, through every operation.
use curlion.Common.{
  ℕ, suc, ◌+◌, ◌<◌, ◌≡◌, refl, ◌⊎◌, Bool, true, false, none, some, List, [], ◌∷◌, ◌==◌,
  if◌then◌else◌, arith, Option-cases, inl, inr, eqb_refl,
}
use curlion.Manager.Table.{find}
use curlion.Manager.State.{Event, read, write, read_write}
use curlion.Asio.State.{
  new_socket_manager, ErrorCode, success, operation_aborted, failure, completed, emit, Watcher,
  SocketManager, update,
}
use curlion.Asio.Step.{
  watch_once, start, stop, watch, stop_watching, Action, opens, closes, watches, stops, run_action,
  run_actions, open_socket, close_socket, Callbacks, call_back, announced, asked, complete,
  is_aborted,
}
use curlion.Asio.Live.{event_triggered_cases, watch_once-same}
use curlion.Asio.Waits.{same_kind, outstanding, aborts, wanted, Continual, none_busy, only}

Event-cases : (e : Event) → (e ≡ read) ⊎ ((e ≡ write) ⊎ (e ≡ read_write))
Event-cases read = inl refl
Event-cases write = inr (inl refl)
Event-cases read_write = inr (inr refl)

pub watch_once-waits :
    (w v : ℕ) (b : Bool) (m : SocketManager)
    → (outstanding v b (watch_once w m).io
        ≡ (if w == v then wanted (m.single_watchers w).event b else 0) + outstanding v b m.io)
      × (aborts v b (watch_once w m).io ≡ aborts v b m.io)
unfolding watch_once
watch_once-waits w v true m = elim (Event-cases (m.single_watchers w).event) [
  | inl reads ↦ (ground (arith, reads), ground (arith, reads))
  | inr (inl writes) ↦ (ground (arith, writes), ground (arith, writes))
  | inr (inr both) ↦ (ground (arith, both), ground (arith, both))
]
watch_once-waits w v false m = elim (Event-cases (m.single_watchers w).event) [
  | inl reads ↦ (ground (arith, reads), ground (arith, reads))
  | inr (inl writes) ↦ (ground (arith, writes), ground (arith, writes))
  | inr (inr both) ↦ (ground (arith, both), ground (arith, both))
]

module _ (busy : ℕ → Bool) where
  pub watch-Continual :
      (s : ℕ) (e : Event) (f : ℕ) (m : SocketManager)
      → Continual busy m
      → Continual busy (watch s e f m)
  unfolding watch start
  watch-Continual s e f m c = elim (Option-cases (find s m.sockets)) [
    | inl unknown ↦ rw (unknown, watch) c
    | inr (a, opened) ↦
        let n = m.next_watcher in
        let x : Watcher = record { socket = a; event = e; callback = f; is_stopped = false } in
        let made : SocketManager = record m {
          single_watchers = update m.single_watchers n x;
          next_watcher = suc n;
        } in
        let (t, o, k) = watch_once-same n made in
        rw (opened, watch)
          (rw (o, k)
            (record {
              unborn = λ w b h. ground (arith, watch_once-waits n w b made, c.unborn w b);
              born = λ w h. ground (arith, c.born w);
              single = λ w b h e' r. ground (
                arith,
                watch_once-waits n w b made,
                c.unborn w b,
                c.born w,
                c.single w b,
                eqb_refl n,
              );
            }))
  ]

  pub stop_watching-Continual :
      (s : ℕ) (m : SocketManager) → Continual busy m → Continual busy (stop_watching s m)
  unfolding stop_watching stop
  stop_watching-Continual s m c = record {
    unborn = λ w b h. ground (arith, c.unborn w b);
    born = λ w h. ground (arith, c.born w);
    single = λ w b h e r. ground (arith, c.single w b);
  }

  pub run_action-Continual :
      (a : Action) (m : SocketManager) → Continual busy m → Continual busy (run_action a m)
  unfolding run_action open_socket close_socket
  run_action-Continual (opens socket_type family none) m c = c
  run_action-Continual (opens socket_type family (some h)) m c = record {
    unborn = λ w b k. ground (arith, c.unborn w b);
    born = λ w k. ground (arith, c.born w);
    single = λ w b k e r. ground (arith, c.single w b);
  }
  run_action-Continual (closes s error) m c = record {
    unborn = λ w b k. ground (arith, c.unborn w b);
    born = λ w k. ground (arith, c.born w);
    single = λ w b k e r. ground (arith, c.single w b);
  }
  run_action-Continual (watches s e f) m c = watch-Continual s e f m c
  run_action-Continual (stops s) m c = stop_watching-Continual s m c

  run_actions-Continual :
      (l : List Action) (m : SocketManager) → Continual busy m → Continual busy (run_actions l m)
  unfolding run_actions
  run_actions-Continual [] m c = c
  run_actions-Continual (a ∷ rest) m c =
      run_actions-Continual rest (run_action a m) (run_action-Continual a m c)

same_kind-true : (b k : Bool) → same_kind b k ≡ true → b ≡ k
same_kind-true true true h = refl
same_kind-true true false h = cc
same_kind-true false true h = cc
same_kind-true false false h = refl

-- A report that is not an abort makes its watcher busy, and an abort is counted.
pub reported-Continual :
    (w : ℕ) (b : Bool) (error : ErrorCode) (m : SocketManager)
    → 0 < outstanding w b m.io
    → Continual none_busy m
    → Continual (if is_aborted error then none_busy else only w) (emit (completed w b error) m)
reported-Continual w b operation_aborted m waits c = record {
  unborn = λ v k h. ground (arith, c.unborn v k, c.unborn w b);
  born = λ v h. ground (arith, c.born v);
  single = λ v k h e r.
      ground (arith, c.single v k, c.single v true, c.single v false, same_kind-true b k);
}
reported-Continual w b success m waits c = record {
  unborn = λ v k h. ground (arith, c.unborn v k, c.unborn w b);
  born = λ v h. ground (arith, c.unborn w b);
  single = λ v k h e r.
      ground (arith, c.single v k, c.single v true, c.single v false, same_kind-true b k);
}
reported-Continual w b (failure i) m waits c = record {
  unborn = λ v k h. ground (arith, c.unborn v k, c.unborn w b);
  born = λ v h. ground (arith, c.unborn w b);
  single = λ v k h e r.
      ground (arith, c.single v k, c.single v true, c.single v false, same_kind-true b k);
}

-- The watcher that was busy has stopped, or has started its next wait.
pub stopped-Continual :
    (w : ℕ) (m : SocketManager)
    → (m.single_watchers w).is_stopped ≡ true
    → Continual (only w) m
    → Continual none_busy m
stopped-Continual w m s c = record {
  unborn = λ v k h. c.unborn v k h;
  born = λ v h. cc;
  single = λ v k h e r. ground (arith, c.single v k);
}

pub again-Continual :
    (w : ℕ) (m : SocketManager) → Continual (only w) m → Continual none_busy (watch_once w m)
again-Continual w m c =
    let (t, o, n) = watch_once-same w m in
    rw (o, n)
      (record {
        unborn =
            λ v k h. ground (arith, c.unborn v k, watch_once-waits w v k m, c.born w, eqb_refl w);
        born = λ v h. cc;
        single = λ v k h e r. ground (arith, c.single v k, watch_once-waits w v k m);
      })

pub new-Continual : (memory : ℕ → Watcher) → Continual none_busy (new_socket_manager memory)
unfolding new_socket_manager
new-Continual memory = record {
  unborn = λ w b h. refl;
  born = λ w h. cc;
  single = λ w b h e r. absurd (omega arith);
}

module _ (callbacks : Callbacks) where
  call_back-Continual :
      (busy : ℕ → Bool) (w : ℕ) (b : Bool) (m : SocketManager)
      → Continual busy m
      → Continual busy (call_back callbacks w b m)
  unfolding call_back
  call_back-Continual busy w b m c =
      run_actions-Continual busy (asked callbacks w b m) (announced w b m)
        (record { unborn = c.unborn; born = c.born; single = c.single })

  pub complete-Continual :
      (w : ℕ) (b : Bool) (error : ErrorCode) (m : SocketManager)
      → 0 < outstanding w b m.io
      → Continual none_busy m
      → Continual none_busy (complete callbacks w b error m)
  unfolding complete
  complete-Continual w b error m waits c =
      let reported = emit (completed w b error) m in
      let busy = reported-Continual w b error m waits c in
      let after = λ (live : is_aborted error ≡ false).
        call_back-Continual (only w) w b reported (rw live at busy) in
      event_triggered_cases callbacks (Continual none_busy) w b error reported
        (λ aborted. rw aborted at busy)
        (λ live stopped.
          stopped-Continual w (call_back callbacks w b reported) stopped (after live))
        (λ live runs. again-Continual w (call_back callbacks w b reported) (after live))
