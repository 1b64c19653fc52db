-- ===== src/Asio/History.antt =====
-- Histories of an `AsioSocketManager`: the calls of the program, and the completions that asio
-- reports, in any order.
use curlion.Common.{ℕ, ◌+◌, ◌<◌, ◌≡◌, Bool, true, false, if◌then◌else◌}
use curlion.Asio.State.{ErrorCode, Watcher, SocketManager, new_socket_manager}
use curlion.Asio.Step.{Action, run_action, Callbacks, complete}
use curlion.Asio.Entries.{entries, IsLive-entries}
use curlion.Asio.Live.{new-Live, Allowed, Obeying, Live, run_action-Live, complete-Live}
use curlion.Asio.Waits.{outstanding, aborts, wanted, is_single, Continual, none_busy}
use curlion.Asio.Continual.{new-Continual, run_action-Continual, complete-Continual}

-- asio reports a wait that has been started and not reported. Of its order, of its errors and of what
-- it aborts nothing is assumed.
pub data Step (callbacks : Callbacks) (m : SocketManager) : SocketManager → Type 0 where
  acts : (a : Action) → Allowed a m → Step callbacks m (run_action a m)
  completes :
      (w : ℕ) (can_write : Bool) (error : ErrorCode)
      → 0 < outstanding w can_write m.io
      → Step callbacks m (complete callbacks w can_write error m)

pub data Reach (callbacks : Callbacks) (m : SocketManager) : SocketManager → Type 0 where
  here : Reach callbacks m m
  next : {u v : SocketManager} → Reach callbacks m u → Step callbacks u v → Reach callbacks m v

module _ (callbacks : Callbacks) where
  Step-Continual :
      {m m' : SocketManager} → Step callbacks m m' → Continual none_busy m → Continual none_busy m'
  Step-Continual {m} (acts a ok) c = run_action-Continual none_busy a m c
  Step-Continual {m} (completes w b error waits) c =
      complete-Continual callbacks w b error m waits c

  Reach-Continual :
      {m m' : SocketManager} → Reach callbacks m m' → Continual none_busy m → Continual none_busy m'
  Reach-Continual here c = c
  Reach-Continual (next r step) c = Step-Continual step (Reach-Continual r c)

  -- After any completions, and calls by a program that calls `Watch` only for a socket that is not
  -- being watched, with event callbacks that open, close, watch and stop as they like: a watcher for
  -- reading alone or for writing alone that is not stopped has exactly one wait of that kind at asio
  -- and none of the other, where a wait that asio reported as aborted counts as had.
  pub Reach-new-one_wait :
      (memory : ℕ → Watcher) (m : SocketManager) (w : ℕ) (can_write : Bool)
      → Reach callbacks (new_socket_manager memory) m
      → w < m.next_watcher
      → is_single (m.single_watchers w).event ≡ true
      → (m.single_watchers w).is_stopped ≡ false
      → outstanding w can_write m.io + aborts w can_write m.io
        ≡ wanted (m.single_watchers w).event can_write
  Reach-new-one_wait memory m w can_write r born one runs =
      (Reach-Continual r (new-Continual memory)).single w can_write born one runs

  module _ (obeying : Obeying callbacks) where
    Step-Live : {m m' : SocketManager} → Step callbacks m m' → Live m → Live m'
    Step-Live {m} (acts a ok) i = run_action-Live a m ok i
    Step-Live {m} (completes w b error waits) i = complete-Live callbacks obeying w b error m i

    Reach-Live : {m m' : SocketManager} → Reach callbacks m m' → Live m → Live m'
    Reach-Live here i = i
    Reach-Live (next r step) i = Step-Live step (Reach-Live r i)

    -- After any calls and completions by a program that calls `Watch` only for a socket that is not
    -- being watched: a watcher that is not stopped stands in `watchers_` for exactly one socket, so
    -- that `StopWatching` reaches it, and one that is stopped for none.
    pub Reach-new-entries :
        (memory : ℕ → Watcher) (m : SocketManager) (w : ℕ)
        → Reach callbacks (new_socket_manager memory) m
        → w < m.next_watcher
        → entries w m.watchers ≡ (if (m.single_watchers w).is_stopped then 0 else 1)
    Reach-new-entries memory m w r born =
        IsLive-entries w _ _ _ (Reach-Live r (new-Live memory)) born
