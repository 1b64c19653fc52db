-- ===== src/Asio/Waits.antt =====
-- How many waits of a watcher asio holds, and what is true of them between two completions.
use curlion.Common.{
  ℕ, ◌+◌, ◌-◌, ◌≤◌, ◌<◌, ◌≡◌, Bool, true, false, List, [], ◌∷◌, ◌==◌, if◌then◌else◌,
}
use curlion.Manager.State.{Event, read, write, read_write}
use curlion.Asio.State.{
  Io, async_read_some, async_write_some, cancel, close, event, completed, Watcher, SocketManager,
}
use curlion.Asio.Step.{is_aborted}

abbrev pub same_kind : Bool → Bool → Bool
same_kind true b = b
same_kind false true = false
same_kind false false = true

-- The waits of the watcher `w` for one kind of event that have been started and not reported.
abbrev pub outstanding : ℕ → Bool → List Io → ℕ
outstanding w b [] = 0
outstanding w b (async_read_some s v ∷ older) =
    (if v == w then (if b then 0 else 1) else 0) + outstanding w b older
outstanding w b (async_write_some s v ∷ older) =
    (if v == w then (if b then 1 else 0) else 0) + outstanding w b older
outstanding w b (completed v c error ∷ older) =
    outstanding w b older - (if v == w then (if same_kind c b then 1 else 0) else 0)
outstanding w b (cancel s ∷ older) = outstanding w b older
outstanding w b (close s ∷ older) = outstanding w b older
outstanding w b (event f handle c ∷ older) = outstanding w b older

-- Those of them that asio reported as aborted.
abbrev pub aborts : ℕ → Bool → List Io → ℕ
aborts w b [] = 0
aborts w b (completed v c error ∷ older) =
    (if is_aborted error then (if v == w then (if same_kind c b then 1 else 0) else 0) else 0)
    + aborts w b older
aborts w b (async_read_some s v ∷ older) = aborts w b older
aborts w b (async_write_some s v ∷ older) = aborts w b older
aborts w b (cancel s ∷ older) = aborts w b older
aborts w b (close s ∷ older) = aborts w b older
aborts w b (event f handle c ∷ older) = aborts w b older

-- The waits that a watcher for an event is to have at asio: one for each kind of event in it, where
-- `true` stands for writing.
abbrev pub wanted : Event → Bool → ℕ
wanted read true = 0
wanted read false = 1
wanted write true = 1
wanted write false = 0
wanted read_write b = 1

abbrev pub is_single : Event → Bool
is_single read = true
is_single write = true
is_single read_write = false

-- Each running watcher for a single kind of event has one wait at asio or was told of an abort, but
-- for one that is `busy`: its wait has been reported, and it has not started the next.
pub record IsContinual (busy : ℕ → Bool) (o : ℕ → Watcher) (n : ℕ) (io : List Io) : Type 0 where
  pub unborn : (w : ℕ) (b : Bool) → n ≤ w → outstanding w b io + aborts w b io ≡ 0
  pub born : (w : ℕ) → busy w ≡ true → w < n
  pub single :
      (w : ℕ) (b : Bool)
      → w < n
      → is_single (o w).event ≡ true
      → (o w).is_stopped ≡ false
      → outstanding w b io + aborts w b io ≡ (if busy w then 0 else wanted (o w).event b)

abbrev pub Continual : (ℕ → Bool) → SocketManager → Type 0
Continual busy m = IsContinual busy m.single_watchers m.next_watcher m.io

-- No watcher is busy between two completions.
abbrev pub none_busy : ℕ → Bool
none_busy w = false

abbrev pub only : ℕ → ℕ → Bool
only w v = w == v
