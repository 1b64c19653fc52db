-- ===== src/Asio/Timer.antt =====
-- example/asio.cpp: `AsioTimer`.
use curlion.Common.{ℕ, suc, ◌-◌, ◌≡◌, Option, none, some, List, [], ◌∷◌, ℤ, if◌then◌else◌, arith}
use curlion.Asio.State.{ErrorCode}
use curlion.Asio.Step.{is_aborted}

-- The calls on the deadline timer, those of the user's callbacks, which have numbers, and the waits
-- that asio reports. The latest stands first.
pub data TimerIo : Type 0 where
  expires_from_now : ℤ → TimerIo
  async_wait : ℕ → TimerIo
  cancel : TimerIo
  expired : ℕ → ErrorCode → TimerIo
  callback : ℕ → TimerIo

unfoldable pub start : ℤ → ℕ → List TimerIo → List TimerIo
start timeout_ms f io = async_wait f ∷ expires_from_now timeout_ms ∷ io

unfoldable pub stop : List TimerIo → List TimerIo
stop io = cancel ∷ io

unfoldable pub timer_triggered : ℕ → ErrorCode → List TimerIo → List TimerIo
timer_triggered f error io = if is_aborted error then io else callback f ∷ io

-- The callback that has just been called, if the latest event is that.
abbrev pub latest_call : List TimerIo → Option ℕ
latest_call (callback f ∷ older) = some f
latest_call io = none

-- A report calls its own callback, but none if asio aborted the wait, whatever came before.
timer_triggered-latest_call :
    (f : ℕ) (error : ErrorCode) (io : List TimerIo)
    → latest_call (timer_triggered f error (expired f error ∷ io))
      ≡ (if is_aborted error then none else some f)
unfolding timer_triggered
timer_triggered-latest_call f error io = ground (arith)

-- The waits that are neither reported nor cancelled. Setting the expiry cancels them, too.
abbrev pub waiting : List TimerIo → ℕ
waiting [] = 0
waiting (async_wait f ∷ older) = suc (waiting older)
waiting (expires_from_now ms ∷ older) = 0
waiting (cancel ∷ older) = 0
waiting (expired f error ∷ older) = waiting older - 1
waiting (callback f ∷ older) = waiting older
