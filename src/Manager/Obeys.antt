-- ===== src/Manager/Obeys.antt =====
-- What the manager promises its `Timer` and its `SocketWatcher` (timer.h, socket_watcher.h).
use curlion.Common.{ℕ, ◌≡◌, Bool, true, false, Option, List, [], ◌∷◌, ◌==◌, if◌then◌else◌}
use curlion.Manager.State.{
  MultiLibrary, Effect, timer_start, timer_stop, watch, stop_watching, Select,
}

-- Whether a socket is being watched, and whether the timer runs, behind some calls.
abbrev pub watched : ℕ → List Effect → Bool
watched s [] = false
watched s (watch t event ∷ older) = if t == s then true else watched s older
watched s (stop_watching t ∷ older) = if t == s then false else watched s older
watched s (timer_start ms ∷ older) = watched s older
watched s (timer_stop ∷ older) = watched s older

abbrev pub timer_on : List Effect → Bool
timer_on [] = false
timer_on (timer_start ms ∷ older) = true
timer_on (timer_stop ∷ older) = false
timer_on (watch t event ∷ older) = timer_on older
timer_on (stop_watching t ∷ older) = timer_on older

-- `Watch` is called for a socket that is not watched, `StopWatching` for one that is, and `Start`
-- when the timer does not run.
abbrev pub Obeys : List Effect → Type 0
Obeys [] = Unit {0}
Obeys (watch s event ∷ older) = (watched s older ≡ false) × Obeys older
Obeys (stop_watching s ∷ older) = (watched s older ≡ true) × Obeys older
Obeys (timer_start ms ∷ older) = (timer_on older ≡ false) × Obeys older
Obeys (timer_stop ∷ older) = Obeys older

-- What libcurl documents of the pointer that it keeps for a socket: `curl_multi_assign` sets it, it
-- goes with the socket, and no other function changes it.
pub record SocketLaws (lib : MultiLibrary) : Type 0 where
  pub init_socketp : (s : ℕ) → lib.socketp lib.multi_init s ≡ false
  pub assign_socketp :
      (t : ℕ) (m : lib.Multi) (s : ℕ)
      → lib.socketp (lib.assign t m) s ≡ (if t == s then true else lib.socketp m s)
  pub forget_socketp :
      (t : ℕ) (m : lib.Multi) (s : ℕ)
      → lib.socketp (lib.forget t m) s ≡ (if t == s then false else lib.socketp m s)
  pub add_socketp :
      (e : ℕ) (m : lib.Multi) (s : ℕ) → lib.socketp (lib.add_handle e m).0 s ≡ lib.socketp m s
  pub remove_socketp :
      (e : ℕ) (m : lib.Multi) (s : ℕ) → lib.socketp (lib.remove_handle e m).0 s ≡ lib.socketp m s
  pub action_socketp :
      (t : Option ℕ) (events : Select) (m : lib.Multi) (s : ℕ)
      → lib.socketp (lib.socket_action t events m).0 s ≡ lib.socketp m s
  pub read_socketp : (m : lib.Multi) (s : ℕ) → lib.socketp (lib.info_read m).0 s ≡ lib.socketp m s
