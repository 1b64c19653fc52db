-- ===== src/Asio/Reports.antt =====
-- What a watcher makes of the waits that asio reports to it.
use curlion.Common.{
  ℕ, zero, suc, ◌+◌, ◌<◌, ◌≡◌, refl, Bool, true, false, Option, none, some, List, [], ◌∷◌,
  if◌then◌else◌, arith, eqb_refl, Option-cases, inl, inr,
}
use curlion.Manager.Table.{find}
use curlion.Manager.State.{read_write}
use curlion.Asio.State.{Io, cancel, ErrorCode, success, event, completed, SocketManager, emit}
use curlion.Asio.Step.{
  watch_once, stop, stop_watching, run_actions, Callbacks, announced, call_back, event_triggered,
  complete, is_aborted,
}
use curlion.Asio.Live.{watch_once-same}
use curlion.Asio.Waits.{outstanding}
use curlion.Asio.Continual.{watch_once-waits}

-- Event callbacks that ask for nothing.
abbrev pub Silent : Callbacks → Type 0
Silent callbacks =
    (f : ℕ) (handle : Option ℕ) (can_write : Bool) (m : SocketManager)
    → callbacks f handle can_write m ≡ []

-- `cancel` on an asio socket, which is called only if the socket is open.
abbrev pub cancelled : Option ℕ → ℕ → List Io → List Io
cancelled none a io = io
cancelled (some handle) a io = cancel a ∷ io

-- Asio reports `n` times that the socket of `w` can be written.
abbrev pub write_reports : Callbacks → ℕ → ℕ → SocketManager → SocketManager
write_reports callbacks w zero m = m
write_reports callbacks w (suc n) m =
    complete callbacks w true success (write_reports callbacks w n m)

module _ (callbacks : Callbacks) (silent : Silent callbacks) where
  call_back-silent :
      (w : ℕ) (b : Bool) (m : SocketManager) → call_back callbacks w b m ≡ announced w b m
  unfolding call_back run_actions
  call_back-silent w b m = rw (
      silent (m.single_watchers w).callback (m.asio_sockets (m.single_watchers w).socket) b
        (announced w b m))

  complete-silent :
      (w : ℕ) (b : Bool) (error : ErrorCode) (m : SocketManager)
      → let reported = emit (completed w b error) m in
        complete callbacks w b error m ≡ (
          if is_aborted error
          then reported
          else if (m.single_watchers w).is_stopped
          then announced w b reported
          else watch_once w (announced w b reported))
  unfolding complete event_triggered
  complete-silent w b error m = rw (call_back-silent w b (emit (completed w b error) m))

  -- The event callbacks ask for nothing, and the socket that `s` stands for has a watcher `w`.
  -- `StopWatching(s)` cancels the waits on the asio socket of `w` if that is open, and does nothing
  -- else to asio. After it, a wait of `w` that asio reports as aborted calls no event callback. One
  -- that it reports otherwise, since its handler was queued before, still calls it, once, with the
  -- handle of the asio socket. Neither starts a wait.
  pub complete-stop_watching :
      (s w : ℕ) (b : Bool) (error : ErrorCode) (m : SocketManager)
      → find s m.watchers ≡ some w
      → let m' = stop_watching s m in
        let watcher = m.single_watchers w in
        (m'.io ≡ cancelled (m.asio_sockets watcher.socket) watcher.socket m.io)
        × ((complete callbacks w b error m').io ≡ (
            if is_aborted error
            then completed w b error ∷ m'.io
            else event watcher.callback (m.asio_sockets watcher.socket) b
              ∷ completed w b error
              ∷ m'.io))
  unfolding stop_watching stop
  complete-stop_watching s w b error m here = (
    elim (Option-cases (m.asio_sockets (m.single_watchers w).socket)) [
      | inl closed ↦ ground (arith, closed)
      | inr (handle, opened) ↦ ground (arith, opened)
    ],
    ground (arith, complete-silent w b error (stop_watching s m), eqb_refl w),
  )

  abbrev Runs : ℕ → SocketManager → Type 0
  Runs w m = ((m.single_watchers w).event ≡ read_write) × ((m.single_watchers w).is_stopped ≡ false)

  write_report :
      (w : ℕ) (m : SocketManager)
      → Runs w m
      → 0 < outstanding w true m.io
      → let m' = complete callbacks w true success m in
        Runs w m'
        × (outstanding w true m'.io ≡ outstanding w true m.io)
        × (outstanding w false m'.io ≡ suc (outstanding w false m.io))
  write_report w m (both, runs) waits =
      let called = announced w true (emit (completed w true success) m) in
      let (t, o, n) = watch_once-same w called in
      let again = rw runs at (complete-silent w true success m) in
      rw again (
        rw o (both, runs),
        ground (arith, watch_once-waits w w true called, eqb_refl w),
        ground (arith, watch_once-waits w w false called, eqb_refl w),
      )

  write_reports-Runs :
      (w n : ℕ) (m : SocketManager)
      → Runs w m
      → 0 < outstanding w true m.io
      → let m' = write_reports callbacks w n m in
        Runs w m'
        × (outstanding w true m'.io ≡ outstanding w true m.io)
        × (outstanding w false m'.io ≡ outstanding w false m.io + n)
  write_reports-Runs w zero m runs waits = (runs, refl, omega arith)
  write_reports-Runs w (suc n) m runs waits =
      let (r, ws, rs) = write_reports-Runs w n m runs waits in
      let (r', ws', rs') = write_report w (write_reports callbacks w n m) r (omega arith) in
      (r', omega arith, omega arith)

  -- A watcher for both kinds of event that is not stopped and has a wait for writing at asio, with
  -- callbacks that ask for nothing: each report that the socket can be written adds a wait for reading,
  -- so that after `n` of them there are `n` more waits for reading, and as many for writing as before.
  pub write_reports-outstanding :
      (w n : ℕ) (m : SocketManager)
      → (m.single_watchers w).event ≡ read_write
      → (m.single_watchers w).is_stopped ≡ false
      → 0 < outstanding w true m.io
      → let m' = write_reports callbacks w n m in
        (outstanding w true m'.io ≡ outstanding w true m.io)
        × (outstanding w false m'.io ≡ outstanding w false m.io + n)
  write_reports-outstanding w n m both runs waits =
      let (_, ws, rs) = write_reports-Runs w n m (both, runs) waits in (ws, rs)
