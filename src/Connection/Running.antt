-- ===== src/Connection/Running.antt =====
-- No public call but a start changes whether a connection runs.
use curlion.Common.{◌≡◌, refl, ◌∙◌, none, some, List, [], ◌∷◌, arith}
use curlion.Connection.State.{Connection, reset_options}
use curlion.Connection.Calls.{Setting, verbose, debug_callback, options_reset, apply, apply_all}

pub reset_options-is_running : (c : Connection) → (reset_options c).is_running ≡ c.is_running
unfolding reset_options
reset_options-is_running c = ground arith

pub apply-is_running : (s : Setting) (c : Connection) → (apply s c).is_running ≡ c.is_running
unfolding apply
apply-is_running (verbose b) c = refl
apply-is_running options_reset c = reset_options-is_running c
apply-is_running (debug_callback none) c = refl
apply-is_running (debug_callback (some f)) c = refl
apply-is_running _ c = refl

pub apply_all-is_running :
    (ss : List Setting) (c : Connection) → (apply_all ss c).is_running ≡ c.is_running
unfolding apply_all
apply_all-is_running [] c = refl
apply_all-is_running (s ∷ ss) c = apply_all-is_running ss (apply s c) ∙ apply-is_running s c
