-- ===== src/Log/State.antt =====
-- `LoggerProxy`, the logger, and an expression that writes to a proxy.
use curlion.Common.{
  ℕ, Bool, true, false, if◌then◌else◌, Option, none, some, List, [], ◌∷◌, ◌++◌, Bytes, codes,
}

-- The logger is a function of the user's, known by a number, the one that prints, or an empty
-- `std::function`. What loggers were called with stands in `written`, the latest first.
pub data Logger : Type 0 where
  prints empty : Logger
  custom : ℕ → Logger

abbrev pub is_callable : Logger → Bool
is_callable empty = false
is_callable prints = true
is_callable (custom n) = true

pub record LogState : Type 0 where
  pub g_logger : Logger
  pub written : List (Logger × Bytes)

abbrev pub initial : LogState
initial = record { g_logger = prints; written = [] }

unfoldable pub set_logger : Logger → LogState → LogState
set_logger logger s = record s { g_logger = logger }

-- `none` is the exception of an empty `std::function` that is called. It leaves a destructor, which
-- ends the program.
unfoldable pub write_log : Bytes → LogState → Option LogState
write_log log s =
    if is_callable s.g_logger
    then some (record s { written = (s.g_logger, log) ∷ s.written })
    else none

-- `stream_`, a pointer that is null once the proxy has been moved from.
abbrev pub LoggerProxy : Type 0
LoggerProxy = Option Bytes

-- `Log()`, with the time as `std::put_time` formats it.
unfoldable pub log : Bytes → LoggerProxy
log time = some (codes "curlion> " ++ (time ++ codes " "))

-- `operator<<`: the proxy that it is called on, moved from, and the one that it returns. A value comes
-- as the stream prints it. `none` is a null pointer that is followed.
unfoldable pub print : Bytes → LoggerProxy → Option (LoggerProxy × LoggerProxy)
print value none = none
print value (some text) = some (none, some (text ++ value))

-- The destructor.
unfoldable pub destroy : LoggerProxy → LogState → Option LogState
unfolding write_log
destroy none s = some s
destroy (some text) s = write_log (text ++ codes "\n") s

-- `p << v₁ << v₂ …`: the temporaries, the latest first.
unfoldable pub chain : List Bytes → LoggerProxy → Option (List LoggerProxy)
chain [] p = some (p ∷ [])
chain (value ∷ values) p = elim (print value p) [
  | none ↦ none
  | some (moved, next) ↦ elim (chain values next) [
    | none ↦ none
    | some later ↦ some (later ++ moved ∷ [])
  ]
]

-- They are destroyed at the end of the full expression, the latest first.
unfoldable pub destroy_all : List LoggerProxy → LogState → Option LogState
unfolding destroy
destroy_all [] s = some s
destroy_all (p ∷ ps) s = elim (destroy p s) [ none ↦ none | some s' ↦ destroy_all ps s' ]

-- `return Log() << … ;` as in `WriteConnectionLog` and `WriteManagerLog`: the last proxy is returned,
-- and the others are destroyed.
unfoldable pub begin_line : Bytes → List Bytes → LogState → Option (LoggerProxy × LogState)
unfolding chain destroy_all
begin_line time values s = elim (chain values (log time)) [
  | none ↦ none
  | some [] ↦ none
  | some (last ∷ earlier) ↦ elim (destroy_all earlier s) [ none ↦ none | some s' ↦ some (last, s') ]
]

-- `WriteConnectionLog(this) << … ;`.
unfoldable pub write_line : Bytes → List Bytes → List Bytes → LogState → Option LogState
unfolding begin_line chain destroy_all
write_line time values more s = elim (begin_line time values s) [
  | none ↦ none
  | some (p, s') ↦ elim (chain more p) [
    | none ↦ none
    | some temporaries ↦ destroy_all temporaries s'
  ]
]

-- The values that the two functions print in front.
abbrev pub connection_log_prefix : Bytes → List Bytes
connection_log_prefix identifier = codes "Connection(" ∷ identifier ∷ codes "): " ∷ []

abbrev manager_log_prefix : Bytes → List Bytes
manager_log_prefix identifier = codes "Manager(" ∷ identifier ∷ codes "): " ∷ []
