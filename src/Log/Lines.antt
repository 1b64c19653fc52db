-- ===== src/Log/Lines.antt =====
-- Each expression that logs writes one line.
use curlion.Common.{
  ◌≡◌, refl, sym, ap, Option, if◌then◌else◌, ◌∙◌, none, some, List, [], ◌∷◌, ◌++◌, append_assoc,
  append-nil, Bytes, codes,
}
use curlion.Log.State.{
  Logger, prints, custom, is_callable, LogState, set_logger, write_log, LoggerProxy, log, print,
  destroy, chain, destroy_all, begin_line, write_line,
}

abbrev pub joined : List Bytes → Bytes
joined [] = []
joined (value ∷ values) = value ++ joined values

-- Proxies that have been moved from.
abbrev moved : List Bytes → List LoggerProxy
moved [] = []
moved (value ∷ values) = moved values ++ none ∷ []

chain-some :
    (values : List Bytes) (text : Bytes)
    → chain values (some text) ≡ some (some (text ++ joined values) ∷ moved values)
unfolding chain print
chain-some [] text = rw (append-nil text)
chain-some (value ∷ values) text =
    rw (chain-some values (text ++ value), append_assoc text value (joined values))

destroy_all-moved :
    (values : List Bytes) (ps : List LoggerProxy) (s : LogState)
    → destroy_all (moved values ++ ps) s ≡ destroy_all ps s
unfolding destroy_all destroy
destroy_all-moved [] ps s = refl
destroy_all-moved (value ∷ values) ps s =
    ap (λ l. destroy_all l s) (append_assoc (moved values) (none ∷ []) ps)
    ∙ destroy_all-moved values (none ∷ ps) s

destroy_all-all_moved : (values : List Bytes) (s : LogState) → destroy_all (moved values) s ≡ some s
unfolding destroy_all
destroy_all-all_moved values s =
    ap (λ l. destroy_all l s) (sym (append-nil (moved values))) ∙ destroy_all-moved values [] s

begin_line_lem :
    (time : Bytes) (values : List Bytes) (s : LogState)
    → begin_line time values s
      ≡ some (some ((codes "curlion> " ++ (time ++ codes " ")) ++ joined values), s)
unfolding log begin_line
begin_line_lem time values s =
    let start = codes "curlion> " ++ (time ++ codes " ") in
    rw (chain-some values start, begin_line) (rw (destroy_all-all_moved values s) refl)

-- What the proxies of a finished line leave, with a logger.
logged : Logger → Bytes → LogState → Option LogState
logged logger line s =
    if is_callable logger
    then some (record s { g_logger = logger; written = (logger, line) ∷ s.written })
    else none

destroy_all-logged :
    (text : Bytes) (more : List Bytes) (logger : Logger) (s : LogState)
    → destroy_all (some text ∷ moved more) (set_logger logger s)
      ≡ logged logger (text ++ codes "\n") s
unfolding destroy_all destroy write_log set_logger logged
destroy_all-logged text more Logger.empty s = refl
destroy_all-logged text more prints s = destroy_all-all_moved more _
destroy_all-logged text more (custom n) s = destroy_all-all_moved more _

-- An expression that logs, behind a call of `SetLogger`: the logger that was set is called once, with
-- a line of the time, the values of the function that begins it and those of the caller, in order and
-- with a newline behind them. However many proxies stand between, none is followed when it is null.
-- If what was set is an empty function, its call ends the program.
pub write_line-set_logger :
    (logger : Logger) (time : Bytes) (values more : List Bytes) (s : LogState)
    → write_line time values more (set_logger logger s) ≡ (
        if is_callable logger
        then some (record s {
          g_logger = logger;
          written =
              (
                logger,
                ((codes "curlion> " ++ (time ++ codes " ")) ++ joined values)
                    ++ joined more
                    ++ codes "\n",
              )
              ∷ s.written;
        })
        else none)
unfolding write_line logged
write_line-set_logger logger time values more s =
    let start = codes "curlion> " ++ (time ++ codes " ") in
    rw (begin_line_lem time values (set_logger logger s), write_line)
      (rw (chain-some more (start ++ joined values))
        (destroy_all-logged ((start ++ joined values) ++ joined more) more logger s))
