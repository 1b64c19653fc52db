-- ===== src/Log/Tests.antt =====
-- A line of a connection, written to a logger of the user's.
use curlion.Common.{◌≡◌, if◌then◌else◌, none, some, List, [], ◌∷◌, ◌++◌, Bytes, codes}
use curlion.Log.State.{is_callable, custom, initial, set_logger, write_line, connection_log_prefix}
use curlion.Log.Lines.{joined, write_line-set_logger}

abbrev time : Bytes
time = codes "12:00"

abbrev values : List Bytes
values = codes "Start." ∷ []

write_line-set_logger_example :
    write_line time (connection_log_prefix (codes "7")) values (set_logger (custom 3) initial) ≡ (
      if is_callable (custom 3)
      then some (record initial {
        g_logger = custom 3;
        written =
            (
              custom 3,
              ((codes "curlion> " ++ (time ++ codes " "))
                    ++ joined (connection_log_prefix (codes "7")))
                  ++ joined values
                  ++ codes "\n",
            )
            ∷ initial.written;
      })
      else none)
write_line-set_logger_example =
    write_line-set_logger (custom 3) time (connection_log_prefix (codes "7")) values initial
