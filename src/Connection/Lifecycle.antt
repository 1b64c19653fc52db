-- ===== src/Connection/Lifecycle.antt =====
-- Starting, finishing and resetting a connection.
use curlion.Common.{
  ℕ, ◌≤◌, ◌<◌, ◌≡◌, refl, true, false, Option, none, some, List, [], ◌∷◌, Bytes, length, arith,
  size_mod,
}
use curlion.Curl.{CurlOption, OptionValue, Easy, reset, setopt, setopts, in_force, CurlCode}
use curlion.Connection.State.{
  Connection, Client, new, initial_options, reset_options, will_start, did_finish,
}
use curlion.Connection.Callbacks.{Transfer, start}
use curlion.Connection.Reading.{will_start-BodyIsSound}
use curlion.Connection.Quiet.{IsQuiet, left, headers_of, bodies_of}
use curlion.Connection.Response.{transfers_quiet}

-- The connection after a call of the finished callback, if there is one.
abbrev pub notified : Client → Option ℕ → Connection → Connection
notified client none c = c
notified client (some f) c = client.finished f c

did_finish-notified :
    (client : Client) (c : Connection) (result : CurlCode)
    → did_finish client c result
      ≡ notified client c.finished_callback (record c { is_running = false; result = result })
unfolding did_finish
did_finish-notified client c result = ground arith

-- A blocking start of a connection that is not running and has no callbacks but a finished
-- callback, with a body whose length is a `size_t`: whatever libcurl calls, no read leaves the
-- request body, and in the end the connection is not running, has the code that libcurl returned,
-- and holds the header and the body of this transfer alone. The finished callback is called last,
-- on that state.
pub start_quiet :
    (client : Client) (c : Connection) (ts : List Transfer) (result : CurlCode)
    → c.is_running ≡ false
    → IsQuiet c
    → length c.request_body < size_mod
    → (at : ℕ) × (message : Bytes) × (at ≤ length c.request_body)
      × (start client c ts result
          ≡ some (
              notified client c.finished_callback
                (record (left c at message (headers_of ts) (bodies_of ts)) {
                  is_running = false;
                  result = result;
                })))
unfolding start will_start
start_quiet client c ts result idle q fits =
    let (at, message, answers, within, run) =
      transfers_quiet client (will_start c) ts
        (record {
          no_read = q.no_read;
          no_header = q.no_header;
          no_body = q.no_body;
          no_progress = q.no_progress;
          no_debug = q.no_debug;
        })
        (will_start-BodyIsSound c fits) in
    (
      at,
      message,
      within,
      ground (
        arith,
        idle,
        run,
        did_finish-notified client (left (will_start c) at message (headers_of ts) (bodies_of ts))
            result,
      ),
    )

-- A running connection ignores `Start` and `ResetOptions`.
pub running_ignores :
    (client : Client) (c : Connection) (ts : List Transfer) (result : CurlCode)
    → c.is_running ≡ true
    → (start client c ts result ≡ some c) × (reset_options c ≡ c)
unfolding start reset_options
running_ignores client c ts result running = (ground arith, ground arith)

-- What is set after a reset does not depend on what was set before it.
pub in_force-setopts :
    (o : CurlOption) (l : List (CurlOption × OptionValue)) (h h' : Easy)
    → in_force o h ≡ in_force o h'
    → in_force o (setopts l h) ≡ in_force o (setopts l h')
unfolding in_force
in_force-setopts o [] h h' e = e
in_force-setopts o ((p, v) ∷ l) h h' e =
    in_force-setopts o l (setopt p v ∷ h) (setopt p v ∷ h') (ground arith)

-- `ResetOptions` on a connection that is not running leaves each option at the value that it has in
-- a new connection, and each member that an option stands for as the constructor sets it. The
-- result and the response stay.
pub reset_options-new :
    (c : Connection) (o : CurlOption)
    → c.is_running ≡ false
    → (in_force o (reset_options c).handle ≡ in_force o new.handle)
      × (reset_options c ≡ record new {
        handle = (reset_options c).handle;
        result = c.result;
        error_buffer = c.error_buffer;
        response_header = c.response_header;
        response_body = c.response_body;
      })
unfolding reset_options new in_force
reset_options-new c o idle =
    let blank = in_force-setopts o initial_options (reset ∷ c.handle) [] refl in
    (ground (arith, idle, blank), ground (arith, idle))
