-- ===== src/Connection/RefusalTests.antt =====
-- A body callback that refuses.
use curlion.Common.{◌≡◌, refl, false, ◌||◌, some, [], codes}
use curlion.Curl.{count}
use curlion.Connection.State.{Connection, Client, new}
use curlion.Connection.Body.{write_body}
use curlion.Connection.Callbacks.{Transfer, writes_body, transfer, curl_write_body_callback}
use curlion.Connection.Refusals.{goes_on, says, is_empty_piece, transfer-goes_on}
use curlion.Connection.Tests.{silent}

abbrev stopping : Client
stopping = record silent { write_body = λ f c body. (c, false) }

abbrev guarded : Connection
guarded = record new { write_body_callback = some 0 }

abbrev piece : Transfer
piece = writes_body (codes "hi") 1 2

guarded-refuses : transfer stopping guarded piece ≡ some (guarded, count 0, [])
unfolding transfer curl_write_body_callback write_body
guarded-refuses = refl

transfer-goes_on_example :
    goes_on piece (count 0) ≡ (says stopping guarded piece || is_empty_piece piece)
transfer-goes_on_example =
    transfer-goes_on stopping guarded piece guarded (count 0) [] guarded-refuses
