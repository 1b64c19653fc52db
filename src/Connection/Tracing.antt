-- ===== src/Connection/Tracing.antt =====
-- The kinds of debug messages.
use curlion.Common.{◌≡◌, ◌≢◌, refl, Bytes}
use curlion.Curl.{InfoType, info_text, header_out, data_in}
use curlion.Connection.State.{Connection, Client, sent_header}
use curlion.Connection.Callbacks.{debug_data_type, curl_debug_callback}

never_sent_header : (type : InfoType) → debug_data_type type ≢ sent_header
unfolding debug_data_type
never_sent_header info_text = λ h. cc
never_sent_header _ = λ h. cc

-- A header that is sent is reported to the user's callback in the same way as a body that is
-- received: `SentHeader` is the type of no message at all.
curl_debug_callback-header_out :
    (client : Client) (c : Connection) (bytes : Bytes)
    → (curl_debug_callback client c header_out bytes ≡ curl_debug_callback client c data_in bytes)
      × ((type : InfoType) → debug_data_type type ≢ sent_header)
unfolding curl_debug_callback debug_data_type
curl_debug_callback-header_out client c bytes = (refl, never_sent_header)
