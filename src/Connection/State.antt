-- ===== src/Connection/State.antt =====
-- connection.h and connection.cpp: the members of `Connection`, its constructor, and the methods
-- that start, finish and reset one.
use curlion.Common.{
  ℕ, Bool, true, false, Option, none, some, List, [], ◌∷◌, Bytes, ℤ, replicate, if◌then◌else◌,
}
use curlion.Curl.{
  CurlOption, OptionValue, function, this, its_error_buffer, StaticFunction, Easy, curl_easy_init,
  setopts, curl_easy_reset, CurlCode, curl_last, c_str,
}

pub data SeekOrigin : Type 0 where
  begin current end : SeekOrigin

pub data DebugDataType : Type 0 where
  information received_header sent_header received_body sent_body : DebugDataType
  received_ssl_data sent_ssl_data : DebugDataType

-- The size of `error_buffer_`.
abbrev curl_error_size : ℕ
curl_error_size = 256

-- A `std::function` member is empty or a function of the user's, known by a number.
pub record Connection : Type 0 where
  pub handle : Easy
  pub is_running : Bool
  pub dns_resolve_items : List Bytes
  pub request_body : Bytes
  pub request_body_read_length : ℕ
  pub read_body_callback : Option ℕ
  pub seek_body_callback : Option ℕ
  pub write_header_callback : Option ℕ
  pub write_body_callback : Option ℕ
  pub progress_callback : Option ℕ
  pub debug_callback : Option ℕ
  pub finished_callback : Option ℕ
  pub result : CurlCode
  pub error_buffer : Bytes
  pub response_header : Bytes
  pub response_body : Bytes

-- What the user's functions do: they may change the connection by its public methods.
pub record Client : Type 0 where
  pub read_body : ℕ → Connection → ℕ → Connection × Bool × Bytes × ℕ
  pub seek_body : ℕ → Connection → SeekOrigin → ℤ → Connection × Bool
  pub write_header : ℕ → Connection → Bytes → Connection × Bool
  pub write_body : ℕ → Connection → Bytes → Connection × Bool
  pub progress : ℕ → Connection → ℤ → ℤ → ℤ → ℤ → Connection × Bool
  pub debug : ℕ → Connection → DebugDataType → Bytes → Connection
  pub finished : ℕ → Connection → Connection

abbrev pub initial_options : List (CurlOption × OptionValue)
initial_options =
    (CurlOption.error_buffer, its_error_buffer)
    ∷ (CurlOption.read_function, function StaticFunction.curl_read_body_callback)
    ∷ (CurlOption.read_data, this)
    ∷ (CurlOption.seek_function, function StaticFunction.curl_seek_body_callback)
    ∷ (CurlOption.seek_data, this)
    ∷ (CurlOption.header_function, function StaticFunction.curl_write_header_callback)
    ∷ (CurlOption.header_data, this)
    ∷ (CurlOption.write_function, function StaticFunction.curl_write_body_callback)
    ∷ (CurlOption.write_data, this)
    ∷ (CurlOption.xferinfo_function, function StaticFunction.curl_progress_callback)
    ∷ (CurlOption.xferinfo_data, this)
    ∷ []

unfoldable pub set_initial_options : Connection → Connection
set_initial_options c = record c { handle = setopts initial_options c.handle }

-- The constructor.
unfoldable pub new : Connection
unfolding set_initial_options
new = set_initial_options (record {
  handle = curl_easy_init;
  is_running = false;
  dns_resolve_items = [];
  request_body = [];
  request_body_read_length = 0;
  read_body_callback = none;
  seek_body_callback = none;
  write_header_callback = none;
  write_body_callback = none;
  progress_callback = none;
  debug_callback = none;
  finished_callback = none;
  result = curl_last;
  error_buffer = replicate curl_error_size 0;
  response_header = [];
  response_body = [];
})

unfoldable pub release_dns_resolve_items : Connection → Connection
release_dns_resolve_items c = record c { dns_resolve_items = [] }

unfoldable pub reset_option_resources : Connection → Connection
unfolding release_dns_resolve_items
reset_option_resources c = record (release_dns_resolve_items c) {
  request_body = [];
  request_body_read_length = 0;
  read_body_callback = none;
  seek_body_callback = none;
  write_header_callback = none;
  write_body_callback = none;
  progress_callback = none;
  debug_callback = none;
  finished_callback = none;
}

unfoldable pub reset_options : Connection → Connection
unfolding set_initial_options reset_option_resources
reset_options c =
    if c.is_running
    then c
    else reset_option_resources
        (set_initial_options (record c { handle = curl_easy_reset c.handle }))

unfoldable pub reset_response_states : Connection → Connection
reset_response_states c = record c {
  error_buffer = replicate curl_error_size 0;
  request_body_read_length = 0;
  result = curl_last;
  response_header = [];
  response_body = [];
}

unfoldable pub will_start : Connection → Connection
unfolding reset_response_states
will_start c = reset_response_states (record c { is_running = true })

-- The state that `DidFinish` leaves before it calls the finished callback, which the caller of
-- this definition runs.
unfoldable pub finish : Connection → CurlCode → Connection
finish c result = record c { is_running = false; result = result }

unfoldable pub did_finish : Client → Connection → CurlCode → Connection
unfolding finish
did_finish client c result = elim c.finished_callback [
  | none ↦ finish c result
  | some f ↦ client.finished f (finish c result)
]

unfoldable pub get_error : Connection → Bytes
unfolding c_str
get_error c = c_str c.error_buffer
