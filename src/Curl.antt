-- ===== src/Curl.antt =====
-- The names of libcurl that the source uses. libcurl itself is no part of the repository: an easy
-- handle is modelled by the calls made on it, and what libcurl's functions return, and which
-- callbacks they make, are arguments of the definitions that call them.
use curlion.Common.{ℕ, Bool, Option, none, some, List, [], ◌∷◌, Bytes, ℤ, ◌==◌, if◌then◌else◌}

-- The options that the source sets on an easy handle, `CURLOPT_URL` as `url` and so on.
pub data CurlOption : Type 0 where
  error_buffer read_function read_data seek_function seek_data header_function : CurlOption
  header_data write_function write_data xferinfo_function xferinfo_data verbose : CurlOption
  url proxy proxy_username proxy_password connect_only resolve : CurlOption
  ssl_verifypeer ssl_verifyhost cainfo nobody noprogress connecttimeout_ms : CurlOption
  low_speed_limit low_speed_time timeout_ms debug_function debug_data : CurlOption
  opensocket_function opensocket_data closesocket_function closesocket_data : CurlOption
  post httpheader httppost followlocation maxredirs : CurlOption

-- The number of an option: `CURLOPT` codes are distinct too.
abbrev pub index : CurlOption → ℕ
index CurlOption.error_buffer = 0
index CurlOption.read_function = 1
index CurlOption.read_data = 2
index CurlOption.seek_function = 3
index CurlOption.seek_data = 4
index CurlOption.header_function = 5
index CurlOption.header_data = 6
index CurlOption.write_function = 7
index CurlOption.write_data = 8
index CurlOption.xferinfo_function = 9
index CurlOption.xferinfo_data = 10
index CurlOption.verbose = 11
index CurlOption.url = 12
index CurlOption.proxy = 13
index CurlOption.proxy_username = 14
index CurlOption.proxy_password = 15
index CurlOption.connect_only = 16
index CurlOption.resolve = 17
index CurlOption.ssl_verifypeer = 18
index CurlOption.ssl_verifyhost = 19
index CurlOption.cainfo = 20
index CurlOption.nobody = 21
index CurlOption.noprogress = 22
index CurlOption.connecttimeout_ms = 23
index CurlOption.low_speed_limit = 24
index CurlOption.low_speed_time = 25
index CurlOption.timeout_ms = 26
index CurlOption.debug_function = 27
index CurlOption.debug_data = 28
index CurlOption.opensocket_function = 29
index CurlOption.opensocket_data = 30
index CurlOption.closesocket_function = 31
index CurlOption.closesocket_data = 32
index CurlOption.post = 33
index CurlOption.httpheader = 34
index CurlOption.httppost = 35
index CurlOption.followlocation = 36
index CurlOption.maxredirs = 37

-- The static member functions that the source installs as callbacks.
pub data StaticFunction : Type 0 where
  curl_read_body_callback curl_seek_body_callback : StaticFunction
  curl_write_header_callback curl_write_body_callback : StaticFunction
  curl_progress_callback curl_debug_callback : StaticFunction
  curl_open_socket_callback curl_close_socket_callback : StaticFunction

-- What an option is set to. `slist []` is the null list, `this` the object that makes the call.
pub data OptionValue : Type 0 where
  null this its_error_buffer : OptionValue
  flag : Bool → OptionValue
  long : ℤ → OptionValue
  text : Bytes → OptionValue
  function : StaticFunction → OptionValue
  slist : List Bytes → OptionValue
  httppost : ℕ → OptionValue

-- A call on an easy handle; `reset` is `curl_easy_reset`.
pub data EasyCall : Type 0 where
  setopt : CurlOption → OptionValue → EasyCall
  reset : EasyCall

-- An easy handle is the calls made on it since `curl_easy_init`, the latest first.
abbrev pub Easy : Type 0
Easy = List EasyCall

abbrev pub curl_easy_init : Easy
curl_easy_init = []

abbrev pub curl_easy_setopt : CurlOption → OptionValue → Easy → Easy
curl_easy_setopt o v h = setopt o v ∷ h

abbrev pub curl_easy_reset : Easy → Easy
curl_easy_reset h = reset ∷ h

-- Several options set in turn.
abbrev pub setopts : List (CurlOption × OptionValue) → Easy → Easy
setopts [] h = h
setopts ((o, v) ∷ rest) h = setopts rest (curl_easy_setopt o v h)

-- The value that an option has by libcurl's documentation: the one set last since the last reset.
unfoldable pub in_force : CurlOption → Easy → Option OptionValue
in_force o [] = none
in_force o (setopt p v ∷ h) = if index p == index o then some v else in_force o h
in_force o (reset ∷ h) = none

-- What a C function reads of a text: the bytes before the first NUL.
unfoldable pub c_str : Bytes → Bytes
c_str [] = []
c_str (b ∷ s) = if b == 0 then [] else b ∷ c_str s

-- `CURLcode`: `CURL_LAST` stands for "no result yet".
pub data CurlCode : Type 0 where
  curl_last : CurlCode
  code : ℕ → CurlCode

-- `SEEK_SET`, `SEEK_CUR`, `SEEK_END` and any other `int`.
pub data Whence : Type 0 where
  seek_set seek_cur seek_end : Whence
  other : ℕ → Whence

-- `curl_infotype`: `CURLINFO_TEXT` and so on, and any other value.
pub data InfoType : Type 0 where
  info_text header_in header_out data_in data_out ssl_data_in ssl_data_out : InfoType
  other : ℕ → InfoType

-- What a callback answers: a number of bytes, `CURL_READFUNC_ABORT`, or an `int`.
pub data Reply : Type 0 where
  count : ℕ → Reply
  readfunc_abort : Reply
  status : ℤ → Reply
