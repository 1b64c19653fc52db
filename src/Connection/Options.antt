-- ===== src/Connection/Options.antt =====
-- connection.h and connection.cpp: the setters. Each sets options on the easy handle or a member.
use curlion.Common.{
  ℕ, Bool, not, Option, none, some, List, [], ◌∷◌, ◌++◌, Bytes, ℤ, pos, if◌then◌else◌, is_empty,
}
use curlion.Curl.{
  CurlOption, OptionValue, null, this, flag, long, text, function, slist, StaticFunction,
  curl_easy_setopt, c_str,
}
use curlion.Connection.State.{Connection, release_dns_resolve_items}

unfoldable pub set_option : CurlOption → OptionValue → Connection → Connection
set_option o v c = record c { handle = curl_easy_setopt o v c.handle }

unfoldable pub set_verbose : Bool → Connection → Connection
unfolding set_option
set_verbose verbose = set_option CurlOption.verbose (flag verbose)

unfoldable pub set_url : Bytes → Connection → Connection
unfolding set_option c_str
set_url url = set_option CurlOption.url (text (c_str url))

unfoldable pub set_proxy : Bytes → Connection → Connection
unfolding set_option c_str
set_proxy proxy = set_option CurlOption.proxy (text (c_str proxy))

unfoldable pub set_proxy_account : Bytes → Bytes → Connection → Connection
unfolding set_option c_str
set_proxy_account username password c =
    set_option CurlOption.proxy_password (text (c_str password))
      (set_option CurlOption.proxy_username (text (c_str username)) c)

unfoldable pub set_connect_only : Bool → Connection → Connection
unfolding set_option
set_connect_only connect_only = set_option CurlOption.connect_only (flag connect_only)

-- The text of one resolve item: `-host` to remove it where there is no address, or `host:address`.
pub resolve_item : Bytes × Bytes → Bytes
resolve_item (host, address) = if is_empty address then b'-' ∷ host else host ++ (b':' ∷ address)

unfoldable pub append_resolve_items : List (Bytes × Bytes) → List Bytes → List Bytes
unfolding resolve_item c_str
append_resolve_items [] items = items
append_resolve_items (p ∷ rest) items =
    append_resolve_items rest (items ++ c_str (resolve_item p) ∷ [])

-- The argument is the multimap in its order.
unfoldable pub set_dns_resolve_items : List (Bytes × Bytes) → Connection → Connection
unfolding set_option release_dns_resolve_items append_resolve_items
set_dns_resolve_items resolve_items c =
    let released = release_dns_resolve_items c in
    let items = append_resolve_items resolve_items released.dns_resolve_items in
    set_option CurlOption.resolve (slist items) (record released { dns_resolve_items = items })

unfoldable pub set_verify_certificate : Bool → Connection → Connection
unfolding set_option
set_verify_certificate verify = set_option CurlOption.ssl_verifypeer (flag verify)

unfoldable pub set_verify_host : Bool → Connection → Connection
unfolding set_option
set_verify_host verify =
    set_option CurlOption.ssl_verifyhost (long (if verify then pos 2 else pos 0))

unfoldable pub set_certificate_file_path : Bytes → Connection → Connection
unfolding set_option c_str
set_certificate_file_path file_path =
    set_option CurlOption.cainfo (if is_empty file_path then null else text (c_str file_path))

unfoldable pub set_request_body : Bytes → Connection → Connection
set_request_body body c = record c { request_body = body }

unfoldable pub set_receive_body : Bool → Connection → Connection
unfolding set_option
set_receive_body receive_body = set_option CurlOption.nobody (flag (not receive_body))

unfoldable pub set_enable_progress : Bool → Connection → Connection
unfolding set_option
set_enable_progress enable = set_option CurlOption.noprogress (flag (not enable))

unfoldable pub set_connect_timeout_in_milliseconds : ℤ → Connection → Connection
unfolding set_option
set_connect_timeout_in_milliseconds milliseconds =
    set_option CurlOption.connecttimeout_ms (long milliseconds)

unfoldable pub set_low_speed_timeout : ℤ → ℤ → Connection → Connection
unfolding set_option
set_low_speed_timeout low_speed timeout c =
    set_option CurlOption.low_speed_time (long timeout)
      (set_option CurlOption.low_speed_limit (long low_speed) c)

unfoldable pub set_idle_timeout_in_seconds : ℤ → Connection → Connection
unfolding set_low_speed_timeout
set_idle_timeout_in_seconds seconds = set_low_speed_timeout (pos 1) seconds

unfoldable pub set_timeout_in_milliseconds : ℤ → Connection → Connection
unfolding set_option
set_timeout_in_milliseconds milliseconds = set_option CurlOption.timeout_ms (long milliseconds)

unfoldable pub set_read_body_callback : Option ℕ → Connection → Connection
set_read_body_callback callback c = record c { read_body_callback = callback }

unfoldable pub set_seek_body_callback : Option ℕ → Connection → Connection
set_seek_body_callback callback c = record c { seek_body_callback = callback }

unfoldable pub set_write_header_callback : Option ℕ → Connection → Connection
set_write_header_callback callback c = record c { write_header_callback = callback }

unfoldable pub set_write_body_callback : Option ℕ → Connection → Connection
set_write_body_callback callback c = record c { write_body_callback = callback }

unfoldable pub set_progress_callback : Option ℕ → Connection → Connection
set_progress_callback callback c = record c { progress_callback = callback }

unfoldable pub set_debug_callback : Option ℕ → Connection → Connection
unfolding set_option
set_debug_callback callback c =
    let changed = record c { debug_callback = callback } in
    elim callback [
      | some _ ↦ set_option CurlOption.debug_data this (
          set_option CurlOption.debug_function (function StaticFunction.curl_debug_callback)
            changed)
      | none ↦
          set_option CurlOption.debug_data null (set_option CurlOption.debug_function null changed)
    ]

unfoldable pub set_finished_callback : Option ℕ → Connection → Connection
set_finished_callback callback c = record c { finished_callback = callback }
