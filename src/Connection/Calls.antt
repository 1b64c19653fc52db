-- ===== src/Connection/Calls.antt =====
-- The public calls that change a connection outside a transfer, as data, so that a history of a
-- connection is a list of them.
use curlion.Common.{ℕ, Bool, Option, List, [], ◌∷◌, Bytes, ℤ}
use curlion.Connection.State.{Connection, reset_options}
use curlion.Connection.Options.{
  set_verbose, set_url, set_proxy, set_proxy_account, set_connect_only, set_dns_resolve_items,
  set_verify_certificate, set_verify_host, set_certificate_file_path, set_request_body,
  set_receive_body, set_enable_progress, set_connect_timeout_in_milliseconds, set_low_speed_timeout,
  set_idle_timeout_in_seconds, set_timeout_in_milliseconds, set_read_body_callback,
  set_seek_body_callback, set_write_header_callback, set_write_body_callback, set_progress_callback,
  set_debug_callback, set_finished_callback,
}

pub data Setting : Type 0 where
  verbose connect_only verify_certificate verify_host receive_body enable_progress : Bool → Setting
  url proxy certificate_file_path request_body : Bytes → Setting
  proxy_account : Bytes → Bytes → Setting
  dns_resolve_items : List (Bytes × Bytes) → Setting
  connect_timeout idle_timeout timeout : ℤ → Setting
  low_speed_timeout : ℤ → ℤ → Setting
  read_body_callback seek_body_callback write_header_callback : Option ℕ → Setting
  write_body_callback progress_callback debug_callback finished_callback : Option ℕ → Setting
  options_reset : Setting

unfoldable pub apply : Setting → Connection → Connection
unfolding set_verbose set_url set_proxy set_proxy_account set_connect_only set_dns_resolve_items
    set_verify_certificate set_verify_host set_certificate_file_path set_request_body
    set_receive_body set_enable_progress set_connect_timeout_in_milliseconds set_low_speed_timeout
    set_idle_timeout_in_seconds set_timeout_in_milliseconds set_read_body_callback
    set_seek_body_callback set_write_header_callback set_write_body_callback set_progress_callback
    set_debug_callback set_finished_callback reset_options
apply (verbose b) c = set_verbose b c
apply (connect_only b) c = set_connect_only b c
apply (verify_certificate b) c = set_verify_certificate b c
apply (verify_host b) c = set_verify_host b c
apply (receive_body b) c = set_receive_body b c
apply (enable_progress b) c = set_enable_progress b c
apply (url s) c = set_url s c
apply (proxy s) c = set_proxy s c
apply (certificate_file_path s) c = set_certificate_file_path s c
apply (request_body s) c = set_request_body s c
apply (proxy_account u p) c = set_proxy_account u p c
apply (dns_resolve_items items) c = set_dns_resolve_items items c
apply (connect_timeout n) c = set_connect_timeout_in_milliseconds n c
apply (idle_timeout n) c = set_idle_timeout_in_seconds n c
apply (timeout n) c = set_timeout_in_milliseconds n c
apply (low_speed_timeout n m) c = set_low_speed_timeout n m c
apply (read_body_callback f) c = set_read_body_callback f c
apply (seek_body_callback f) c = set_seek_body_callback f c
apply (write_header_callback f) c = set_write_header_callback f c
apply (write_body_callback f) c = set_write_body_callback f c
apply (progress_callback f) c = set_progress_callback f c
apply (debug_callback f) c = set_debug_callback f c
apply (finished_callback f) c = set_finished_callback f c
apply options_reset c = reset_options c

unfoldable pub apply_all : List Setting → Connection → Connection
apply_all [] c = c
apply_all (s ∷ ss) c = apply_all ss (apply s c)
