-- ===== src/Http/Running.antt =====
-- No public call but a start changes whether an HTTP connection runs.
use curlion.Common.{◌≡◌, refl, none, some, arith}
use curlion.Connection.Calls.{debug_callback, options_reset}
use curlion.Connection.Running.{apply-is_running}
use curlion.Http.State.{HttpConnection, reset_http_options}
use curlion.Http.Requests.{HttpSetting, plain, http_options_reset, apply_http}

reset_http_options-is_running :
    (h : HttpConnection) → (reset_http_options h).is_running ≡ h.is_running
unfolding reset_http_options
reset_http_options-is_running h = ground arith

pub apply_http-is_running :
    (s : HttpSetting) (h : HttpConnection) → (apply_http s h).is_running ≡ h.is_running
unfolding apply_http
apply_http-is_running (plain options_reset) h = reset_http_options-is_running h
apply_http-is_running (plain (debug_callback none)) h = refl
apply_http-is_running (plain (debug_callback (some f))) h = refl
apply_http-is_running (plain s) h = apply-is_running s h.base
apply_http-is_running http_options_reset h = reset_http_options-is_running h
apply_http-is_running _ h = refl
