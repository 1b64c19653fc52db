-- ===== src/Manager/Ready.antt =====
-- Starts, finished transfers and public calls but `SetRequestBody` keep a connection ready to read.
use curlion.Common.{ℕ, ◌≡◌, Bool, true, false, none, some, arith, if◌then◌else◌}
use curlion.Connection.State.{Connection, will_start}
use curlion.Connection.Calls.{request_body, debug_callback, options_reset}
use curlion.Connection.Ready.{
  IsReady, keeps_body, apply-IsReady, reset_options-IsReady, will_start-IsReady, finish-IsReady,
}
use curlion.Http.State.{HttpConnection, on_base, will_start_http, reset_http_options}
use curlion.Http.Requests.{HttpSetting, http_options_reset, apply_http}
use curlion.Manager.State.{
  MultiLibrary, AnyConnection, http, World, base_of, map_base, will_start_any, set_socket_options,
  base_setting, apply_any,
}
use curlion.Manager.Cases.{prepare, stop}
use curlion.Manager.Every.{IsMaintained}

abbrev pub IsAnyReady : AnyConnection → Type 0
IsAnyReady o = IsReady (base_of o)

abbrev pub keeps_any : HttpSetting → Bool
keeps_any (HttpSetting.plain s) = keeps_body s
keeps_any s = true

set_socket_options-IsReady :
    (b : Bool) (c : Connection) → IsReady c → IsReady (set_socket_options b c)
unfolding set_socket_options
set_socket_options-IsReady true c i = record { fits = i.fits; within = i.within }
set_socket_options-IsReady false c i = record { fits = i.fits; within = i.within }

prepare-IsAnyReady :
    (lib : MultiLibrary) (w : World lib) (o : AnyConnection)
    → IsAnyReady o
    → IsAnyReady (prepare lib w o)
unfolding map_base will_start_any base_of will_start_http on_base will_start
prepare-IsAnyReady lib w (AnyConnection.plain c) i =
    will_start-IsReady (set_socket_options w.has_socket_factory c)
      (set_socket_options-IsReady w.has_socket_factory c i).fits
prepare-IsAnyReady lib w (http h) i =
    will_start-IsReady (set_socket_options w.has_socket_factory h.base)
      (set_socket_options-IsReady w.has_socket_factory h.base i).fits

pub will_start_http-IsReady :
    (h : HttpConnection) → IsReady h.base → IsReady (will_start_http h).base
unfolding will_start_http will_start
will_start_http-IsReady h i = will_start-IsReady h.base i.fits

stop-IsAnyReady : (result : ℕ) (o : AnyConnection) → IsAnyReady o → IsAnyReady (stop result o)
unfolding map_base base_of on_base
stop-IsAnyReady result (AnyConnection.plain c) i = finish-IsReady c _ i
stop-IsAnyReady result (http h) i = finish-IsReady h.base _ i

if-base :
    (b : Bool) (x y : HttpConnection)
    → IsReady x.base
    → IsReady y.base
    → IsReady (if b then x else y).base
if-base true x y i j = i
if-base false x y i j = j

reset_http_options-IsReady :
    (h : HttpConnection) → IsReady h.base → IsReady (reset_http_options h).base
unfolding reset_http_options
reset_http_options-IsReady h i =
    if-base h.is_running h _ i (record { fits = omega arith; within = λ runs. omega arith })

apply_http-IsReady :
    (s : HttpSetting) (h : HttpConnection)
    → keeps_any s ≡ true
    → IsReady h.base
    → IsReady (apply_http s h).base
unfolding apply_http
apply_http-IsReady (HttpSetting.plain options_reset) h ok i = reset_http_options-IsReady h i
apply_http-IsReady (HttpSetting.plain (debug_callback none)) h ok i = record {
  fits = i.fits;
  within = i.within;
}
apply_http-IsReady (HttpSetting.plain (debug_callback (some f))) h ok i = record {
  fits = i.fits;
  within = i.within;
}
apply_http-IsReady (HttpSetting.plain (request_body body)) h ok i = absurd (cc)
apply_http-IsReady (HttpSetting.plain s) h ok i = apply-IsReady s h.base ok i
apply_http-IsReady http_options_reset h ok i = reset_http_options-IsReady h i
apply_http-IsReady _ h ok i = record { fits = i.fits; within = i.within }

base_setting-IsReady :
    (s : HttpSetting) (c : Connection) → keeps_any s ≡ true → IsReady c → IsReady (base_setting s c)
unfolding base_setting
base_setting-IsReady (HttpSetting.plain s) c ok i = apply-IsReady s c ok i
base_setting-IsReady http_options_reset c ok i = reset_options-IsReady c i
base_setting-IsReady _ c ok i = i

pub apply_any-IsAnyReady :
    (s : HttpSetting) (o : AnyConnection)
    → keeps_any s ≡ true
    → IsAnyReady o
    → IsAnyReady (apply_any s o)
unfolding apply_any base_of
apply_any-IsAnyReady s (AnyConnection.plain c) ok i = base_setting-IsReady s c ok i
apply_any-IsAnyReady s (http h) ok i = apply_http-IsReady s h ok i

pub IsAnyReady-IsMaintained : (lib : MultiLibrary) → IsMaintained lib keeps_any IsAnyReady
IsAnyReady-IsMaintained lib = record {
  preparing = prepare-IsAnyReady lib;
  stopping = stop-IsAnyReady;
  settings = apply_any-IsAnyReady;
}
