-- ===== src/Manager/Wired.antt =====
-- The connections that a manager refers to keep their callbacks, lists and forms.
use curlion.Common.{ℕ, ◌≡◌, refl, Bool, true, false, List, [], ◌∷◌}
use curlion.Curl.{in_force}
use curlion.Connection.State.{Connection, will_start, finish}
use curlion.Connection.Wiring.{IsWired, apply-IsWired, reset_options-IsWired}
use curlion.Http.State.{HttpConnection, on_base, will_start_http}
use curlion.Http.Requests.{HttpSetting, http_options_reset, IsHttpWired, apply_http-IsHttpWired}
use curlion.Manager.State.{
  MultiLibrary, AnyConnection, plain, http, World, Handlers, Request, starts, aborts, configures,
  map_base, will_start_any, set_socket_options, base_setting, apply_any,
}
use curlion.Manager.Cases.{prepare, stop}
use curlion.Manager.Every.{asks, Asking, IsMaintained}

abbrev pub IsAnyWired : AnyConnection → Type 0
IsAnyWired (plain c) = IsWired c
IsAnyWired (http h) = IsHttpWired h

set_socket_options-IsWired :
    (b : Bool) (c : Connection) → IsWired c → IsWired (set_socket_options b c)
unfolding set_socket_options in_force
set_socket_options-IsWired true c w = record { installed = w.installed; owned = w.owned }
set_socket_options-IsWired false c w = record { installed = w.installed; owned = w.owned }

set_socket_options-IsHttpWired :
    (b : Bool) (h : HttpConnection) → IsHttpWired h → IsHttpWired (on_base (set_socket_options b) h)
unfolding set_socket_options in_force on_base
set_socket_options-IsHttpWired true h w = record {
  wired = record { installed = w.wired.installed; owned = w.wired.owned };
  owns_headers = w.owns_headers;
  owns_form = w.owns_form;
}
set_socket_options-IsHttpWired false h w = record {
  wired = record { installed = w.wired.installed; owned = w.wired.owned };
  owns_headers = w.owns_headers;
  owns_form = w.owns_form;
}

will_start_any-IsAnyWired : (o : AnyConnection) → IsAnyWired o → IsAnyWired (will_start_any o)
unfolding will_start_any will_start will_start_http
will_start_any-IsAnyWired (plain c) w = record { installed = w.installed; owned = w.owned }
will_start_any-IsAnyWired (http h) w = record {
  wired = record { installed = w.wired.installed; owned = w.wired.owned };
  owns_headers = w.owns_headers;
  owns_form = w.owns_form;
}

stop-IsAnyWired : (result : ℕ) (o : AnyConnection) → IsAnyWired o → IsAnyWired (stop result o)
unfolding map_base finish on_base
stop-IsAnyWired result (plain c) w = record { installed = w.installed; owned = w.owned }
stop-IsAnyWired result (http h) w = record {
  wired = record { installed = w.wired.installed; owned = w.wired.owned };
  owns_headers = w.owns_headers;
  owns_form = w.owns_form;
}

prepare-IsAnyWired :
    (lib : MultiLibrary) (w : World lib) (o : AnyConnection)
    → IsAnyWired o
    → IsAnyWired (prepare lib w o)
unfolding map_base
prepare-IsAnyWired lib w (plain c) i =
    will_start_any-IsAnyWired _ (set_socket_options-IsWired w.has_socket_factory c i)
prepare-IsAnyWired lib w (http h) i =
    will_start_any-IsAnyWired _ (set_socket_options-IsHttpWired w.has_socket_factory h i)

base_setting-IsWired : (s : HttpSetting) (c : Connection) → IsWired c → IsWired (base_setting s c)
unfolding base_setting
base_setting-IsWired (HttpSetting.plain s) c w = apply-IsWired s c w
base_setting-IsWired http_options_reset c w = reset_options-IsWired c w
base_setting-IsWired _ c w = w

pub apply_any-IsAnyWired :
    (s : HttpSetting) (o : AnyConnection) → IsAnyWired o → IsAnyWired (apply_any s o)
unfolding apply_any
apply_any-IsAnyWired s (plain c) w = base_setting-IsWired s c w
apply_any-IsAnyWired s (http h) w = apply_http-IsHttpWired s h w

any-asks : (rs : List Request) → asks (λ s. true) rs ≡ true
any-asks [] = refl
any-asks (starts a ∷ rs) = any-asks rs
any-asks (aborts a ∷ rs) = any-asks rs
any-asks (configures a s ∷ rs) = any-asks rs

pub IsAnyWired-IsMaintained : (lib : MultiLibrary) → IsMaintained lib (λ s. true) IsAnyWired
IsAnyWired-IsMaintained lib = record {
  preparing = prepare-IsAnyWired lib;
  stopping = stop-IsAnyWired;
  settings = λ s o ok w. apply_any-IsAnyWired s o w;
}

pub any-Asking : (lib : MultiLibrary) (handlers : Handlers lib) → Asking lib (λ s. true) handlers
any-Asking lib handlers f a w = any-asks (handlers f a w)
