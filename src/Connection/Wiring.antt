-- ===== src/Connection/Wiring.antt =====
-- What stays true of a connection's options whatever public calls are made.
use curlion.Common.{
  ◌≡◌, refl, sym, ap, ◌∙◌, true, false, ◌⊎◌, inl, inr, none, some, List, [], ◌∷◌, ◌++◌, map,
  append_assoc, append-nil, Bytes, arith, Bool-cases,
}
use curlion.Curl.{CurlOption, OptionValue, slist, Easy, reset, setopts, in_force, c_str}
use curlion.Connection.State.{
  Connection, initial_options, new, reset_options, set_initial_options, reset_option_resources,
}
use curlion.Connection.Options.{append_resolve_items, resolve_item, set_dns_resolve_items}
use curlion.Connection.Calls.{
  Setting, verbose, connect_only, verify_certificate, dns_resolve_items, debug_callback,
  options_reset, apply, apply_all,
}

-- Each option of a list has its value.
abbrev Holds : List (CurlOption × OptionValue) → Easy → Type 0
Holds [] h = Unit {0}
Holds ((o, v) ∷ l) h = (in_force o h ≡ some v) × Holds l h

-- The list that the handle was given for `CURLOPT_RESOLVE` has the items of the one that the
-- connection owns.
abbrev OwnsResolveItems : Connection → Type 0
OwnsResolveItems c =
    (in_force CurlOption.resolve c.handle ≡ some (slist c.dns_resolve_items))
    ⊎ ((in_force CurlOption.resolve c.handle ≡ none) × (c.dns_resolve_items ≡ []))

pub record IsWired (c : Connection) : Type 0 where
  pub installed : Holds initial_options c.handle
  pub owned : OwnsResolveItems c

pub initial_options-Holds : (h : Easy) → Holds initial_options (setopts initial_options h)
unfolding in_force
initial_options-Holds h =
    (refl, (refl, (refl, (refl, (refl, (refl, (refl, (refl, (refl, (refl, (refl, tt)))))))))))

pub running_ignored : (c : Connection) → c.is_running ≡ true → reset_options c ≡ c
unfolding reset_options
running_ignored c running = ground arith

reset_options_idle :
    (c : Connection)
    → c.is_running ≡ false
    → reset_options c
      ≡ reset_option_resources (record c { handle = setopts initial_options (reset ∷ c.handle) })
unfolding reset_options set_initial_options
reset_options_idle c idle = ground arith

pub reset_options-IsWired : (c : Connection) → IsWired c → IsWired (reset_options c)
unfolding in_force reset_option_resources
reset_options-IsWired c w = elim (Bool-cases c.is_running) [
  | inl running ↦ rw (running_ignored c running) w
  | inr idle ↦
      rw (reset_options_idle c idle)
        (record { installed = initial_options-Holds (reset ∷ c.handle); owned = inr (refl, refl) })
]

pub apply-IsWired : (s : Setting) (c : Connection) → IsWired c → IsWired (apply s c)
unfolding apply in_force
apply-IsWired (verbose b) c w = record { installed = w.installed; owned = w.owned }
apply-IsWired (connect_only b) c w = record { installed = w.installed; owned = w.owned }
apply-IsWired (verify_certificate b) c w = record { installed = w.installed; owned = w.owned }
apply-IsWired (dns_resolve_items items) c w = record { installed = w.installed; owned = inl refl }
apply-IsWired options_reset c w = reset_options-IsWired c w
apply-IsWired (debug_callback none) c w = record { installed = w.installed; owned = w.owned }
apply-IsWired (debug_callback (some f)) c w = record { installed = w.installed; owned = w.owned }
apply-IsWired _ c w = record { installed = w.installed; owned = w.owned }

apply_all-IsWired : (ss : List Setting) (c : Connection) → IsWired c → IsWired (apply_all ss c)
unfolding apply_all
apply_all-IsWired [] c w = w
apply_all-IsWired (s ∷ ss) c w = apply_all-IsWired ss (apply s c) (apply-IsWired s c w)

pub new-IsWired : IsWired new
unfolding new in_force
new-IsWired = record { installed = initial_options-Holds []; owned = inr (refl, refl) }

-- Whatever public calls are made on a new connection, in any order and number, resets included: the
-- callbacks of `SetInitialOptions`, their data pointers and the error buffer stay installed, and
-- the resolve list that libcurl was given is the one that the connection owns.
apply_all-new-IsWired : (ss : List Setting) → IsWired (apply_all ss new)
apply_all-new-IsWired ss = apply_all-IsWired ss new new-IsWired

pub append_resolve_items-map :
    (pairs : List (Bytes × Bytes)) (items : List Bytes)
    → append_resolve_items pairs items ≡ items ++ map (λ p. c_str (resolve_item p)) pairs
unfolding append_resolve_items
append_resolve_items-map [] items = sym (append-nil items)
append_resolve_items-map (p ∷ pairs) items =
    append_resolve_items-map pairs (items ++ c_str (resolve_item p) ∷ [])
    ∙ append_assoc items (c_str (resolve_item p) ∷ []) _

-- `SetDnsResolveItems` replaces what was set before: both the list that the connection owns and the
-- one in force are the items of the argument, one for each pair and in its order.
set_dns_resolve_items-map :
    (pairs : List (Bytes × Bytes)) (c : Connection)
    → let c' = set_dns_resolve_items pairs c in
      (c'.dns_resolve_items ≡ map (λ p. c_str (resolve_item p)) pairs)
      × (in_force CurlOption.resolve c'.handle
          ≡ some (slist (map (λ p. c_str (resolve_item p)) pairs)))
unfolding set_dns_resolve_items in_force
set_dns_resolve_items-map pairs c =
    let e = append_resolve_items-map pairs [] in (e, ap (λ l. some (slist l)) e)
