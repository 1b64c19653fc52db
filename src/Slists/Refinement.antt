-- ===== src/Slists/Refinement.antt =====
-- The lists by their addresses against the connections whose lists are values.
use curlion.Common.{
  ℕ, ◌≡◌, refl, sym, ap, ◌∙◌, false, Option, none, some, List, Bytes, arith, inl, inr, ◌⊎◌,
}
use curlion.Curl.{CurlOption, OptionValue, slist, in_force}
use curlion.Http.State.{new_http}
use curlion.Slists.State.{
  SlistCall, live, Append, SlistLaws, Member, new_pointers, Call, destroy, destroy_connection,
  destroy_connection, apply_calls, call_http_all,
}
use curlion.Slists.Safety.{apply_calls-IsHeld, new_pointers-IsHeld}
use curlion.Slists.Contents.{NeverFails, contents, swap-IsHolding}
use curlion.Slists.Shows.{value_given, reset-IsHolding, apply_calls-Shows, new-Shows}

-- An option's value by the pointer that libcurl has.
abbrev pub value_at : Option (Option ℕ) → List SlistCall → Option OptionValue
value_at none log = none
value_at (some p) log = some (slist (contents p log))

module _ (result : Append) (laws : SlistLaws result) (never_fails : NeverFails result) where
  value-IsGiven :
      (m : Member) (l : List Bytes) (log : List SlistCall)
      → (m.given ≡ none) ⊎ (m.given ≡ some m.pointer)
      → contents m.pointer log ≡ l
      → value_given l m.given ≡ value_at m.given log
  value-IsGiven m l log (inl e) h = rw e refl
  value-IsGiven m l log (inr e) h = rw e (ap (λ x. some (slist x)) (sym h))

  -- A new HTTP connection, and a libcurl whose `curl_slist_append` does as it documents and never
  -- fails. Whatever public calls follow, and whatever transfers start and finish: the two members point to lists
  -- with the texts that the connection whose lists are values has, the two options have the values
  -- that they have there, in the lists that libcurl was given, and the destructors leave no list behind.
  pub apply_calls-call_http_all :
      (cs : List Call)
      → let s = apply_calls result cs new_pointers in
        let h = call_http_all cs new_http in
        (contents s.dns_resolve_items.pointer s.log ≡ h.dns_resolve_items)
        × (contents s.request_headers.pointer s.log ≡ h.request_headers)
        × (in_force CurlOption.resolve h.handle ≡ value_at s.dns_resolve_items.given s.log)
        × (in_force CurlOption.httpheader h.handle ≡ value_at s.request_headers.given s.log)
        × ((p : ℕ) → live p (destroy result s) ≡ false)
  unfolding destroy destroy_connection
  apply_calls-call_http_all cs =
      let s = apply_calls result cs new_pointers in
      let h = call_http_all cs new_http in
      let held = apply_calls-IsHeld result laws cs new_pointers (new_pointers-IsHeld result laws) in
      let i =
        apply_calls-Shows result laws never_fails cs new_pointers new_http
          (new-Shows result laws never_fails) in
      let freed =
        reset-IsHolding result laws never_fails _ _ _ _ s.log
          (swap-IsHolding _ _ _ _ s.log i.holding) in
      (
        i.holding.first_items,
        i.holding.second_items,
        i.resolve
            ∙ value-IsGiven s.dns_resolve_items h.dns_resolve_items s.log held.resolve
                i.holding.first_items,
        i.httpheader
            ∙ value-IsGiven s.request_headers h.request_headers s.log held.httpheader
                i.holding.second_items,
        λ p. ground (arith, freed.only p),
      )
