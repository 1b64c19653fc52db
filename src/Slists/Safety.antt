-- ===== src/Slists/Safety.antt =====
-- No list is used or freed behind its end, and the ones that libcurl was given have not been freed.
use curlion.Common.{
  ℕ, ◌≡◌, refl, Bool, true, false, Option, none, some, List, [], ◌∷◌, Bytes, if◌then◌else◌, arith,
  inl, inr, ◌⊎◌, eqb_refl,
}
use curlion.Connection.Calls.{dns_resolve_items, options_reset}
use curlion.Http.Requests.{HttpSetting, plain, request_headers, request_header, http_options_reset}
use curlion.Slists.State.{
  SlistCall, live, Append, SlistLaws, Member, Pointers, new_pointers, Call, sets, begins, finishes,
  set_dns_resolve_items, set_request_headers, add_request_header, reset_options, destroy,
  destroy_connection, destroy_connection, apply_setting, apply_call, apply_calls, resolve_lines,
  header_lines,
}
use curlion.Slists.Ownership.{
  IsSafe, points_to, IsOwned, swap-IsOwned, release-IsOwned, reset-IsOwned, append_all-IsOwned,
}

-- What libcurl was given for an option is what the member points to, or nothing since the reset.
abbrev pub IsGiven : Member → Type 0
IsGiven m = (m.given ≡ none) ⊎ (m.given ≡ some m.pointer)

-- The pointer that libcurl has for an option is null or of a list that is there.
abbrev pub given_live : Option (Option ℕ) → List SlistCall → Bool
given_live none log = true
given_live (some none) log = true
given_live (some (some p)) log = live p log

pub record IsHeld (s : Pointers) : Type 0 where
  pub owned : IsOwned s.dns_resolve_items.pointer s.request_headers.pointer s.log
  pub resolve : IsGiven s.dns_resolve_items
  pub httpheader : IsGiven s.request_headers

module _ (result : Append) (laws : SlistLaws result) where
  set_dns_resolve_items-IsHeld :
      (pairs : List (Bytes × Bytes)) (s : Pointers)
      → IsHeld s
      → IsHeld (set_dns_resolve_items result pairs s)
  unfolding set_dns_resolve_items
  set_dns_resolve_items-IsHeld pairs s i = record {
    owned =
        append_all-IsOwned result laws (resolve_lines pairs) none _ _
          (release-IsOwned _ _ s.log i.owned);
    resolve = inr refl;
    httpheader = i.httpheader;
  }

  set_request_headers-IsHeld :
      (headers : List (Bytes × Bytes)) (s : Pointers)
      → IsHeld s
      → IsHeld (set_request_headers result headers s)
  unfolding set_request_headers
  set_request_headers-IsHeld headers s i = record {
    owned = swap-IsOwned _ _ _ (
        append_all-IsOwned result laws (header_lines headers) none _ _
          (release-IsOwned _ _ s.log (swap-IsOwned _ _ s.log i.owned)));
    resolve = i.resolve;
    httpheader = inr refl;
  }

  add_request_header-IsHeld :
      (field value : Bytes) (s : Pointers)
      → IsHeld s
      → IsHeld (add_request_header result field value s)
  unfolding add_request_header
  add_request_header-IsHeld field value s i = record {
    owned = swap-IsOwned _ _ _ (
        append_all-IsOwned result laws (header_lines ((field, value) ∷ [])) _ _ _
          (swap-IsOwned _ _ s.log i.owned));
    resolve = i.resolve;
    httpheader = inr refl;
  }

  if-IsHeld : (b : Bool) (s u : Pointers) → IsHeld s → IsHeld u → IsHeld (if b then s else u)
  if-IsHeld true s u i j = i
  if-IsHeld false s u i j = j

  reset_options-IsHeld : (s : Pointers) → IsHeld s → IsHeld (reset_options result s)
  unfolding reset_options
  reset_options-IsHeld s i = if-IsHeld s.is_running s _ i (record {
    owned = reset-IsOwned _ _ s.log i.owned;
    resolve = inl refl;
    httpheader = inl refl;
  })

  apply_setting-IsHeld :
      (c : HttpSetting) (s : Pointers) → IsHeld s → IsHeld (apply_setting result c s)
  unfolding apply_setting
  apply_setting-IsHeld (plain (dns_resolve_items pairs)) s i =
      set_dns_resolve_items-IsHeld pairs s i
  apply_setting-IsHeld (plain options_reset) s i = reset_options-IsHeld s i
  apply_setting-IsHeld (request_headers headers) s i = set_request_headers-IsHeld headers s i
  apply_setting-IsHeld (request_header field value) s i = add_request_header-IsHeld field value s i
  apply_setting-IsHeld http_options_reset s i = reset_options-IsHeld s i
  apply_setting-IsHeld _ s i = i

  apply_call-IsHeld : (c : Call) (s : Pointers) → IsHeld s → IsHeld (apply_call result c s)
  unfolding apply_call
  apply_call-IsHeld (sets setting) s i = apply_setting-IsHeld setting s i
  apply_call-IsHeld begins s i = record {
    owned = i.owned;
    resolve = i.resolve;
    httpheader = i.httpheader;
  }
  apply_call-IsHeld (finishes n) s i = record {
    owned = i.owned;
    resolve = i.resolve;
    httpheader = i.httpheader;
  }

  pub apply_calls-IsHeld :
      (cs : List Call) (s : Pointers) → IsHeld s → IsHeld (apply_calls result cs s)
  unfolding apply_calls
  apply_calls-IsHeld [] s i = i
  apply_calls-IsHeld (c ∷ cs) s i =
      apply_calls-IsHeld cs (apply_call result c s) (apply_call-IsHeld c s i)

  pub new_pointers-IsHeld : IsHeld new_pointers
  unfolding new_pointers
  new_pointers-IsHeld = record {
    owned = record {
      safe = tt;
      first = λ p h. ground arith;
      second = λ p h. ground arith;
      apart = λ p h. ground arith;
    };
    resolve = inl refl;
    httpheader = inl refl;
  }

  pointed :
      (x : Option ℕ) (log : List SlistCall)
      → ((p : ℕ) → points_to x p ≡ true → live p log ≡ true)
      → given_live (some x) log ≡ true
  pointed none log h = refl
  pointed (some p) log h = h p (eqb_refl p)

  IsGiven-live :
      (m : Member) (log : List SlistCall)
      → IsGiven m
      → ((p : ℕ) → points_to m.pointer p ≡ true → live p log ≡ true)
      → given_live m.given log ≡ true
  IsGiven-live m log (inl e) h = rw e
  IsGiven-live m log (inr e) h = rw e (pointed m.pointer log h)

  -- A new HTTP connection, and a libcurl that appends as it documents, which may fail at any call:
  -- whatever public calls follow, and whatever transfers start and finish, in any order, each call of
  -- `curl_slist_append` and `curl_slist_free_all`, those of the destructors included, is made with a
  -- list that is there, so none is freed twice; and before the destructors the lists that libcurl was
  -- given for its options have not been freed.
  pub apply_calls-new-IsSafe :
      (cs : List Call)
      → let s = apply_calls result cs new_pointers in
        IsSafe (destroy result s)
        × (given_live s.dns_resolve_items.given s.log ≡ true)
        × (given_live s.request_headers.given s.log ≡ true)
  unfolding destroy destroy_connection
  apply_calls-new-IsSafe cs =
      let s = apply_calls result cs new_pointers in
      let i = apply_calls-IsHeld cs new_pointers new_pointers-IsHeld in
      (
        (reset-IsOwned _ _ s.log (swap-IsOwned _ _ s.log i.owned)).safe,
        IsGiven-live s.dns_resolve_items s.log i.resolve i.owned.first,
        IsGiven-live s.request_headers s.log i.httpheader i.owned.second,
      )
