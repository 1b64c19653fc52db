-- ===== src/Slists/Tests.antt =====
-- The theorems at an allocator that takes the address above all others.
use curlion.Common.{
  ℕ, suc, ◌+◌, ◌<◌, ◌≡◌, true, false, none, some, List, [], ◌∷◌, codes, length, ltb, if◌then◌else◌,
  arith,
}
use curlion.Curl.{CurlOption, in_force}
use curlion.Connection.Calls.{dns_resolve_items}
use curlion.Http.State.{new_http}
use curlion.Http.Requests.{plain, request_headers, request_header, http_options_reset}
use curlion.Slists.State.{
  SlistCall, append, free_all, live, Append, SlistLaws, Call, sets, begins, finishes, new_pointers,
  apply_calls, destroy, call_http_all,
}
use curlion.Slists.Ownership.{IsSafe}
use curlion.Slists.Safety.{given_live, apply_calls-new-IsSafe}
use curlion.Slists.Contents.{NeverFails, contents}
use curlion.Slists.Refinement.{value_at, apply_calls-call_http_all}

abbrev top : List SlistCall → ℕ
top [] = 1
top (append p item none ∷ older) = top older
top (append p item (some q) ∷ older) = suc q + top older
top (free_all p ∷ older) = top older

live-top : (p : ℕ) (log : List SlistCall) → live p log ≡ true → p < top log
live-top p [] h = cc
live-top p (append none item none ∷ older) h = live-top p older h
live-top p (append none item (some q) ∷ older) h = ground (arith, live-top p older)
live-top p (append (some r) item none ∷ older) h = live-top p older h
live-top p (append (some r) item (some q) ∷ older) h = ground (arith, live-top p older)
live-top p (free_all q ∷ older) h = ground (arith, live-top p older)

top_fresh : (p : ℕ) (log : List SlistCall) → top log ≡ p → live p log ≡ false
top_fresh p log h = ground (arith, live-top p log)

abbrev allocate : Append
allocate log none item = some (top log)
allocate log (some r) item = some r

allocate-NeverFails : NeverFails allocate
allocate-NeverFails log none item = λ h. cc
allocate-NeverFails log (some r) item = λ h. cc

allocate-SlistLaws : SlistLaws allocate
allocate-SlistLaws = record {
  fresh = λ log item p h. top_fresh p log (ground (arith, h));
  same = λ log r item q h. ground (arith, h);
}

-- No more than three calls succeed.
abbrev tight : Append
tight log p item = if ltb 2 (length log) then none else allocate log p item

tight-SlistLaws : SlistLaws tight
tight-SlistLaws = record {
  fresh = λ log item p h. top_fresh p log (ground (arith, h));
  same = λ log r item q h. ground (arith, h);
}

abbrev calls : List Call
calls =
    sets (request_header (codes "A") (codes "b"))
    ∷ sets (plain (dns_resolve_items ((codes "host:80", codes "::1") ∷ (codes "host:81", []) ∷ [])))
    ∷ sets (request_header (codes "C") (codes "d"))
    ∷ begins
    ∷ sets http_options_reset
    ∷ finishes 0
    ∷ sets (request_headers ((codes "E", codes "f") ∷ []))
    ∷ []

apply_calls-new-IsSafe_example :
    let s = apply_calls tight calls new_pointers in
    IsSafe (destroy tight s)
    × (given_live s.dns_resolve_items.given s.log ≡ true)
    × (given_live s.request_headers.given s.log ≡ true)
apply_calls-new-IsSafe_example = apply_calls-new-IsSafe tight tight-SlistLaws calls

apply_calls-call_http_all_example :
    let s = apply_calls allocate calls new_pointers in
    let h = call_http_all calls new_http in
    (contents s.dns_resolve_items.pointer s.log ≡ h.dns_resolve_items)
    × (contents s.request_headers.pointer s.log ≡ h.request_headers)
    × (in_force CurlOption.resolve h.handle ≡ value_at s.dns_resolve_items.given s.log)
    × (in_force CurlOption.httpheader h.handle ≡ value_at s.request_headers.given s.log)
    × ((p : ℕ) → live p (destroy allocate s) ≡ false)
apply_calls-call_http_all_example =
    apply_calls-call_http_all allocate allocate-SlistLaws allocate-NeverFails calls
