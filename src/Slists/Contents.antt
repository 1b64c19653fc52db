-- ===== src/Slists/Contents.antt =====
-- What the lists of two members hold, when no call of `curl_slist_append` fails.
use curlion.Common.{
  ℕ, ◌≡◌, ◌≢◌, refl, ap, ◌∙◌, subst, true, false, ◌||◌, Option, none, some, List, [], ◌∷◌, ◌++◌,
  append_assoc, append-nil, Bytes, ◌==◌, if◌then◌else◌, arith, Option-cases, inl, inr, eqb_refl,
}
use curlion.Slists.State.{SlistCall, append, free_all, live, Append, SlistLaws, release, append_all}
use curlion.Slists.Ownership.{points_to, IsOwned, swap-IsOwned, release-IsOwned, append-IsOwned}

-- The texts of the list at an address.
abbrev pub items : ℕ → List SlistCall → List Bytes
items p [] = []
items p (append none item none ∷ older) = items p older
items p (append none item (some q) ∷ older) = if q == p then item ∷ [] else items p older
items p (append (some r) item none ∷ older) = items p older
items p (append (some r) item (some q) ∷ older) =
    if r == p then items p older ++ item ∷ [] else items p older
items p (free_all q ∷ older) = if q == p then [] else items p older

abbrev pub contents : Option ℕ → List SlistCall → List Bytes
contents none log = []
contents (some p) log = items p log

-- Two members own the lists that there are, which hold `a` and `b`.
pub record IsHolding (x y : Option ℕ) (a b : List Bytes) (log : List SlistCall) : Type 0 where
  pub owned : IsOwned x y log
  pub only : (p : ℕ) → live p log ≡ true → (points_to x p || points_to y p) ≡ true
  pub first_items : contents x log ≡ a
  pub second_items : contents y log ≡ b

pub swap-IsHolding :
    (x y : Option ℕ) (a b : List Bytes) (log : List SlistCall)
    → IsHolding x y a b log
    → IsHolding y x b a log
swap-IsHolding x y a b log i = record {
  owned = swap-IsOwned x y log i.owned;
  only = λ p h. ground (arith, i.only p h);
  first_items = i.second_items;
  second_items = i.first_items;
}

free-contents :
    (q : ℕ) (y : Option ℕ) (log : List SlistCall)
    → points_to y q ≡ false
    → contents y (free_all q ∷ log) ≡ contents y log
free-contents q none log h = refl
free-contents q (some p) log h = ground arith

pub release-IsHolding :
    (x y : Option ℕ) (a b : List Bytes) (log : List SlistCall)
    → IsHolding x y a b log
    → IsHolding none y [] b (release x log)
unfolding release
release-IsHolding none y a b log i = record {
  owned = i.owned;
  only = i.only;
  first_items = refl;
  second_items = i.second_items;
}
release-IsHolding (some q) y a b log i = record {
  owned = release-IsOwned (some q) y log i.owned;
  only = λ p h. ground (arith, i.only p);
  first_items = refl;
  second_items = free-contents q y log (i.owned.apart q (eqb_refl q)) ∙ i.second_items;
}

abbrev pub NeverFails : Append → Type 0
NeverFails result = (log : List SlistCall) (x : Option ℕ) (item : Bytes) → result log x item ≢ none

module _ (result : Append) (laws : SlistLaws result) where
  append-contents :
      (x y : Option ℕ) (item : Bytes) (log : List SlistCall) (q : ℕ)
      → result log x item ≡ some q
      → IsOwned x y log
      → (items q (append x item (some q) ∷ log) ≡ contents x log ++ item ∷ [])
        × (contents y (append x item (some q) ∷ log) ≡ contents y log)
  append-contents none none item log q e o = (rw (eqb_refl q), refl)
  append-contents none (some p) item log q e o =
      (rw (eqb_refl q), ground (arith, o.second p, laws.fresh log item q e, eqb_refl p))
  append-contents (some r) none item log q e o =
      (ground (arith, laws.same log r item q e, eqb_refl q), refl)
  append-contents (some r) (some p) item log q e o =
      (ground (arith, laws.same log r item q e, eqb_refl q), ground (arith, o.apart r, eqb_refl r))

  append-only :
      (x y : Option ℕ) (item : Bytes) (log : List SlistCall) (q : ℕ)
      → result log x item ≡ some q
      → ((p : ℕ) → live p log ≡ true → (points_to x p || points_to y p) ≡ true)
      → (p : ℕ) → live p (append x item (some q) ∷ log) ≡ true
      → ((q == p) || points_to y p) ≡ true
  append-only none y item log q e only p h = ground (arith, only p)
  append-only (some r) y item log q e only p h = ground (arith, only p, laws.same log r item q e)

  module _ (never_fails : NeverFails result) where
    append-IsHolding :
        (x y : Option ℕ) (item : Bytes) (a b : List Bytes) (log : List SlistCall)
        → IsHolding x y a b log
        → IsHolding
            (result log x item)
            y
            (a ++ item ∷ [])
            b
            (append x item (result log x item) ∷ log)
    append-IsHolding x y item a b log i = elim (Option-cases (result log x item)) [
      | inl fails ↦ absurd (never_fails log x item fails)
      | inr (q, e) ↦
          let (grown, same) = append-contents x y item log q e i.owned in
          rw e (record {
            owned = append-IsOwned result laws x y item log (some q) e i.owned;
            only = append-only x y item log q e i.only;
            first_items = grown ∙ ap (λ l. l ++ item ∷ []) i.first_items;
            second_items = same ∙ i.second_items;
          })
    ]

    pub append_all-IsHolding :
        (added : List Bytes) (x y : Option ℕ) (a b : List Bytes) (log : List SlistCall)
        → IsHolding x y a b log
        → let (q, log') = append_all result added x log in IsHolding q y (a ++ added) b log'
    unfolding append_all
    append_all-IsHolding [] x y a b log i = rw (append-nil a) i
    append_all-IsHolding (item ∷ added) x y a b log i =
        let q = result log x item in
        subst
          (λ l.
            let (z, log') = append_all result added q (append x item q ∷ log) in
            IsHolding z y l b log')
          (append_assoc a (item ∷ []) added)
          (append_all-IsHolding added q y (a ++ item ∷ []) b (append x item q ∷ log)
            (append-IsHolding x y item a b log i))
