-- ===== src/Slists/Ownership.antt =====
-- Members that own lists, and what a release and an append make of them.
use curlion.Common.{
  ℕ, ◌≡◌, refl, Bool, true, false, Option, none, some, List, [], ◌∷◌, Bytes, ◌==◌, arith, eqb_refl,
}
use curlion.Slists.State.{SlistCall, append, free_all, live, Append, SlistLaws, release, append_all}

-- Each call was made with a list that was there.
abbrev pub IsSafe : List SlistCall → Type 0
IsSafe [] = Unit {0}
IsSafe (append none item q ∷ older) = IsSafe older
IsSafe (append (some r) item q ∷ older) = (live r older ≡ true) × IsSafe older
IsSafe (free_all p ∷ older) = (live p older ≡ true) × IsSafe older

abbrev pub points_to : Option ℕ → ℕ → Bool
points_to none p = false
points_to (some q) p = q == p

-- Two members own their lists, and not the same one.
pub record IsOwned (x y : Option ℕ) (log : List SlistCall) : Type 0 where
  pub safe : IsSafe log
  pub first : (p : ℕ) → points_to x p ≡ true → live p log ≡ true
  pub second : (p : ℕ) → points_to y p ≡ true → live p log ≡ true
  pub apart : (p : ℕ) → points_to x p ≡ true → points_to y p ≡ false

pub swap-IsOwned : (x y : Option ℕ) (log : List SlistCall) → IsOwned x y log → IsOwned y x log
swap-IsOwned x y log o = record {
  safe = o.safe;
  first = o.second;
  second = o.first;
  apart = λ p h. ground (arith, h, o.apart p);
}

pub release-IsOwned :
    (x y : Option ℕ) (log : List SlistCall) → IsOwned x y log → IsOwned none y (release x log)
unfolding release
release-IsOwned none y log o = o
release-IsOwned (some q) y log o = record {
  safe = (o.first q (eqb_refl q), o.safe);
  first = λ p h. ground arith;
  second = λ p h. ground (arith, o.second p, o.apart p);
  apart = λ p h. ground arith;
}

pub reset-IsOwned :
    (x y : Option ℕ) (log : List SlistCall)
    → IsOwned x y log
    → IsOwned none none (release y (release x log))
reset-IsOwned x y log o =
    release-IsOwned y none (release x log)
      (swap-IsOwned none y (release x log) (release-IsOwned x y log o))

module _ (result : Append) (laws : SlistLaws result) where
  pub append-IsOwned :
      (x y : Option ℕ) (item : Bytes) (log : List SlistCall) (q : Option ℕ)
      → result log x item ≡ q
      → IsOwned x y log
      → IsOwned q y (append x item q ∷ log)
  append-IsOwned none y item log none e o = record {
    safe = o.safe;
    first = o.first;
    second = o.second;
    apart = o.apart;
  }
  append-IsOwned none y item log (some q) e o = record {
    safe = o.safe;
    first = λ p h. ground arith;
    second = λ p h. ground (arith, o.second p);
    apart = λ p h. ground (arith, o.second p, laws.fresh log item q e);
  }
  append-IsOwned (some r) y item log none e o = record {
    safe = (o.first r (eqb_refl r), o.safe);
    first = λ p h. ground arith;
    second = λ p h. o.second p h;
    apart = λ p h. ground arith;
  }
  append-IsOwned (some r) y item log (some q) e o = record {
    safe = (o.first r (eqb_refl r), o.safe);
    first = λ p h. o.first p (ground (arith, laws.same log r item q e));
    second = λ p h. o.second p h;
    apart = λ p h. o.apart p (ground (arith, laws.same log r item q e));
  }

  pub append_all-IsOwned :
      (items : List Bytes) (x y : Option ℕ) (log : List SlistCall)
      → IsOwned x y log
      → let (q, log') = append_all result items x log in IsOwned q y log'
  unfolding append_all
  append_all-IsOwned [] x y log o = o
  append_all-IsOwned (item ∷ items) x y log o =
      let q = result log x item in
      append_all-IsOwned items q y (append x item q ∷ log) (append-IsOwned x y item log q refl o)
