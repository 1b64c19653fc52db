-- ===== src/Http/Split.antt =====
-- `SplitString` for a delimiter of two different bytes, as both of its callers pass.
use curlion.Common.{
  ℕ, suc, ◌+◌, ◌-◌, ◌≤◌, ◌<◌, ◌≡◌, refl, sym, ap, ◌∙◌, ◌≢◌, ◌⊎◌, inl, inr, true, false, none, some,
  List, [], ◌∷◌, ◌++◌, append-nil, Bytes, length, length-append, take_left, drop_left, arith,
  lt→ltb, le→ltb, Bool-cases,
}
use curlion.Http.Text.{starts_with, find_from, find, substr, end_of, split_loop}

-- No part of a text is `d`.
abbrev pub Lacks : Bytes → Bytes → Type 0
Lacks d [] = Unit {0}
Lacks d (b ∷ s) = (starts_with d (b ∷ s) ≡ false) × Lacks d s

abbrev pub AllLack : Bytes → List Bytes → Type 0
AllLack d [] = Unit {0}
AllLack d (p ∷ ps) = Lacks d p × AllLack d ps

-- Each piece with the delimiter behind it.
abbrev pub terminated : Bytes → List Bytes → Bytes
terminated d [] = []
terminated d (p ∷ ps) = p ++ (d ++ terminated d ps)

abbrev pub two : ℕ → ℕ → Bytes
two x y = x ∷ y ∷ []

-- A text lacks the delimiter, or it is cut at the first place where that stands.
abbrev Cut : Bytes → Bytes → Type 0
Cut d s = Lacks d s ⊎ ((p : Bytes) × (rest : Bytes) × (s ≡ p ++ (d ++ rest)) × Lacks d p)

length_pos : (p : Bytes) → p ≢ [] → 0 < length p
length_pos [] h = absurd (h refl)
length_pos (b ∷ p) h = omega arith

module _ (x y : ℕ) (differ : x ≢ y) where
  find_from-Lacks : (s : Bytes) (i : ℕ) → Lacks (two x y) s → find_from (two x y) s i ≡ none
  unfolding find_from
  find_from-Lacks [] i h = refl
  find_from-Lacks (b ∷ s) i (h, hs) = rw h (find_from-Lacks s (i + 1) hs)

  starts_with-append :
      (b : ℕ) (p rest : Bytes)
      → starts_with (two x y) (b ∷ p) ≡ false
      → starts_with (two x y) (b ∷ p ++ (two x y ++ rest)) ≡ false
  unfolding starts_with
  starts_with-append b [] rest h = ground arith
  starts_with-append b (c ∷ p) rest h = h

  starts_with-false :
      (b : ℕ) (p rest : Bytes)
      → starts_with (two x y) (b ∷ p ++ (two x y ++ rest)) ≡ false
      → starts_with (two x y) (b ∷ p) ≡ false
  unfolding starts_with
  starts_with-false b [] rest h = ground arith
  starts_with-false b (c ∷ p) rest h = h

  find_from-append :
      (p rest : Bytes) (i : ℕ)
      → Lacks (two x y) p
      → find_from (two x y) (p ++ (two x y ++ rest)) i ≡ some (i + length p)
  unfolding find_from
  find_from-append [] rest i h = unfold starts_with in ground arith
  find_from-append (b ∷ p) rest i (h, hs) =
      rw (starts_with-append b p rest h)
        (find_from-append p rest (i + 1) hs ∙ ap some (omega arith))

  starts_with-true :
      (b : ℕ) (s : Bytes)
      → starts_with (two x y) (b ∷ s) ≡ true
      → (rest : Bytes) × (b ∷ s ≡ two x y ++ rest)
  unfolding starts_with
  starts_with-true b [] h = ground arith
  starts_with-true b (c ∷ s) h = (s, ground arith)

  pub cut_lem : (s : Bytes) → Cut (two x y) s
  cut_lem [] = inl tt
  cut_lem (b ∷ s) = elim (Bool-cases (starts_with (two x y) (b ∷ s))) [
    | inl at_once ↦ let (rest, e) = starts_with-true b s at_once in inr ([], rest, e, tt)
    | inr later ↦ elim (cut_lem s) [
      | inl lacks ↦ inl (later, lacks)
      | inr (p, rest, e, lacks) ↦
          inr (b ∷ p, rest, ap (◌∷◌ b) e, (starts_with-false b p rest (rw (← e) later), lacks))
    ]
  ]

  find_at :
      (pre u : Bytes) → find (pre ++ u) (two x y) (length pre) ≡ find_from (two x y) u (length pre)
  unfolding find
  find_at pre u = rw (
    le→ltb (length (pre ++ u)) (length pre) (omega (arith, length-append pre u)),
    drop_left pre u,
  )

  substr_at :
      (pre p rest : Bytes)
      → substr (pre ++ (p ++ rest)) (length pre) (length pre + length p - length pre) ≡ p
  unfolding substr
  substr_at pre p rest =
      let e : length pre + length p - length pre ≡ length p = omega arith in
      rw (e, drop_left pre (p ++ rest)) (take_left p rest)

  -- A round that finds the delimiter, in a text read as far as `pre`.
  pub round_cut :
      (fuel : ℕ) (s pre p rest : Bytes) (done : List Bytes)
      → s ≡ pre ++ (p ++ (two x y ++ rest))
      → Lacks (two x y) p
      → split_loop (suc fuel) s (two x y) (length pre) done
        ≡ split_loop fuel s (two x y) (length (pre ++ (p ++ two x y))) (done ++ p ∷ [])
  unfolding split_loop end_of
  round_cut fuel s pre p rest done e lacks =
      let found : find s (two x y) (length pre) ≡ some (length pre + length p) =
        rw (e, find_at pre (p ++ (two x y ++ rest))) (find_from-append p rest (length pre) lacks) in
      let piece : substr s (length pre) (length pre + length p - length pre) ≡ p =
        rw e (substr_at pre p (two x y ++ rest)) in
      let size : length s ≡ length pre + (length p + (2 + length rest)) = omega (
        arith,
        ap length e,
        length-append pre (p ++ (two x y ++ rest)),
        length-append p (two x y ++ rest),
      ) in
      let next : length pre + length p + 2 ≡ length (pre ++ (p ++ two x y)) =
        omega (arith, length-append pre (p ++ two x y), length-append p (two x y)) in
      rw (found, split_loop) (rw (piece, next, lt→ltb (length pre) (length s) (omega arith)))

  -- The round behind the last piece.
  pub round_end :
      (fuel : ℕ) (s : Bytes) (at : ℕ) (done : List Bytes)
      → length s ≤ at
      → split_loop (suc fuel) s (two x y) at done ≡ some done
  unfolding split_loop
  round_end fuel s at done h = rw (le→ltb at (length s) h)

  -- A round that finds no delimiter, and the last one behind it.
  pub round_last :
      (fuel : ℕ) (s pre p : Bytes) (done : List Bytes)
      → s ≡ pre ++ p
      → Lacks (two x y) p
      → p ≢ []
      → split_loop (suc (suc fuel)) s (two x y) (length pre) done ≡ some (done ++ p ∷ [])
  unfolding split_loop end_of
  round_last fuel s pre p done e lacks filled =
      let found : find s (two x y) (length pre) ≡ none =
        rw (e, find_at pre p) (find_from-Lacks p (length pre) lacks) in
      let size : length s ≡ length pre + length p =
        omega (arith, ap length e, length-append pre p) in
      let piece : substr s (length pre) (length s - length pre) ≡ p = rw size (
        rw e (
          ap (λ q. substr (pre ++ q) (length pre) (length pre + length p - length pre))
            (sym (append-nil p))
          ∙ substr_at pre p [])) in
      let some_byte : 0 < length p = length_pos p filled in
      rw (found, split_loop)
        (rw (piece, lt→ltb (length pre) (length s) (omega arith))
          (round_end fuel s (length s + 2) (done ++ p ∷ []) (omega arith)))
