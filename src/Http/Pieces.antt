-- ===== src/Http/Pieces.antt =====
-- What `SplitString` returns: the pieces between the delimiters, and no empty last piece.
use curlion.Common.{
  ℕ, zero, suc, ◌<◌, ◌≡◌, refl, sym, ap, ◌∙◌, ◌≢◌, ◌⊎◌, inl, inr, some, List, [], ◌∷◌, ◌++◌,
  append_assoc, append-nil, Bytes, length, length-append, arith,
}
use curlion.Http.Text.{split_loop, split_string}
use curlion.Http.Split.{Lacks, AllLack, terminated, two, cut_lem, round_cut, round_end, round_last}

-- `ps` spell the text `u`, each with the delimiter behind it but perhaps the last.
abbrev pub Spells : Bytes → List Bytes → Bytes → Type 0
Spells d ps u = (terminated d ps ≡ u) ⊎ (terminated d ps ≡ u ++ d)

-- A last piece is kept unless it is empty.
abbrev pub kept : Bytes → List Bytes
kept [] = []
kept (b ∷ p) = (b ∷ p) ∷ []

module _ (x y : ℕ) where
  regroup :
      (pre u p rest : Bytes)
      → u ≡ p ++ (two x y ++ rest)
      → pre ++ u ≡ (pre ++ (p ++ two x y)) ++ rest
  regroup pre u p rest e =
      ap (◌++◌ pre) (e ∙ sym (append_assoc p (two x y) rest))
      ∙ sym (append_assoc pre (p ++ two x y) rest)

  Spells-cons :
      (p : Bytes) (ps : List Bytes) (rest u : Bytes)
      → u ≡ p ++ (two x y ++ rest)
      → Spells (two x y) ps rest
      → Spells (two x y) (p ∷ ps) u
  Spells-cons p ps rest u e (inl h) = inl (rw (e, h))
  Spells-cons p ps rest u e (inr h) =
      inr (rw (e, h) (sym (append_assoc p (two x y ++ rest) (two x y))))

module _ (x y : ℕ) (differ : x ≢ y) where
  split_total :
      (fuel : ℕ) (s pre u : Bytes) (done : List Bytes)
      → s ≡ pre ++ u
      → length u < fuel
      → (ps : List Bytes) × (split_loop fuel s (two x y) (length pre) done ≡ some (done ++ ps))
        × AllLack (two x y) ps
        × Spells (two x y) ps u
  split_total zero s pre u done e h = elim h [ ]
  split_total (suc fuel) s pre [] done e h = (
    [],
    rw append-nil (
        round_end x y differ fuel s (length pre) done
          (omega (arith, ap length e, length-append pre []))),
    tt,
    inl refl,
  )
  split_total (suc zero) s pre (b ∷ u) done e h = absurd (omega arith)
  split_total (suc (suc fuel)) s pre (b ∷ u) done e h = elim (cut_lem x y differ (b ∷ u)) [
    | inl lacks ↦ (
      (b ∷ u) ∷ [],
      round_last x y differ fuel s pre (b ∷ u) done e lacks (cc),
      (lacks, tt),
      inr (refl),
    )
    | inr (p, rest, cut, lacks) ↦
        let (ps, run, all, spells) =
          split_total (suc fuel) s (pre ++ (p ++ two x y)) rest (done ++ p ∷ [])
            (e ∙ regroup x y pre (b ∷ u) p rest cut)
            (omega (
              arith,
              ap length cut,
              length-append p (two x y ++ rest),
              length-append (two x y) rest,
            )) in
        (
          p ∷ ps,
          rw (round_cut x y differ (suc fuel) s pre p rest done (e ∙ ap (◌++◌ pre) cut) lacks)
              (run ∙ ap some (append_assoc done (p ∷ []) ps)),
          (lacks, all),
          Spells-cons x y p ps rest (b ∷ u) cut spells,
        )
  ]

-- With a delimiter of two different bytes, `SplitString` ends on every text. Its pieces hold no
-- delimiter, and with one behind each of them they spell the text, or the text with a delimiter
-- behind it.
pub split_string_total :
    (x y : ℕ) (s : Bytes)
    → x ≢ y
    → (ps : List Bytes) × (split_string s (two x y) ≡ some ps)
      × AllLack (two x y) ps
      × Spells (two x y) ps s
unfolding split_string
split_string_total x y s differ =
    split_total x y differ (suc (length s)) s [] s [] refl (omega arith)

kept-run :
    (x y : ℕ) (differ : x ≢ y) (fuel : ℕ) (s pre p : Bytes) (done : List Bytes)
    → s ≡ pre ++ p
    → Lacks (two x y) p
    → length p < suc fuel
    → split_loop (suc fuel) s (two x y) (length pre) done ≡ some (done ++ kept p)
kept-run x y differ fuel s pre [] done e lacks h = rw append-nil (
    round_end x y differ fuel s (length pre) done
      (omega (arith, ap length e, length-append pre [])))
kept-run x y differ zero s pre (b ∷ p) done e lacks h = absurd (omega arith)
kept-run x y differ (suc fuel) s pre (b ∷ p) done e lacks h =
    round_last x y differ fuel s pre (b ∷ p) done e lacks (cc)

split-run :
    (x y : ℕ) (differ : x ≢ y) (fuel : ℕ) (s pre : Bytes) (ps : List Bytes) (last : Bytes)
    (done : List Bytes)
    → s ≡ pre ++ (terminated (two x y) ps ++ last)
    → AllLack (two x y) ps
    → Lacks (two x y) last
    → length (terminated (two x y) ps ++ last) < fuel
    → split_loop fuel s (two x y) (length pre) done ≡ some (done ++ (ps ++ kept last))
split-run x y differ zero s pre ps last done e all lacks h = elim h [ ]
split-run x y differ (suc fuel) s pre [] last done e all lacks h =
    kept-run x y differ fuel s pre last done e lacks h
split-run x y differ (suc fuel) s pre (p ∷ ps) last done e (lacks_p, all) lacks h =
    let rest = terminated (two x y) ps ++ last in
    let cut : terminated (two x y) (p ∷ ps) ++ last ≡ p ++ (two x y ++ rest) =
      append_assoc p (two x y ++ terminated (two x y) ps) last in
    rw (round_cut x y differ fuel s pre p rest done (e ∙ ap (◌++◌ pre) cut) lacks_p) (
      split-run x y differ fuel s (pre ++ (p ++ two x y)) ps last (done ++ p ∷ [])
        (e ∙ regroup x y pre _ p rest cut) all lacks
        (omega
          (arith, ap length cut, length-append p (two x y ++ rest), length-append (two x y) rest))
      ∙ ap some (append_assoc done (p ∷ []) (ps ++ kept last)))

-- With a delimiter of two different bytes: pieces that hold no delimiter, each with one behind it,
-- and a last one without, are read back; an empty last piece is dropped.
pub split_string-terminated :
    (x y : ℕ) (ps : List Bytes) (last : Bytes)
    → x ≢ y
    → AllLack (two x y) ps
    → Lacks (two x y) last
    → split_string (terminated (two x y) ps ++ last) (two x y) ≡ some (ps ++ kept last)
unfolding split_string
split_string-terminated x y ps last differ all lacks =
    split-run x y differ (suc (length (terminated (two x y) ps ++ last))) _ [] ps last [] refl all
      lacks (omega arith)

split-prefix :
    (x y : ℕ) (differ : x ≢ y) (fuel : ℕ) (s pre : Bytes) (ps : List Bytes) (u : Bytes)
    (done : List Bytes)
    → s ≡ pre ++ (terminated (two x y) ps ++ u)
    → AllLack (two x y) ps
    → length (terminated (two x y) ps ++ u) < fuel
    → (qs : List Bytes) × (split_loop fuel s (two x y) (length pre) done
        ≡ some (done ++ (ps ++ qs)))
split-prefix x y differ zero s pre ps u done e all h = elim h [ ]
split-prefix x y differ (suc fuel) s pre [] u done e all h =
    let (qs, run, lack, spells) = split_total x y differ (suc fuel) s pre u done e h in (qs, run)
split-prefix x y differ (suc fuel) s pre (p ∷ ps) u done e (lacks_p, all) h =
    let rest = terminated (two x y) ps ++ u in
    let cut : terminated (two x y) (p ∷ ps) ++ u ≡ p ++ (two x y ++ rest) =
      append_assoc p (two x y ++ terminated (two x y) ps) u in
    let (qs, run) =
      split-prefix x y differ fuel s (pre ++ (p ++ two x y)) ps u (done ++ p ∷ [])
        (e ∙ regroup x y pre _ p rest cut) all
        (omega (
          arith,
          ap length cut,
          length-append p (two x y ++ rest),
          length-append (two x y) rest,
        )) in
    (
      qs,
      rw (round_cut x y differ fuel s pre p rest done (e ∙ ap (◌++◌ pre) cut) lacks_p)
          (run ∙ ap some (append_assoc done (p ∷ []) (ps ++ qs))),
    )

-- The pieces in front of any text come first.
pub split_string-prefix :
    (x y : ℕ) (ps : List Bytes) (u : Bytes)
    → x ≢ y
    → AllLack (two x y) ps
    → (qs : List Bytes) × (split_string (terminated (two x y) ps ++ u) (two x y) ≡ some (ps ++ qs))
unfolding split_string
split_string-prefix x y ps u differ all =
    split-prefix x y differ (suc (length (terminated (two x y) ps ++ u))) _ [] ps u [] refl all
      (omega arith)
