-- ===== src/Asio/Entries.antt =====
-- How many sockets a watcher stands for.
use curlion.Common.{
  ℕ, ◌+◌, ◌<◌, ◌≡◌, ◌≢◌, refl, some, [], ◌∷◌, ◌==◌, if◌then◌else◌, arith, Bool-cases, inl, inr,
  eqb_refl,
}
use curlion.Manager.Table.{Table, find, Distinct}
use curlion.Asio.Live.{IsLive}
use curlion.Asio.State.{Watcher}

-- How many sockets have the watcher `w`.
abbrev pub entries : ℕ → Table → ℕ
entries w [] = 0
entries w ((s, v) ∷ t) = (if v == w then 1 else 0) + entries w t

entries_zero : (w : ℕ) (t : Table) → Distinct t → ((s : ℕ) → find s t ≢ some w) → entries w t ≡ 0
unfolding find
entries_zero w [] d h = refl
entries_zero w ((k, v) ∷ t) d h =
    ground (arith, h k, eqb_refl k, entries_zero w t d.1 (λ s e. ground (arith, h s)))

entries_one :
    (s w : ℕ) (t : Table)
    → Distinct t
    → find s t ≡ some w
    → ((r : ℕ) → find r t ≡ some w → r ≡ s)
    → entries w t ≡ 1
unfolding find
entries_one s w [] d h only = cc
entries_one s w ((k, v) ∷ t) d h only = elim (Bool-cases (k == s)) [
  | inl here ↦ ground (arith, entries_zero w t d.1 (λ r e. ground (arith, only r)))
  | inr there ↦ ground (
    arith,
    only k,
    eqb_refl k,
    entries_one s w t d.1 (rw there at h) (λ r e. ground (arith, only r)),
  )
]

pub IsLive-entries :
    (w : ℕ) (t : Table) (o : ℕ → Watcher) (n : ℕ)
    → IsLive t o n
    → w < n
    → entries w t ≡ (if (o w).is_stopped then 0 else 1)
IsLive-entries w t o n i born = elim (Bool-cases (o w).is_stopped) [
  | inl stopped ↦ rw stopped (entries_zero w t i.distinct (λ s h. ground (arith, i.known s w)))
  | inr runs ↦
      let (s, h) = i.owned w born runs in
      rw runs (entries_one s w t i.distinct h (λ r k. i.unique r s w k h))
]
