-- ===== src/Manager/Table.antt =====
-- `running_connections_`: a map from easy handles to connections.
use curlion.Common.{ℕ, ◌≡◌, refl, Option, none, some, List, [], ◌∷◌, ◌==◌, if◌then◌else◌, arith}

abbrev pub Table : Type 0
Table = List (ℕ × ℕ)

unfoldable pub find : ℕ → Table → Option ℕ
find k [] = none
find k ((j, a) ∷ t) = if j == k then some a else find k t

-- `insert` leaves an entry that is there.
unfoldable pub insert : ℕ → ℕ → Table → Table
insert k a [] = (k, a) ∷ []
insert k a ((j, b) ∷ t) = if j == k then (j, b) ∷ t else (j, b) ∷ insert k a t

unfoldable pub erase : ℕ → Table → Table
erase k [] = []
erase k ((j, b) ∷ t) = if j == k then t else (j, b) ∷ erase k t

-- Each key stands once: it is not found again behind its entry.
abbrev pub Distinct : Table → Type 0
Distinct [] = Unit {0}
Distinct ((k, a) ∷ t) = (find k t ≡ none) × Distinct t

pub find-insert :
    (i k a : ℕ) (t : Table)
    → find k t ≡ none
    → find i (insert k a t) ≡ (if k == i then some a else find i t)
unfolding find insert
find-insert i k a [] h = refl
find-insert i k a ((j, b) ∷ t) h = ground (arith, find-insert i k a t)

pub find-erase :
    (i k : ℕ) (t : Table) → Distinct t → find i (erase k t) ≡ (if k == i then none else find i t)
unfolding find erase
find-erase i k [] d = ground arith
find-erase i k ((j, b) ∷ t) d = ground (arith, find-erase i k t d.1)

pub insert-Distinct : (k a : ℕ) (t : Table) → find k t ≡ none → Distinct t → Distinct (insert k a t)
unfolding find insert
insert-Distinct k a [] h d = (refl, tt)
insert-Distinct k a ((j, b) ∷ t) h d = ground (arith, find-insert j k a t, insert-Distinct k a t)

pub erase-Distinct : (k : ℕ) (t : Table) → Distinct t → Distinct (erase k t)
unfolding find erase
erase-Distinct k [] d = tt
erase-Distinct k ((j, b) ∷ t) d = ground (arith, find-erase j k t d.1, erase-Distinct k t d.1)
