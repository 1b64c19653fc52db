-- ===== src/Http/Multimap.antt =====
-- `std::multimap<std::string, std::string>`: pairs ordered by key, equal keys in order of insertion.
use curlion.Common.{
  ◌≡◌, refl, Bool, true, false, ◌&&◌, ◌||◌, List, [], ◌∷◌, ◌++◌, append-nil, Bytes, ltb, ◌==◌,
  if◌then◌else◌, arith,
}

abbrev pub Multimap : Type 0
Multimap = List (Bytes × Bytes)

-- `std::less<std::string>`.
unfoldable pub lt_bytes : Bytes → Bytes → Bool
lt_bytes s [] = false
lt_bytes [] (b ∷ t) = true
lt_bytes (a ∷ s) (b ∷ t) = ltb a b || (a == b && lt_bytes s t)

-- `insert` puts a pair behind those with the same key.
unfoldable pub insert : Bytes → Bytes → Multimap → Multimap
insert k v [] = (k, v) ∷ []
insert k v ((j, w) ∷ m) = if lt_bytes k j then (k, v) ∷ (j, w) ∷ m else (j, w) ∷ insert k v m

-- The values of a key, in their order. Keys are equal where neither is less.
unfoldable pub same_key : Bytes → Bytes → Bool
same_key [] [] = true
same_key (a ∷ s) (b ∷ t) = a == b && same_key s t
same_key _ _ = false

unfoldable pub values : Bytes → Multimap → List Bytes
values k [] = []
values k ((j, w) ∷ m) = if same_key k j then w ∷ values k m else values k m

-- No key of the list is less than `k`; along the list keys do not fall.
abbrev AtLeast : Bytes → Multimap → Type 0
AtLeast k [] = Unit {0}
AtLeast k ((j, w) ∷ m) = lt_bytes j k ≡ false

abbrev pub IsSorted : Multimap → Type 0
IsSorted [] = Unit {0}
IsSorted ((k, v) ∷ m) = AtLeast k m × IsSorted m

lt_bytes-asymm : (s t : Bytes) → lt_bytes s t ≡ true → lt_bytes t s ≡ false
unfolding lt_bytes
lt_bytes-asymm [] [] h = refl
lt_bytes-asymm (a ∷ s) [] h = absurd (cc)
lt_bytes-asymm [] (b ∷ t) h = refl
lt_bytes-asymm (a ∷ s) (b ∷ t) h = ground (arith, lt_bytes-asymm s t)

insert-AtLeast :
    (k j v : Bytes) (m : Multimap) → lt_bytes k j ≡ false → AtLeast j m → AtLeast j (insert k v m)
unfolding insert
insert-AtLeast k j v [] h at = h
insert-AtLeast k j v ((i, w) ∷ m) h at = ground arith

pub insert-IsSorted : (k v : Bytes) (m : Multimap) → IsSorted m → IsSorted (insert k v m)
unfolding insert
insert-IsSorted k v [] s = (tt, tt)
insert-IsSorted k v ((j, w) ∷ m) s =
    ground (arith, lt_bytes-asymm k j, insert-AtLeast k j v m, insert-IsSorted k v m)

lt_bytes-same_key : (s t : Bytes) → same_key s t ≡ true → lt_bytes s t ≡ false
unfolding lt_bytes same_key
lt_bytes-same_key [] [] h = refl
lt_bytes-same_key (a ∷ s) [] h = refl
lt_bytes-same_key [] (b ∷ t) h = absurd (cc)
lt_bytes-same_key (a ∷ s) (b ∷ t) h = ground (arith, lt_bytes-same_key s t)

same_key-eq : (s t : Bytes) → same_key s t ≡ true → s ≡ t
unfolding same_key
same_key-eq [] [] h = refl
same_key-eq (a ∷ s) [] h = absurd (cc)
same_key-eq [] (b ∷ t) h = absurd (cc)
same_key-eq (a ∷ s) (b ∷ t) h = ground (arith, same_key-eq s t)

-- A key that is less than a lower bound has no values.
lt_bytes_trans : (s t u : Bytes) → lt_bytes s t ≡ true → lt_bytes u t ≡ false → lt_bytes s u ≡ true
unfolding lt_bytes
lt_bytes_trans s [] u h k = absurd (cc)
lt_bytes_trans [] (b ∷ t) [] h k = absurd (cc)
lt_bytes_trans [] (b ∷ t) (c ∷ u) h k = refl
lt_bytes_trans (a ∷ s) (b ∷ t) [] h k = absurd (cc)
lt_bytes_trans (a ∷ s) (b ∷ t) (c ∷ u) h k = ground (arith, lt_bytes_trans s t u)

values_below :
    (k j : Bytes) (m : Multimap) → lt_bytes k j ≡ true → AtLeast j m → IsSorted m → values k m ≡ []
unfolding values
values_below k j [] h at s = refl
values_below k j ((i, w) ∷ m) h at s =
    ground (arith, lt_bytes_trans k j i, lt_bytes-same_key k i, values_below k i m)

lt_bytes_irrefl : (s : Bytes) → lt_bytes s s ≡ false
unfolding lt_bytes
lt_bytes_irrefl [] = refl
lt_bytes_irrefl (a ∷ s) = ground (arith, lt_bytes_irrefl s)

values_front :
    (i k j w : Bytes) (m : Multimap)
    → IsSorted ((j, w) ∷ m)
    → same_key i k ≡ true
    → lt_bytes k j ≡ true
    → values i ((j, w) ∷ m) ≡ []
values_front i k j w m s same less =
    values_below i j ((j, w) ∷ m) (rw (same_key-eq i k same) less) (lt_bytes_irrefl j) s

-- In a sorted multimap a new value stands behind the others of its key.
pub values-insert :
    (i k v : Bytes) (m : Multimap)
    → IsSorted m
    → values i (insert k v m) ≡ values i m ++ (if same_key i k then v ∷ [] else [])
unfolding values insert
values-insert i k v [] s = ground arith
values-insert i k v ((j, w) ∷ m) s =
    ground (arith, values_front i k j w m s, values-insert i k v m, append-nil (values i m))
