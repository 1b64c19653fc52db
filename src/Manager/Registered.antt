-- ===== src/Manager/Registered.antt =====
-- What it means that each entry of `running_connections_` is of a running connection.
use curlion.Common.{ℕ, ◌≡◌, ◌∙◌, Bool, true, false, none, some, ◌==◌, arith}
use curlion.Manager.Table.{
  Table, find, insert, erase, Distinct, find-insert, find-erase, insert-Distinct, erase-Distinct,
}
use curlion.Manager.State.{MultiLibrary, Object, World, base_of}

abbrev pub runs : (ℕ → Object) → ℕ → Bool
runs objects a = (base_of (objects a).state).is_running

pub record IsConsistent (t : Table) (objects : ℕ → Object) : Type 0 where
  pub distinct : Distinct t
  pub located : (e a : ℕ) → find e t ≡ some a → (objects a).easy ≡ e
  pub running : (e a : ℕ) → find e t ≡ some a → runs objects a ≡ true

abbrev pub Consistent : (lib : MultiLibrary) → World lib → Type 0
Consistent lib w = IsConsistent w.running_connections w.objects

pub erase-IsConsistent :
    (e : ℕ) (t : Table) (objects : ℕ → Object)
    → IsConsistent t objects
    → IsConsistent (erase e t) objects
erase-IsConsistent e t objects c = record {
  distinct = erase-Distinct e t c.distinct;
  located = λ i a h. c.located i a (ground (arith, h, find-erase i e t c.distinct));
  running = λ i a h. c.running i a (ground (arith, h, find-erase i e t c.distinct));
}

-- The connection of an erased entry may stop: no other entry is of that connection.
pub stop-IsConsistent :
    (e a : ℕ) (t : Table) (before after : ℕ → Object)
    → IsConsistent t before
    → find e t ≡ some a
    → ((b : ℕ) → (after b).easy ≡ (before b).easy)
    → ((b : ℕ) → (a == b) ≡ false → runs after b ≡ runs before b)
    → IsConsistent (erase e t) after
stop-IsConsistent e a t before after c found same others = record {
  distinct = erase-Distinct e t c.distinct;
  located = λ i b h. same b ∙ c.located i b (ground (arith, h, find-erase i e t c.distinct));
  running = λ i b h.
      others b (ground (arith, h, find-erase i e t c.distinct, c.located i b, c.located e a found))
      ∙ c.running i b (ground (arith, h, find-erase i e t c.distinct));
}

pub insert-IsConsistent :
    (e a : ℕ) (t : Table) (before after : ℕ → Object)
    → IsConsistent t before
    → find e t ≡ none
    → (before a).easy ≡ e
    → ((b : ℕ) → (after b).easy ≡ (before b).easy)
    → ((b : ℕ) → runs before b ≡ true → runs after b ≡ true)
    → runs after a ≡ true
    → IsConsistent (insert e a t) after
insert-IsConsistent e a t before after c fresh easy same others started = record {
  distinct = insert-Distinct e a t fresh c.distinct;
  located = λ i b h. ground (arith, h, find-insert i e a t fresh, c.located i b, same b, easy);
  running = λ i b h. ground (arith, h, find-insert i e a t fresh, c.running i b, others b, started);
}
