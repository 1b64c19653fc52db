-- ===== src/Form/Lifetime.antt =====
-- Each form is freed once, when its last owner goes.
use curlion.Common.{
  ℕ, ◌≡◌, refl, sym, ap, ◌∙◌, subst, ◌<◌, inl, inr, true, false, ◌||◌, Option, none, some, List, [],
  ◌∷◌, ◌++◌, ◌==◌, arith, Bool-cases, eqb_iff, eqb_refl,
}
use curlion.Form.State.{FormLibrary}
use curlion.Http.State.{FormReference, HttpConnection}
use curlion.Form.Owners.{
  holds, remove_first, refers_to, any_refers, Owners, is_owned, let_go, let_go_of, make_form,
}

abbrev pub Once : List ℕ → Type 0
Once [] = Unit {0}
Once (f ∷ fs) = (holds f fs ≡ false) × Once fs

pub any_refers-middle :
    (f : ℕ) (before after : List HttpConnection) (c : HttpConnection)
    → any_refers f (before ++ c ∷ after)
      ≡ (refers_to f c.form || (any_refers f before || any_refers f after))
any_refers-middle f [] after c = ground arith
any_refers-middle f (b ∷ before) after c = ground (arith, any_refers-middle f before after c)

pub any_refers-append :
    (f : ℕ) (before after : List HttpConnection)
    → any_refers f (before ++ after) ≡ (any_refers f before || any_refers f after)
any_refers-append f [] after = ground arith
any_refers-append f (b ∷ before) after = ground (arith, any_refers-append f before after)

pub holds-remove_first :
    (f g : ℕ) (l : List ℕ) → (f == g) ≡ false → holds g (remove_first f l) ≡ holds g l
holds-remove_first f g [] other = refl
holds-remove_first f g (h ∷ l) other = ground (arith, holds-remove_first f g l other)

pub remove_first-less :
    (f g : ℕ) (l : List ℕ) → holds g (remove_first f l) ≡ true → holds g l ≡ true
remove_first-less f g [] h = h
remove_first-less f g (k ∷ l) h = ground (arith, remove_first-less f g l)

module _ (lib : FormLibrary) (head : lib.Post → Option ℕ) where
  -- The forms that were made are those that have an owner and those that are freed, and no form is
  -- both.
  pub record IsTidy (m : Owners lib head) : Type 0 where
    pub once : Once m.freed
    pub alive : (f : ℕ) → is_owned lib head f m ≡ true → holds f m.freed ≡ false
    pub known : (f : ℕ) → (is_owned lib head f m || holds f m.freed) ≡ true → f < m.next_form
    pub kept : (f : ℕ) → f < m.next_form → (is_owned lib head f m || holds f m.freed) ≡ true

  -- `m'` is `m` with other owners: only the form of `old` can have lost one, and none has a new one
  -- that had none.
  pub record IsLess (old : Option FormReference) (m m' : Owners lib head) : Type 0 where
    pub freed : m'.freed ≡ m.freed
    pub next_form : m'.next_form ≡ m.next_form
    pub less : (f : ℕ) → is_owned lib head f m' ≡ true → is_owned lib head f m ≡ true
    pub others :
        (f : ℕ)
        → refers_to f old ≡ false
        → is_owned lib head f m ≡ true
        → is_owned lib head f m' ≡ true
    pub had : (f : ℕ) → refers_to f old ≡ true → is_owned lib head f m ≡ true

  let_go-owned :
      (f : ℕ) (m : Owners lib head) → is_owned lib head f m ≡ true → let_go lib head f m ≡ m
  unfolding let_go
  let_go-owned f m owned = ground arith

  let_go-last :
      (f : ℕ) (m : Owners lib head)
      → is_owned lib head f m ≡ false
      → let_go lib head f m ≡ record m { freed = f ∷ m.freed }
  unfolding let_go
  let_go-last f m last = ground arith

  same-IsTidy :
      (old : Option FormReference) (m m' : Owners lib head)
      → IsTidy m
      → IsLess old m m'
      → ((f : ℕ) → refers_to f old ≡ true → is_owned lib head f m' ≡ true)
      → IsTidy m'
  same-IsTidy old m m' t l still = record {
    once = subst Once (sym l.freed) t.once;
    alive = λ f owned. ap (holds f) l.freed ∙ t.alive f (l.less f owned);
    known = λ f h. rw l.next_form (t.known f (ground (arith, l.freed, l.less f)));
    kept = λ f h.
        let before = t.kept f (subst (λ n. f < n) l.next_form h) in
        ground (arith, l.freed, l.others f, still f);
  }

  last-IsTidy :
      (f : ℕ) (handle : Option ℕ) (m m' : Owners lib head)
      → IsTidy m
      → IsLess (some (record { form = f; handle = handle })) m m'
      → is_owned lib head f m' ≡ false
      → IsTidy (record m' { freed = f ∷ m'.freed })
  last-IsTidy f handle m m' t l last = record {
    once =
        (ap (holds f) l.freed ∙ t.alive f (l.had f (eqb_refl f)), subst Once (sym l.freed) t.once);
    alive = λ g owned. elim (Bool-cases (f == g)) [
      | inl same ↦
          let owned_f =
            subst (λ k. is_owned lib head k m' ≡ true) (sym ((eqb_iff f g).0 same)) owned in
          absurd (cc (owned_f, last))
      | inr other ↦ rw (other, l.freed) (t.alive g (l.less g owned))
    ];
    known = λ g h. elim (Bool-cases (f == g)) [
      | inl same ↦
          rw (l.next_form, ← (eqb_iff f g).0 same)
            (t.known f (ground (arith, l.had f (eqb_refl f))))
      | inr other ↦ rw l.next_form (t.known g (ground (arith, l.freed, l.less g)))
    ];
    kept = λ g h. elim (Bool-cases (f == g)) [
      | inl same ↦ ground arith
      | inr other ↦
          let before = t.kept g (subst (λ n. g < n) l.next_form h) in
          ground (arith, l.freed, l.others g other)
    ];
  }

  -- Behind a change of owners, the pointer to the old form is let go of.
  pub let_go_of-IsTidy :
      (old : Option FormReference) (m m' : Owners lib head)
      → IsTidy m
      → IsLess old m m'
      → IsTidy (let_go_of lib head old m')
  unfolding let_go_of
  let_go_of-IsTidy none m m' t l = same-IsTidy none m m' t l λ f h. absurd (cc)
  let_go_of-IsTidy (some r) m m' t l = elim (Bool-cases (is_owned lib head r.form m')) [
    | inl owned ↦ rw (let_go-owned r.form m' owned) (
        same-IsTidy (some r) m m' t l
          λ f h. subst (λ k. is_owned lib head k m' ≡ true) ((eqb_iff r.form f).0 h) owned)
    | inr last ↦ rw (let_go-last r.form m' last) (last-IsTidy r.form r.handle m m' t l last)
  ]

  fresh_form : (m : Owners lib head) → IsTidy m → holds m.next_form m.freed ≡ false
  fresh_form m t = elim (Bool-cases (holds m.next_form m.freed)) [
    | inl freed ↦ let before = t.known m.next_form (ground (arith, freed)) in absurd (omega arith)
    | inr fresh ↦ fresh
  ]

  pub make_form-IsTidy : (m : Owners lib head) → IsTidy m → IsTidy (make_form lib head m)
  unfolding make_form
  make_form-IsTidy m t = record {
    once = t.once;
    alive = λ f h. elim (Bool-cases (m.next_form == f)) [
      | inl same ↦ rw (← (eqb_iff m.next_form f).0 same) (fresh_form m t)
      | inr other ↦ t.alive f (ground (arith, other, h))
    ];
    known = λ f h. elim (Bool-cases (m.next_form == f)) [
      | inl same ↦ rw (← (eqb_iff m.next_form f).0 same) (omega arith)
      | inr other ↦ let before = t.known f (ground (arith, other, h)) in omega arith
    ];
    kept = λ f h. elim (Bool-cases (m.next_form == f)) [
      | inl same ↦ ground (arith, same)
      | inr other ↦ let before = t.kept f (ground (arith, other, h)) in ground (arith, before)
    ];
  }

  pub copy-IsTidy :
      (m : Owners lib head) (f : ℕ)
      → holds f m.pointers ≡ true
      → IsTidy m
      → IsTidy (record m { pointers = f ∷ m.pointers })
  copy-IsTidy m f held t = record {
    once = t.once;
    alive = λ g h. elim (Bool-cases (f == g)) [
      | inl same ↦ rw (← (eqb_iff f g).0 same) (t.alive f (ground (arith, held)))
      | inr other ↦ t.alive g (ground (arith, other, h))
    ];
    known = λ g h. elim (Bool-cases (f == g)) [
      | inl same ↦ rw (← (eqb_iff f g).0 same) (t.known f (ground (arith, held)))
      | inr other ↦ t.known g (ground (arith, other, h))
    ];
    kept = λ g h. let before = t.kept g h in ground (arith, before);
  }
