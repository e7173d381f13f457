-- ===== src/Dispatch/Counting.antt =====
-- The tasks of each DeferredList that are in progress.
use sioworkers.Prelude.{
  Bool-cases, inl, inr, subst, sym, ap, ==_iff, ℕ, suc, ◌+◌, ◌≤◌, ◌≡◌, Bool, true, false, Option,
  none, some, [], ◌∷◌, ◌==◌, if◌then◌else◌, Dict, lookup, insert, erase, Absent, IsDict, arith,
}
use sioworkers.TaskManager.{Group}
use sioworkers.Dispatch.{Item, single, whole, Collector}

abbrev pub one_if : ℕ → ℕ → ℕ
one_if a b = if a == b then 1 else 0

abbrev pub of_item : ℕ → Item → ℕ
of_item owner (single env o) = one_if o owner
of_item owner (whole g) = 0

-- How many tasks of a DeferredList are in progress.
abbrev pub count : ℕ → Dict Item → ℕ
count owner [] = 0
count owner (item ∷ d) = of_item owner item.1 + count owner d

-- Groups have ids of their own.
module _ (is_group : ℕ → Bool) where
  abbrev pub Kind : ℕ → Item → Type 0
  Kind k (single env o) = is_group k ≡ false
  Kind k (whole g) = Unit {0}

  abbrev pub Apart : Dict Item → Type 0
  Apart [] = Unit {0}
  Apart (item ∷ d) = Kind item.0 item.1 × Apart d

  pub Apart-insert :
      (k : ℕ) (item : Item) (d : Dict Item) → Kind k item → Apart d → Apart (insert k item d)
  Apart-insert k item [] h a = (h, tt)
  Apart-insert k item (entry ∷ d) h a = ground (arith, Apart-insert k item d h a.1)

  pub Apart-erase : (k : ℕ) (d : Dict Item) → Apart d → Apart (erase k d)
  Apart-erase k [] a = tt
  Apart-erase k (entry ∷ d) a = ground (arith, Apart-erase k d a.1)

  -- A group is no task of any DeferredList.
  pub count-erase_group :
      (owner k : ℕ) (d : Dict Item)
      → Apart d
      → is_group k ≡ true
      → count owner d ≤ count owner (erase k d)
  count-erase_group owner k [] a h = omega arith
  count-erase_group owner k ((j, single env o) ∷ d) a h =
      ground (arith, count-erase_group owner k d a.1 h)
  count-erase_group owner k ((j, whole g) ∷ d) a h =
      ground (arith, count-erase_group owner k d a.1 h)

  pub count-insert_group :
      (owner k : ℕ) (g : Group) (d : Dict Item)
      → Apart d
      → is_group k ≡ true
      → count owner d ≤ count owner (insert k (whole g) d)
  count-insert_group owner k g [] a h = omega arith
  count-insert_group owner k g ((j, single env o) ∷ d) a h =
      ground (arith, count-insert_group owner k g d a.1 h)
  count-insert_group owner k g ((j, whole g') ∷ d) a h =
      ground (arith, count-insert_group owner k g d a.1 h)

pub count-insert_new :
    (owner k : ℕ) (item : Item) (d : Dict Item)
    → lookup k d ≡ none
    → count owner (insert k item d) ≡ count owner d + of_item owner item
count-insert_new owner k item [] h = omega arith
count-insert_new owner k item (entry ∷ d) h = ground (arith, count-insert_new owner k item d)

pub count-erase :
    (owner k : ℕ) (item : Item) (d : Dict Item)
    → lookup k d ≡ some item
    → count owner d ≡ count owner (erase k d) + of_item owner item
count-erase owner k item [] h = absurd (grind (arith, h))
count-erase owner k item (entry ∷ d) h = ground (arith, count-erase owner k item d)

some-injective : {a b : Collector} → some a ≡ some b → a ≡ b
some-injective {a} e = ap (get_or a) e
  where
    get_or : Collector → Option Collector → Collector
    get_or c none = c
    get_or c (some d) = d

some≢none : {a : Collector} → some a ≡ none → ⊥
some≢none e = absurd (grind (arith, e))

-- Each DeferredList counts every task of its group that is not in progress, one less where one is
-- owed to it.
abbrev pub owed_to : Option ℕ → ℕ → ℕ
owed_to none k = 0
owed_to (some o) k = one_if o k

module _ (is_group : ℕ → Bool) where
  abbrev pub Counted : Option ℕ → Dict Item → ℕ → Collector → Type 0
  Counted owed d k c =
      (is_group c.group.group_id ≡ true) × (c.size ≤ c.finished + count k d + owed_to owed k)

  abbrev pub Counting : Option ℕ → Dict Item → Dict Collector → Type 0
  Counting owed d [] = Unit {0}
  Counting owed d (entry ∷ cs) = Counted owed d entry.0 entry.1 × Counting owed d cs

  pub Counting-mono :
      (owed owed' : Option ℕ) (d d' : Dict Item) (cs : Dict Collector)
      → ((k : ℕ) → count k d + owed_to owed k ≤ count k d' + owed_to owed' k)
      → Counting owed d cs
      → Counting owed' d' cs
  Counting-mono owed owed' d d' [] h c = tt
  Counting-mono owed owed' d d' (entry ∷ cs) h c =
      ((c.0.0, omega (arith, h entry.0, c.0.1)), Counting-mono owed owed' d d' cs h c.1)

  pub Counting-insert :
      (owed : Option ℕ) (d : Dict Item) (k : ℕ) (c : Collector) (cs : Dict Collector)
      → Counted owed d k c
      → Counting owed d cs
      → Counting owed d (insert k c cs)
  Counting-insert owed d k c [] h cs_h = (h, tt)
  Counting-insert owed d k c (entry ∷ cs) h cs_h = elim (Bool-cases (entry.0 == k)) [
    | inl e ↦ rw e (h, cs_h.1)
    | inr e ↦ rw e (cs_h.0, Counting-insert owed d k c cs h cs_h.1)
  ]

  pub Counted-lookup :
      (owed : Option ℕ) (d : Dict Item) (k : ℕ) (c : Collector) (cs : Dict Collector)
      → lookup k cs ≡ some c
      → Counting owed d cs
      → Counted owed d k c
  Counted-lookup owed d k c [] e h = absurd (grind (arith, e))
  Counted-lookup owed d k c (entry ∷ cs) e h = elim (Bool-cases (entry.0 == k)) [
    | inl f ↦
        (let found = subst (λ b. (if b then some entry.1 else lookup k cs) ≡ some c) f e in
          subst (λ j. Counted owed d j c) ((==_iff entry.0 k).0 f)
            (subst (Counted owed d entry.0) (some-injective found) h.0))
    | inr f ↦
        Counted-lookup owed d k c cs
          (subst (λ b. (if b then some entry.1 else lookup k cs) ≡ some c) f e) h.1
  ]

  -- Only the DeferredList itself is one task behind.
  owed_elsewhere :
      (o : ℕ) (d : Dict Item) (cs : Dict Collector)
      → Absent o cs
      → Counting (some o) d cs
      → Counting none d cs
  owed_elsewhere o d [] a h = tt
  owed_elsewhere o d (entry ∷ cs) a h =
      ((h.0.0, ground (arith, h.0.1, a.0)), owed_elsewhere o d cs a.1 h.1)

  pub Counting-no_list :
      (o : ℕ) (d : Dict Item) (cs : Dict Collector)
      → lookup o cs ≡ none
      → Counting (some o) d cs
      → Counting none d cs
  Counting-no_list o d [] e h = tt
  Counting-no_list o d (entry ∷ cs) e h = elim (Bool-cases (entry.0 == o)) [
    | inl f ↦ absurd (some≢none (subst (λ b. (if b then some entry.1 else lookup o cs) ≡ none) f e))
    | inr f ↦ (
      (h.0.0, ground (arith, h.0.1, f)),
      Counting-no_list o d cs (subst (λ b. (if b then some entry.1 else lookup o cs) ≡ none) f e)
          h.1,
    )
  ]

  pub Counting-settle :
      (o : ℕ) (d : Dict Item) (c c' : Collector) (cs : Dict Collector)
      → IsDict cs
      → lookup o cs ≡ some c
      → c'.group ≡ c.group
      → c'.size ≡ c.size
      → c'.finished ≡ suc c.finished
      → Counting (some o) d cs
      → Counting none d (insert o c' cs)
  Counting-settle o d c c' [] is e g s f h = absurd (grind (arith, e))
  Counting-settle o d c c' (entry ∷ cs) is e g s f h = elim (Bool-cases (entry.0 == o)) [
    | inl z ↦
        (let here = Counted-lookup (some o) d o c (entry ∷ cs) e h in
          rw z (
            (subst (λ x. is_group x.group_id ≡ true) (sym g) here.0, ground (arith, here.1, s, f)),
            owed_elsewhere o d cs (subst (λ j. Absent j cs) ((==_iff entry.0 o).0 z) is.0) h.1,
          ))
    | inr z ↦ rw z (
      (h.0.0, ground (arith, h.0.1, z)),
      Counting-settle o d c c' cs is.1
          (subst (λ b. (if b then some entry.1 else lookup o cs) ≡ some c) z e) g s f h.1,
    )
  ]
