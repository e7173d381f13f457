-- ===== src/Sorted.antt =====
-- What the scheduler uses of the third-party package sortedcontainers. A container is the list that
-- it iterates over; its operations are parameters, and their documented behaviour is stated as laws.
use sioworkers.Prelude.{
  ℕ, zero, suc, ◌<◌, ◌≡◌, refl, inl, inr, Bool, take, true, false, Option, none, some, List, [],
  ◌∷◌, arith, ltb, if◌then◌else◌, Bool-cases, ◌==◌, ==_iff,
}
use mathlib.Core.Option
use sioworkers.Prelude.Inserted.{
  In, All, NotIn, Inserted, here, there, All-Inserted, All-Inserted_less,
}

-- What an order on keys must be, as a Boolean test for `<`.
pub record IsOrder {A : Type 0} (lt : A → A → Bool) : Type 0 where
  pub irrefl : (a : A) → lt a a ≡ false
  pub asym : (a b : A) → lt a b ≡ true → lt b a ≡ false
  pub trans : (a b c : A) → lt b a ≡ false → lt c b ≡ false → lt c a ≡ false

abbrev pub IsSorted : {A : Type 0} → (A → A → Bool) → List A → Type 0
IsSorted lt [] = Unit {0}
IsSorted lt (x ∷ l) = All (λ y. lt y x ≡ false) l × IsSorted lt l

-- `SortedSet(key)`: `add` puts a new element in order and `remove` takes one out, or raises.
pub record SortedSet (A : Type 0) : Type 0 where
  pub add : (A → A → Bool) → A → List A → List A
  pub remove : (A → A → Bool) → A → List A → Option (List A)
  pub add-Inserted :
      (lt : A → A → Bool) (x : A) (l : List A)
      → IsOrder lt
      → IsSorted lt l
      → NotIn x l
      → Inserted x l (add lt x l)
  pub add-IsSorted :
      (lt : A → A → Bool) (x : A) (l : List A)
      → IsOrder lt
      → IsSorted lt l
      → IsSorted lt (add lt x l)
  pub remove-Inserted :
      (lt : A → A → Bool) (x : A) (l : List A)
      → IsOrder lt
      → IsSorted lt l
      → In x l
      → (m : List A) × (remove lt x l ≡ some m) × Inserted x m l

-- `SortedList` of numbers: it keeps duplicates, and `discard` takes one copy out.
pub record SortedList : Type 0 where
  pub add : ℕ → List ℕ → List ℕ
  pub discard : ℕ → List ℕ → List ℕ
  pub add-Inserted : (x : ℕ) (l : List ℕ) → IsSorted ltb l → Inserted x l (add x l)
  pub add-IsSorted : (x : ℕ) (l : List ℕ) → IsSorted ltb l → IsSorted ltb (add x l)
  pub discard-Inserted : (x : ℕ) (l : List ℕ) → IsSorted ltb l → In x l → Inserted x (discard x l) l

pub IsSorted-Inserted_less :
    {A : Type 0} (lt : A → A → Bool) {x : A} {l m : List A}
    → Inserted x l m
    → IsSorted lt m
    → IsSorted lt l
IsSorted-Inserted_less lt here s = s.1
IsSorted-Inserted_less lt (there {y = y} i) s =
    (All-Inserted_less (λ z. lt z y ≡ false) i s.0, IsSorted-Inserted_less lt i s.1)

pub ltb-IsOrder : IsOrder ltb
ltb-IsOrder = record {
  irrefl = λ a. ground arith;
  asym = λ a b h. ground arith;
  trans = λ a b c h k. ground arith;
}

-- A concrete container, for runs: insertion into a plain list.
module _ {A : Type 0} (lt : A → A → Bool) where
  abbrev pub insert_sorted : A → List A → List A
  insert_sorted x [] = x ∷ []
  insert_sorted x (y ∷ l) = if lt x y then x ∷ y ∷ l else y ∷ insert_sorted x l

  pub insert_sorted-Inserted : (x : A) (l : List A) → Inserted x l (insert_sorted x l)
  insert_sorted-Inserted x [] = here
  insert_sorted-Inserted x (y ∷ l) = elim (Bool-cases (lt x y)) [
    | inl e ↦ rw e here
    | inr e ↦ rw e (there (insert_sorted-Inserted x l))
  ]

  above :
      (o : IsOrder lt) (x y : A) (l : List A)
      → lt y x ≡ false
      → All (λ z. lt z y ≡ false) l
      → All (λ z. lt z x ≡ false) l
  above o x y [] h a = tt
  above o x y (z ∷ l) h a = (o.trans x y z h a.0, above o x y l h a.1)

  pub insert_sorted-IsSorted :
      (x : A) (l : List A) → IsOrder lt → IsSorted lt l → IsSorted lt (insert_sorted x l)
  insert_sorted-IsSorted x [] o s = (tt, tt)
  insert_sorted-IsSorted x (y ∷ l) o s = elim (Bool-cases (lt x y)) [
    | inl e ↦ rw e ((o.asym x y e, above o x y l (o.asym x y e) s.0), s)
    | inr e ↦ rw e (
      All-Inserted (λ z. lt z y ≡ false) (insert_sorted-Inserted x l) e s.0,
      insert_sorted-IsSorted x l o s.1,
    )
  ]

module _ {A : Type 0} (same : Discrete A) where
  -- Takes the first copy out; `none` where there is none.
  abbrev pub remove_first : A → List A → Option (List A)
  remove_first x [] = none
  remove_first x (y ∷ l) = elim (same x y) [
    | yes e ↦ some l
    | no n ↦ Option.map (◌∷◌ y) (remove_first x l)
  ]

  remove_first_step :
      (x y : A) (l : List A) (d : Dec (x ≡ y))
      → In x (y ∷ l)
      → (In x l → (m : List A) × (remove_first x l ≡ some m) × Inserted x m l)
      → (m : List A) × (elim d [ yes e ↦ some l | no n ↦ Option.map (◌∷◌ y) (remove_first x l) ]
          ≡ some m)
        × Inserted x m (y ∷ l)
  remove_first_step x y l (yes e) h rest = (l, refl, rw e here)
  remove_first_step x y l (no n) (inl e) rest = absurd (n e)
  remove_first_step x y l (no n) (inr h) rest =
      let (m, e, i) = rest h in (y ∷ m, rw e refl, there i)

  pub remove_first-Inserted :
      (x : A) (l : List A) → In x l → (m : List A) × (remove_first x l ≡ some m) × Inserted x m l
  remove_first-Inserted x [] h = elim h [ ]
  remove_first-Inserted x (y ∷ l) h =
      remove_first_step x y l (same x y) h (remove_first-Inserted x l)

-- The laws of the two containers can be met together.
abbrev pub plain_set : {A : Type 0} → Discrete A → SortedSet A
plain_set same = record {
  add = insert_sorted;
  remove = λ lt. remove_first same;
  add-Inserted = λ lt x l o s n. insert_sorted-Inserted lt x l;
  add-IsSorted = insert_sorted-IsSorted;
  remove-Inserted = λ lt x l o s h. remove_first-Inserted same x l h;
}

abbrev pub plain_discard : ℕ → List ℕ → List ℕ
plain_discard x [] = []
plain_discard x (y ∷ l) = if x == y then l else y ∷ plain_discard x l

pub plain_discard-Inserted : (x : ℕ) (l : List ℕ) → In x l → Inserted x (plain_discard x l) l
plain_discard-Inserted x [] h = elim h [ ]
plain_discard-Inserted x (y ∷ l) h = elim (Bool-cases (x == y)) [
  | inl e ↦ rw (e, (==_iff x y).0 e) here
  | inr e ↦ rw e (there (plain_discard-Inserted x l (ground arith)))
]

abbrev pub plain_list : SortedList
plain_list = record {
  add = insert_sorted ltb;
  discard = plain_discard;
  add-Inserted = λ x l s. insert_sorted-Inserted ltb x l;
  add-IsSorted = λ x l s. insert_sorted-IsSorted ltb x l ltb-IsOrder s;
  discard-Inserted = λ x l s h. plain_discard-Inserted x l h;
}

-- In a sorted list of numbers the first is a lower bound.
pub All-le : (a b : ℕ) (l : List ℕ) → a < b → All (λ y. ltb y b ≡ false) l → All (λ y. a < y) l
All-le a b [] h s = tt
All-le a b (y ∷ l) h s = (ground arith, All-le a b l h s.1)

pub All-take : (P : ℕ → Type 0) (n : ℕ) (l : List ℕ) → All P l → All P (take n l)
All-take P zero l a = tt
All-take P (suc n) [] a = tt
All-take P (suc n) (x ∷ l) a = (a.0, All-take P n l a.1)
