-- ===== src/Prelude/Inserted.antt =====
-- One list is another with an element put in at some place; membership that can be matched.
use mathlib.Core.Path.{◌≡◌, refl, ap}
use mathlib.Core.Logic.{◌≢◌, ◌⊎◌, inl, inr}
use mathlib.Core.List.{List, [], ◌∷◌}
use native.Mathlib.Omega.{arith}

abbrev pub In : {A : Type 0} → A → List A → Type 0
In x [] = ⊥
In x (y ∷ l) = (x ≡ y) ⊎ In x l

abbrev pub All {ℓ κ} : {A : Type ℓ} → (A → Type κ) → List A → Type κ
All P [] = Unit
All P (x ∷ l) = P x × All P l

abbrev pub NotIn {ℓ} : {A : Type ℓ} → A → List A → Type ℓ
NotIn x l = All (λ y. x ≢ y) l

pub data Inserted {ℓ} {A : Type ℓ} (x : A) : List A → List A → Type ℓ where
  here : {l : List A} → Inserted x l (x ∷ l)
  there : {y : A} {l m : List A} → Inserted x l m → Inserted x (y ∷ l) (y ∷ m)

module _ {A : Type 0} where
  pub In-Inserted : {x : A} {l m : List A} → Inserted x l m → In x m
  In-Inserted here = inl refl
  In-Inserted (there i) = inr (In-Inserted i)

  pub In-Inserted_old : {x : A} (y : A) {l m : List A} → Inserted x l m → In y l → In y m
  In-Inserted_old y here h = inr h
  In-Inserted_old y (there i) (inl e) = inl e
  In-Inserted_old y (there i) (inr h) = inr (In-Inserted_old y i h)

  pub In-Inserted_cases :
      {x : A} (y : A) {l m : List A} → Inserted x l m → In y m → (y ≡ x) ⊎ In y l
  In-Inserted_cases y here h = h
  In-Inserted_cases y (there i) (inl e) = inr (inl e)
  In-Inserted_cases y (there i) (inr h) = ground (arith, In-Inserted_cases y i h)

  pub All-In {κ} : (P : A → Type κ) (l : List A) (x : A) → All P l → In x l → P x
  All-In P [] x a h = elim h [ ]
  All-In P (y ∷ l) x a (inl e) = rw e a.0
  All-In P (y ∷ l) x a (inr h) = All-In P l x a.1 h

  pub All-Inserted {κ} :
      (P : A → Type κ) {x : A} {l m : List A} → Inserted x l m → P x → All P l → All P m
  All-Inserted P here p a = (p, a)
  All-Inserted P (there i) p a = (a.0, All-Inserted P i p a.1)

  pub All-Inserted_less {κ} :
      (P : A → Type κ) {x : A} {l m : List A} → Inserted x l m → All P m → All P l
  All-Inserted_less P here a = a.1
  All-Inserted_less P (there i) a = (a.0, All-Inserted_less P i a.1)

module _ {A : Type 0} where
  -- Two elements of one list, each taken out, are one or can be taken out in either order.
  pub Inserted-diamond :
      {u w : A} {x y m : List A}
      → Inserted u x m
      → Inserted w y m
      → ((u ≡ w) × (x ≡ y)) ⊎ ((z : List A) × Inserted w z x × Inserted u z y)
  Inserted-diamond here here = inl (refl, refl)
  Inserted-diamond here (there j) = inr (_, j, here)
  Inserted-diamond (there i) here = inr (_, here, i)
  Inserted-diamond (there {y = a} i) (there j) = elim (Inserted-diamond i j) [
    | inl (e, f) ↦ inl (e, ap (◌∷◌ a) f)
    | inr (z, j', i') ↦ inr (a ∷ z, there j', there i')
  ]

  -- Two insertions can be made in either order.
  pub Inserted-swap :
      {u w : A} {z x m : List A}
      → Inserted u z x
      → Inserted w x m
      → (y : List A) × Inserted w z y × Inserted u y m
  Inserted-swap {z} i here = (_, here, there i)
  Inserted-swap here (there j) = (_, j, here)
  Inserted-swap (there {y = a} {l = z} i) (there j) =
      let (y, k, l) = Inserted-swap {z = z} i j in (a ∷ y, there k, there l)

pub All-mono {ℓ κ μ} :
    {A : Type ℓ} (P : A → Type κ) (Q : A → Type μ) (l : List A)
    → ((x : A) → P x → Q x)
    → All P l
    → All Q l
All-mono P Q [] h a = tt
All-mono P Q (x ∷ l) h a = (h x a.0, All-mono P Q l h a.1)
