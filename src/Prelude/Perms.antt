-- ===== src/Prelude/Perms.antt =====
-- The library's permutations, from lists with an element put in.
use Prim.Native.Nat.{ℕ, suc}
use mathlib.Core.Path.{◌≡◌, refl, ap, ◌∙◌}
use mathlib.Core.HLevel.{⊥_prop}
use mathlib.Core.Logic.{inl, inr, ∥∥₁_elim}
use mathlib.Core.List.Perm
use mathlib.Core.List.{List, [], ◌∷◌, Mem, Memᴰ, Perm, Permᴰ}
use native.Mathlib.Decide.{ℕ_discrete}
use native.Mathlib.Nat.{ℕ_set}
use native.Mathlib.Omega.{arith}
use sioworkers.Prelude.Lists.{length}
use sioworkers.Prelude.Inserted.{In, Inserted, here, there}

pub Inserted-perm : {A : Type 0} {x : A} {l m : List A} → Inserted x l m → Perm m (x ∷ l)
Inserted-perm here = Perm.rfl
Inserted-perm {x = x} (there {y = y} {l = l} i) =
    Perm.trans (Perm.cons y (Inserted-perm i)) (Perm.swap x y l)

In-Memᴰ : {x : ℕ} {l : List ℕ} → Memᴰ x l → In x l
In-Memᴰ (Memᴰ.head e) = inl e
In-Memᴰ (Memᴰ.tail m) = inr (In-Memᴰ m)

dec_In : (x : ℕ) (l : List ℕ) → Dec (In x l)
dec_In x [] = no (λ h. h)
dec_In x (y ∷ l) = elim (ℕ_discrete x y) [
  | yes e ↦ yes (inl e)
  | no n ↦ elim (dec_In x l) [
    | yes h ↦ yes (inr h)
    | no m ↦ no (elim [ inl e ↦ n e | inr h ↦ m h ])
  ]
]

pub In-mem : (x : ℕ) (l : List ℕ) → Mem x l → In x l
In-mem x l m = elim (dec_In x l) [
  | yes h ↦ h
  | no n ↦ absurd (∥∥₁_elim m ⊥_prop (λ d. n (In-Memᴰ d)))
]

length-Permᴰ : {xs ys : List ℕ} → Permᴰ xs ys → length xs ≡ length ys
length-Permᴰ Permᴰ.nil = refl
length-Permᴰ (Permᴰ.cons e p) = ap suc (length-Permᴰ p)
length-Permᴰ (Permᴰ.swap e f) = refl
length-Permᴰ (Permᴰ.trans p q) = length-Permᴰ p ∙ length-Permᴰ q

pub length-perm : {xs ys : List ℕ} → Perm xs ys → length xs ≡ length ys
length-perm {xs} {ys} p = ∥∥₁_elim p (ℕ_set (length xs) (length ys)) length-Permᴰ

pub length-nil : {A : Type 0} (l : List A) → length l ≡ 0 → l ≡ []
length-nil [] e = refl
length-nil (x ∷ l) e = absurd (omega arith)
