-- ===== src/Prelude/Dicts.antt =====
-- Python's dict over numbered keys: the items in the order in which their keys first came.
use Prim.Native.Nat.{ℕ}
use mathlib.Core.Path.{◌≡◌, refl}
use mathlib.Core.Logic.{◌≢◌}
use mathlib.Core.Option.{Option, none, some}
use mathlib.Core.List.{List, [], ◌∷◌}
use native.Mathlib.Omega.{arith}
use sioworkers.Prelude.Tests.{◌==◌, if◌then◌else◌}

abbrev pub Dict {ℓ} : Type ℓ → Type ℓ
Dict A = List (ℕ × A)

module _ {ℓ} {A : Type ℓ} where
  -- `m.get(key)`
  abbrev pub lookup : ℕ → Dict A → Option A
  lookup key [] = none
  lookup key (item ∷ m) = if item.0 == key then some item.1 else lookup key m

  -- `m[key] = a`: a key that is there keeps its place.
  abbrev pub insert : ℕ → A → Dict A → Dict A
  insert key a [] = (key, a) ∷ []
  insert key a (item ∷ m) = if item.0 == key then (key, a) ∷ m else item ∷ insert key a m

  -- `del m[key]` on a key that is there.
  abbrev pub erase : ℕ → Dict A → Dict A
  erase key [] = []
  erase key (item ∷ m) = if item.0 == key then m else item ∷ erase key m

  abbrev pub Absent : ℕ → Dict A → Type 0
  Absent key [] = Unit {0}
  Absent key (item ∷ m) = (item.0 ≢ key) × Absent key m

  -- No key stands twice, as in every dict.
  abbrev pub IsDict : Dict A → Type 0
  IsDict [] = Unit {0}
  IsDict (item ∷ m) = Absent item.0 m × IsDict m

  pub Absent-erase : (other key : ℕ) (m : Dict A) → Absent other m → Absent other (erase key m)
  Absent-erase other key [] away = tt
  Absent-erase other key (item ∷ m) away = ground (arith, Absent-erase other key m away.1)

  pub Absent-insert :
      (other key : ℕ) (a : A) (m : Dict A)
      → key ≢ other
      → Absent other m
      → Absent other (insert key a m)
  Absent-insert other key a [] apart away = (apart, tt)
  Absent-insert other key a (item ∷ m) apart away =
      ground (arith, Absent-insert other key a m apart away.1)

  pub erase-IsDict : (key : ℕ) (m : Dict A) → IsDict m → IsDict (erase key m)
  erase-IsDict key [] valid = tt
  erase-IsDict key (item ∷ m) valid =
      ground (arith, erase-IsDict key m valid.1, Absent-erase item.0 key m valid.0)

  pub insert-IsDict : (key : ℕ) (a : A) (m : Dict A) → IsDict m → IsDict (insert key a m)
  insert-IsDict key a [] valid = (tt, tt)
  insert-IsDict key a (item ∷ m) valid =
      ground (arith, insert-IsDict key a m valid.1, Absent-insert item.0 key a m)

  pub lookup-Absent : (key : ℕ) (m : Dict A) → Absent key m → lookup key m ≡ none
  lookup-Absent key [] away = refl
  lookup-Absent key (item ∷ m) away = ground (arith, lookup-Absent key m away.1)

  pub lookup-insert :
      (other key : ℕ) (a : A) (m : Dict A)
      → lookup other (insert key a m) ≡ (if other == key then some a else lookup other m)
  lookup-insert other key a [] = ground arith
  lookup-insert other key a (item ∷ m) = ground (arith, lookup-insert other key a m)

  -- What a deletion leaves at each key.
  pub lookup-erase :
      (other key : ℕ) (m : Dict A)
      → IsDict m
      → lookup other (erase key m) ≡ (if other == key then none else lookup other m)
  lookup-erase other key [] valid = ground arith
  lookup-erase other key (item ∷ m) valid =
      ground (arith, lookup-erase other key m valid.1, lookup-Absent item.0 m valid.0)
