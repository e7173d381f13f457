-- ===== src/Prelude/Texts.antt =====
-- Texts and bytes, as the lists of their codes.
use Prim.Native.Nat.{ℕ, zero, suc, ◌+◌, ◌/◌, ◌%◌}
use Prim.Native.Char.{code}
use Prim.Native.String.{String}
use mathlib.Core.Bool.{not, Bool, true, false, ◌&&◌}
use mathlib.Core.Option.{Option, none, some}
use mathlib.Core.List.{List, [], ◌∷◌, ◌++◌}
use mathlib.Core.Path.{◌≡◌, refl}
use native.Mathlib.Omega.{arith}
use sioworkers.Prelude.Tests.{ltb, ◌==◌, if◌then◌else◌}

abbrev pub codes : String → List ℕ
codes String.[] = []
codes (String.◌∷◌ c s) = code c ∷ codes s

abbrev pub is_text : List ℕ → List ℕ → Bool
is_text [] [] = true
is_text [] (y ∷ t) = false
is_text (x ∷ s) [] = false
is_text (x ∷ s) (y ∷ t) = if x == y then is_text s t else false

pub is_text_refl : (s : List ℕ) → is_text s s ≡ true
is_text_refl [] = refl
is_text_refl (c ∷ s) = ground (arith, is_text_refl s)

-- `s in l`
abbrev pub any_text : List ℕ → List (List ℕ) → Bool
any_text s [] = false
any_text s (t ∷ l) = if is_text s t then true else any_text s l

-- `set(l).issuperset(required)`
abbrev pub all_texts : List (List ℕ) → List (List ℕ) → Bool
all_texts [] l = true
all_texts (s ∷ required) l = any_text s l && all_texts required l

-- `s.startswith(prefix)`
abbrev pub starts_with : List ℕ → List ℕ → Bool
starts_with s [] = true
starts_with [] (y ∷ prefix) = false
starts_with (x ∷ s) (y ∷ prefix) = if x == y then starts_with s prefix else false

-- `sep.join(l)`
abbrev pub join : List ℕ → List (List ℕ) → List ℕ
join sep [] = []
join sep (s ∷ []) = s
join sep (s ∷ t ∷ l) = s ++ sep ++ join sep (t ∷ l)

-- `str(n)`: the digits before those that are written; a number is above the count of its digits.
abbrev pub digits_before : ℕ → ℕ → List ℕ → List ℕ
digits_before zero n done = done
digits_before (suc fuel) n done = elim (ltb n 10) [
  | true ↦ (48 + n) ∷ done
  | false ↦ digits_before fuel (n / 10) ((48 + n % 10) ∷ done)
]

abbrev pub str : ℕ → List ℕ
str n = digits_before (suc n) n []

-- What the first byte of a character asks of the rest: how many bytes follow, and between which two
-- the next one is.
abbrev pub lead : ℕ → Option (ℕ × ℕ × ℕ)
lead c =
    if ltb c 128
    then some (0, 0, 0)
    else if ltb c 194
    then none
    else if ltb c 224
    then some (1, 128, 191)
    else if c == 224
    then some (2, 160, 191)
    else if c == 237
    then some (2, 128, 159)
    else if ltb c 240
    then some (2, 128, 191)
    else if c == 240
    then some (3, 144, 191)
    else if ltb c 244
    then some (3, 128, 191)
    else if c == 244
    then some (3, 128, 143)
    else none

-- Whether `decode` of bytes as UTF-8 succeeds, where n bytes of a character are still to come.
abbrev pub utf8_from : ℕ → ℕ → ℕ → List ℕ → Bool
utf8_from zero low high [] = true
utf8_from (suc n) low high [] = false
utf8_from (suc n) low high (c ∷ s) = not (ltb c low) && not (ltb high c) && utf8_from n 128 191 s
utf8_from zero low high (c ∷ s) = elim (lead c) [
  | none ↦ false
  | some (n, a, b) ↦ utf8_from n a b s
]

unfoldable pub is_utf8 : List ℕ → Bool
is_utf8 s = utf8_from 0 0 0 s

unfoldable pub all_utf8 : List (List ℕ) → Bool
all_utf8 [] = true
all_utf8 (s ∷ l) = is_utf8 s && all_utf8 l
