-- ===== src/Scheduler/Blocking/Choice.antt =====
-- A choice of workers out of all of them, and that the smallest ones are the worst choice.
use sioworkers.Prelude.{
  ℕ, zero, suc, ◌≤◌, ◌≡◌, refl, inl, inr, false, List, [], ◌∷◌, ◌++◌, arith, ltb, length, take,
}
use sioworkers.Prelude.Inserted.{All, All-In, In, Inserted, here, there}
use sioworkers.Sorted.{IsSorted}
use sioworkers.Scheduler.Blocking.Matching.{CanProcess, done, assign}

-- Some of the elements of a list, in its order.
pub data Chosen : List ℕ → List ℕ → Type 0 where
  stop : {l : List ℕ} → Chosen [] l
  keep : {x : ℕ} {s l : List ℕ} → Chosen s l → Chosen (x ∷ s) (x ∷ l)
  skip : {x : ℕ} {s l : List ℕ} → Chosen s l → Chosen s (x ∷ l)

Chosen-tail : {y : ℕ} {s l : List ℕ} → Chosen (y ∷ s) l → Chosen s l
Chosen-tail (keep c) = skip c
Chosen-tail (skip c) = skip (Chosen-tail c)

Chosen-In : {y : ℕ} {s l : List ℕ} → Chosen (y ∷ s) l → In y l
Chosen-In (keep c) = inl refl
Chosen-In (skip c) = inr (Chosen-In c)

-- Place by place no larger.
pub data Dominated : List ℕ → List ℕ → Type 0 where
  empty : {l : List ℕ} → Dominated [] l
  next : {x y : ℕ} {l m : List ℕ} → x ≤ y → Dominated l m → Dominated (x ∷ l) (y ∷ m)

first_is_least : (x y : ℕ) (l : List ℕ) → All (λ u. ltb u x ≡ false) l → In y l → x ≤ y
first_is_least x y l a h = at_least (All-In (λ u. ltb u x ≡ false) l y a h)
  where
    at_least : ltb y x ≡ false → x ≤ y
    at_least e = ground arith

pub Chosen-Dominated :
    (l s : List ℕ) → IsSorted ltb l → Chosen s l → Dominated (take (length s) l) s
Chosen-Dominated l [] sorted c = empty
Chosen-Dominated [] (y ∷ s) sorted c = elim c [ ]
Chosen-Dominated (x ∷ l) (y ∷ s) sorted (keep c) =
    next (omega arith) (Chosen-Dominated l s sorted.1 c)
Chosen-Dominated (x ∷ l) (y ∷ s) sorted (skip c) =
    next (first_is_least x y l sorted.0 (Chosen-In c))
      (Chosen-Dominated l s sorted.1 (Chosen-tail c))

Dominated-Inserted :
    {w : ℕ} {rest x y : List ℕ}
    → Inserted w rest x
    → Dominated x y
    → (u : ℕ) × (rest' : List ℕ) × Inserted u rest' y × (w ≤ u) × Dominated rest rest'
Dominated-Inserted here (next {y = u} {m = m} h d) = (u, m, here, h, d)
Dominated-Inserted (there i) (next {y = v} h d) =
    let (u, rest', i', le, d') = Dominated-Inserted i d in (u, v ∷ rest', there i', le, next h d')

pub CanProcess-Dominated : {x y ts : List ℕ} → Dominated x y → CanProcess x ts → CanProcess y ts
CanProcess-Dominated d done = done
CanProcess-Dominated d (assign i le p) =
    let (u, rest', i', up, d') = Dominated-Inserted i d in
    assign i' (omega arith) (CanProcess-Dominated d' p)

-- As many workers as tasks are needed.
Inserted-length : {w : ℕ} {l m : List ℕ} → Inserted w l m → length m ≡ suc (length l)
Inserted-length here = refl
Inserted-length (there i) = omega (arith, Inserted-length i)

pub CanProcess-length : {ws ts : List ℕ} → CanProcess ws ts → length ts ≤ length ws
CanProcess-length done = omega arith
CanProcess-length (assign i le p) = omega (arith, Inserted-length i, CanProcess-length p)

-- If every worker fits every task, that many are enough.
pub CanProcess-easy :
    (bound : ℕ) (ws ts : List ℕ)
    → All (λ w. bound ≤ w) ws
    → All (λ t. t ≤ bound) ts
    → length ts ≤ length ws
    → CanProcess ws ts
CanProcess-easy bound ws [] large small h = done
CanProcess-easy bound [] (t ∷ ts) large small h = absurd (omega arith)
CanProcess-easy bound (w ∷ ws) (t ∷ ts) large small h =
    assign here (omega arith) (CanProcess-easy bound ws ts large.1 small.1 (omega arith))

pub CanProcess-append : (xs ys : List ℕ) {ts : List ℕ} → CanProcess xs ts → CanProcess (xs ++ ys) ts
CanProcess-append xs ys p = CanProcess-Dominated (Dominated-append xs ys) p
  where
    Dominated-append : (xs ys : List ℕ) → Dominated xs (xs ++ ys)
    Dominated-append [] ys = empty
    Dominated-append (x ∷ xs) ys = next (omega arith) (Dominated-append xs ys)

pub Chosen-take : (k : ℕ) (l : List ℕ) → Chosen (take k l) l
Chosen-take zero l = stop
Chosen-take (suc k) [] = stop
Chosen-take (suc k) (x ∷ l) = keep (Chosen-take k l)
