-- ===== src/Scheduler/Blocking/Matching.antt =====
-- What it means that workers can process tasks, and that serving the smallest task by the smallest
-- worker that fits it loses nothing.
use sioworkers.Prelude.{ℕ, ◌≤◌, ◌<◌, ◌≡◌, subst, inl, inr, false, List, [], ◌∷◌, arith, ltb}
use sioworkers.Prelude.Inserted.{
  All, All-In, In-Inserted, Inserted, here, Inserted-diamond, Inserted-swap,
}

-- Each task has a worker of its own with enough RAM.
pub data CanProcess : List ℕ → List ℕ → Type 0 where
  done : {ws : List ℕ} → CanProcess ws []
  assign :
      {w t : ℕ} {rest ws ts : List ℕ}
      → Inserted w rest ws
      → t ≤ w
      → CanProcess rest ts
      → CanProcess ws (t ∷ ts)

-- A larger worker may stand in for a smaller one.
pub CanProcess-larger :
    {w u : ℕ} {z x y ts : List ℕ}
    → w ≤ u
    → Inserted w z x
    → Inserted u z y
    → CanProcess x ts
    → CanProcess y ts
CanProcess-larger h i j done = done
CanProcess-larger {w} {u} {z} {x} {y} h i j (assign {w = v} {t = t} {ts = ts} k le rest) =
    elim (Inserted-diamond k i) [
      | inl (e, f) ↦ assign j (omega (arith, e)) (subst (λ l. CanProcess l ts) f rest)
      | inr (z', i', k') ↦
          let (y', j', k'') = Inserted-swap k' j in
          assign k'' le (CanProcess-larger {z = z'} {x = _} {y = y'} h i' j' rest)
    ]

-- One more worker does no harm.
pub CanProcess-more : {w : ℕ} {x y ts : List ℕ} → Inserted w x y → CanProcess x ts → CanProcess y ts
CanProcess-more i done = done
CanProcess-more i (assign k le rest) =
    let (y', i', k') = Inserted-swap k i in assign k' le (CanProcess-more i' rest)

-- A worker that is too small for every task is of no use.
pub CanProcess-drop_small :
    {w : ℕ} {x y : List ℕ} (ts : List ℕ)
    → All (λ t. w < t) ts
    → Inserted w x y
    → CanProcess y ts
    → CanProcess x ts
CanProcess-drop_small [] a i p = done
CanProcess-drop_small (t ∷ ts) a i (assign k le rest) = elim (Inserted-diamond k i) [
  | inl (e, f) ↦ absurd (omega (arith, e))
  | inr (z, i', k') ↦ assign k' le (CanProcess-drop_small ts a.1 i' rest)
]

-- If the smallest worker fits a task, that task may be given to it.
pub CanProcess-first :
    {w t : ℕ} {ws ts : List ℕ}
    → All (λ u. ltb u w ≡ false) ws
    → CanProcess (w ∷ ws) (t ∷ ts)
    → CanProcess ws ts
CanProcess-first {w} {t} {ws} {ts} a (assign {w = u} k le rest) = elim (Inserted-diamond k here) [
  | inl (e, f) ↦ subst (λ l. CanProcess l ts) f rest
  | inr (z, i, k') ↦
      CanProcess-larger (smaller (All-In (λ v. ltb v w ≡ false) ws u a (In-Inserted k'))) i k' rest
]
  where
    smaller : {v : ℕ} → ltb v w ≡ false → w ≤ v
    smaller h = ground arith
