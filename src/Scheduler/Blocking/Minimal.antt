-- ===== src/Scheduler/Blocking/Minimal.antt =====
-- The number of blocked workers is the least that suffices.
use sioworkers.Prelude.{
  ℕ, zero, suc, ◌+◌, ◌≤◌, ◌<◌, ◌≡◌, refl, ◌⊎◌, inl, inr, false, true, List, [], ◌∷◌, arith, ltb,
  length, take, Bool-cases, ltb→lt,
}
use sioworkers.Prelude.Inserted.{All, Inserted, here}
use sioworkers.Sorted.{IsSorted, All-le, All-take}
use sioworkers.Scheduler.Blocking.{count_blocked}
use sioworkers.Scheduler.Blocking.Matching.{
  CanProcess, done, assign, CanProcess-more, CanProcess-drop_small, CanProcess-first,
}

module _ (total : ℕ) where
  -- A worker that is too small is passed over, and counted.
  count_blocked-skip :
      (t w : ℕ) (ts ws : List ℕ) (index : ℕ)
      → ltb w t ≡ true
      → count_blocked total (t ∷ ts) (w ∷ ws) index ≡ count_blocked total (t ∷ ts) ws (suc index)
  unfolding count_blocked
  count_blocked-skip t w ts ws index h = ground arith

  count_blocked-take :
      (t w : ℕ) (ts ws : List ℕ) (index : ℕ)
      → ltb w t ≡ false
      → count_blocked total (t ∷ ts) (w ∷ ws) index ≡ count_blocked total ts ws (suc index)
  unfolding count_blocked
  count_blocked-take t w ts ws index h = ground arith

  count_blocked-out :
      (t : ℕ) (ts : List ℕ) (index : ℕ) → count_blocked total (t ∷ ts) [] index ≡ total
  unfolding count_blocked
  count_blocked-out t ts index = refl

no_workers : (t : ℕ) (ts : List ℕ) → ¬ CanProcess [] (t ∷ ts)
no_workers t ts (assign i le rest) = none_in i
  where
    none_in : {w : ℕ} {l : List ℕ} → Inserted w l [] → ⊥
    none_in i = elim i [ ]

-- The first `n` of the workers can process the tasks, and no fewer of them can.
pub record Least (ts ws : List ℕ) (n : ℕ) : Type 0 where
  pub fits : n ≤ length ws
  pub enough : CanProcess (take n ws) ts
  pub least : (k : ℕ) → k < n → ¬ CanProcess (take k ws) ts

Least-skip :
    (t w n : ℕ) (ts ws : List ℕ)
    → All (λ u. w < u) (t ∷ ts)
    → Least (t ∷ ts) ws n
    → Least (t ∷ ts) (w ∷ ws) (suc n)
Least-skip t w n ts ws small l = record {
  fits = omega (arith, l.fits);
  enough = CanProcess-more here l.enough;
  least = below;
}
  where
    below : (k : ℕ) → k < suc n → ¬ CanProcess (take k (w ∷ ws)) (t ∷ ts)
    below zero h p = no_workers t ts p
    below (suc k) h p = l.least k (omega arith) (CanProcess-drop_small (t ∷ ts) small here p)

Least-take :
    (t w n : ℕ) (ts ws : List ℕ)
    → t ≤ w
    → All (λ u. ltb u w ≡ false) ws
    → Least ts ws n
    → Least (t ∷ ts) (w ∷ ws) (suc n)
Least-take t w n ts ws fit sorted l = record {
  fits = omega (arith, l.fits);
  enough = assign here fit l.enough;
  least = below;
}
  where
    below : (k : ℕ) → k < suc n → ¬ CanProcess (take k (w ∷ ws)) (t ∷ ts)
    below zero h p = no_workers t ts p
    below (suc k) h p =
        l.least k (omega arith) (CanProcess-first (All-take (λ u. ltb u w ≡ false) k ws sorted) p)

abbrev Outcome : ℕ → List ℕ → List ℕ → ℕ → ℕ → Type 0
Outcome total ts ws index result =
    ((n : ℕ) × (result ≡ index + n) × Least ts ws n) ⊎ ((result ≡ total) × ¬ CanProcess ws ts)

Outcome-skip :
    (total t w index result : ℕ) (ts ws : List ℕ)
    → All (λ u. w < u) (t ∷ ts)
    → Outcome total (t ∷ ts) ws (suc index) result
    → Outcome total (t ∷ ts) (w ∷ ws) index result
Outcome-skip total t w index result ts ws small (inl (n, e, l)) =
    inl (suc n, omega (arith, e), Least-skip t w n ts ws small l)
Outcome-skip total t w index result ts ws small (inr (e, no_match)) =
    inr (e, λ p. no_match (CanProcess-drop_small (t ∷ ts) small here p))

Outcome-take :
    (total t w index result : ℕ) (ts ws : List ℕ)
    → t ≤ w
    → All (λ u. ltb u w ≡ false) ws
    → Outcome total ts ws (suc index) result
    → Outcome total (t ∷ ts) (w ∷ ws) index result
Outcome-take total t w index result ts ws fit sorted (inl (n, e, l)) =
    inl (suc n, omega (arith, e), Least-take t w n ts ws fit sorted l)
Outcome-take total t w index result ts ws fit sorted (inr (e, no_match)) =
    inr (e, λ p. no_match (CanProcess-first sorted p))

pub count_blocked-Outcome :
    (total : ℕ) (ts ws : List ℕ) (index : ℕ)
    → IsSorted ltb ts
    → IsSorted ltb ws
    → Outcome total ts ws index (count_blocked total ts ws index)
unfolding count_blocked
count_blocked-Outcome total [] ws index st sw = inl (
  0,
  omega arith,
  record { fits = omega arith; enough = done; least = λ k h. absurd (omega arith) },
)
count_blocked-Outcome total (t ∷ ts) [] index st sw = inr (refl, no_workers t ts)
count_blocked-Outcome total (t ∷ ts) (w ∷ ws) index st sw = elim (Bool-cases (ltb w t)) [
  | inl small ↦ rw (count_blocked-skip total t w ts ws index small) (
      Outcome-skip total t w index _ ts ws (ltb→lt w t small, All-le w t ts (ltb→lt w t small) st.0)
        (count_blocked-Outcome total (t ∷ ts) ws (suc index) st sw.1))
  | inr fit ↦ rw (count_blocked-take total t w ts ws index fit) (
      Outcome-take total t w index _ ts ws (ground arith) sw.0
        (count_blocked-Outcome total ts ws (suc index) st.1 sw.1))
]
