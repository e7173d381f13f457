-- ===== src/Scheduler/Selection/Best.antt =====
-- The worker chosen is the best of those that fit.
use sioworkers.Prelude.{
  ℕ, ◌*◌, ◌≤◌, ◌<◌, ◌≡◌, refl, subst, ◌⊎◌, inl, inr, Bool, true, false, Option, none, some, List,
  [], ◌∷◌, arith, leb, Bool-cases, Option-cases, ltb→lt, lt→ltb,
}
use native.Mathlib.Nat.{mul-lt-mul_of_pos_right, lt_of_mul-lt-mul_right}
use sioworkers.Prelude.Inserted.{All, In, All-mono}
use sioworkers.Sorted.{IsSorted}
use sioworkers.Scheduler.Worker.{WorkerInfo, get_available_ram, get_available_vcpu_slots}
use sioworkers.Scheduler.Selection.{
  misfit, fits_better, is_busy, is_more_suitable, is_viable, consider, consider_all,
  get_best_worker_for_virtual_cpu_task, get_best_any_cpu_worker_for_real_cpu_task, any_cpu_lt,
}

-- Fractions with positive denominators, compared by cross multiplication.
cross_trans : (a p b q c r : ℕ) → 0 < p → 0 < r → a * q < b * p → b * r < c * q → a * r < c * p
cross_trans a p b q c r pp pr h k =
    lt_of_mul-lt-mul_right q
      (omega (arith, mul-lt-mul_of_pos_right h pr, mul-lt-mul_of_pos_right k pp))

module _ (ram : ℕ) where
  viable_slots : (w : WorkerInfo) → is_viable ram w ≡ true → 0 < get_available_vcpu_slots w
  unfolding is_viable
  viable_slots w h = ground arith

  fits_better_trans :
      (u v w : WorkerInfo)
      → is_viable ram u ≡ true
      → is_viable ram w ≡ true
      → fits_better ram u v ≡ true
      → fits_better ram v w ≡ true
      → fits_better ram u w ≡ true
  unfolding fits_better
  fits_better_trans u v w fu fw h k = lt→ltb _ _ (
      cross_trans (misfit ram u) (get_available_vcpu_slots u) (misfit ram v)
        (get_available_vcpu_slots v) (misfit ram w) (get_available_vcpu_slots w) (viable_slots u fu)
        (viable_slots w fw) (ltb→lt _ _ h) (ltb→lt _ _ k))

  module _ (prefer : Bool) where
    more_suitable_trans :
        (u v w : WorkerInfo)
        → is_viable ram u ≡ true
        → is_viable ram w ≡ true
        → is_more_suitable prefer ram u v ≡ true
        → is_more_suitable prefer ram v w ≡ true
        → is_more_suitable prefer ram u w ≡ true
    unfolding is_more_suitable
    more_suitable_trans u v w fu fw h k = ground (arith, fits_better_trans u v w fu fw)

    more_suitable_irrefl : (w : WorkerInfo) → is_more_suitable prefer ram w w ≡ false
    unfolding is_more_suitable fits_better
    more_suitable_irrefl w = ground arith

    -- No worker that fits is more suitable than `a`.
    abbrev pub Beats : WorkerInfo → WorkerInfo → Type 0
    Beats a v = is_viable ram v ≡ true → is_more_suitable prefer ram v a ≡ false

    abbrev BestOf : List WorkerInfo → Option WorkerInfo → Type 0
    BestOf seen none = All (λ v. is_viable ram v ≡ false) seen
    BestOf seen (some a) = In a seen × (is_viable ram a ≡ true) × All (Beats a) seen

    Beats-next :
        (a w v : WorkerInfo)
        → is_viable ram a ≡ true
        → is_more_suitable prefer ram w a ≡ true
        → Beats a v
        → Beats w v
    Beats-next a w v fa h b fv = ground (arith, more_suitable_trans v w a fv fa, b fv)

    consider-BestOf :
        (seen : List WorkerInfo) (o : Option WorkerInfo) (w : WorkerInfo)
        → BestOf seen o
        → BestOf (w ∷ seen) (consider prefer ram o w)
    unfolding consider
    consider-BestOf seen none w b = elim (Bool-cases (is_viable ram w)) [
      | inl fits ↦ rw fits (
        inl refl,
        fits,
        (
          (λ _. more_suitable_irrefl w),
          All-mono (λ v. is_viable ram v ≡ false) (Beats w) seen (λ v n f. cc) b,
        ),
      )
      | inr not_fits ↦ rw not_fits (not_fits, b)
    ]
    consider-BestOf seen (some a) w b = elim (Bool-cases (is_viable ram w)) [
      | inl fits ↦ elim (Bool-cases (is_more_suitable prefer ram w a)) [
        | inl more ↦
            rw (fits, more)
              (
                inl refl,
                fits,
                (
                  (λ _. more_suitable_irrefl w),
                  All-mono (Beats a) (Beats w) seen (λ v. Beats-next a w v b.1 more) b.2,
                ),
              )
        | inr less ↦ rw (fits, less) (inr b.0, b.1, ((λ _. less), b.2))
      ]
      | inr not_fits ↦ rw not_fits (inr b.0, b.1, ((λ f. cc), b.2))
    ]

    abbrev Final : List WorkerInfo → List WorkerInfo → Option WorkerInfo → Type 0
    Final seen queue none =
        All (λ v. is_viable ram v ≡ false) seen × All (λ v. is_viable ram v ≡ false) queue
    Final seen queue (some a) =
        (In a seen ⊎ In a queue)
        × (is_viable ram a ≡ true)
        × All (Beats a) seen
        × All (Beats a) queue

    shift :
        (seen queue : List WorkerInfo) (w : WorkerInfo) (o : Option WorkerInfo)
        → Final (w ∷ seen) queue o
        → Final seen (w ∷ queue) o
    shift seen queue w none f = (f.0.1, (f.0.0, f.1))
    shift seen queue w (some a) (inl (inl e), v, (b, s), q) = (inr (inl e), v, s, (b, q))
    shift seen queue w (some a) (inl (inr h), v, (b, s), q) = (inl h, v, s, (b, q))
    shift seen queue w (some a) (inr h, v, (b, s), q) = (inr (inr h), v, s, (b, q))

    start : (seen : List WorkerInfo) (o : Option WorkerInfo) → BestOf seen o → Final seen [] o
    start seen none b = (b, tt)
    start seen (some a) b = (inl b.0, b.1, b.2, tt)

    consider_all-Final :
        (queue seen : List WorkerInfo) (o : Option WorkerInfo)
        → BestOf seen o
        → Final seen queue (consider_all prefer ram o queue)
    unfolding consider_all
    consider_all-Final [] seen o b = start seen o b
    consider_all-Final (w ∷ queue) seen o b =
        shift seen queue w (consider_all prefer ram (consider prefer ram o w) queue) (
          consider_all-Final queue (w ∷ seen) (consider prefer ram o w)
            (consider-BestOf seen o w b))

-- A worker is chosen just if one in the queue has the RAM and a free slot; the one chosen is in the
-- queue, has both, and no other such worker is more suitable.
pub best_worker_for_virtual_cpu_task :
    (queue : List WorkerInfo) (ram : ℕ) (prefer : Bool)
    → ((get_best_worker_for_virtual_cpu_task queue ram prefer ≡ none)
        × All (λ v. is_viable ram v ≡ false) queue)
      ⊎ ((w : WorkerInfo) × (get_best_worker_for_virtual_cpu_task queue ram prefer ≡ some w)
          × In w queue
          × (is_viable ram w ≡ true)
          × All (Beats ram prefer w) queue)
unfolding get_best_worker_for_virtual_cpu_task
best_worker_for_virtual_cpu_task queue ram prefer = elim (Option-cases result) [
  | inl e ↦ inl (e, (subst (Final ram prefer [] queue) e final).1)
  | inr (w, e) ↦
      let (place, fits, _, best) = subst (Final ram prefer [] queue) e final in
      inr (w, e, in_queue w place, fits, best)
]
  where
    result : Option WorkerInfo
    result = consider_all prefer ram none queue

    final : Final ram prefer [] queue (consider_all prefer ram none queue)
    final = consider_all-Final ram prefer queue [] none tt

    in_queue : (w : WorkerInfo) → In w [] ⊎ In w queue → In w queue
    in_queue w (inl h) = elim h [ ]
    in_queue w (inr h) = h

-- A worker that runs nothing and has the RAM.
abbrev pub IsIdle : ℕ → WorkerInfo → Type 0
IsIdle ram w = (is_busy w ≡ false) × (ram ≤ get_available_ram w)

busy_rest :
    (ram : ℕ) (w : WorkerInfo) (queue : List WorkerInfo)
    → is_busy w ≡ true
    → All (λ v. any_cpu_lt v w ≡ false) queue
    → All (λ v. ¬ IsIdle ram v) queue
unfolding any_cpu_lt
busy_rest ram w [] b s = tt
busy_rest ram w (v ∷ queue) b s = ((λ idle. ground arith), busy_rest ram w queue b s.1)

IsIdle-least :
    (ram : ℕ) (w : WorkerInfo) (queue : List WorkerInfo)
    → is_busy w ≡ false
    → All (λ v. any_cpu_lt v w ≡ false) queue
    → All (λ v. IsIdle ram v → get_available_ram w ≤ get_available_ram v) queue
unfolding any_cpu_lt
IsIdle-least ram w [] b s = tt
IsIdle-least ram w (v ∷ queue) b s = ((λ idle. ground arith), IsIdle-least ram w queue b s.1)

-- The search for a worker for a real-cpu task, in a queue in its order: a worker is found just if
-- an idle one has the RAM; the one found is idle and in the queue, and no idle worker with enough
-- RAM has less of it.
pub best_worker_for_real_cpu_task :
    (queue : List WorkerInfo) (ram : ℕ)
    → IsSorted any_cpu_lt queue
    → ((get_best_any_cpu_worker_for_real_cpu_task queue ram ≡ none)
        × All (λ v. ¬ IsIdle ram v) queue)
      ⊎ ((w : WorkerInfo) × (get_best_any_cpu_worker_for_real_cpu_task queue ram ≡ some w)
          × In w queue
          × IsIdle ram w
          × All (λ v. IsIdle ram v → get_available_ram w ≤ get_available_ram v) queue)
unfolding get_best_any_cpu_worker_for_real_cpu_task
best_worker_for_real_cpu_task [] ram s = inl (refl, tt)
best_worker_for_real_cpu_task (w ∷ queue) ram s = elim (Bool-cases (is_busy w)) [
  | inl busy ↦ inl (ground arith, ((λ idle. ground arith), busy_rest ram w queue busy s.0))
  | inr idle ↦ elim (Bool-cases (leb ram (get_available_ram w))) [
    | inl fits ↦ inr (
      w,
      ground arith,
      inl refl,
      (idle, ground arith),
      ((λ _. omega arith), IsIdle-least ram w queue idle s.0),
    )
    | inr small ↦ elim (best_worker_for_real_cpu_task queue ram s.1) [
      | inl none_fits ↦ inl (ground arith, ((λ i. ground arith), none_fits.1))
      | inr (v, e, place, fits, best) ↦
          inr (v, ground arith, inr place, fits, ((λ i. ground arith), best))
    ]
  ]
]
