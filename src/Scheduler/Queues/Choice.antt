-- ===== src/Scheduler/Queues/Choice.antt =====
-- `chooseTask` returns the foremost task of a contest of the greatest priority.
use sioworkers.Prelude.{
  ℕ, ◌+◌, ◌≤◌, ◌<◌, ◌≡◌, refl, ap, ◌∙◌, ◌≢◌, inl, inr, true, false, none, some, List, [], ◌∷◌,
  arith, leb, if◌then◌else◌, Bool-cases, ok,
}
use sioworkers.Prelude.Int.{ℤ, ltb_ℤ}
use sioworkers.Prelude.Inserted.{All, In, All-In, All-mono}
use sioworkers.Sorted.{IsSorted}
use sioworkers.Scheduler.Task.{TaskInfo, ContestInfo, task_lt}
use sioworkers.Scheduler.Queues.{Candidate, eqb_ℤ, weigh, weigh_all, pick, last_task, choose_from}
use sioworkers.Scheduler.Queues.Order.{task_lt-IsOrder}

-- The weights of the contests of one priority, summed.
abbrev pub sum_at : ℤ → List Candidate → ℕ
sum_at best [] = 0
sum_at best ((c, l) ∷ cs) = (if eqb_ℤ c.priority best then c.weight else 0) + sum_at best cs

abbrev pub IsWeighted : List Candidate → Type 0
IsWeighted cs = All (λ c. 1 ≤ c.0.weight) cs

abbrev pub IsBest : ℤ → List Candidate → Type 0
IsBest best cs = All (λ c. ltb_ℤ best c.0.priority ≡ false) cs

abbrev pub carry : ℤ → ℕ → ℤ → ℕ
carry b s best = if eqb_ℤ b best then s else 0

abbrev pub Weighed : ℤ → ℕ → List Candidate → Type 0
Weighed b s cs =
    (best : ℤ) × (sum : ℕ) × (weigh_all (some (b, s)) cs ≡ some (best, sum))
    × (sum ≡ carry b s best + sum_at best cs)
    × (ltb_ℤ best b ≡ false)
    × IsBest best cs
    × (1 ≤ sum)

module _ (b : ℤ) (s : ℕ) (c : ContestInfo) where
  weigh-greater : ltb_ℤ b c.priority ≡ true → weigh (some (b, s)) c ≡ (c.priority, 0 + c.weight)
  unfolding weigh
  weigh-greater h = ground arith

  weigh-equal :
      ltb_ℤ b c.priority ≡ false
      → eqb_ℤ b c.priority ≡ true
      → weigh (some (b, s)) c ≡ (b, s + c.weight)
  unfolding weigh
  weigh-equal h k = ground arith

  weigh-less :
      ltb_ℤ b c.priority ≡ false → eqb_ℤ b c.priority ≡ false → weigh (some (b, s)) c ≡ (b, s)
  unfolding weigh
  weigh-less h k = ground arith

pub weigh_all-Weighed :
    (cs : List Candidate) (b : ℤ) (s : ℕ) → 1 ≤ s → IsWeighted cs → Weighed b s cs
unfolding weigh_all
weigh_all-Weighed [] b s h w = (b, s, refl, ground arith, ground arith, tt, h)
weigh_all-Weighed ((c, l) ∷ cs) b s h w = elim (Bool-cases (ltb_ℤ b c.priority)) [
  | inl greater ↦
      let (best, sum, e, total, above, all, pos) =
        weigh_all-Weighed cs c.priority (0 + c.weight) (omega (arith, w.0)) w.1 in
      (
        best,
        sum,
        step (weigh-greater b s c greater) ∙ e,
        ground arith,
        ground arith,
        (above, all),
        pos,
      )
  | inr not_greater ↦ elim (Bool-cases (eqb_ℤ b c.priority)) [
    | inl equal ↦
        let (best, sum, e, total, above, all, pos) =
          weigh_all-Weighed cs b (s + c.weight) (omega arith) w.1 in
        (
          best,
          sum,
          step (weigh-equal b s c not_greater equal) ∙ e,
          ground arith,
          above,
          (ground arith, all),
          pos,
        )
    | inr less ↦
        let (best, sum, e, total, above, all, pos) = weigh_all-Weighed cs b s h w.1 in
        (
          best,
          sum,
          step (weigh-less b s c not_greater less) ∙ e,
          ground arith,
          above,
          (ground arith, all),
          pos,
        )
  ]
]
  where
    step : {v w : ℤ × ℕ} → v ≡ w → weigh_all (some v) cs ≡ weigh_all (some w) cs
    step h = ap (λ v. weigh_all (some v) cs) h

-- Where the second loop stops, for a number within the sum of the weights.
pick-some :
    (cs : List Candidate) (best : ℤ) (r p : ℕ)
    → p < r
    → r ≤ p + sum_at best cs
    → (c : Candidate) × (pick best r p cs ≡ some c) × In c cs × (eqb_ℤ c.0.priority best ≡ true)
unfolding pick
pick-some [] best r p h k = absurd (omega arith)
pick-some ((c, l) ∷ cs) best r p h k = elim (Bool-cases (eqb_ℤ c.priority best)) [
  | inl equal ↦ elim (Bool-cases (leb r (p + c.weight))) [
    | inl within ↦ ((c, l), rw equal (rw within refl), inl refl, equal)
    | inr beyond ↦
        let (d, e, found, same) =
          pick-some cs best r (p + c.weight) (ground arith) (ground arith) in
        (d, rw equal (rw beyond e), inr found, same)
  ]
  | inr other ↦
      let (d, e, found, same) = pick-some cs best r p h (ground arith) in
      (d, rw other e, inr found, same)
]

-- The last task of a sorted queue comes before no other.
last_task-best :
    (t : TaskInfo) (l : List TaskInfo)
    → IsSorted task_lt (t ∷ l)
    → (u : TaskInfo) × (last_task (t ∷ l) ≡ some u)
      × In u (t ∷ l)
      × All (λ v. task_lt u v ≡ false) (t ∷ l)
last_task-best t [] s = (t, refl, inl refl, (task_lt-IsOrder.irrefl t, tt))
last_task-best t (v ∷ l) s =
    let (u, e, found, best) = last_task-best v l s.1 in
    (u, ground arith, inr found, (All-In (λ w. task_lt w t ≡ false) (v ∷ l) u s.0 found, best))

-- `random.randint(lo, hi)` lies between its bounds.
abbrev pub InRange : (ℕ → ℕ → ℕ) → Type 0
InRange randint = (lo hi : ℕ) → lo ≤ hi → (lo ≤ randint lo hi) × (randint lo hi ≤ hi)

-- A contest's queue, while it has an entry: tasks, in order.
abbrev pub IsQueue : Candidate → Type 0
IsQueue c = (c.1 ≢ []) × IsSorted task_lt c.1

IsBest-same : (a b : ℤ) (cs : List Candidate) → eqb_ℤ b a ≡ true → IsBest a cs → IsBest b cs
IsBest-same a b cs e best =
    All-mono (λ c. ltb_ℤ a c.0.priority ≡ false) (λ c. ltb_ℤ b c.0.priority ≡ false) cs
      (λ c h. ground arith) best

last_of_queue :
    (l : List TaskInfo)
    → l ≢ []
    → IsSorted task_lt l
    → (u : TaskInfo) × (last_task l ≡ some u) × In u l × All (λ v. task_lt u v ≡ false) l
last_of_queue [] n s = absurd (n refl)
last_of_queue (t ∷ l) n s = last_task-best t l s

choose_from-step :
    (randint : ℕ → ℕ → ℕ) (cs : List Candidate) {best : ℤ} {sum : ℕ} {c : Candidate} {t : TaskInfo}
    → weigh_all none cs ≡ some (best, sum)
    → pick best (randint 1 sum) 0 cs ≡ some c
    → last_task c.1 ≡ some t
    → choose_from randint cs ≡ ok t
unfolding choose_from
choose_from-step randint cs e f g = ground arith

-- With at least one contest, positive weights and queues that are in order, a task is returned. Its
-- contest has the greatest priority of all that have queued tasks, and in the contest's queue no
-- task has a greater priority, nor the same priority and a greater age.
pub choose_from-IsBest :
    (randint : ℕ → ℕ → ℕ) (cs : List Candidate)
    → InRange randint
    → cs ≢ []
    → IsWeighted cs
    → All IsQueue cs
    → (c : Candidate) × (t : TaskInfo) × (choose_from randint cs ≡ ok t)
      × In c cs
      × IsBest c.0.priority cs
      × In t c.1
      × All (λ u. task_lt t u ≡ false) c.1
unfolding weigh_all weigh
choose_from-IsBest randint [] range n w q = absurd (n refl)
choose_from-IsBest randint ((c, l) ∷ cs) range n w q =
    let (best, sum, e, total, above, all, pos) =
      weigh_all-Weighed cs c.priority (0 + c.weight) (omega (arith, w.0)) w.1 in
    let (low, high) = range 1 sum pos in
    let (d, f, found, same) =
      pick-some ((c, l) ∷ cs) best (randint 1 sum) 0 (omega arith) (ground arith) in
    let queue = All-In IsQueue ((c, l) ∷ cs) d q found in
    let (t, g, inside, foremost) = last_of_queue d.1 queue.0 queue.1 in
    (
      d,
      t,
      choose_from-step randint ((c, l) ∷ cs) (first c l cs e) f g,
      found,
      IsBest-same best d.0.priority ((c, l) ∷ cs) same (above, all),
      inside,
      foremost,
    )
  where
    first :
        (c : ContestInfo) (l : List TaskInfo) (cs : List Candidate) {r : ℤ × ℕ}
        → weigh_all (some (c.priority, 0 + c.weight)) cs ≡ some r
        → weigh_all none ((c, l) ∷ cs) ≡ some r
    first c l cs e = e
