-- ===== src/Scheduler/Blocking/Suffices.antt =====
-- `_getNumberOfBlockedAnyCpuWorkers` against its description: the least number of any-cpu workers
-- such that any so many of them can process all waiting tasks.
use sioworkers.Prelude.{
  ℕ, ◌+◌, if◌then◌else◌, ◌≤◌, ◌<◌, ◌≡◌, refl, sym, ap, ◌∙◌, ◌≢◌, subst, Result, ok, length-map, ◌⊎◌,
  inl, inr, true, false, Option, none, some, List, [], ◌∷◌, ◌++◌, drop, take-append-drop, map,
  arith, ltb, leb, length, take, length-take, Bool-cases, Option-cases, Dict,
}
use sioworkers.Prelude.Inserted.{All, All-In, All-mono, All-Inserted, In}
use sioworkers.Sorted.{
  IsSorted, All-take, insert_sorted-Inserted, insert_sorted-IsSorted, ltb-IsOrder,
}
use sioworkers.Scheduler.Task.{TaskInfo}
use sioworkers.Scheduler.Waiting.{WaitingQueue}
use sioworkers.Scheduler.Waiting.Fifo.{IsValid, ram_of}
use sioworkers.Prelude.Perms.{length-perm, length-nil}
use sioworkers.WorkerManager.Data.{Worker, rams, min_or_none, worker_stats}
use sioworkers.Scheduler.Blocking.{
  sort, last, mb, count_blocked, any_cpu_rams, get_number_of_blocked_any_cpu_workers,
}
use sioworkers.Scheduler.Blocking.Matching.{CanProcess, done}
use sioworkers.Scheduler.Blocking.Minimal.{Least, count_blocked-Outcome}
use sioworkers.Scheduler.Blocking.Choice.{
  Chosen, Chosen-take, Chosen-Dominated, CanProcess-Dominated, CanProcess-length, CanProcess-easy,
  CanProcess-append,
}

All-sort : (P : ℕ → Type 0) (l : List ℕ) → All P l → All P (sort l)
All-sort P [] a = tt
All-sort P (x ∷ l) a = All-Inserted P (insert_sorted-Inserted ltb x (sort l)) a.0 (All-sort P l a.1)

sort-IsSorted : (l : List ℕ) → IsSorted ltb (sort l)
sort-IsSorted [] = tt
sort-IsSorted (x ∷ l) = insert_sorted-IsSorted ltb x (sort l) ltb-IsOrder (sort-IsSorted l)

min_or_none-nil : (l : List ℕ) → min_or_none l ≡ none → l ≡ []
min_or_none-nil [] e = refl
min_or_none-nil (x ∷ l) e = ground arith

min_or_none-le : (l : List ℕ) (m : ℕ) → min_or_none l ≡ some m → All (λ x. mb m ≤ x) (map mb l)
min_or_none-le [] m e = tt
min_or_none-le (x ∷ l) m e = elim (Option-cases (min_or_none l)) [
  | inl none_left ↦ rw (min_or_none-nil l none_left) (ground arith, tt)
  | inr (y, f) ↦ (
    ground arith,
    All-mono (λ u. mb y ≤ u) (λ u. mb m ≤ u) (map mb l) (λ u h. ground arith)
        (min_or_none-le l y f),
  )
]

last-nil : (l : List ℕ) → last l ≡ none → l ≡ []
last-nil [] e = refl
last-nil (x ∷ l) e = ground arith

last-In : (l : List ℕ) (y : ℕ) → last l ≡ some y → In y l
last-In [] y e = cc
last-In (x ∷ l) y e = elim (Option-cases (last l)) [
  | inl none_left ↦ inl (ground arith)
  | inr (z, f) ↦ inr (last-In l y (ground arith))
]

last_is_largest : (l : List ℕ) (y : ℕ) → IsSorted ltb l → last l ≡ some y → All (λ x. x ≤ y) l
last_is_largest [] y s e = tt
last_is_largest (x ∷ l) y s e = elim (Option-cases (last l)) [
  | inl none_left ↦ rw (last-nil l none_left) (ground arith, tt)
  | inr (z, f) ↦ (
    ground (arith, All-In (λ u. ltb u x ≡ false) l z s.0 (last-In l z f)),
    subst (λ v. All (λ u. u ≤ v) l) (ground arith) (last_is_largest l z s.1 f),
  )
]

abbrev Verdict : List ℕ → List ℕ → ℕ → Type 0
Verdict ws ts n = (CanProcess ws ts → Least ts ws n) × (¬ CanProcess ws ts → length ws ≤ n)

Least-choices :
    {ws ts : List ℕ} {n : ℕ}
    → IsSorted ltb ws
    → Least ts ws n
    → (n ≤ length ws)
      × ((s : List ℕ) → Chosen s ws → length s ≡ n → CanProcess s ts)
      × ((k : ℕ) → k < n → Chosen (take k ws) ws × ¬ CanProcess (take k ws) ts)
Least-choices {ws} {ts} {n} sorted found =
    (found.fits, any_choice, λ k h. (Chosen-take k ws, found.least k h))
  where
    any_choice : (c : List ℕ) → Chosen c ws → length c ≡ n → CanProcess c ts
    any_choice c chosen e =
        CanProcess-Dominated (Chosen-Dominated ws c sorted chosen) (rw e found.enough)

-- No task waits, or no worker is there.
Verdict-nil : (ws : List ℕ) → Verdict ws [] 0
Verdict-nil ws = (
  λ p. record { fits = omega arith; enough = done; least = λ k h. absurd (omega arith) },
  λ no_match. absurd (no_match done),
)

Verdict-no_worker : (ts : List ℕ) → Verdict [] ts 0
Verdict-no_worker ts = (
  λ p. record { fits = omega arith; enough = p; least = λ k h. absurd (omega arith) },
  λ no_match. omega arith,
)

-- The short cut: every worker fits every task.
Verdict-easy :
    (bound : ℕ) (ws ts : List ℕ)
    → All (λ w. bound ≤ w) ws
    → All (λ t. t ≤ bound) ts
    → Verdict ws ts (length ts)
Verdict-easy bound ws ts large small = (
  λ p. record {
    fits = CanProcess-length p;
    enough =
        CanProcess-easy bound (take (length ts) ws) ts
          (All-take (λ w. bound ≤ w) (length ts) ws large) small
          (omega (arith, length-take (length ts) ws, CanProcess-length p));
    least = λ k h q. absurd (omega (arith, CanProcess-length q, length-take k ws));
  },
  λ no_match. too_many (λ h. no_match (CanProcess-easy bound ws ts large small h)),
)
  where
    too_many : ¬ (length ts ≤ length ws) → length ws ≤ length ts
    too_many h = omega arith

Verdict-loop :
    (ws ts : List ℕ)
    → IsSorted ltb ts
    → IsSorted ltb ws
    → Verdict ws ts (count_blocked (length ws) ts ws 0)
Verdict-loop ws ts st sw = decide (count_blocked-Outcome (length ws) ts ws 0 st sw)
  where
    decide :
        ((n : ℕ) × (count_blocked (length ws) ts ws 0 ≡ 0 + n) × Least ts ws n)
          ⊎ ((count_blocked (length ws) ts ws 0 ≡ length ws) × ¬ CanProcess ws ts)
        → Verdict ws ts (count_blocked (length ws) ts ws 0)
    decide (inl (n, e, l)) = (
      λ p. subst (Least ts ws) (omega (arith, e)) l,
      λ no_match.
          absurd
            (no_match (subst (λ v. CanProcess v ts) (take-append-drop n ws) (extend l.enough))),
    )
      where
        extend : CanProcess (take n ws) ts → CanProcess (take n ws ++ drop n ws) ts
        extend p = CanProcess-append (take n ws) (drop n ws) p
    decide (inr (e, no_match)) = (λ p. absurd (no_match p), λ _. omega (arith, e))

-- The code returns a number, and that number is right.
abbrev Answers : List ℕ → List ℕ → Result ℕ → Type 0
Answers ws ts r = (n : ℕ) × (r ≡ ok n) × Verdict ws ts n

Answers-busy :
    (workers : Dict Worker) (least largest count : ℕ) (waiting : List ℕ)
    → IsSorted ltb waiting
    → min_or_none (rams true workers) ≡ some least
    → last waiting ≡ some largest
    → count ≡ length waiting
    → Verdict (any_cpu_rams workers) waiting (
        if leb largest (mb least)
        then count
        else count_blocked (length (any_cpu_rams workers)) waiting (any_cpu_rams workers) 0)
unfolding any_cpu_rams
Answers-busy workers least largest count waiting s e f c =
    elim (Bool-cases (leb largest (mb least))) [
      | inl easy ↦
          rw (easy, c)
            (Verdict-easy largest (any_cpu_rams workers) waiting
              (All-mono (λ w. mb least ≤ w) (λ w. largest ≤ w) (any_cpu_rams workers)
                (λ w h. ground arith)
                (All-sort (λ w. mb least ≤ w) (map mb (rams true workers))
                  (min_or_none-le (rams true workers) least e)))
              (last_is_largest waiting largest s f))
      | inr hard ↦ rw hard (
          Verdict-loop (any_cpu_rams workers) waiting s
            (sort-IsSorted (map mb (rams true workers))))
    ]

same_length : (q : WaitingQueue) → IsValid q → length q.tasks ≡ length q.tasks_required_ram
same_length q v = sym (length-map q.tasks ram_of) ∙ length-perm v.same

no_rams : (q : WaitingQueue) → IsValid q → q.tasks ≡ [] → q.tasks_required_ram ≡ []
no_rams q v e = length-nil q.tasks_required_ram (sym (rw e at (same_length q v)))

some_ram :
    (q : WaitingQueue)
    → IsValid q
    → (t : TaskInfo) (l : List TaskInfo) → q.tasks ≡ t ∷ l
    → q.tasks_required_ram ≢ []
some_ram q v t l e f = absurd (omega (arith, ap length e, ap length f, same_length q v))

get_number-busy :
    (workers : Dict Worker) (q : WaitingQueue) (least largest : ℕ) (t : TaskInfo)
    (l : List TaskInfo)
    → last q.tasks_required_ram ≡ some largest
    → q.tasks ≡ t ∷ l
    → get_number_of_blocked_any_cpu_workers workers (some least) q
      ≡ ok (
          if leb largest (mb least)
          then length q.tasks
          else count_blocked
              (length (any_cpu_rams workers))
              q.tasks_required_ram
              (any_cpu_rams workers)
              0)
unfolding get_number_of_blocked_any_cpu_workers
get_number-busy workers q least largest t l f g = ground arith

Answers-cases :
    (workers : Dict Worker) (q : WaitingQueue) (m y : Option ℕ) (l : List TaskInfo)
    → IsValid q
    → min_or_none (rams true workers) ≡ m
    → last q.tasks_required_ram ≡ y
    → q.tasks ≡ l
    → Answers
        (any_cpu_rams workers)
        q.tasks_required_ram
        (get_number_of_blocked_any_cpu_workers workers m q)
unfolding get_number_of_blocked_any_cpu_workers
Answers-cases workers q none y l v e f g =
    (0, refl, rw (min_or_none-nil (rams true workers) e) (Verdict-no_worker q.tasks_required_ram))
Answers-cases workers q (some least) y [] v e f g = (
  0,
  rw (g, get_number_of_blocked_any_cpu_workers) refl,
  rw (no_rams q v g) (Verdict-nil (any_cpu_rams workers)),
)
Answers-cases workers q (some least) none (t ∷ l) v e f g =
    absurd (some_ram q v t l g (last-nil q.tasks_required_ram f))
Answers-cases workers q (some least) (some largest) (t ∷ l) v e f g = (
  _,
  get_number-busy workers q least largest t l f g,
  Answers-busy workers least largest (length q.tasks) q.tasks_required_ram v.ordered e f
      (same_length q v),
)

-- The number for a valid queue.
answer :
    (workers : Dict Worker) (q : WaitingQueue)
    → IsValid q
    → Answers (any_cpu_rams workers) q.tasks_required_ram (
        get_number_of_blocked_any_cpu_workers workers
          (worker_stats workers).min_any_cpu_worker_ram
          q)
unfolding worker_stats
answer workers q v =
    Answers-cases workers q (min_or_none (rams true workers)) (last q.tasks_required_ram) q.tasks v
      refl refl refl

any_cpu_rams-IsSorted : (workers : Dict Worker) → IsSorted ltb (any_cpu_rams workers)
unfolding any_cpu_rams
any_cpu_rams-IsSorted workers = sort-IsSorted (map mb (rams true workers))

-- When the any-cpu workers could process all waiting tasks of a valid queue side by side, the code
-- returns a number that is no more than there are such workers. Any so many of them can process the
-- tasks, and for every smaller number there are so many workers that cannot, the smallest ones.
pub blocked_suffices :
    (workers : Dict Worker) (q : WaitingQueue)
    → IsValid q
    → CanProcess (any_cpu_rams workers) q.tasks_required_ram
    → (n : ℕ) × (get_number_of_blocked_any_cpu_workers workers
          (worker_stats workers).min_any_cpu_worker_ram
          q
        ≡ ok n)
      × (n ≤ length (any_cpu_rams workers))
      × ((s : List ℕ)
          → Chosen s (any_cpu_rams workers)
          → length s ≡ n
          → CanProcess s q.tasks_required_ram)
      × ((k : ℕ)
          → k < n
          → Chosen (take k (any_cpu_rams workers)) (any_cpu_rams workers)
            × ¬ CanProcess (take k (any_cpu_rams workers)) q.tasks_required_ram)
blocked_suffices workers q v p =
    let (n, e, verdict) = answer workers q v in
    let (fits, any_choice, fewer) = Least-choices (any_cpu_rams-IsSorted workers) (verdict.0 p) in
    (n, e, fits, any_choice, fewer)

-- When the any-cpu workers could not process all waiting tasks of a valid queue side by side, the
-- code returns a number that is no less than that of all any-cpu workers.
pub blocked_all :
    (workers : Dict Worker) (q : WaitingQueue)
    → IsValid q
    → ¬ CanProcess (any_cpu_rams workers) q.tasks_required_ram
    → (n : ℕ) × (get_number_of_blocked_any_cpu_workers workers
          (worker_stats workers).min_any_cpu_worker_ram
          q
        ≡ ok n)
      × (length (any_cpu_rams workers) ≤ n)
blocked_all workers q v no_match =
    let (n, e, verdict) = answer workers q v in (n, e, verdict.1 no_match)
