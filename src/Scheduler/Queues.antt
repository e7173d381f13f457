-- ===== src/Scheduler/Queues.antt =====
-- TasksQueues of sio/sioworkersd/scheduler/prioritizing.py: for each contest a sorted set of its
-- queued tasks, by task priority and age. A contest is known by its uid; its priority and weight
-- are read from the scheduler's table of contests.
pub mod Order
pub mod Choice
pub mod Update
pub mod Share
use sioworkers.Prelude.{
  ℕ, zero, suc, ◌+◌, Bool, true, false, not, Option, none, some, List, [], ◌∷◌, leb, ltb, ◌==◌,
  if◌then◌else◌, Dict, lookup, insert, erase, Action, Result, ok, raised, key_error, index_error,
  assertion_error, pure, raise, gets, modify, lift, or_raise, require, ◌>>=◌, ◌>>◌,
}
use sioworkers.Prelude.Int.{ℤ, ltb_ℤ}
use sioworkers.Sorted.{SortedSet}
use sioworkers.Scheduler.Task.{TaskInfo, ContestInfo, task_lt}
use sioworkers.Scheduler.Waiting.{has_task}

-- `self.queues`, in the order in which the contests came.
abbrev pub Queues : Type 0
Queues = Dict (List TaskInfo)

-- `self.queues.setdefault(contest, SortedSet(...))`
set_default : ℕ → Action Queues (List TaskInfo)
set_default contest qs = elim (lookup contest qs) [
  | none ↦ (ok [], insert contest [] qs)
  | some l ↦ (ok l, qs)
]

module _ (sorted : SortedSet TaskInfo) where
  unfoldable pub add_task : TaskInfo → Action Queues (Unit {0})
  unfolding set_default
  add_task t = do
    contest_queue ← set_default t.contest
    require (not (has_task t contest_queue)) assertion_error
    modify (insert t.contest (sorted.add task_lt t contest_queue))

  -- An emptied queue is dropped.
  store_or_drop : ℕ → List TaskInfo → Queues → Queues
  store_or_drop contest [] qs = erase contest qs
  store_or_drop contest (t ∷ l) qs = insert contest (t ∷ l) qs

  unfoldable pub del_task : TaskInfo → Action Queues (Unit {0})
  unfolding store_or_drop
  del_task t = do
    qs ← gets (λ qs. qs)
    contest_queue ← or_raise (lookup t.contest qs) key_error
    left ← or_raise (sorted.remove task_lt t contest_queue) key_error
    modify (store_or_drop t.contest left)

abbrev pub Candidate : Type 0
Candidate = ContestInfo × List TaskInfo

-- The contests that have queued tasks, in the order of the dict; every key is a known contest.
unfoldable pub candidates : Dict ContestInfo → Queues → Option (List Candidate)
candidates contests [] = some []
candidates contests ((uid, l) ∷ qs) = elim (lookup uid contests) [
  | none ↦ none
  | some c ↦ elim (candidates contests qs) [ none ↦ none | some cs ↦ some ((c, l) ∷ cs) ]
]

abbrev pub eqb_ℤ : ℤ → ℤ → Bool
eqb_ℤ a b = if ltb_ℤ a b then false else if ltb_ℤ b a then false else true

-- One turn of the first loop: the greatest priority so far and the sum of its contests' weights.
unfoldable pub weigh : Option (ℤ × ℕ) → ContestInfo → ℤ × ℕ
weigh none c = (c.priority, 0 + c.weight)
weigh (some (best, sum)) c =
    if ltb_ℤ best c.priority
    then (c.priority, 0 + c.weight)
    else if eqb_ℤ best c.priority
    then (best, sum + c.weight)
    else (best, sum)

unfoldable pub weigh_all : Option (ℤ × ℕ) → List Candidate → Option (ℤ × ℕ)
unfolding weigh
weigh_all acc [] = acc
weigh_all acc ((c, l) ∷ cs) = weigh_all (some (weigh acc c)) cs

-- The second loop.
unfoldable pub pick : ℤ → ℕ → ℕ → List Candidate → Option Candidate
pick best random_value prefix_sum [] = none
pick best random_value prefix_sum ((c, l) ∷ cs) =
    let sum = prefix_sum + c.weight in
    let next = pick best random_value sum cs in
    let skipped = pick best random_value prefix_sum cs in
    if eqb_ℤ c.priority best then (if leb random_value sum then some (c, l) else next) else skipped

-- `queue[-1]`
abbrev pub last_task : List TaskInfo → Option TaskInfo
last_task [] = none
last_task (t ∷ l) = elim (last_task l) [ none ↦ some t | some u ↦ some u ]

-- `randint lo hi` is the number drawn. `assert self.queues` fails on no contest.
unfoldable pub choose_from : (ℕ → ℕ → ℕ) → List Candidate → Result TaskInfo
unfolding weigh_all pick
choose_from randint cs = elim (weigh_all none cs) [
  | none ↦ raised assertion_error
  | some (best, sum) ↦ elim (pick best (randint 1 sum) 0 cs) [
    | none ↦ raised key_error
    | some (c, l) ↦ elim (last_task l) [ none ↦ raised index_error | some t ↦ ok t ]
  ]
]

unfoldable pub choose_task : (ℕ → ℕ → ℕ) → Dict ContestInfo → Queues → Result TaskInfo
unfolding candidates choose_from
choose_task randint contests qs = elim (candidates contests qs) [
  | none ↦ raised key_error
  | some cs ↦ choose_from randint cs
]
