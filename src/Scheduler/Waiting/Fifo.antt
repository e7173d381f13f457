-- ===== src/Scheduler/Waiting/Fifo.antt =====
-- The queue of waiting tasks keeps arrival order, and its sorted list holds their RAM.
use mathlib.Core.List.Perm
use mathlib.Core.List.{Perm, mem-cons_self, map-append, perm_append_singleton}
use sioworkers.Prelude.{
  ℕ, ◌≡◌, refl, ap, subst, ◌∙◌, if◌then◌else◌, true, false, Option, none, some, List, [], ◌∷◌, ◌++◌,
  map, ltb, Bool-cases, inl, inr, Result, ok, raised, key_error,
}
use sioworkers.Prelude.Inserted.{All, Inserted}
use sioworkers.Prelude.Perms.{Inserted-perm, In-mem}
use sioworkers.Sorted.{SortedList, IsSorted, IsSorted-Inserted_less}
use sioworkers.Scheduler.Task.{TaskInfo}
use sioworkers.Scheduler.Waiting.{
  WaitingQueue, empty_queue, same_task, has_task, del_task, contains, left, add, remove, popleft,
  take_left,
}

abbrev pub ram_of : TaskInfo → ℕ
ram_of t = t.required_ram_mb

-- The list of RAM amounts is that of the queued tasks, in order of size.
pub record IsValid (q : WaitingQueue) : Type 0 where
  pub same : Perm (map ram_of q.tasks) q.tasks_required_ram
  pub ordered : IsSorted ltb q.tasks_required_ram

pub empty_queue-IsValid : IsValid empty_queue
empty_queue-IsValid = record { same = Perm.rfl; ordered = tt }

-- A sequence number belongs to one task object.
abbrev pub Identifies : TaskInfo → List TaskInfo → Type 0
Identifies t l = All (λ u. same_task t u ≡ true → t ≡ u) l

del_task-perm :
    (t : TaskInfo) (l : List TaskInfo)
    → has_task t l ≡ true
    → Identifies t l
    → Perm (ram_of t ∷ map ram_of (del_task t l)) (map ram_of l)
del_task-perm t [] h i = cc
del_task-perm t (u ∷ l) h i = elim (Bool-cases (same_task t u)) [
  | inl e ↦ rw (e, ← i.0 e) Perm.rfl
  | inr e ↦ rw e (
      Perm.trans (Perm.swap (ram_of u) (ram_of t) _)
        (Perm.cons (ram_of u) (del_task-perm t l (rw e at h) i.1)))
]

abbrev pub or_key_error : Option TaskInfo → Result TaskInfo
or_key_error none = raised key_error
or_key_error (some t) = ok t

abbrev pub head? : List TaskInfo → Option TaskInfo
head? [] = none
head? (t ∷ l) = some t

abbrev pub tail : List TaskInfo → List TaskInfo
tail [] = []
tail (t ∷ l) = l

module _ (sorted : SortedList) where
  add-perm :
      (x : ℕ) (xs rams : List ℕ)
      → IsSorted ltb rams
      → Perm xs rams
      → Perm (xs ++ x ∷ []) (sorted.add x rams)
  add-perm x xs rams s p =
      Perm.trans (perm_append_singleton x xs)
        (Perm.trans (Perm.cons x p) (Perm.symm (Inserted-perm (sorted.add-Inserted x rams s))))

  discard-perm :
      (x : ℕ) (xs rams : List ℕ)
      → IsSorted ltb rams
      → Perm (x ∷ xs) rams
      → Perm xs (sorted.discard x rams) × IsSorted ltb (sorted.discard x rams)
  discard-perm x xs rams s p =
      (Perm.cons_inv (Perm.trans p (Inserted-perm taken)), IsSorted-Inserted_less ltb taken s)
    where
      taken : Inserted x (sorted.discard x rams) rams
      taken = sorted.discard-Inserted x rams s (In-mem x rams ((Perm.mem_iff p).0 mem-cons_self))

  -- Adding a task that is not queued, and its place at the end.
  pub add-IsValid :
      (t : TaskInfo) (q : WaitingQueue)
      → contains t q ≡ false
      → IsValid q
      → IsValid (add sorted t q).1 × ((add sorted t q).1.tasks ≡ q.tasks ++ t ∷ [])
  unfolding add contains
  add-IsValid t q h v = rw h (
    record {
      same =
          rw map-append
            (add-perm (ram_of t) (map ram_of q.tasks) q.tasks_required_ram v.ordered v.same);
      ordered = sorted.add-IsSorted (ram_of t) q.tasks_required_ram v.ordered;
    },
    refl,
  )

  -- Removing a task: it succeeds just if the task is queued, and keeps the queue valid either way.
  pub remove-IsValid :
      (t : TaskInfo) (q : WaitingQueue)
      → Identifies t q.tasks
      → IsValid q
      → IsValid (remove sorted t q).1
        × ((remove sorted t q).0 ≡ (if contains t q then ok tt else raised key_error))
  unfolding remove contains
  remove-IsValid t q i v = elim (Bool-cases (has_task t q.tasks)) [
    | inl h ↦ rw h (let (p, s) = removed h in record { same = p; ordered = s }, refl)
    | inr h ↦ rw h (v, refl)
  ]
    where
      removed :
          has_task t q.tasks ≡ true
          → Perm (map ram_of (del_task t q.tasks)) (sorted.discard (ram_of t) q.tasks_required_ram)
            × IsSorted ltb (sorted.discard (ram_of t) q.tasks_required_ram)
      removed h =
          discard-perm (ram_of t) (map ram_of (del_task t q.tasks)) q.tasks_required_ram v.ordered
            (Perm.trans (del_task-perm t q.tasks h i) v.same)

  take_left-IsValid :
      (l : List TaskInfo) (q : WaitingQueue)
      → q.tasks ≡ l
      → IsValid q
      → IsValid (take_left sorted l q).1
        × ((take_left sorted l q).1.tasks ≡ tail l)
        × ((take_left sorted l q).0 ≡ or_key_error (head? l))
  unfolding take_left
  take_left-IsValid [] q e v = (v, e, refl)
  take_left-IsValid (t ∷ l) q e v =
      let (p, s) =
        discard-perm (ram_of t) (map ram_of l) q.tasks_required_ram v.ordered
          (subst (λ ts. Perm (map ram_of ts) q.tasks_required_ram) e v.same) in
      (record { same = p; ordered = s }, refl, refl)

  -- The oldest task comes out, the others stay in order; an empty queue raises KeyError.
  pub popleft-IsValid :
      (q : WaitingQueue)
      → IsValid q
      → IsValid (popleft sorted q).1
        × ((popleft sorted q).1.tasks ≡ tail q.tasks)
        × ((popleft sorted q).0 ≡ or_key_error (left q))
  unfolding popleft left
  popleft-IsValid q v =
      let (w, rest, result) = take_left-IsValid q.tasks q refl v in
      (w, rest, result ∙ ap or_key_error (head q.tasks))
    where
      head : (l : List TaskInfo) → head? l ≡ elim l [ [] ↦ none | t ∷ r ↦ some t ]
      head [] = refl
      head (t ∷ r) = refl
