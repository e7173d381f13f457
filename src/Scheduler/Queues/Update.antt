-- ===== src/Scheduler/Queues/Update.antt =====
-- Queueing a task and taking it back.
use sioworkers.Prelude.{
  ℕ, ◌≡◌, refl, sym, ap, ◌∙◌, subst, ◌≢◌, inl, inr, false, Option, none, some, List, [], ◌∷◌, arith,
  ◌==◌, Bool-cases, Option-cases, lookup, insert, erase, IsDict, lookup-insert, lookup-erase,
  insert-IsDict, erase-IsDict, ok,
}
use sioworkers.Prelude.Inserted.{
  In, NotIn, Inserted, here, there, In-Inserted, Inserted-diamond, All-In,
}
use sioworkers.Sorted.{SortedSet, IsSorted, IsSorted-Inserted_less}
use sioworkers.Scheduler.Task.{TaskInfo, task_lt}
use sioworkers.Scheduler.Waiting.{has_task}
use sioworkers.Scheduler.Queues.{Queues, add_task, del_task, store_or_drop}
use sioworkers.Scheduler.Queues.Order.{task_lt-IsOrder}

-- Every entry is a queue in order, and none is empty.
pub record IsQueues (qs : Queues) : Type 0 where
  pub keys : IsDict qs
  pub queued : (j : ℕ) (l : List TaskInfo) → lookup j qs ≡ some l → (l ≢ []) × IsSorted task_lt l

-- The queue of a contest, empty where there is no entry.
abbrev pub or_empty : Option (List TaskInfo) → List TaskInfo
or_empty none = []
or_empty (some l) = l

abbrev pub queue_of : ℕ → Queues → List TaskInfo
queue_of j qs = or_empty (lookup j qs)

NotIn-has_task : (t : TaskInfo) (l : List TaskInfo) → has_task t l ≡ false → NotIn t l
NotIn-has_task t [] h = tt
NotIn-has_task t (u ∷ l) h =
    (λ e. ground (arith, ap (λ v. v.sequence_number) e), NotIn-has_task t l (ground arith))

Inserted-unique :
    {t : TaskInfo} {a b m : List TaskInfo} → NotIn t a → Inserted t a m → Inserted t b m → a ≡ b
Inserted-unique {t} {a} n i j = elim (Inserted-diamond i j) [
  | inl (e, f) ↦ f
  | inr (z, k, l) ↦ absurd (All-In (λ y. t ≢ y) a t n (In-Inserted k) refl)
]

-- Entries without empty queues are told apart by their queues.
same_entry :
    (o p : Option (List TaskInfo))
    → ((l : List TaskInfo) → o ≡ some l → l ≢ [])
    → ((l : List TaskInfo) → p ≡ some l → l ≢ [])
    → or_empty o ≡ or_empty p
    → o ≡ p
same_entry none none n m e = refl
same_entry none (some l) n m e = absurd (m l refl (sym e))
same_entry (some l) none n m e = absurd (n l refl e)
same_entry (some l) (some k) n m e = ap some e

queue_of-IsSorted : (j : ℕ) (qs : Queues) → IsQueues qs → IsSorted task_lt (queue_of j qs)
queue_of-IsSorted j qs q = go (lookup j qs) refl
  where
    go : (o : Option (List TaskInfo)) → lookup j qs ≡ o → IsSorted task_lt (or_empty o)
    go none e = tt
    go (some l) e = (q.queued j l e).1

module _ (sorted : SortedSet TaskInfo) where
  -- What `addTask` does with a task that is not queued.
  add_task-ok :
      (t : TaskInfo) (qs : Queues)
      → has_task t (queue_of t.contest qs) ≡ false
      → (base : Queues) × (add_task sorted t qs
          ≡ (ok tt, insert t.contest (sorted.add task_lt t (queue_of t.contest qs)) base))
        × ((j : ℕ) → j ≢ t.contest → lookup j base ≡ lookup j qs)
        × (IsDict qs → IsDict base)
  unfolding add_task
  add_task-ok t qs h = elim (Option-cases (lookup t.contest qs)) [
    | inl e ↦ (
      insert t.contest [] qs,
      ground arith,
      λ j n. ground (arith, lookup-insert j t.contest [] qs),
      insert-IsDict t.contest [] qs,
    )
    | inr (l, e) ↦ (qs, ground arith, λ j n. refl, λ d. d)
  ]

-- What stands in `after` where `t` has been put into, or out of, the queue of its contest.
pub record Changes (t : TaskInfo) (less more : Queues) : Type 0 where
  pub at_contest : Inserted t (queue_of t.contest less) (queue_of t.contest more)
  pub elsewhere : (j : ℕ) → j ≢ t.contest → lookup j less ≡ lookup j more

IsQueues-insert :
    (qs base : Queues) (j : ℕ) (l : List TaskInfo)
    → IsQueues qs
    → IsDict base
    → ((k : ℕ) → k ≢ j → lookup k base ≡ lookup k qs)
    → l ≢ []
    → IsSorted task_lt l
    → IsQueues (insert j l base)
IsQueues-insert qs base j l q d same n s = record {
  keys = insert-IsDict j l base d;
  queued = λ k m e. elim (Bool-cases (k == j)) [
    | inl hit ↦
        let f : l ≡ m = ground (arith, lookup-insert k j l base) in
        subst (λ v. (v ≢ []) × IsSorted task_lt v) f (n, s)
    | inr miss ↦
        q.queued k m (sym (same k (ground arith)) ∙ ground (arith, lookup-insert k j l base))
  ];
}

erased : (j : ℕ) (qs : Queues) → IsDict qs → lookup j (erase j qs) ≡ none
erased j qs d = ground (arith, lookup-erase j j qs d)

untouched : (k j : ℕ) (qs : Queues) → IsDict qs → k ≢ j → lookup k (erase j qs) ≡ lookup k qs
untouched k j qs d n = ground (arith, lookup-erase k j qs d)

IsQueues-erase : (qs : Queues) (j : ℕ) → IsQueues qs → IsQueues (erase j qs)
IsQueues-erase qs j q = record {
  keys = erase-IsDict j qs q.keys;
  queued = λ k m e. elim (Bool-cases (k == j)) [
    | inl hit ↦ ground (arith, lookup-erase k j qs q.keys)
    | inr miss ↦ q.queued k m (sym (untouched k j qs q.keys (ground arith)) ∙ e)
  ];
}

queue_of-insert : (j : ℕ) (l : List TaskInfo) (qs : Queues) → queue_of j (insert j l qs) ≡ l
queue_of-insert j l qs = ap or_empty found
  where
    found : lookup j (insert j l qs) ≡ some l
    found = ground (arith, lookup-insert j j l qs)

Inserted-ne-nil : {t : TaskInfo} {l m : List TaskInfo} → Inserted t l m → m ≢ []
Inserted-ne-nil here e = cc
Inserted-ne-nil (there i) e = cc

module _ (sorted : SortedSet TaskInfo) where
  -- A task that is not queued is queued: the call succeeds, the queues stay in order, the task is
  -- put into the queue of its contest, and nothing else changes.
  pub add_task_lem :
      (t : TaskInfo) (qs : Queues)
      → IsQueues qs
      → has_task t (queue_of t.contest qs) ≡ false
      → ((add_task sorted t qs).0 ≡ ok tt)
        × IsQueues (add_task sorted t qs).1
        × Changes t qs (add_task sorted t qs).1
  add_task_lem t qs q h =
      let (base, e, same, dict) = add_task-ok sorted t qs h in
      let l = sorted.add task_lt t (queue_of t.contest qs) in
      let ordered = queue_of-IsSorted t.contest qs q in
      let i =
        sorted.add-Inserted task_lt t (queue_of t.contest qs) task_lt-IsOrder ordered
          (NotIn-has_task t (queue_of t.contest qs) h) in
      (
        ap (λ r. r.0) e,
        subst (λ r. IsQueues r.1) (sym e)
            (IsQueues-insert qs base t.contest l q (dict q.keys) same (Inserted-ne-nil i)
              (sorted.add-IsSorted task_lt t (queue_of t.contest qs) task_lt-IsOrder ordered)),
        subst (λ r. Changes t qs r.1) (sym e)
            (record {
              at_contest =
                  subst (Inserted t (queue_of t.contest qs))
                    (sym (queue_of-insert t.contest l base)) i;
              elsewhere = λ j n. ground (arith, lookup-insert j t.contest l base, same j n);
            }),
      )

  -- The entry that `delTask` writes back.
  store_or_drop-IsQueues :
      (j : ℕ) (l : List TaskInfo) (qs : Queues)
      → IsQueues qs
      → IsSorted task_lt l
      → IsQueues (store_or_drop sorted j l qs)
        × (queue_of j (store_or_drop sorted j l qs) ≡ l)
        × ((k : ℕ) → k ≢ j → lookup k (store_or_drop sorted j l qs) ≡ lookup k qs)
  unfolding store_or_drop
  store_or_drop-IsQueues j [] qs q s =
      (IsQueues-erase qs j q, ap or_empty (erased j qs q.keys), λ k n. untouched k j qs q.keys n)
  store_or_drop-IsQueues j (t ∷ l) qs q s = (
    IsQueues-insert qs qs j (t ∷ l) q q.keys (λ k n. refl) (λ e. cc) s,
    queue_of-insert j (t ∷ l) qs,
    λ k n. ground (arith, lookup-insert k j (t ∷ l) qs),
  )

  lookup-queue_of :
      (t : TaskInfo) (j : ℕ) (qs : Queues)
      → In t (queue_of j qs)
      → lookup j qs ≡ some (queue_of j qs)
  lookup-queue_of t j qs h = go (lookup j qs) h
    where
      go : (o : Option (List TaskInfo)) → In t (or_empty o) → o ≡ some (or_empty o)
      go none h = elim h [ ]
      go (some l) h = refl

  del_task-step :
      (t : TaskInfo) (qs : Queues) (l m : List TaskInfo)
      → lookup t.contest qs ≡ some l
      → sorted.remove task_lt t l ≡ some m
      → del_task sorted t qs ≡ (ok tt, store_or_drop sorted t.contest m qs)
  unfolding del_task
  del_task-step t qs l m e f = ground arith

  -- A queued task is taken out: the call succeeds, the queues stay in order and none is left empty,
  -- the task is out of the queue of its contest, and nothing else changes.
  pub del_task_lem :
      (t : TaskInfo) (qs : Queues)
      → IsQueues qs
      → In t (queue_of t.contest qs)
      → ((del_task sorted t qs).0 ≡ ok tt)
        × IsQueues (del_task sorted t qs).1
        × Changes t (del_task sorted t qs).1 qs
  del_task_lem t qs q h =
      let l = queue_of t.contest qs in
      let ordered = queue_of-IsSorted t.contest qs q in
      let (m, removed, i) = sorted.remove-Inserted task_lt t l task_lt-IsOrder ordered h in
      let e = del_task-step t qs l m (lookup-queue_of t t.contest qs h) removed in
      let (valid, here_now, same) =
        store_or_drop-IsQueues t.contest m qs q (IsSorted-Inserted_less task_lt i ordered) in
      (
        ap (λ r. r.0) e,
        subst (λ r. IsQueues r.1) (sym e) valid,
        subst (λ r. Changes t r.1 qs) (sym e)
            (record {
              at_contest = subst (λ v. Inserted t v l) (sym here_now) i;
              elsewhere = same;
            }),
      )

  same_queue :
      (t : TaskInfo) (qs : Queues) (j : ℕ)
      → IsQueues qs
      → has_task t (queue_of t.contest qs) ≡ false
      → queue_of j (del_task sorted t (add_task sorted t qs).1).1 ≡ queue_of j qs
  same_queue t qs j q h =
      let (done, valid, added) = add_task_lem t qs q h in
      let (gone, _, removed) =
        del_task_lem t (add_task sorted t qs).1 valid (In-Inserted added.at_contest) in
      elim (Bool-cases (j == t.contest)) [
        | inl hit ↦
            subst (λ k. queue_of k (del_task sorted t (add_task sorted t qs).1).1 ≡ queue_of k qs)
              (ground arith)
              (sym (
                Inserted-unique (NotIn-has_task t (queue_of t.contest qs) h) added.at_contest
                  removed.at_contest))
        | inr miss ↦
            ap or_empty
              (removed.elsewhere j (ground arith) ∙ sym (added.elsewhere j (ground arith)))
      ]

  -- Queueing a task that is not queued and then deleting it succeeds, and gives every contest the entry
  -- that it had, also none.
  pub del_task-add_task :
      (t : TaskInfo) (qs : Queues)
      → IsQueues qs
      → has_task t (queue_of t.contest qs) ≡ false
      → let added = add_task sorted t qs in
        let deleted = del_task sorted t added.1 in
        (added.0 ≡ ok tt)
        × (deleted.0 ≡ ok tt)
        × IsDict deleted.1
        × ((j : ℕ) → lookup j deleted.1 ≡ lookup j qs)
  del_task-add_task t qs q h =
      let (done, valid, added) = add_task_lem t qs q h in
      let (gone, left, removed) =
        del_task_lem t (add_task sorted t qs).1 valid (In-Inserted added.at_contest) in
      (
        done,
        gone,
        left.keys,
        λ j.
            same_entry (lookup j (del_task sorted t (add_task sorted t qs).1).1) (lookup j qs)
              (λ l e. (left.queued j l e).0) (λ l e. (q.queued j l e).0) (same_queue t qs j q h),
      )
