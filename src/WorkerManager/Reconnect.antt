-- ===== src/WorkerManager/Reconnect.antt =====
-- Two connections of one name in workermanager.py: newWorker looks the name up before it waits for
-- the answer to get_running, and not again after it.
use sioworkers.Prelude.{
  ok, ℕ, suc, ◌≡◌, refl, none, some, [], ◌∷◌, arith, lookup, insert, erase, IsDict, lookup-insert,
  lookup-erase, insert-IsDict, raised, key_error, Dict, ap, ◌∙◌,
}
use sioworkers.WorkerManager.Data.{Worker}
use sioworkers.WorkerManager.{
  Manager, Info, begins, loses, step, run, begin_new_worker, finish_new_worker, worker_lost,
  fail_all, idle_worker, update_stats, notify,
}

lookup-twice {ℓ} :
    {A : Type ℓ} (key : ℕ) (a b : A) (d : Dict A)
    → lookup key (insert key b (insert key a d)) ≡ some b
lookup-twice key a b d = rw (lookup-insert key key b (insert key a d)) (ground arith)

lookup-erase_self {ℓ} :
    {A : Type ℓ} (key : ℕ) (d : Dict A) → IsDict d → lookup key (erase key d) ≡ none
lookup-erase_self key d valid = rw (lookup-erase key key d valid) (ground arith)

begins_away :
    (name connection : ℕ) (m : Manager)
    → lookup name m.workers ≡ none
    → step (begins name connection) m ≡ m
unfolding step begin_new_worker
begins_away name connection m e = rw (step, begin_new_worker, e) refl

lost_unknown :
    (name : ℕ) (m : Manager)
    → lookup name m.worker_data ≡ none
    → (worker_lost name m).0 ≡ raised key_error
unfolding worker_lost
lost_unknown name m e = rw e refl

-- workerLost on a worker with no tasks.
lost_idle :
    (name connection r : ℕ) (w : Worker) (m : Manager)
    → lookup name m.worker_data ≡ some r
    → lookup r m.objects ≡ some w
    → lookup name m.workers ≡ some connection
    → w.tasks ≡ []
    → ((worker_lost name m).1.workers ≡ erase name m.workers)
      × ((worker_lost name m).1.worker_data ≡ erase name m.worker_data)
      × ((worker_lost name m).1.dropped ≡ m.dropped)
unfolding worker_lost fail_all update_stats notify
lost_idle name connection r w m e f g t = rw (e, f, g, t) (refl, refl, refl)

-- When two workers of one name, which is not connected yet, both begin to connect before the first
-- has answered get_running, both are accepted, and the second stands in place of the first. When
-- the first then goes away the name is gone with it: the second is still connected, since neither
-- connection was closed, but no job can be sent to it, and workerLost raises KeyError when it goes.
pub double_connection :
    (name first second : ℕ) (one two : Info) (m : Manager)
    → lookup name m.workers ≡ none
    → IsDict m.workers
    → IsDict m.worker_data
    → let begun = run (begins name first ∷ begins name second ∷ []) m in
      let accepted = finish_new_worker name first [] (some one) begun in
      let replaced = finish_new_worker name second [] (some two) accepted.1 in
      let n = step (loses name) replaced.1 in
      (accepted.0 ≡ ok tt)
      × (lookup name accepted.1.workers ≡ some first)
      × (replaced.0 ≡ ok tt)
      × (lookup name replaced.1.workers ≡ some second)
      × (lookup name n.workers ≡ none)
      × (n.dropped ≡ m.dropped)
      × ((worker_lost name n).0 ≡ raised key_error)
unfolding run step finish_new_worker update_stats notify
double_connection name first second one two m away valid valid' =
    let n2 : Manager =
      (finish_new_worker name second [] (some two)
        (finish_new_worker name first [] (some one) m).1).1 in
    let (gone, gone', kept) =
      lost_idle name second (suc m.next_object) (idle_worker two) n2
        (lookup-twice name m.next_object (suc m.next_object) m.worker_data)
        (unfold step in
          rw
            (lookup-insert (suc m.next_object) (suc m.next_object) (idle_worker two)
              (insert m.next_object (idle_worker one) m.objects))
            (ground arith))
        (lookup-twice name first second m.workers) refl in
    rw (run, begins_away name first m away, begins_away name second m away)
      (
        refl,
        rw (lookup-insert name name first m.workers) (ground arith),
        refl,
        lookup-twice name first second m.workers,
        ap (lookup name) gone
            ∙ lookup-erase_self name (insert name second (insert name first m.workers))
                (insert-IsDict name second _ (insert-IsDict name first m.workers valid)),
        kept,
        lost_unknown name (worker_lost name n2).1 (
            ap (lookup name) gone'
            ∙ lookup-erase_self name
                (insert name (suc m.next_object) (insert name m.next_object m.worker_data))
                (insert-IsDict name _ _ (insert-IsDict name _ m.worker_data valid'))),
      )
