-- ===== src/WorkerManager/Steps.antt =====
-- Each step of workermanager.py keeps what Objects.antt says of the workers and the calls.
use sioworkers.Prelude.{
  sym, ℕ, ◌≡◌, refl, inl, inr, true, Option, none, some, List, [], ◌∷◌, arith, Dict, lookup, insert,
  erase, lookup-insert, insert-IsDict, erase-IsDict, Option-cases, ◌==◌, Bool-cases, Action, Result,
  ok, raised, lift, modify, ◌>>◌, worker_gone, subst,
}
use sioworkers.Ram.{Env}
use sioworkers.WorkerManager.{
  complete_picked, pick_call, completes_older, complete_older, Call, Outcome, Manager, Info,
  add_to_set, free, complete, fail_all, worker_lost, run_on_worker, refuses, Event, begins,
  finishes, loses, runs, completes, step, begin_new_worker, finish_new_worker, idle_worker, drop,
  lost_worker, notify, trap_timeout, update_stats, failed,
}
use sioworkers.WorkerManager.Data.{Worker}
use sioworkers.WorkerManager.Objects.{
  contains, WorkerOk, AllOk, holds, Held, Inv, contains-add_to_set, free-WorkerOk, run-WorkerOk,
  AllOk-insert, Held-insert, fresh-insert, Held-erase, stays_running,
}

-- What a call that ends leaves, when it was the call of `c` on the object `w`.
pub free-Inv :
    (tid : ℕ) (c : Call) (w : Worker) (m : Manager)
    → lookup tid m.deferreds ≡ some c
    → lookup c.object m.objects ≡ some w
    → Inv m
    → Inv (free tid c m).1
unfolding free
free-Inv tid c w m e f h =
    let ok_w : WorkerOk w = subst AllOk f (h.objects_ok c.object) in
    let has : contains tid w.tasks ≡ true =
      subst (λ o. holds tid o ≡ true) f (subst (λ o. Held tid o m.objects) e (h.calls_held tid)) in
    rw (free, f, e)
      (record {
        objects_ok =
            λ r. AllOk-insert m.objects c.object _ r (h.objects_ok r) (free-WorkerOk tid w ok_w);
        calls_held = λ other.
            Held-erase m.deferreds m.objects c.object tid other w _ h.deferreds_dict f refl
              (h.calls_held other);
        fresh = λ r. fresh-insert m.objects c.object r m.next_object _ (h.fresh r) (λ n. cc);
        deferreds_dict = erase-IsDict tid m.deferreds h.deferreds_dict;
        running = rw (stays_running tid w ok_w has) h.running;
        single = h.single;
      })

pub after-Inv :
    (l : Action Manager (Unit {0})) (r : Result (Unit {0})) (s : Manager)
    → Inv s
    → Inv (l s).1
    → Inv ((lift r >> l) s).1
after-Inv l (ok a) s h g = g
after-Inv l (raised e) s h g = h

-- Two statements keep the invariant if both do; one that raises ends them.
pub then-Inv :
    (k l : Action Manager (Unit {0})) (m : Manager)
    → Inv (k m).1
    → Inv (l (k m).1).1
    → Inv ((k >> l) m).1
then-Inv k l m h g = after-Inv l (k m).0 (k m).1 h g

pub free_succeeds :
    (tid : ℕ) (c : Call) (w : Worker) (m : Manager)
    → lookup tid m.deferreds ≡ some c
    → lookup c.object m.objects ≡ some w
    → (free tid c m).0 ≡ ok tt
unfolding free
free_succeeds tid c w m e f = rw (free, f, e) refl

-- The object of an unanswered call is there.
pub object_of :
    (tid : ℕ) (c : Call) (m : Manager)
    → lookup tid m.deferreds ≡ some c
    → Inv m
    → (w : Worker) × (lookup c.object m.objects ≡ some w)
object_of tid c m e h = elim (Option-cases (lookup c.object m.objects)) [
  | inl f ↦
      let has : holds tid none ≡ true =
        subst (λ o. holds tid o ≡ true) f
          (subst (λ o. Held tid o m.objects) e (h.calls_held tid)) in
      absurd (cc)
  | inr found ↦ found
]

pub same-Inv :
    (m n : Manager)
    → n.objects ≡ m.objects
    → n.deferreds ≡ m.deferreds
    → n.next_object ≡ m.next_object
    → n.crashed ≡ m.crashed
    → n.older ≡ m.older
    → Inv m
    → Inv n
same-Inv m n e f g i j h = record {
  objects_ok = λ r. rw e (h.objects_ok r);
  calls_held = λ tid. rw (e, f) (h.calls_held tid);
  fresh = λ r. rw (e, g) (h.fresh r);
  deferreds_dict = rw f h.deferreds_dict;
  running = rw i h.running;
  single = rw j h.single;
}

pub complete-Inv :
    (tid : ℕ) (outcome : Outcome) (m : Manager) → Inv m → Inv (complete tid outcome m).1
unfolding complete notify trap_timeout
complete-Inv tid outcome m h = elim (Option-cases (lookup tid m.deferreds)) [
  | inl e ↦ rw e h
  | inr (c, e) ↦
      let (w, f) = object_of tid c m e h in
      rw (e, free_succeeds tid c w m e f)
        (same-Inv (free tid c m).1 _ refl refl refl refl refl (free-Inv tid c w m e f h))
]

pub fail_all-Inv : (tids : List ℕ) (m : Manager) → Inv m → Inv (fail_all tids m).1
unfolding fail_all
fail_all-Inv [] m h = h
fail_all-Inv (tid ∷ tids) m h =
    let first = complete-Inv tid (failed worker_gone) m h in
    then-Inv (complete tid (failed worker_gone)) (fail_all tids) m first
      (fail_all-Inv tids (complete tid (failed worker_gone) m).1 first)

pub worker_lost-Inv : (name : ℕ) (m : Manager) → Inv m → Inv (worker_lost name m).1
unfolding worker_lost notify update_stats
worker_lost-Inv name m h = elim (Option-cases (lookup name m.worker_data)) [
  | inl e ↦ rw e h
  | inr (r, e) ↦ elim (Option-cases (lookup r m.objects)) [
    | inl f ↦ rw (e, f) h
    | inr (w, f) ↦ elim (Option-cases (lookup name m.workers)) [
      | inl g ↦ rw (e, f, g) h
      | inr (c, g) ↦
          let gone : Manager = record m {
            workers = erase name m.workers;
            worker_data = erase name m.worker_data;
          } in
          let left = fail_all-Inv w.tasks gone (same-Inv m gone refl refl refl refl refl h) in
          rw (e, f, g)
            (then-Inv (fail_all w.tasks) (modify λ n. notify (lost_worker name) (update_stats n))
              gone left (same-Inv (fail_all w.tasks gone).1 _ refl refl refl refl refl left))
    ]
  ]
]

pub Held-run :
    (task : Env) (call : Call) (d : Dict Call) (objects : Dict Worker) (w v : Worker) (other : ℕ)
    → lookup call.object objects ≡ some w
    → v.tasks ≡ add_to_set task.task_id w.tasks
    → Held other (lookup other d) objects
    → Held other (lookup other (insert task.task_id call d)) (insert call.object v objects)
Held-run task call d objects w v other f t h =
    rw (lookup-insert other task.task_id call d) (elim (Bool-cases (other == task.task_id)) [
      | inl e ↦ rw e (
          rw (lookup-insert call.object call.object v objects)
            (ground (arith, contains-add_to_set other task.task_id w.tasks)))
      | inr e ↦ rw e (
          Held-insert objects call.object other v (lookup other d) h
            (rw (f, t) (λ c. rw (contains-add_to_set other task.task_id w.tasks) (rw e c))))
    ])

pub run_on_worker-Inv :
    (name : ℕ) (task : Env) (m : Manager)
    → lookup task.task_id m.deferreds ≡ none
    → Inv m
    → Inv (run_on_worker name task m).1
unfolding run_on_worker
run_on_worker-Inv name task m new h = elim (Option-cases (lookup name m.workers)) [
  | inl e ↦ rw e h
  | inr (c, e) ↦ elim (Option-cases (lookup name m.worker_data)) [
    | inl f ↦ rw (e, f) h
    | inr (r, f) ↦ elim (Option-cases (lookup r m.objects)) [
      | inl g ↦ rw (e, f, g) h
      | inr (w, g) ↦ elim (Bool-cases (refuses w task)) [
        | inl x ↦ rw (e, f, g, x) h
        | inr x ↦
            rw (e, f, g, x)
              (record {
                objects_ok = λ s.
                    AllOk-insert m.objects r _ s (h.objects_ok s)
                      (run-WorkerOk task w (subst AllOk g (h.objects_ok r)) x);
                calls_held = λ other.
                    Held-run task _ m.deferreds m.objects w _ other g refl (h.calls_held other);
                fresh = λ s. fresh-insert m.objects r s m.next_object _ (h.fresh s) (λ n. cc);
                deferreds_dict = insert-IsDict task.task_id _ m.deferreds h.deferreds_dict;
                running = h.running;
                single = rw new h.single;
              })
      ]
    ]
  ]
]

pub Held-new :
    (objects : Dict Worker) (next : ℕ) (w : Worker) (tid : ℕ) (o : Option Call)
    → lookup next objects ≡ none
    → Held tid o objects
    → Held tid o (insert next w objects)
Held-new objects next w tid o e h = Held-insert objects next tid w o h (rw e (λ c. cc))

pub finish-Inv :
    (name connection : ℕ) (running : List ℕ) (info : Option Info) (m : Manager)
    → Inv m
    → Inv (finish_new_worker name connection running info m).1
unfolding finish_new_worker notify update_stats
finish-Inv name connection (t ∷ running) info m h = h
finish-Inv name connection [] none m h = h
finish-Inv name connection [] (some info) m h = record {
  objects_ok = λ r.
      AllOk-insert m.objects m.next_object (idle_worker info) r (h.objects_ok r)
        (record { places = omega arith; alone = λ e. cc });
  calls_held = λ tid.
      Held-new m.objects m.next_object _ tid (lookup tid m.deferreds)
        (h.fresh m.next_object (omega arith)) (h.calls_held tid);
  fresh = λ r l.
      rw (lookup-insert r m.next_object (idle_worker info) m.objects) (ground (arith, h.fresh r));
  deferreds_dict = h.deferreds_dict;
  running = h.running;
  single = h.single;
}

pub begin-Inv :
    (name connection : ℕ) (m : Manager) → Inv m → Inv (begin_new_worker name connection m).1
unfolding begin_new_worker drop
begin-Inv name connection m h = elim (Option-cases (lookup name m.workers)) [
  | inl e ↦ rw (begin_new_worker, e) h
  | inr (c, e) ↦ rw (begin_new_worker, e) (same-Inv m _ refl refl refl refl refl h)
]

pub complete_older-Inv :
    (n : ℕ) (outcome : Outcome) (m : Manager) → Inv m → Inv (complete_older n outcome m).1
unfolding complete_older complete_picked
complete_older-Inv n outcome m h =
    subst (λ l. Inv (complete_picked outcome (pick_call n l) m).1) (sym h.single) h

-- No job is sent whose task has a call that is not answered.
abbrev pub IsNew : Event → Manager → Type 0
IsNew (begins name connection) m = Unit {0}
IsNew (finishes name connection running info) m = Unit {0}
IsNew (loses name) m = Unit {0}
IsNew (runs name task) m = lookup task.task_id m.deferreds ≡ none
IsNew (completes tid outcome) m = Unit {0}
IsNew (completes_older n outcome) m = Unit {0}

pub step-Inv : (e : Event) (m : Manager) → IsNew e m → Inv m → Inv (step e m)
unfolding step
step-Inv (begins name connection) m n h = begin-Inv name connection m h
step-Inv (finishes name connection running info) m n h = finish-Inv name connection running info m h
step-Inv (loses name) m n h = worker_lost-Inv name m h
step-Inv (runs name task) m n h = run_on_worker-Inv name task m n h
step-Inv (completes tid outcome) m n h = complete-Inv tid outcome m h
step-Inv (completes_older n outcome) m new h = complete_older-Inv n outcome m h
