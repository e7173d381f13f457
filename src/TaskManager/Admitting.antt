-- ===== src/TaskManager/Admitting.antt =====
-- Which groups taskmanager.py admits, and what of them is on the disk.
use sioworkers.Prelude.{
  ℕ, ◌*◌, ◌≤◌, ◌≡◌, refl, ◌⊎◌, true, false, some, List, [], ◌∷◌, arith, ok, lookup, insert,
  lookup-insert, if◌then◌else◌, ◌∙◌, ap, inl, inr,
}
use sioworkers.Prelude.Inserted.{All}
use sioworkers.Ram.{Env, get_required_ram_for_job}
use sioworkers.TaskManager.{
  Group, Job, judged_job, Database, load, sync_db, store, update, is_task_valid, all_valid,
  store_group, admitted, came_back, admit, add_task_group,
}

-- Each task needs no more RAM than the limit, in MiB.
abbrev pub AllFit : ℕ → List Env → Type 0
AllFit limit = All (λ env. get_required_ram_for_job env ≤ limit * 1024)

pub all_valid_cases :
    (limit : ℕ) (envs : List Env)
    → ((all_valid limit envs ≡ true) × AllFit limit envs)
      ⊎ ((all_valid limit envs ≡ false) × (¬ AllFit limit envs))
unfolding is_task_valid
all_valid_cases limit [] = inl (refl, tt)
all_valid_cases limit (env ∷ envs) = ground (arith, all_valid_cases limit envs)

pub stored_lem :
    (url now : ℕ) (g : Group) (job : Job) (d : Database)
    → load (lookup g.group_id d.db) ≡ ok job
    → store_group (some url) g now d
      ≡ (ok tt, sync_db (record d { db = insert g.group_id (some (judged_job g now)) d.db }))
unfolding update
stored_lem url now g job d e = ap (λ r. store g.group_id (judged_job g now) true r d) e

pub admitted_lem :
    (limit now url : ℕ) (g : Group) (job : Job) (d : Database)
    → all_valid limit g.workers_jobs ≡ true
    → g.return_url ≡ some url
    → load (lookup g.group_id d.db) ≡ ok job
    → add_task_group limit now g d ≡ (
      ok (admitted g),
      sync_db (record d { db = insert g.group_id (some (judged_job g now)) d.db }),
    )
unfolding add_task_group
admitted_lem limit now url g job d v u e =
    ap
      (λ b.
        if b
        then admit g (store_group g.return_url g now d)
        else (ok (came_back (record g { error = true })), d))
      v
    ∙ ap (λ o. admit g (store_group o g now d)) u
    ∙ ap (admit g) (stored_lem url now g job d e)

-- A group that is to be returned to an address is admitted just if each of its tasks needs no more
-- RAM than the limit. Then it is on the disk, to be judged, when addTaskGroup starts it; otherwise it
-- comes back with an error and the database is as it was.
pub add_task_group_cases :
    (limit now url : ℕ) (g : Group) (job : Job) (d : Database)
    → g.return_url ≡ some url
    → load (lookup g.group_id d.db) ≡ ok job
    → (AllFit limit g.workers_jobs
        × ((add_task_group limit now g d).0 ≡ ok (admitted g))
        × (lookup g.group_id (add_task_group limit now g d).1.on_disk
            ≡ some (some (judged_job g now))))
      ⊎ ((¬ AllFit limit g.workers_jobs)
          × (add_task_group limit now g d ≡ (ok (came_back (record g { error = true })), d)))
unfolding add_task_group
add_task_group_cases limit now url g job d u e = elim (all_valid_cases limit g.workers_jobs) [
  | inl (v, fit) ↦
      let done = admitted_lem limit now url g job d v u e in
      inl (
        fit,
        ap (λ r. r.0) done,
        ap (λ r. lookup g.group_id r.1.on_disk) done
            ∙ lookup-insert g.group_id g.group_id (some (judged_job g now)) d.db
            ∙ ground arith,
      )
  | inr (v, misfit) ↦ inr (misfit, rw v refl)
]
