-- ===== src/TaskManager/Survival.antt =====
-- What of taskmanager.py's database is left after the process has failed, and what is made of it.
use sioworkers.Prelude.{
  ℕ, ◌≡◌, refl, true, false, Option, none, some, List, [], ◌∷◌, arith, ok, raised, key_error, Dict,
  lookup, insert, lookup-insert, if◌then◌else◌, ◌∙◌, ap, subst, Bool-cases, inl, inr, ◌==◌,
}
use sioworkers.Prelude.Inserted.{In}
use sioworkers.Ram.{Env}
use sioworkers.TaskManager.Retries.{retry_step, counted}
use sioworkers.TaskManager.{
  AddGroup, judge_again, Group, Job, empty_job, judged_job, Database, load, loaded, sync_db,
  all_valid, store_group, came_back, admit, add_task_group, Resumed, judges, stamps, stamp_first,
  with_url, waiting, start_service, get_items, restart, Sender, return_to_sio, attempts, finish,
  retry, wait,
}
use sioworkers.TaskManager.Admitting.{AllFit, all_valid_cases, admitted_lem}
use sioworkers.TaskManager.Resuming.{CanResume, WellKept, skip_first, start_service_lem}

pub WellKept-insert :
    (add : AddGroup) (key : ℕ) (job : Job) (d : Dict (Option Job))
    → CanResume add (some job)
    → WellKept add d
    → WellKept add (insert key (some job) d)
WellKept-insert add key job [] p h = (p, tt)
WellKept-insert add key job (x ∷ d) p h = elim (Bool-cases (x.0 == key)) [
  | inl e ↦ rw e (p, h.1)
  | inr e ↦ rw e (h.0, WellKept-insert add key job d p h.1)
]

fits : (limit : ℕ) (envs : List Env) → AllFit limit envs → all_valid limit envs ≡ true
fits limit envs h = elim (all_valid_cases limit envs) [
  | inl (v, fit) ↦ v
  | inr (v, misfit) ↦ absurd (misfit h)
]

-- A group with an address to return to, each task of which fits the limit, survives a failure of
-- the process after addTaskGroup has stored it: whenever every stored job can be resumed, and
-- `_addGroup` raises for none of the groups that are to be judged, this one among them, the process
-- that is started again starts without an error, and judges the group.
pub admitted-survives :
    (add : AddGroup) (limit now url : ℕ) (g : Group) (job : Job) (d : Database)
    → g.return_url ≡ some url
    → AllFit limit g.workers_jobs
    → load (lookup g.group_id d.db) ≡ ok job
    → add g ≡ ok tt
    → WellKept add d.db
    → (rs : List Resumed) × ((start_service add (restart (add_task_group limit now g d).1)).0
        ≡ ok rs)
      × In (judges g) rs
unfolding restart
admitted-survives add limit now url g job d u fit e fine kept =
    let after : Dict (Option Job) = insert g.group_id (some (judged_job g now)) d.db in
    let done = admitted_lem limit now url g job d (fits limit g.workers_jobs fit) u e in
    let again = ap (judge_again g) fine ∙ ap (λ o. with_url o (judges g)) u in
    let (rs, f, found) =
      start_service_lem add (record { db = after; on_disk = after })
        (WellKept-insert add g.group_id (judged_job g now) d.db ((now, refl), (judges g, again))
          kept) in
    (
      rs,
      ap (λ r. (start_service add (restart r.1)).0) done ∙ f,
      found g.group_id (judged_job g now) (judges g)
          (lookup-insert g.group_id g.group_id (some (judged_job g now)) d.db ∙ ground arith) again,
    )

no_stamps : (o : Option ℕ) (job : Job) → stamp_first o job none ≡ none
no_stamps none job = refl
no_stamps (some t) job = refl

-- A stored job without a timestamp.
stamps-missing :
    (key : ℕ) (job : Job) (d : Dict (Option Job))
    → lookup key d ≡ some (some job)
    → job.timestamp ≡ none
    → stamps (loaded d) ≡ none
stamps-missing key job [] e n = absurd (cc)
stamps-missing key job ((k, none) ∷ d) e n = stamps-missing key job d (skip_first k key job d e) n
stamps-missing key job ((k, some other) ∷ d) e n = elim (Bool-cases (k == key)) [
  | inl f ↦
      let same : some (some other) ≡ some (some job) =
        subst (λ b. (if b then some (some other) else lookup key d) ≡ some (some job)) f e in
      let equal : other ≡ job = cc in
      let gone : other.timestamp ≡ none = ap (λ (j : Job). j.timestamp) equal ∙ n in
      ap (λ o. stamp_first o other (stamps (loaded d))) gone
  | inr f ↦
      let later =
        subst (λ b. (if b then some (some other) else lookup key d) ≡ some (some job)) f e in
      ap (stamp_first other.timestamp other) (stamps-missing key job d later n)
      ∙ no_stamps other.timestamp other
]

cannot_start :
    (add : AddGroup) (key : ℕ) (job : Job) (d : Database)
    → lookup key d.db ≡ some (some job)
    → job.timestamp ≡ none
    → (start_service add d).0 ≡ raised key_error
unfolding start_service get_items
cannot_start add key job d e n = rw (stamps-missing key job d.db e n) refl

retried_once :
    (tid : ℕ) (s : Sender)
    → lookup tid s.database.db ≡ none
    → return_to_sio tid (false ∷ false ∷ []) 0 s
      ≡ (ok waiting, wait 100 (counted tid 0 empty_job (wait 10 s)))
unfolding return_to_sio attempts finish retry
retried_once tid s e =
    ap (λ r. finish tid r.0 r.1)
      (retry_step tid false [] 0 10 empty_job s (omega arith) refl (ap load e))

came_back_lem :
    (limit now : ℕ) (g : Group) (d : Database)
    → ¬ AllFit limit g.workers_jobs
    → add_task_group limit now g d ≡ (ok (came_back (record g { error = true })), d)
unfolding add_task_group
came_back_lem limit now g d misfit = elim (all_valid_cases limit g.workers_jobs) [
  | inl (v, fit) ↦ absurd (misfit fit)
  | inr (v, m) ↦
      ap
        (λ b.
          if b
          then admit g (store_group g.return_url g now d)
          else (ok (came_back (record g { error = true })), d))
        v
]

-- A group that is to be returned to an address, is not stored, and has a task that needs too much
-- RAM is not stored when it comes back. If the first two attempts to return it fail, the retry
-- stores an entry with nothing but its count of retries. Once the database is synced, a process that
-- is started again raises KeyError for the missing timestamp, and does not start.
pub invalid_group-blocks_start :
    (add : AddGroup) (limit now : ℕ) (g : Group) (s : Sender)
    → ¬ AllFit limit g.workers_jobs
    → lookup g.group_id s.database.db ≡ none
    → let refused = add_task_group limit now g s.database in
      let tried =
        return_to_sio g.group_id (false ∷ false ∷ []) 0 (record s { database = refused.1 }) in
      (refused.0 ≡ ok (came_back (record g { error = true })))
      × (tried.0 ≡ ok waiting)
      × ((start_service add (restart (sync_db tried.1.database))).0 ≡ raised key_error)
unfolding restart
invalid_group-blocks_start add limit now g s misfit e =
    rw (came_back_lem limit now g s.database misfit, retried_once g.group_id s e)
      (
        refl,
        refl,
        cannot_start add g.group_id (record empty_job { retry_cnt = some 0 }) _
            (lookup-insert g.group_id g.group_id (some (record empty_job { retry_cnt = some 0 }))
                s.database.db
              ∙ ground arith)
            refl,
      )
