-- ===== src/TaskManager/Finished.antt =====
-- What a failure of the process does to a group of taskmanager.py that is finished.
use sioworkers.Prelude.{
  none, [], ◌∷◌, Bool-cases, ◌==◌, subst, if◌then◌else◌, inl, inr, Result, raised, ℕ, ◌≡◌, refl,
  some, List, arith, Dict, lookup, insert, lookup-insert, ok, ap, ◌∙◌, Option,
}
use sioworkers.Prelude.Inserted.{In}
use sioworkers.TaskManager.{
  resume_job, AddGroup, judge_again, Group, Job, empty_job, judged_job, update_job, Database, load,
  sync_db, with_url, save_result, start_service, restart, Resumed, judges, gives_back, to_return,
}
use sioworkers.TaskManager.Retries.{update_lem}
use sioworkers.TaskManager.Resuming.{skip_first, WellKept, start_service_lem}
use sioworkers.TaskManager.Survival.{WellKept-insert}

-- A stored job that is finished with the environment `g`.
abbrev pub finished_job : Group → Job → Job
finished_job g job = update_job job (record empty_job { env = some g; status = some to_return })

save_result_lem :
    (g : Group) (job : Job) (d : Database)
    → lookup g.group_id d.db ≡ some (some job)
    → save_result g d
      ≡ (ok tt, record d { db = insert g.group_id (some (finished_job g job)) d.db })
unfolding save_result
save_result_lem g job d e =
    update_lem g.group_id (record empty_job { env = some g; status = some to_return }) job d
      (ap load e)

-- A stored job of a database that can be resumed.
stored_CanResume :
    (add : AddGroup) (key : ℕ) (job : Job) (d : Dict (Option Job))
    → WellKept add d
    → lookup key d ≡ some (some job)
    → (r : Resumed) × (resume_job add job ≡ ok r)
stored_CanResume add key job [] h e = absurd (cc)
stored_CanResume add key job ((k, none) ∷ d) h e =
    stored_CanResume add key job d h.1 (skip_first k key job d e)
stored_CanResume add key job ((k, some other) ∷ d) h e = elim (Bool-cases (k == key)) [
  | inl f ↦
      let same : some (some other) ≡ some (some job) =
        subst (λ b. (if b then some (some other) else lookup key d) ≡ some (some job)) f e in
      let equal : other ≡ job = cc in
      (h.0.1.0, subst (λ j. resume_job add j ≡ ok h.0.1.0) equal h.0.1.1)
  | inr f ↦
      stored_CanResume add key job d h.1
        (subst (λ b. (if b then some (some other) else lookup key d) ≡ some (some job)) f e)
]

judges_again :
    (g : Group) (url : ℕ) (added : Result (Unit {0})) (r : Resumed)
    → g.return_url ≡ some url
    → judge_again g added ≡ ok r
    → judge_again g added ≡ ok (judges g)
judges_again g url (ok a) r u e = ap (λ o. with_url o (judges g)) u
judges_again g url (raised x) r u e = absurd (cc)

-- A group with an address to return to that is finished while it is stored, on the disk too, is not
-- lost by a failure of the process, whenever all stored jobs can be resumed, in memory and on the
-- disk, with no exception of `_addGroup`: if the database was synced since, the process that is
-- started again returns the result, with the count of retries at nought; if it was not, it judges the
-- group again.
pub finished-survives :
    (add : AddGroup) (now url : ℕ) (old g : Group) (d : Database)
    → old.return_url ≡ some url
    → g.return_url ≡ some url
    → lookup g.group_id d.db ≡ some (some (judged_job old now))
    → lookup g.group_id d.on_disk ≡ some (some (judged_job old now))
    → WellKept add d.db
    → WellKept add d.on_disk
    → let e = (save_result g d).1 in
      ((rs : List Resumed) × ((start_service add (restart (sync_db e))).0 ≡ ok rs)
        × In (gives_back g 0) rs)
      × ((rs : List Resumed) × ((start_service add (restart e)).0 ≡ ok rs) × In (judges old) rs)
unfolding restart
finished-survives add now url old g d u v stored on_disk kept kept_disk =
    let job : Job = finished_job g (judged_job old now) in
    let after : Dict (Option Job) = insert g.group_id (some job) d.db in
    let done = save_result_lem g (judged_job old now) d stored in
    let returns = ap (λ o. with_url o (gives_back g 0)) v in
    let judged =
      let (r, e) =
        stored_CanResume add g.group_id (judged_job old now) d.on_disk kept_disk on_disk in
      judges_again old url (add old) r u e in
    let (rs, f, found) =
      start_service_lem add (record { db = after; on_disk = after })
        (WellKept-insert add g.group_id job d.db ((now, refl), (gives_back g 0, returns)) kept) in
    let (qs, h, found') =
      start_service_lem add (record { db = d.on_disk; on_disk = d.on_disk }) kept_disk in
    (
      (
        rs,
        ap (λ r. (start_service add (restart (sync_db r.1))).0) done ∙ f,
        found g.group_id job (gives_back g 0)
            (lookup-insert g.group_id g.group_id (some job) d.db ∙ ground arith) returns,
      ),
      (
        qs,
        ap (λ r. (start_service add (restart r.1)).0) done ∙ h,
        found' g.group_id (judged_job old now) (judges old) on_disk judged,
      ),
    )
