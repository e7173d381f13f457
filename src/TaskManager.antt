-- ===== src/TaskManager.antt =====
-- The part of sio/sioworkersd/taskmanager.py that takes groups of tasks, keeps them in a database
-- and returns their results. The database is kept twice: as the process sees it, and as it was when
-- it was last synced, which is what a failure of the process leaves.
pub mod Retries
pub mod Admitting
pub mod Resuming
pub mod Survival
pub mod Finished
use sioworkers.Prelude.{
  lift, ℕ, zero, suc, ◌+◌, ◌*◌, ◌^◌, Bool, true, false, Option, none, some, List, [], ◌∷◌, ◌++◌,
  leb, ◌&&◌, if◌then◌else◌, Dict, lookup, insert, erase, Action, Result, ok, raised, Exception,
  key_error, index_error, value_error, pure, raise, gets, modify, or_raise, zoom, ◌>>=◌, ◌>>◌,
  get_elem?,
}
use sioworkers.Ram.{Env, get_required_ram_for_job}

-- The environment of a group. `error` is whether the key 'error' is set.
pub record Group : Type 0 where
  pub group_id : ℕ
  pub return_url : Option ℕ
  pub workers_jobs : List Env
  pub error : Bool

pub data Status : Type 0 where
  to_judge to_return : Status

-- A stored JSON object, or an update of one: each key may be missing.
pub record Job : Type 0 where
  pub id : Option ℕ
  pub env : Option Group
  pub status : Option Status
  pub timestamp : Option ℕ
  pub retry_cnt : Option ℕ

abbrev pub empty_job : Job
empty_job = record { id = none; env = none; status = none; timestamp = none; retry_cnt = none }

abbrev pub over {ℓ} : {A : Type ℓ} → Option A → Option A → Option A
over none old = old
over (some a) old = some a

-- `job.update(dict_update)`
abbrev pub update_job : Job → Job → Job
update_job job u = record {
  id = over u.id job.id;
  env = over u.env job.env;
  status = over u.status job.status;
  timestamp = over u.timestamp job.timestamp;
  retry_cnt = over u.retry_cnt job.retry_cnt;
}

-- An entry that is not JSON is `none`.
pub record Database : Type 0 where
  pub db : Dict (Option Job)
  pub on_disk : Dict (Option Job)

-- `self.db.sync()`
abbrev pub sync_db : Database → Database
sync_db d = record d { on_disk = d.db }

abbrev pub maybe_sync : Bool → Database → Database
maybe_sync true d = sync_db d
maybe_sync false d = d

-- `json.loads(self.db.get(job_id, '{}'))`
abbrev pub load : Option (Option Job) → Result Job
load none = ok empty_job
load (some none) = raised value_error
load (some (some job)) = ok job

-- `DBWrapper.update` once the entry is loaded.
abbrev pub store : ℕ → Job → Bool → Result Job → Action Database (Unit {0})
store job_id u sync (raised e) = raise e
store job_id u sync (ok job) =
    modify λ d. maybe_sync sync (record d { db = insert job_id (some (update_job job u)) d.db })

unfoldable pub update : ℕ → Job → Bool → Action Database (Unit {0})
update job_id u sync d = store job_id u sync (load (lookup job_id d.db)) d

-- `DBWrapper.delete`
unfoldable pub delete : ℕ → Bool → Action Database (Unit {0})
delete job_id sync = do
  d ← gets (λ d. d)
  _ ← or_raise (lookup job_id d.db) key_error
  modify (λ d. maybe_sync sync (record d { db = erase job_id d.db }))

-- `DBWrapper.get_items` over the keys: what cannot be read is deleted.
abbrev pub loaded : Dict (Option Job) → List Job
loaded [] = []
loaded ((k, none) ∷ d) = loaded d
loaded ((k, some job) ∷ d) = job ∷ loaded d

abbrev pub readable : Dict (Option Job) → Dict (Option Job)
readable [] = []
readable ((k, none) ∷ d) = readable d
readable ((k, some job) ∷ d) = (k, some job) ∷ readable d

unfoldable pub get_items : Action Database (List Job)
get_items d = (ok (loaded d.db), record d { db = readable d.db })

-- `_isTaskValid`
unfoldable pub is_task_valid : ℕ → Env → Bool
is_task_valid max_task_ram_mb env = leb (get_required_ram_for_job env) (max_task_ram_mb * 1024)

abbrev pub all_valid : ℕ → List Env → Bool
all_valid max_task_ram_mb [] = true
all_valid max_task_ram_mb (env ∷ envs) =
    if is_task_valid max_task_ram_mb env then all_valid max_task_ram_mb envs else false

-- What addTaskGroup does before `_addGroup`: a group with a task that is not valid comes back with
-- an error, one with an address to return to is stored. The group is `none` where it came back.
abbrev pub judged_job : Group → ℕ → Job
judged_job g now = record {
  id = some g.group_id;
  env = some g;
  status = some to_judge;
  timestamp = some now;
  retry_cnt = some 0;
}

abbrev pub store_group : Option ℕ → Group → ℕ → Action Database (Unit {0})
store_group none g now = pure tt
store_group (some url) g now = update g.group_id (judged_job g now) true

pub data Admission : Type 0 where
  admitted came_back : Group → Admission

abbrev pub admit : Group → Result (Unit {0}) × Database → Result Admission × Database
admit g (ok a, d) = (ok (admitted g), d)
admit g (raised e, d) = (raised e, d)

unfoldable pub add_task_group : ℕ → ℕ → Group → Action Database Admission
add_task_group max_task_ram_mb now g d =
    if all_valid max_task_ram_mb g.workers_jobs
    then admit g (store_group g.return_url g now d)
    else (ok (came_back (record g { error = true })), d)

-- What `_taskDone` stores of a group that is finished.
unfoldable pub save_result : Group → Action Database (Unit {0})
unfolding update
save_result g = update g.group_id (record empty_job { env = some g; status = some to_return }) false

abbrev pub max_retries : ℕ
max_retries = 6

-- `[10 ** i for i in range(1, MAX + 1)]`
abbrev pub retry_delay : List ℕ
retry_delay = 10 ∷ 100 ∷ 1000 ∷ 10000 ∷ 100000 ∷ 1000000 ∷ []

-- How far the returning of a result is.
pub data Progress : Type 0 where
  waiting returned given_up : Progress

pub record Sender : Type 0 where
  pub database : Database
  pub delays : List ℕ

-- `_updateCount`
unfoldable pub update_count : ℕ → ℕ → Action Sender (Unit {0})
unfolding update
update_count tid n =
    zoom (λ s. s.database) (λ d s. record s { database = d })
      (update tid (record empty_job { retry_cnt = some n }) false)

abbrev pub is_ok : Result (Unit {0}) → Bool
is_ok (ok a) = true
is_ok (raised e) = false

abbrev pub wait : ℕ → Sender → Sender
wait seconds s = record s { delays = s.delays ++ seconds ∷ [] }

-- The end of an attempt: it has failed too if `_updateCount` raises.
abbrev pub judge_attempt :
    Bool
    → (Sender → Result Progress × Sender)
    → Result (Unit {0}) × Sender
    → Result Progress × Sender
judge_attempt answer next (r, s) = elim (answer && is_ok r) [
  | true ↦ (ok returned, s)
  | false ↦ next s
]

-- `retry`, for the answers that the attempts from here on get, true for a response with status 200.
-- The
-- answers may end while it waits.
unfoldable pub retry : ℕ → List Bool → ℕ → Action Sender Progress
unfolding update_count
retry tid [] cnt s = elim (leb max_retries cnt) [
  | true ↦ (ok given_up, s)
  | false ↦ elim (get_elem? retry_delay cnt) [
    | none ↦ (raised index_error, s)
    | some seconds ↦ (ok waiting, wait seconds s)
  ]
]
retry tid (answer ∷ answers) cnt s = elim (leb max_retries cnt) [
  | true ↦ (ok given_up, s)
  | false ↦ elim (get_elem? retry_delay cnt) [
    | none ↦ (raised index_error, s)
    | some seconds ↦
        judge_attempt answer (retry tid answers (suc cnt)) (update_count tid cnt (wait seconds s))
  ]
]

-- The first attempt, and the following ones if it fails.
unfoldable pub attempts : ℕ → List Bool → ℕ → Action Sender Progress
unfolding retry
attempts tid [] count = pure waiting
attempts tid (true ∷ answers) count = pure returned
attempts tid (false ∷ answers) count = retry tid answers count

-- `_returnDone`
unfoldable pub return_done : ℕ → Action Sender (Unit {0})
unfolding delete
return_done tid = zoom (λ s. s.database) (λ d s. record s { database = d }) (delete tid false)

abbrev pub after_done : Progress → Result (Unit {0}) × Sender → Result Progress × Sender
after_done p (ok a, s) = (ok p, s)
after_done p (raised e, s) = (raised e, s)

-- Whatever ends the attempts, the job is deleted.
unfoldable pub finish : ℕ → Result Progress → Action Sender Progress
unfolding return_done
finish tid (ok waiting) s = (ok waiting, s)
finish tid (ok returned) s = after_done returned (return_done tid s)
finish tid (ok given_up) s = after_done given_up (return_done tid s)
finish tid (raised e) s = after_done given_up (return_done tid s)

-- `returnToSio`
unfoldable pub return_to_sio : ℕ → List Bool → ℕ → Action Sender Progress
unfolding attempts finish
return_to_sio tid answers count s = let (r, s') = attempts tid answers count s in finish tid r s'

-- What startService does with a stored job, in the order of their timestamps.
pub data Resumed : Type 0 where
  judges : Group → Resumed
  gives_back : Group → ℕ → Resumed

-- `all_jobs.sort(key=itemgetter('timestamp'))`: a job without the key raises; the sort is stable.
abbrev pub stamp_first : Option ℕ → Job → Option (List (ℕ × Job)) → Option (List (ℕ × Job))
stamp_first none job l = none
stamp_first (some t) job none = none
stamp_first (some t) job (some l) = some ((t, job) ∷ l)

abbrev pub stamps : List Job → Option (List (ℕ × Job))
stamps [] = some []
stamps (job ∷ jobs) = stamp_first job.timestamp job (stamps jobs)

abbrev pub place_job : ℕ × Job → List (ℕ × Job) → List (ℕ × Job)
place_job x [] = x ∷ []
place_job x (y ∷ l) = if leb x.0 y.0 then x ∷ y ∷ l else y ∷ place_job x l

abbrev pub sort_jobs : List (ℕ × Job) → List (ℕ × Job)
sort_jobs [] = []
sort_jobs (x ∷ l) = place_job x (sort_jobs l)

-- The body of the loop: a key that is missing raises, and so may `_addGroup`, which is an argument.
abbrev pub AddGroup : Type 0
AddGroup = Group → Result (Unit {0})

abbrev pub with_url : Option ℕ → Resumed → Result Resumed
with_url none r = raised key_error
with_url (some url) r = ok r

abbrev pub judge_again : Group → Result (Unit {0}) → Result Resumed
judge_again g (raised e) = raised e
judge_again g (ok a) = with_url g.return_url (judges g)

abbrev pub give_back : Group → Option ℕ → Result Resumed
give_back g none = raised key_error
give_back g (some n) = with_url g.return_url (gives_back g n)

abbrev pub resume_env : AddGroup → Status → Option Group → Option ℕ → Result Resumed
resume_env add status none cnt = raised key_error
resume_env add to_judge (some g) cnt = judge_again g (add g)
resume_env add to_return (some g) cnt = give_back g cnt

abbrev pub resume_job : AddGroup → Job → Result Resumed
resume_job add job = elim job.status [
  | none ↦ raised key_error
  | some status ↦ resume_env add status job.env job.retry_cnt
]

abbrev pub and_then : Result Resumed → Result (List Resumed) → Result (List Resumed)
and_then (raised e) rs = raised e
and_then (ok r) (raised e) = raised e
and_then (ok r) (ok rs) = ok (r ∷ rs)

abbrev pub resume_all : AddGroup → List (ℕ × Job) → Result (List Resumed)
resume_all add [] = ok []
resume_all add (x ∷ l) = and_then (resume_job add x.1) (resume_all add l)

unfoldable pub start_service : AddGroup → Action Database (List Resumed)
unfolding get_items
start_service add = do
  jobs ← get_items
  stamped ← or_raise (stamps jobs) key_error
  lift (resume_all add (sort_jobs stamped))

-- The process fails and is started again.
unfoldable pub restart : Database → Database
restart d = record d { db = d.on_disk }
