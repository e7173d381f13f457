-- ===== src/TaskManager/Retries.antt =====
-- How often taskmanager.py tries to return a result, and how long it waits.
use sioworkers.Prelude.{
  ℕ, zero, suc, ◌+◌, ◌-◌, ◌≤◌, ◌<◌, ◌≡◌, ◌≢◌, refl, Bool, true, false, none, some, List, [], ◌∷◌,
  ◌++◌, arith, leb, Result, ok, lookup, insert, lookup-insert, insert-IsDict, lookup-erase, IsDict,
  erase, get_elem?, take, drop, replicate, if◌then◌else◌, ◌∙◌, sym, ap, subst,
}
use sioworkers.TaskManager.{
  Job, empty_job, update_job, Database, load, store, update, retry_delay, max_retries, Progress,
  waiting, returned, given_up, Sender, update_count, wait, retry, judge_attempt, attempts,
  return_done, after_done, finish, return_to_sio, delete,
}

-- The job is stored.
abbrev pub Stored : ℕ → Sender → Type 0
Stored tid s = IsDict s.database.db × (job : Job) × (lookup tid s.database.db ≡ some (some job))

abbrev pub counted : ℕ → ℕ → Job → Sender → Sender
counted tid n job s = record s {
  database = record s.database {
    db = insert tid (some (update_job job (record empty_job { retry_cnt = some n }))) s.database.db;
  };
}

pub update_lem :
    (tid : ℕ) (u job : Job) (d : Database)
    → load (lookup tid d.db) ≡ ok job
    → update tid u false d ≡ (ok tt, record d { db = insert tid (some (update_job job u)) d.db })
unfolding update
update_lem tid u job d e = ap (λ r. store tid u false r d) e

update_count_lem :
    (tid n : ℕ) (job : Job) (s : Sender)
    → load (lookup tid s.database.db) ≡ ok job
    → update_count tid n s ≡ (ok tt, counted tid n job s)
unfolding update_count
update_count_lem tid n job s e =
    rw (update_count, update_lem tid (record empty_job { retry_cnt = some n }) job s.database e)
      refl

counted-Stored :
    (tid n : ℕ) (job : Job) (s : Sender) → IsDict s.database.db → Stored tid (counted tid n job s)
counted-Stored tid n job s valid = (
  insert-IsDict tid _ s.database.db valid,
  update_job job (record empty_job { retry_cnt = some n }),
  rw
      (lookup-insert tid tid (some (update_job job (record empty_job { retry_cnt = some n })))
        s.database.db)
      (ground arith),
)

-- The delay before each retry is there.
delay_at :
    (cnt : ℕ)
    → cnt < max_retries
    → (seconds : ℕ) × (get_elem? retry_delay cnt ≡ some seconds)
      × (drop cnt retry_delay ≡ seconds ∷ drop (suc cnt) retry_delay)
delay_at zero h = (10, refl, refl)
delay_at (suc zero) h = (100, refl, refl)
delay_at (suc (suc zero)) h = (1000, refl, refl)
delay_at (suc (suc (suc zero))) h = (10000, refl, refl)
delay_at (suc (suc (suc (suc zero)))) h = (100000, refl, refl)
delay_at (suc (suc (suc (suc (suc zero))))) h = (1000000, refl, refl)
delay_at (suc (suc (suc (suc (suc (suc n)))))) h = absurd (omega arith)

below : (cnt : ℕ) → cnt < max_retries → leb max_retries cnt ≡ false
below cnt h = ground arith

-- One retry, whose attempt fails or succeeds.
pub retry_step :
    (tid : ℕ) (answer : Bool) (answers : List Bool) (cnt seconds : ℕ) (job : Job) (s : Sender)
    → cnt < max_retries
    → get_elem? retry_delay cnt ≡ some seconds
    → load (lookup tid s.database.db) ≡ ok job
    → retry tid (answer ∷ answers) cnt s ≡ (
        if answer
        then (ok returned, counted tid cnt job (wait seconds s))
        else retry tid answers (suc cnt) (counted tid cnt job (wait seconds s)))
unfolding retry
retry_step tid true answers cnt seconds job s h e f =
    rw (retry, below cnt h, e)
      (ap (judge_attempt true (retry tid answers (suc cnt)))
        (update_count_lem tid cnt job (wait seconds s) f))
retry_step tid false answers cnt seconds job s h e f =
    rw (retry, below cnt h, e)
      (ap (judge_attempt false (retry tid answers (suc cnt)))
        (update_count_lem tid cnt job (wait seconds s) f))

exhausted :
    (tid : ℕ) (answers : List Bool) (s : Sender)
    → retry tid answers max_retries s ≡ (ok given_up, s)
unfolding retry
exhausted tid [] s = refl
exhausted tid (answer ∷ answers) s = refl

append_assoc : (xs ys zs : List ℕ) → (xs ++ ys) ++ zs ≡ xs ++ (ys ++ zs)
append_assoc [] ys zs = refl
append_assoc (x ∷ xs) ys zs = ap (λ l. x ∷ l) (append_assoc xs ys zs)

append_nil : (xs : List ℕ) → xs ++ [] ≡ xs
append_nil [] = refl
append_nil (x ∷ xs) = ap (λ l. x ∷ l) (append_nil xs)

-- What some retries leave: how they end, the delays that they waited, and an entry to read.
abbrev pub Ends : ℕ → Progress → List ℕ → Sender → Result Progress × Sender → Type 0
Ends tid p delays s r = (r.0 ≡ ok p) × (r.1.delays ≡ s.delays ++ delays) × Stored tid r.1

-- The retries when no attempt that is left succeeds.
all_fail :
    (tid k cnt : ℕ) (answers : List Bool) (s : Sender)
    → Stored tid s
    → cnt + k ≡ max_retries
    → Ends tid given_up (drop cnt retry_delay) s (retry tid (replicate k false ++ answers) cnt s)
all_fail tid zero cnt answers s r e =
    let six : cnt ≡ max_retries = omega (arith, e) in
    rw (six, exhausted tid answers s) (refl, sym (append_nil s.delays), r)
all_fail tid (suc k) cnt answers s (valid, job, f) e =
    let h : cnt < max_retries = omega (arith, e) in
    let (seconds, at, rest) = delay_at cnt h in
    let (p, ds, r) =
      all_fail tid k (suc cnt) answers (counted tid cnt job (wait seconds s))
        (counted-Stored tid cnt job (wait seconds s) valid) (omega (arith, e)) in
    rw
      (retry_step tid false (replicate k false ++ answers) cnt seconds job s h at (ap load f), rest)
      (p, ds ∙ append_assoc s.delays (seconds ∷ []) (drop (suc cnt) retry_delay), r)

-- The retries when the attempt after `k` that fail succeeds.
one_succeeds :
    (tid k cnt : ℕ) (answers : List Bool) (s : Sender)
    → Stored tid s
    → cnt + k < max_retries
    → Ends tid returned
        (take (suc k) (drop cnt retry_delay))
        s
        (retry tid (replicate k false ++ (true ∷ answers)) cnt s)
one_succeeds tid zero cnt answers s (valid, job, f) e =
    let h : cnt < max_retries = omega (arith, e) in
    let (seconds, at, rest) = delay_at cnt h in
    rw (retry_step tid true answers cnt seconds job s h at (ap load f), rest)
      (refl, refl, counted-Stored tid cnt job (wait seconds s) valid)
one_succeeds tid (suc k) cnt answers s (valid, job, f) e =
    let h : cnt < max_retries = omega (arith, e) in
    let (seconds, at, rest) = delay_at cnt h in
    let (p, ds, r) =
      one_succeeds tid k (suc cnt) answers (counted tid cnt job (wait seconds s))
        (counted-Stored tid cnt job (wait seconds s) valid) (omega (arith, e)) in
    rw
      (
        retry_step tid false (replicate k false ++ (true ∷ answers)) cnt seconds job s h at
            (ap load f),
        rest,
      )
      (p, ds ∙ append_assoc s.delays (seconds ∷ []) _, r)

-- What returnToSio leaves: how it ended, the delays that it waited, and no entry for the job.
abbrev pub Concludes : ℕ → Progress → List ℕ → Sender → Result Progress × Sender → Type 0
Concludes tid p delays s r =
    (r.0 ≡ ok p) × (r.1.delays ≡ s.delays ++ delays) × (lookup tid r.1.database.db ≡ none)

return_done_lem :
    (tid : ℕ) (s : Sender)
    → Stored tid s
    → return_done tid s
      ≡ (ok tt, record s { database = record s.database { db = erase tid s.database.db } })
unfolding return_done delete
return_done_lem tid s (valid, job, f) = rw (f) refl

deleted :
    (tid : ℕ) (s t : Sender) (p : Progress) (delays : List ℕ)
    → t.delays ≡ s.delays ++ delays
    → Stored tid t
    → Concludes tid p delays s
        (ok p, record t { database = record t.database { db = erase tid t.database.db } })
deleted tid s t p delays ds (valid, job, e) =
    (refl, ds, rw (lookup-erase tid tid t.database.db valid) (ground arith))

ended :
    (tid : ℕ) (s : Sender) (p : Progress) (delays : List ℕ) (r : Result Progress) (t : Sender)
    → p ≢ waiting
    → Ends tid p delays s (r, t)
    → Concludes tid p delays s (finish tid r t)
unfolding finish
ended tid s waiting delays r t n h = absurd (n refl)
ended tid s returned delays r t n (e, ds, stored) = rw e (
    subst (λ r. Concludes tid returned delays s (after_done returned r))
      (sym (return_done_lem tid t stored)) (deleted tid s t returned delays ds stored))
ended tid s given_up delays r t n (e, ds, stored) = rw e (
    subst (λ r. Concludes tid given_up delays s (after_done given_up r))
      (sym (return_done_lem tid t stored)) (deleted tid s t given_up delays ds stored))

-- When every attempt fails, returnToSio from the count `count` makes the first attempt and one retry
-- for each further delay, and then gives up; the job's entry is deleted.
pub return_to_sio-gives_up :
    (tid count : ℕ) (answers : List Bool) (s : Sender)
    → Stored tid s
    → count ≤ max_retries
    → Concludes tid given_up
        (drop count retry_delay)
        s
        (return_to_sio tid (replicate (suc (max_retries - count)) false ++ answers) count s)
unfolding return_to_sio attempts
return_to_sio-gives_up tid count answers s stored h =
    ended tid s given_up (drop count retry_delay) _ _ (λ e. cc)
      (all_fail tid (max_retries - count) count answers s stored (omega arith))

-- When the first `suc k` attempts fail and the next one succeeds, within the retries that are left
-- from the count `count`, returnToSio returns the result after the delays of these retries, and the
-- job's entry is deleted.
pub return_to_sio-returns :
    (tid count k : ℕ) (answers : List Bool) (s : Sender)
    → Stored tid s
    → count + k < max_retries
    → Concludes tid returned
        (take (suc k) (drop count retry_delay))
        s
        (return_to_sio tid (replicate (suc k) false ++ (true ∷ answers)) count s)
unfolding return_to_sio attempts
return_to_sio-returns tid count k answers s stored h =
    ended tid s returned (take (suc k) (drop count retry_delay)) _ _ (λ e. cc)
      (one_succeeds tid k count answers s stored h)
