-- ===== src/WorkerProtocol.antt =====
-- WorkerProtocol of sio/protocol/worker.py, the worker's end: the commands that the server calls.
use text.Mathlib.Text.{◌==◌ as str_eq}
use sioworkers.Prelude.{
  ℕ, ◌≡◌, refl, ◌≤◌, ◌⊎◌, inl, inr, Bool, true, false, not, ◌&&◌, some, List, [], ◌∷◌, arith,
  if◌then◌else◌, length, Dict, lookup, lookup-insert, insert, erase, Action, ok, key_error,
  runtime_error, gets, modify, or_raise, require, Bool-cases, ◌>>=◌, ◌>>◌, ap, ◌∙◌, sym, subst,
}
use sioworkers.Ram.{Env}
use sioworkers.Scheduler.Task.{is_real_cpu}
use sioworkers.WorkerManager.{refuses}
use sioworkers.WorkerManager.Data.{Worker}

pub record Node : Type 0 where
  pub running : Dict Env
  pub can_run_cpu_exec : Bool

unfoldable pub is_cpu_exec : Env → Bool
is_cpu_exec env = str_eq env.job_type "cpu-exec"

-- `any([task['job_type'] == 'cpu-exec' for task in running.values()])`
abbrev pub any_cpu_exec : Dict Env → Bool
any_cpu_exec [] = false
any_cpu_exec (item ∷ d) = if is_cpu_exec item.1 then true else any_cpu_exec d

abbrev pub is_running : Dict Env → Bool
is_running [] = false
is_running (item ∷ d) = true

-- The tests of cmd_run, in its order; each raises RuntimeError.
unfoldable pub rejects : Env → Node → Bool
rejects env n =
    if is_cpu_exec env && is_running n.running
    then true
    else if is_cpu_exec env && not n.can_run_cpu_exec
    then true
    else any_cpu_exec n.running

-- `cmd_run` up to the start of the thread.
unfoldable pub cmd_run : Env → Action Node (Unit {0})
unfolding rejects
cmd_run env = do
  n ← gets (λ n. n)
  require (not (rejects env n)) runtime_error
  modify (λ n. record n { running = insert env.task_id env n.running })

-- The thread has ended, with a result or an error: `_done`.
unfoldable pub task_done : ℕ → Action Node (Unit {0})
task_done task_id = do
  n ← gets (λ n. n)
  _ ← or_raise (lookup task_id n.running) key_error
  modify (λ n. record n { running = erase task_id n.running })

abbrev pub cmd_get_running : Dict Env → List ℕ
cmd_get_running [] = []
cmd_get_running (item ∷ d) = item.0 ∷ cmd_get_running d

pub data NodeEvent : Type 0 where
  runs_task : Env → NodeEvent
  ends_task : ℕ → NodeEvent

unfoldable pub node_run : List NodeEvent → Node → Node
node_run [] n = n
node_run (runs_task env ∷ es) n = node_run es (cmd_run env n).1
node_run (ends_task tid ∷ es) n = node_run es (task_done tid n).1

-- A cpu-exec job is alone, on a worker that may run it.
abbrev pub Exclusive : Node → Type 0
Exclusive n = any_cpu_exec n.running ≡ true → (length n.running ≤ 1) × (n.can_run_cpu_exec ≡ true)

any_cpu_exec-insert :
    (tid : ℕ) (env : Env) (d : Dict Env)
    → any_cpu_exec d ≡ false
    → any_cpu_exec (insert tid env d) ≡ is_cpu_exec env
any_cpu_exec-insert tid env [] e = ground arith
any_cpu_exec-insert tid env (item ∷ d) e = ground (arith, any_cpu_exec-insert tid env d)

any_cpu_exec-erase :
    (tid : ℕ) (d : Dict Env) → any_cpu_exec (erase tid d) ≡ true → any_cpu_exec d ≡ true
any_cpu_exec-erase tid [] e = cc
any_cpu_exec-erase tid (item ∷ d) e = ground (arith, any_cpu_exec-erase tid d)

length-erase : (tid : ℕ) (d : Dict Env) → length (erase tid d) ≤ length d
length-erase tid [] = omega arith
length-erase tid (item ∷ d) = ground (arith, length-erase tid d)

accepted :
    (env : Env) (n : Node)
    → rejects env n ≡ false
    → (any_cpu_exec n.running ≡ false)
      × (is_cpu_exec env ≡ true → (is_running n.running ≡ false) × (n.can_run_cpu_exec ≡ true))
unfolding rejects
accepted env n e = ground arith

length-insert :
    (tid : ℕ) (env : Env) (d : Dict Env) → is_running d ≡ false → length (insert tid env d) ≡ 1
length-insert tid env [] e = refl
length-insert tid env (item ∷ d) e = absurd (cc)

cmd_run-Exclusive : (env : Env) (n : Node) → Exclusive n → Exclusive (cmd_run env n).1
unfolding cmd_run rejects
cmd_run-Exclusive env n h = elim (Bool-cases (rejects env n)) [
  | inl e ↦ rw e h
  | inr e ↦
      let (none_before, idle) = accepted env n e in
      rw e (λ c.
        let exec = sym (any_cpu_exec-insert env.task_id env n.running none_before) ∙ c in
        let (empty, may) = idle exec in
        (omega (arith, length-insert env.task_id env n.running empty), may))
]

task_done-Exclusive : (tid : ℕ) (n : Node) → Exclusive n → Exclusive (task_done tid n).1
unfolding task_done
task_done-Exclusive tid n h =
    ground (arith, any_cpu_exec-erase tid n.running, length-erase tid n.running)

node_run-Exclusive : (es : List NodeEvent) (n : Node) → Exclusive n → Exclusive (node_run es n)
unfolding node_run
node_run-Exclusive [] n h = h
node_run-Exclusive (runs_task env ∷ es) n h =
    node_run-Exclusive es (cmd_run env n).1 (cmd_run-Exclusive env n h)
node_run-Exclusive (ends_task tid ∷ es) n h =
    node_run-Exclusive es (task_done tid n).1 (task_done-Exclusive tid n h)

-- Whatever jobs are sent to a worker that runs none, and whenever they end: while a cpu-exec job
-- runs it is the only job, and the worker is one that may run such jobs.
pub cpu_exec_alone :
    (es : List NodeEvent) (n : Node)
    → n.running ≡ []
    → any_cpu_exec (node_run es n).running ≡ true
    → (length (node_run es n).running ≤ 1) × ((node_run es n).can_run_cpu_exec ≡ true)
cpu_exec_alone es n e =
    node_run-Exclusive es n (λ h. absurd (let f = subst (λ d. any_cpu_exec d ≡ true) e h in cc))

not_rejected :
    (env : Env) (n : Node)
    → is_cpu_exec env ≡ false
    → any_cpu_exec n.running ≡ false
    → rejects env n ≡ false
unfolding rejects
not_rejected env n e f = ground arith

refused :
    (w : Worker) (env : Env)
    → is_real_cpu env.job_type ≡ true
    → (¬ (w.tasks ≡ [])) ⊎ (w.can_run_cpu_exec ≡ false)
    → refuses w env ≡ true
unfolding refuses
refused w env e g = ground arith

interactive_real :
    (env : Env) → env.job_type ≡ "cpu-interactive-exec" → is_real_cpu env.job_type ≡ true
unfolding is_real_cpu
interactive_real env e = ap is_real_cpu e

interactive_not_exec : (env : Env) → env.job_type ≡ "cpu-interactive-exec" → is_cpu_exec env ≡ false
unfolding is_cpu_exec
interactive_not_exec env e = ap (λ j. str_eq j "cpu-exec") e

-- cmd_run guards only cpu-exec jobs. A cpu-interactive-exec job is taken by a worker that runs other
-- jobs, or may not run such jobs, as long as no cpu-exec job runs, while runOnWorker refuses the job
-- for a worker that has a task or may not run it.
pub interactive_not_guarded :
    (env : Env) (n : Node) (w : Worker)
    → env.job_type ≡ "cpu-interactive-exec"
    → any_cpu_exec n.running ≡ false
    → (¬ (w.tasks ≡ [])) ⊎ (w.can_run_cpu_exec ≡ false)
    → ((cmd_run env n).0 ≡ ok tt)
      × (lookup env.task_id (cmd_run env n).1.running ≡ some env)
      × (refuses w env ≡ true)
unfolding cmd_run
interactive_not_guarded env n w e f g =
    let taken = not_rejected env n (interactive_not_exec env e) f in
    (
      rw taken refl,
      rw taken (rw (lookup-insert env.task_id env.task_id env n.running) (ground arith)),
      refused w env (interactive_real env e) g,
    )
