-- ===== src/Scheduler/Task.antt =====
-- TaskInfo and ContestInfo of sio/sioworkersd/scheduler/prioritizing.py. An object that never
-- changes is a value; the one attribute of a task that does change, `assigned_worker`, is kept
-- beside the task in the scheduler's table. A contest is known by its uid.
use Prim.Native.String.{String}
use text.Mathlib.Text.{◌==◌ as str_eq}
use mathlib.Core.Option.{get_or}
use native.Mathlib.Decide.{ℕ_discrete}
use sioworkers.Prelude.{ℕ, Bool, true, false, ◌||◌, ltb, if◌then◌else◌}
use sioworkers.Prelude.Int.{ℤ, pos, ltb_ℤ}
use sioworkers.Ram.{Env, get_required_ram_for_job}

pub record TaskInfo : Type 0 where
  pub id : ℕ
  pub real_cpu : Bool
  pub required_ram_mb : ℕ
  pub priority : ℤ
  pub contest : ℕ
  pub sequence_number : ℕ

pub record ContestInfo : Type 0 where
  pub uid : ℕ
  pub priority : ℤ
  pub weight : ℕ

-- `job_type in ('cpu-exec', 'cpu-interactive-exec')`
unfoldable pub is_real_cpu : String → Bool
is_real_cpu job_type = str_eq job_type "cpu-exec" || str_eq job_type "cpu-interactive-exec"

-- The constructor of TaskInfo. `counter` is the class's `sequence_counter` after the increment.
unfoldable pub new_task : Env → ℕ → TaskInfo
new_task env counter = record {
  id = env.task_id;
  real_cpu = is_real_cpu env.job_type;
  required_ram_mb = get_required_ram_for_job env;
  priority = get_or env.task_priority (pos 0);
  contest = env.contest_uid;
  sequence_number = counter;
}

-- The order of the key `(t.priority, -t.sequence_number)`.
abbrev pub task_lt : TaskInfo → TaskInfo → Bool
task_lt a b =
    if ltb_ℤ a.priority b.priority
    then true
    else if ltb_ℤ b.priority a.priority
    then false
    else ltb b.sequence_number a.sequence_number

-- Two tasks with the same attributes are equal as values, which is decidable.
ℤ-discrete : Discrete ℤ
ℤ-discrete = hlevel ℕ_discrete

pub TaskInfo-discrete : Discrete TaskInfo
TaskInfo-discrete = hlevel (ℕ_discrete, ℤ-discrete)
