-- ===== src/Ram.antt =====
-- sio/sioworkersd/utils.py: the RAM that a job needs. The code divides an integer number of KiB by
-- 1024, which a float holds exactly. An amount of RAM in MiB is written here as a number of
-- 1024ths, so the division is the identity and a whole number of MiB is multiplied by 1024.
use Prim.Native.Char.{code}
use Prim.Native.String.{String, ◌++◌}
use text.Mathlib.Text.{◌==◌}
use sioworkers.Prelude.{
  ℕ, ◌-◌, ◌*◌, ◌≤◌, ◌≡◌, Bool, true, false, Option, none, some, List, [], ◌∷◌, arith, leb,
  if◌then◌else◌, length, drop, max, ◌⊎◌,
}
use sioworkers.Prelude.Int.{ℤ}
use mathlib.Core.Option.{get_or}

-- The entries of a task's environment that the scheduler and the managers read. `limits` holds the
-- entries whose keys end in `_mem_limit`, in KiB, under their whole keys.
pub record Env : Type 0 where
  pub task_id : ℕ
  pub job_type : String
  pub contest_uid : ℕ
  pub task_priority : Option ℤ
  pub check_output : Bool
  pub limits : List (String × ℕ)

abbrev pub codes : String → List ℕ
codes String.[] = []
codes (String.◌∷◌ c s) = code c ∷ codes s

same_codes : List ℕ → List ℕ → Bool
same_codes [] [] = true
same_codes (x ∷ s) (y ∷ t) = if leb x y then if leb y x then same_codes s t else false else false
same_codes _ _ = false

-- `s.endswith(t)`
unfoldable pub ends_with : String → String → Bool
unfolding same_codes
ends_with s t =
    let n = length (codes s) in
    let m = length (codes t) in
    if leb m n then same_codes (drop (n - m) (codes s)) (codes t) else false

-- `env.get(k)`
abbrev pub get : String → List (String × ℕ) → Option ℕ
get k [] = none
get k ((j, v) ∷ l) = if j == k then some v else get k l

abbrev pub default_ram_requirements : List (String × ℕ)
default_ram_requirements =
    ("ping", 1 * 1024)
    ∷ ("ingen", 256 * 1024)
    ∷ ("inwer", 256 * 1024)
    ∷ ("compile", 512 * 1024)
    ∷ ("exec", 64 * 1024)
    ∷ ("checker", 256 * 1024)
    ∷ ("default", 256 * 1024)
    ∷ []

-- `DEFAULT_RAM_REQUIREMENTS.get(job_type, DEFAULT_RAM_REQUIREMENTS['default'])`
unfoldable pub default_ram : String → ℕ
default_ram job_type = get_or (get job_type default_ram_requirements) (256 * 1024)

-- The memory limit of the program that an exec job runs, and that of its checker.
unfoldable pub exec_ram : Env → ℕ
exec_ram env = get_or (get "exec_mem_limit" env.limits) (64 * 1024)

unfoldable pub checker_ram : Env → ℕ
checker_ram env = get_or (get "checker_mem_limit" env.limits) (256 * 1024)

unfoldable pub get_required_ram_for_job : Env → ℕ
unfolding exec_ram checker_ram default_ram
get_required_ram_for_job env =
    if ends_with env.job_type "exec"
    then (if env.check_output then max (exec_ram env) (checker_ram env) else exec_ram env)
    else get_or (get (env.job_type ++ "_mem_limit") env.limits) (default_ram env.job_type)

-- An exec job whose output is checked gets no less room than either limit, and exactly one of the two.
pub get_required_ram_for_job-checked :
    (env : Env)
    → ends_with env.job_type "exec" ≡ true
    → env.check_output ≡ true
    → (exec_ram env ≤ get_required_ram_for_job env)
      × (checker_ram env ≤ get_required_ram_for_job env)
      × ((get_required_ram_for_job env ≡ exec_ram env)
          ⊎ (get_required_ram_for_job env ≡ checker_ram env))
unfolding get_required_ram_for_job
get_required_ram_for_job-checked env e c = rw (e, c) (omega arith, omega arith, omega arith)
