-- ===== src/Tests/Blocking.antt =====
-- `_getNumberOfBlockedAnyCpuWorkers` on two workers.
use mathlib.Core.List.Perm
use sioworkers.Prelude.{ℕ, ◌*◌, ◌≤◌, ◌<◌, ◌≡◌, refl, List, [], ok, arith, length, take}
use sioworkers.Prelude.Inserted.{here, there}
use sioworkers.WorkerManager.Data.{worker_stats}
use sioworkers.Scheduler.Waiting.Fifo.{IsValid}
use sioworkers.Scheduler.Blocking.{any_cpu_rams, get_number_of_blocked_any_cpu_workers}
use sioworkers.Scheduler.Blocking.Matching.{CanProcess, done, assign}
use sioworkers.Scheduler.Blocking.Choice.{Chosen}
use sioworkers.Scheduler.Blocking.Suffices.{blocked_suffices, blocked_all}
use sioworkers.Tests.Samples.{machines, waiting_two, waiting_huge}

pub waiting_two-IsValid : IsValid waiting_two
waiting_two-IsValid = record {
  same = Perm.swap (100 * 1024) (600 * 1024) [];
  ordered = ((refl, tt), (tt, tt));
}

waiting_huge-IsValid : IsValid waiting_huge
waiting_huge-IsValid = record { same = Perm.rfl; ordered = (tt, tt) }

two_fit : CanProcess (any_cpu_rams machines) waiting_two.tasks_required_ram
unfolding any_cpu_rams
two_fit = assign here (omega arith) (assign here (omega arith) done)

blocked_suffices_example :
    (n : ℕ) × (get_number_of_blocked_any_cpu_workers machines
        (worker_stats machines).min_any_cpu_worker_ram
        waiting_two
      ≡ ok n)
    × (n ≤ length (any_cpu_rams machines))
    × ((s : List ℕ)
        → Chosen s (any_cpu_rams machines)
        → length s ≡ n
        → CanProcess s waiting_two.tasks_required_ram)
    × ((k : ℕ)
        → k < n
        → Chosen (take k (any_cpu_rams machines)) (any_cpu_rams machines)
          × ¬ CanProcess (take k (any_cpu_rams machines)) waiting_two.tasks_required_ram)
blocked_suffices_example = blocked_suffices machines waiting_two waiting_two-IsValid two_fit

-- Two workers are blocked for the two tasks, though the smaller one fits only one of them.
blocked_two :
    get_number_of_blocked_any_cpu_workers machines
      (worker_stats machines).min_any_cpu_worker_ram
      waiting_two
    ≡ ok 2
unfolding get_number_of_blocked_any_cpu_workers worker_stats
blocked_two = refl

none_fits : ¬ CanProcess (any_cpu_rams machines) waiting_huge.tasks_required_ram
unfolding any_cpu_rams
none_fits (assign here le rest) = absurd (omega arith)
none_fits (assign (there here) le rest) = absurd (omega arith)
none_fits (assign (there (there i)) le rest) = elim i [ ]

blocked_all_example :
    (n : ℕ) × (get_number_of_blocked_any_cpu_workers machines
        (worker_stats machines).min_any_cpu_worker_ram
        waiting_huge
      ≡ ok n)
    × (length (any_cpu_rams machines) ≤ n)
blocked_all_example = blocked_all machines waiting_huge waiting_huge-IsValid none_fits
