-- ===== src/Scheduler/Queues/Order.antt =====
-- The order of tasks within a contest: greater priority last, and of equal priorities the oldest.
use sioworkers.Prelude.{◌≡◌, true, false, arith}
use sioworkers.Sorted.{IsOrder}
use sioworkers.Scheduler.Task.{TaskInfo, task_lt}

irrefl : (a : TaskInfo) → task_lt a a ≡ false
irrefl a = ground arith

asym : (a b : TaskInfo) → task_lt a b ≡ true → task_lt b a ≡ false
asym a b h = ground arith

trans : (a b c : TaskInfo) → task_lt b a ≡ false → task_lt c b ≡ false → task_lt c a ≡ false
trans a b c h k = ground arith

pub task_lt-IsOrder : IsOrder task_lt
task_lt-IsOrder = record { irrefl = irrefl; asym = asym; trans = trans }
