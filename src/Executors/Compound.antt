-- ===== src/Executors/Compound.antt =====
-- CompoundSandboxExecutor of sio/workers/executors.py: two sandboxes that are entered together, one
-- with a tool and, if there is one, one that the caller names.
pub mod Release
use sioworkers.Prelude.{
  ℕ, suc, ◌≡◌, refl, Bool, true, false, Option, none, some, List, arith, Result, ok, raised, Action,
  pure, modify, ◌>>=◌, ◌>>◌, try_except, on_error, raise, Exception, Ends, Ends-bind, Ends-try,
  Ends-weaken, zoom, ◌<◌,
}
use sioworkers.Sandbox.{World, Box, Disk, enter, exit, unlocked, shared}

pub record Pair : Type 0 where
  pub tool : Box
  pub chroot : Option Box

abbrev pub put_tool : Box → Pair → Pair
put_tool b p = record p { tool = b }

abbrev pub on_tool : {A : Type 0} → Action Box A → Action Pair A
on_tool m = zoom (λ p. p.tool) put_tool m

-- Without a sandbox of the caller, a context manager that does nothing takes its place.
abbrev pub on_chroot : Action Box (Unit {0}) → Action Pair (Unit {0})
on_chroot m p = elim (p.chroot) [
  | none ↦ (ok tt, p)
  | some b ↦ (let (r, c) = m b in (r, record p { chroot = some c }))
]

-- The answers of the outside, and what other processes do, for each of the sandboxes.
pub record Outside : Type 0 where
  pub tool_world : World
  pub chroot_world : World
  pub tool_other : Option Disk → Option Disk
  pub chroot_other : Option Disk → Option Disk

-- `__enter__`
unfoldable pub enter_both : Outside → Action Pair (Unit {0})
unfolding enter exit
enter_both w =
    on_tool (enter w.tool_world w.tool_other)
    >> on_error (on_chroot (enter w.chroot_world w.chroot_other)) (on_tool exit)

-- `__exit__`: what the first raises goes to the second, and no further.
unfoldable pub exit_both : Action Pair (Unit {0})
unfolding exit
exit_both = try_except (on_chroot exit) (λ e. pure tt) >> on_tool exit
