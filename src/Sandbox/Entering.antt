-- ===== src/Sandbox/Entering.antt =====
-- What entering and leaving a sandbox do to its lock and to the count of its users.
use sioworkers.Prelude.{
  ◌==◌, lift, ◌>>◌, raise, on_error, Ends-bind, Ends-try, Ends-weaken, Ends-weaken, Ends-bind,
  on_error, suc, ◌≡◌, refl, Bool, true, false, Option, arith, Result, ok, raised, Ends, ◌<◌,
}
use sioworkers.Sandbox.{
  count_out, enter_as, set_lock, set_lock, World, Box, Disk, shared, unlocked, exclusive, get,
  renew, replace, enter, exit, install, should_install_sandbox,
}
use sioworkers.Sandbox.Installing.{Keeps, Usable, install-Ends, should_install_sandbox-Ends}

abbrev Entered : Box → Box → Type 0
Entered b c =
    (c.lock ≡ shared)
    × (c.in_context ≡ b.in_context)
    × (c.required ≡ b.required)
    × Usable c.required c.disk

-- The lock is given back unless the disk takes no writes.
abbrev Refused : World → Box → Box → Type 0
Refused w b c =
    (c.in_context ≡ b.in_context)
    × (c.required ≡ b.required)
    × (w.writes ≡ ok tt → c.lock ≡ unlocked)

-- The part of `Entered` that holds before the lock is shared again.
abbrev Installed : Box → Box → Type 0
Installed b c = (c.in_context ≡ b.in_context) × (c.required ≡ b.required) × Usable c.required c.disk

-- An installation that fails gives the lock back.
pub locked_install-Ends :
    (w : World) (b : Box)
    → Ends
        (λ a. Entered b)
        (Refused w b)
        ((on_error (install w) (set_lock unlocked) >> set_lock shared) b)
locked_install-Ends w b =
    Ends-bind (λ a. Installed b) (Refused w b) (λ a. Entered b) (Refused w b)
      (on_error (install w) (set_lock unlocked) b) (λ a. set_lock shared)
      (Ends-try (λ a. Installed b) (Keeps b) (Refused w b) (install w b)
        (λ e. set_lock unlocked >> raise e)
        (Ends-weaken (λ a c. Keeps b c × Usable c.required c.disk) (Keeps b) (λ a. Installed b)
          (Keeps b) (install w b) (install-Ends w b) (λ a c h. (h.0.1, h.0.2, h.1)) (λ c h. h))
        (λ e c h. (h.1, h.2, λ l. refl)))
      (λ a c h. (refl, h.0, h.1, h.2)) (λ c h. h)

pub replace-Ends :
    (w : World) (old : Bool) (b : Box)
    → (old ≡ false → Usable b.required b.disk)
    → Ends (λ a c. Entered b c) (λ c. Refused w b c) (replace w old b)
unfolding replace
replace-Ends w true b u = locked_install-Ends w b
replace-Ends w false b u = (refl, refl, refl, u refl)

-- The state after the check, with the lock that it was made under.
pub renew-Ends :
    (w : World) (other : Option Disk → Option Disk) (old : Bool) (b : Box)
    → (old ≡ false → Usable b.required b.disk)
    → b.lock ≡ shared
    → Ends (λ a c. Entered b c) (λ c. Refused w b c) (renew w other old b)
unfolding renew
renew-Ends w other true b u l =
    let b' = record b { lock = exclusive; disk = other b.disk } in
    Ends-bind (λ a c. Keeps b' c × (a ≡ false → Usable c.required c.disk))
      (λ c. Keeps b' c × (w.writes ≡ ok tt → ⊥)) (λ a. Entered b) (Refused w b)
      (should_install_sandbox w b') (replace w) (should_install_sandbox-Ends w b')
      (λ a c h.
        Ends-weaken (λ a. Entered c) (Refused w c) (λ a. Entered b) (Refused w b) (replace w a c)
          (replace-Ends w a c h.1) (λ t d k. ground arith) (λ d k. ground arith))
      (λ c h. ground arith)
renew-Ends w other false b u l = (l, refl, refl, u refl)

pub get-Ends :
    (w : World) (other : Option Disk → Option Disk) (b : Box)
    → Ends (λ a c. Entered b c) (λ c. Refused w b c) (get w other b)
unfolding get
get-Ends w other b =
    let b' = record b { lock = shared } in
    Ends-bind (λ a c. Keeps b' c × (a ≡ false → Usable c.required c.disk))
      (λ c. Keeps b' c × (w.writes ≡ ok tt → ⊥)) (λ a. Entered b) (Refused w b)
      (should_install_sandbox w b') (renew w other) (should_install_sandbox-Ends w b')
      (λ a c h.
        Ends-weaken (λ a. Entered c) (Refused w c) (λ a. Entered b) (Refused w b)
          (renew w other a c) (renew-Ends w other a c h.1 (ground arith)) (λ t d k. ground arith)
          (λ d k. ground arith))
      (λ c h. ground arith)

-- While a sandbox is used, its lock is shared and its directory is usable.
abbrev pub Held : Box → Type 0
Held b = 0 < b.in_context → (b.lock ≡ shared) × Usable b.required b.disk

abbrev pub Unlocked : World → Box → Type 0
Unlocked w c = w.opens ≡ ok tt → w.writes ≡ ok tt → c.lock ≡ unlocked

-- A new lock file, and then `_get`.
pub open_lock-Ends :
    (w : World) (other : Option Disk → Option Disk) (b : Box) (opens : Result (Unit {0}))
    → w.opens ≡ opens
    → Ends
        (λ a. Entered b)
        (λ c. (c.in_context ≡ b.in_context) × (c.required ≡ b.required) × Unlocked w c)
        ((lift opens >> set_lock unlocked >> get w other) b)
open_lock-Ends w other b (ok a) e =
    let b' = record b { lock = unlocked } in
    Ends-weaken (λ a. Entered b') (Refused w b') (λ a. Entered b) _ (get w other b')
      (get-Ends w other b') (λ a c h. h) (λ c h. (h.0, h.1, λ o. h.2))
open_lock-Ends w other b (raised x) e = (refl, refl, λ o. absurd (cc (e, o)))

abbrev pub Joined : Box → Box → Type 0
Joined b c =
    (c.in_context ≡ suc b.in_context)
    × (c.required ≡ b.required)
    × (c.lock ≡ shared)
    × Usable c.required c.disk

abbrev pub Turned : World → Box → Box → Type 0
Turned w b c = (b.in_context ≡ 0) × (c.in_context ≡ 0) × (c.required ≡ b.required) × Unlocked w c

abbrev pub Parted : Box → Box → Type 0
Parted b c =
    (suc c.in_context ≡ b.in_context)
    × (c.required ≡ b.required)
    × (c.disk ≡ b.disk)
    × Held c
    × (c.in_context ≡ 0 → c.lock ≡ unlocked)

pub enter_as-Ends :
    (w : World) (other : Option Disk → Option Disk) (first : Bool) (b : Box)
    → (b.in_context == 0) ≡ first
    → Held b
    → Ends
        (λ a c.
          (c.in_context ≡ suc b.in_context)
          × (c.required ≡ b.required)
          × (c.lock ≡ shared)
          × Usable c.required c.disk)
        (Turned w b)
        (enter_as w other first (record b { in_context = suc b.in_context }))
unfolding enter_as
enter_as-Ends w other true b e held =
    let b' = record b { in_context = suc b.in_context } in
    Ends-try
      (λ a c.
        (c.in_context ≡ suc b.in_context)
        × (c.required ≡ b.required)
        × (c.lock ≡ shared)
        × Usable c.required c.disk)
      (λ c. (c.in_context ≡ b'.in_context) × (c.required ≡ b'.required) × Unlocked w c) (Turned w b)
      ((lift w.opens >> set_lock unlocked >> get w other) b') (λ e. count_out >> raise e)
      (Ends-weaken (λ a. Entered b')
        (λ c. (c.in_context ≡ b'.in_context) × (c.required ≡ b'.required) × Unlocked w c) _ _ _
        (open_lock-Ends w other b' w.opens refl) (λ a c h. (h.1, h.2, h.0, h.3)) (λ c h. h))
      (λ x c h. ground arith)
enter_as-Ends w other false b e held = ground arith

-- Entering ends with one user more, the lock shared and the directory there with what is required, or
-- with a list of its fixups that cannot be read. An entering that raises leaves the count as it was,
-- and the lock given back if files can be opened and written; it happens only when nobody is inside.
pub enter-Ends :
    (w : World) (other : Option Disk → Option Disk) (b : Box)
    → Held b
    → Ends
        (λ a c.
          (c.in_context ≡ suc b.in_context)
          × (c.required ≡ b.required)
          × (c.lock ≡ shared)
          × Usable c.required c.disk)
        (λ c. (b.in_context ≡ 0) × (c.in_context ≡ 0) × (c.required ≡ b.required) × Unlocked w c)
        (enter w other b)
unfolding enter
enter-Ends w other b held = enter_as-Ends w other (b.in_context == 0) b refl held

-- Leaving is of one user; the last one gives the lock back, and for the others nothing changes.
pub exit-Ends :
    (b : Box)
    → Held b
    → 0 < b.in_context
    → Ends
        (λ a c.
          (suc c.in_context ≡ b.in_context)
          × (c.required ≡ b.required)
          × (c.disk ≡ b.disk)
          × Held c
          × (c.in_context ≡ 0 → c.lock ≡ unlocked))
        (λ c. ⊥)
        (exit b)
unfolding exit
exit-Ends b held inside = ground arith
