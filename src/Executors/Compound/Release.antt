-- ===== src/Executors/Compound/Release.antt =====
-- That a pair of sandboxes is taken and given back together.
use sioworkers.Prelude.{
  ◌≡◌, refl, sym, subst, ◌∙◌, Option, none, some, arith, Result, ok, raised, Action, pure,
  try_except, on_error, raise, Exception, Ends, Ends-bind, Ends-try, Ends-weaken, ◌<◌, ◌>>◌,
}
use sioworkers.Sandbox.{World, Box, Disk, enter, exit}
use sioworkers.Sandbox.Entering.{Held, Joined, Turned, Parted, enter-Ends, exit-Ends}
use sioworkers.Executors.Compound.{Pair, Outside, on_tool, on_chroot, enter_both, exit_both}

-- A relation between the caller's sandbox before and after, where there is one.
abbrev pub OfChroot : (Box → Box → Type 0) → Option Box → Option Box → Type 0
OfChroot R none none = Unit {0}
OfChroot R (some b) (some c) = R b c
OfChroot R b c = ⊥

abbrev pub BothHeld : Pair → Type 0
BothHeld p = Held p.tool × OfChroot (λ b c. Held b) p.chroot p.chroot

-- Each sandbox has its users as before, and is held for them.
abbrev pub SameUsers : Box → Box → Type 0
SameUsers b c = (c.in_context ≡ b.in_context) × (c.required ≡ b.required) × Held c

on_tool-Ends :
    {A : Type 0} (Q E : Box → Type 0) (m : Action Box A) (p : Pair)
    → Ends (λ a. Q) E (m p.tool)
    → Ends
        (λ a q. Q q.tool × (q.chroot ≡ p.chroot))
        (λ q. E q.tool × (q.chroot ≡ p.chroot))
        (on_tool m p)
on_tool-Ends {A} Q E m p h = with_end (m p.tool) h
  where
    with_end :
        (end : Result A × Box)
        → Ends (λ a. Q) E end
        → Ends
            (λ a q. Q q.tool × (q.chroot ≡ p.chroot))
            (λ q. E q.tool × (q.chroot ≡ p.chroot))
            (on_tool (λ b. end) p)
    with_end (ok a, b) h = (h, refl)
    with_end (raised e, b) h = (h, refl)

on_chroot-Ends :
    (Q E : Box → Box → Type 0) (m : Action Box (Unit {0})) (tool : Box) (chroot : Option Box)
    → ((b : Box) → chroot ≡ some b → Ends (λ a. Q b) (E b) (m b))
    → Ends
        (λ a q. (q.tool ≡ tool) × OfChroot Q chroot q.chroot)
        (λ q. (q.tool ≡ tool) × OfChroot E chroot q.chroot)
        (on_chroot m (record { tool = tool; chroot = chroot }))
on_chroot-Ends Q E m tool none h = (refl, tt)
on_chroot-Ends Q E m tool (some b) h = with_end (m b) (h b refl)
  where
    with_end :
        (end : Result (Unit {0}) × Box)
        → Ends (λ a. Q b) (E b) end
        → Ends
            (λ a q. (q.tool ≡ tool) × OfChroot Q (some b) q.chroot)
            (λ q. (q.tool ≡ tool) × OfChroot E (some b) q.chroot)
            (on_chroot (λ c. end) (record { tool = tool; chroot = some b }))
    with_end (ok a, c) h = (refl, h)
    with_end (raised e, c) h = (refl, h)

BothHeld-chroot : (p : Pair) → BothHeld p → (b : Box) → p.chroot ≡ some b → Held b
BothHeld-chroot p h b e = (subst (λ c. OfChroot (λ b c. Held b) c c) e h.1)

Joined-Held : (b c : Box) → Joined b c → Held c
Joined-Held b c h z = (h.2, h.3)

Turned-SameUsers : (w : World) (b c : Box) → Turned w b c → SameUsers b c
Turned-SameUsers w b c h = (h.1 ∙ sym h.0, h.2, λ z. absurd (omega (arith, h.1)))

left_again : (b c d : Box) → Joined b c → Parted c d → SameUsers b d
left_again b c d j h = (omega (arith, j.0, h.0), h.1 ∙ j.1, h.3)

same_chroot : (c d : Option Box) → OfChroot (λ b c. Held b) c c → d ≡ c → OfChroot SameUsers c d
same_chroot c d h e = subst (OfChroot SameUsers c) (sym e) (kept c h)
  where
    kept : (c : Option Box) → OfChroot (λ b c. Held b) c c → OfChroot SameUsers c c
    kept none h = tt
    kept (some b) h = (refl, refl, h)

-- The handler of an entering that raised.
leave_tool-Ends :
    (tool : Box) (chroot : Option Box) (e : Exception) (q : Pair)
    → Held tool
    → 0 < tool.in_context
    → (q.tool ≡ tool) × OfChroot SameUsers chroot q.chroot
    → Ends {A = Unit {0}}
        (λ a r. ⊥)
        (λ r. Parted tool r.tool × OfChroot SameUsers chroot r.chroot)
        ((on_tool exit >> raise e) q)
leave_tool-Ends tool chroot e q held inside h =
    Ends-bind (λ a r. Parted tool r.tool × (r.chroot ≡ q.chroot)) (λ r. ⊥ × (r.chroot ≡ q.chroot))
      (λ a r. ⊥) (λ r. Parted tool r.tool × OfChroot SameUsers chroot r.chroot) (on_tool exit q)
      (λ a. raise e)
      (on_tool-Ends (Parted tool) (λ c. ⊥) exit q
        (subst (λ b. Ends (λ a. Parted tool) (λ c. ⊥) (exit b)) (sym h.0)
          (exit-Ends tool held inside)))
      (λ a r k. (k.0, subst (OfChroot SameUsers chroot) (sym k.1) h.1)) (λ r k. absurd k.0)

enter_chroot-Ends :
    (w : World) (other : Option Disk → Option Disk) (tool : Box) (chroot : Option Box)
    → Held tool
    → 0 < tool.in_context
    → OfChroot (λ b c. Held b) chroot chroot
    → Ends
        (λ a q. (q.tool ≡ tool) × OfChroot Joined chroot q.chroot)
        (λ q. Parted tool q.tool × OfChroot SameUsers chroot q.chroot)
        (on_error
          (on_chroot (enter w other))
          (on_tool exit)
          (record { tool = tool; chroot = chroot }))
enter_chroot-Ends w other tool chroot held inside h =
    let p : Pair = record { tool = tool; chroot = chroot } in
    Ends-try (λ a q. (q.tool ≡ tool) × OfChroot Joined chroot q.chroot)
      (λ q. (q.tool ≡ tool) × OfChroot SameUsers chroot q.chroot)
      (λ q. Parted tool q.tool × OfChroot SameUsers chroot q.chroot) (on_chroot (enter w other) p)
      (λ e. on_tool exit >> raise e)
      (on_chroot-Ends Joined SameUsers (enter w other) tool chroot (λ b e.
        Ends-weaken (λ a. Joined b) (Turned w b) (λ a. Joined b) (SameUsers b) (enter w other b)
          (enter-Ends w other b (BothHeld-chroot p (held, h) b e)) (λ a c k. k)
          (Turned-SameUsers w b)))
      (λ e q k.
        Ends-weaken (λ a r. ⊥) (λ r. Parted tool r.tool × OfChroot SameUsers chroot r.chroot) _ _
          ((on_tool exit >> raise e) q) (leave_tool-Ends tool chroot e q held inside k)
          (λ a r z. absurd z) (λ r z. z))

-- Entering both takes both sandboxes. If it raises, neither has a user more than before: a tool that
-- was entered is left again when the caller's sandbox cannot be entered.
pub enter_both-Ends :
    (w : Outside) (p : Pair)
    → BothHeld p
    → Ends
        (λ a q. Joined p.tool q.tool × OfChroot Joined p.chroot q.chroot)
        (λ q. SameUsers p.tool q.tool × OfChroot SameUsers p.chroot q.chroot)
        (enter_both w p)
unfolding enter_both
enter_both-Ends w p h =
    Ends-bind (λ a q. Joined p.tool q.tool × (q.chroot ≡ p.chroot))
      (λ q. Turned w.tool_world p.tool q.tool × (q.chroot ≡ p.chroot))
      (λ a q. Joined p.tool q.tool × OfChroot Joined p.chroot q.chroot)
      (λ q. SameUsers p.tool q.tool × OfChroot SameUsers p.chroot q.chroot)
      (on_tool (enter w.tool_world w.tool_other) p)
      (λ a. on_error (on_chroot (enter w.chroot_world w.chroot_other)) (on_tool exit))
      (on_tool-Ends (Joined p.tool) (Turned w.tool_world p.tool) (enter w.tool_world w.tool_other) p
        (enter-Ends w.tool_world w.tool_other p.tool h.0))
      (λ a q k.
        Ends-weaken (λ a r. (r.tool ≡ q.tool) × OfChroot Joined q.chroot r.chroot)
          (λ r. Parted q.tool r.tool × OfChroot SameUsers q.chroot r.chroot)
          (λ a r. Joined p.tool r.tool × OfChroot Joined p.chroot r.chroot)
          (λ r. SameUsers p.tool r.tool × OfChroot SameUsers p.chroot r.chroot)
          (on_error (on_chroot (enter w.chroot_world w.chroot_other)) (on_tool exit) q)
          (enter_chroot-Ends w.chroot_world w.chroot_other q.tool q.chroot
            (Joined-Held p.tool q.tool k.0) (omega (arith, k.0.0))
            (subst (λ c. OfChroot (λ b d. Held b) c c) (sym k.1) h.1))
          (λ a r z.
            (subst (Joined p.tool) (sym z.0) k.0, subst (λ c. OfChroot Joined c r.chroot) k.1 z.1))
          (λ r z. (
            left_again p.tool q.tool r.tool k.0 z.0,
            subst (λ c. OfChroot SameUsers c r.chroot) k.1 z.1,
          )))
      (λ q k.
        (Turned-SameUsers w.tool_world p.tool q.tool k.0, same_chroot p.chroot q.chroot h.1 k.1))

without_chroot : (c d : Option Box) → OfChroot (λ b c. ⊥) c d → OfChroot Parted c d
without_chroot none none h = tt
without_chroot none (some d) h = h
without_chroot (some c) none h = h
without_chroot (some c) (some d) h = absurd h

-- Leaving takes one user from both sandboxes.
pub exit_both-Ends :
    (p : Pair)
    → BothHeld p
    → 0 < p.tool.in_context
    → OfChroot (λ b c. 0 < b.in_context) p.chroot p.chroot
    → Ends (λ a q. Parted p.tool q.tool × OfChroot Parted p.chroot q.chroot) (λ q. ⊥) (exit_both p)
unfolding exit_both
exit_both-Ends p h inside users =
    Ends-bind (λ a q. (q.tool ≡ p.tool) × OfChroot Parted p.chroot q.chroot) (λ q. ⊥)
      (λ a q. Parted p.tool q.tool × OfChroot Parted p.chroot q.chroot) (λ q. ⊥)
      (try_except (on_chroot exit) (λ e. pure tt) p) (λ a. on_tool exit)
      (Ends-try (λ a q. (q.tool ≡ p.tool) × OfChroot Parted p.chroot q.chroot)
        (λ q. (q.tool ≡ p.tool) × OfChroot (λ b c. ⊥) p.chroot q.chroot) (λ q. ⊥) (on_chroot exit p)
        (λ e. pure tt)
        (on_chroot-Ends Parted (λ b c. ⊥) exit p.tool p.chroot
          (λ b e.
            exit-Ends b (BothHeld-chroot p h b e)
              (subst (λ c. OfChroot (λ b d. 0 < b.in_context) c c) e users)))
        (λ e q k. (k.0, without_chroot p.chroot q.chroot k.1)))
      (λ a q k.
        Ends-weaken (λ a r. Parted q.tool r.tool × (r.chroot ≡ q.chroot))
          (λ r. ⊥ × (r.chroot ≡ q.chroot))
          (λ a r. Parted p.tool r.tool × OfChroot Parted p.chroot r.chroot) (λ r. ⊥)
          (on_tool exit q)
          (on_tool-Ends (Parted q.tool) (λ c. ⊥) exit q
            (subst (λ b. Ends (λ a. Parted b) (λ c. ⊥) (exit b)) (sym k.0)
              (exit-Ends p.tool h.0 inside)))
          (λ a r z.
            (subst (λ b. Parted b r.tool) k.0 z.0, subst (OfChroot Parted p.chroot) (sym z.1) k.1))
          (λ r z. z.0))
      (λ q k. k)
