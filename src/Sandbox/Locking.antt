-- ===== src/Sandbox/Locking.antt =====
-- The lock and the count of the users of a sandbox, over the calls of `with`.
use sioworkers.Prelude.{
  ◌∙◌, subst, subst, ℕ, suc, ◌≡◌, refl, Option, none, List, arith, Result, ok, raised, Ends,
  Exception, ◌<◌,
}
use sioworkers.Sandbox.{World, Box, Disk, shared, unlocked, enter, exit}
use sioworkers.Sandbox.Installing.{Usable}
use sioworkers.Sandbox.Entering.{Held, Joined, Turned, enter-Ends, exit-Ends}

-- The calls of `with` on an instance, with the number of the users inside. Another process changes
-- the directory only under an exclusive lock, so not while this one has the lock.
pub data Reach (required : List (List ℕ)) : ℕ → Box → Type 0 where
  created :
      (disk : Option Disk)
      → Reach required 0 (record {
        required = required;
        in_context = 0;
        lock = unlocked;
        disk = disk;
        operative_fixups = none;
      })
  entered :
      {n : ℕ} {b c : Box} (w : World) (other : Option Disk → Option Disk)
      → Reach required n b
      → enter w other b ≡ (ok tt, c)
      → Reach required (suc n) c
  refused :
      {n : ℕ} {b c : Box} (w : World) (other : Option Disk → Option Disk) (e : Exception)
      → Reach required n b
      → enter w other b ≡ (raised e, c)
      → Reach required n c
  left : {n : ℕ} {b : Box} → Reach required (suc n) b → Reach required n (exit b).1
  changed :
      {n : ℕ} {b : Box} (disk : Option Disk)
      → Reach required n b
      → b.lock ≡ unlocked
      → Reach required n (record b { disk = disk })

record Inside (required : List (List ℕ)) (n : ℕ) (b : Box) : Type 0 where
  counted : b.in_context ≡ n
  same_required : b.required ≡ required
  held : Held b

after_exit :
    {n : ℕ} (required : List (List ℕ)) (b : Box) (end : Result (Unit {0}) × Box)
    → Ends
        (λ a c.
          (suc c.in_context ≡ b.in_context)
          × (c.required ≡ b.required)
          × (c.disk ≡ b.disk)
          × Held c
          × (c.in_context ≡ 0 → c.lock ≡ unlocked))
        (λ c. ⊥)
        end
    → Inside required (suc n) b
    → Inside required n end.1
after_exit required b (ok a, c) h i = record {
  counted = omega (arith, h.0, i.counted);
  same_required = h.1 ∙ i.same_required;
  held = h.3;
}
after_exit required b (raised e, c) h i = absurd h

Reach-Inside :
    {required : List (List ℕ)} {n : ℕ} {b : Box} → Reach required n b → Inside required n b
unfolding exit
Reach-Inside (created disk) = record {
  counted = refl;
  same_required = refl;
  held = λ h. absurd (omega arith);
}
Reach-Inside {required} (entered {n} {b} {c} w other r e) =
    let i = Reach-Inside r in
    let h = subst (Ends (λ a. Joined b) (Turned w b)) e (enter-Ends w other b i.held) in
    record {
      counted = omega (arith, h.0, i.counted);
      same_required = h.1 ∙ i.same_required;
      held = λ z. (h.2, h.3);
    }
Reach-Inside (refused {n} {b} {c} w other x r e) =
    let i = Reach-Inside r in
    let h = subst (Ends (λ a. Joined b) (Turned w b)) e (enter-Ends w other b i.held) in
    record {
      counted = omega (arith, h.0, h.1, i.counted);
      same_required = h.2 ∙ i.same_required;
      held = λ z. absurd (omega (arith, h.1));
    }
Reach-Inside {required} (left {b} r) =
    let i = Reach-Inside r in
    after_exit required b (exit b) (exit-Ends b i.held (omega (arith, i.counted))) i
Reach-Inside (changed {b} disk r free) =
    let i = Reach-Inside r in
    record {
      counted = i.counted;
      same_required = i.same_required;
      held = λ h. absurd (let k = i.held h in cc (k.0, free));
    }

-- Whatever the users of a sandbox do, and whatever its servers and its disk answer: while n of them
-- are inside, the count is n, and if n is not 0 the lock is shared and the directory is there with
-- the fixups that are required, or with a list of its fixups that cannot be read.
pub users-Held :
    {required : List (List ℕ)} {n : ℕ} {b : Box}
    → Reach required n b
    → (b.in_context ≡ n) × (0 < n → (b.lock ≡ shared) × Usable required b.disk)
users-Held {b} r =
    let i = Reach-Inside r in
    (
      i.counted,
      λ h.
          let k = i.held (omega (arith, i.counted)) in
          (k.0, subst (λ q. Usable q b.disk) i.same_required k.1),
    )
