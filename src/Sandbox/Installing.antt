-- ===== src/Sandbox/Installing.antt =====
-- What the check and the installation of sio/workers/sandbox.py leave on the disk.
use sioworkers.Prelude.{
  Result, Bool, not, raised, is_text_refl, ◌≤◌, ◌+◌, [], ◌∷◌, ◌∷◌, all_texts, ℕ, ◌≡◌, refl, true,
  false, Option, none, some, List, arith, ok, Ends,
}
use sioworkers.Sandbox.{
  unpack, World, Box, Disk, mark_checked, compare_hash, check_age, has_fixups,
  should_install_sandbox, install, fetch, apply_fixups,
}

-- A list of fixups that can be read has all that are required. One that cannot be read is taken for
-- one that has them.
abbrev pub lacks : Result Bool → Bool
lacks (ok b) = not b
lacks (raised e) = false

abbrev pub Usable : List (List ℕ) → Option Disk → Type 0
Usable required none = ⊥
Usable required (some d) = lacks (has_fixups required d.fixups) ≡ false

abbrev pub Keeps : Box → Box → Type 0
Keeps b c = (c.lock ≡ b.lock) × (c.in_context ≡ b.in_context) × (c.required ≡ b.required)

mark_checked-Ends :
    (w : World) (b : Box) (d : Disk)
    → b.disk ≡ some d
    → Ends
        (λ a c. Keeps b c × (Usable b.required b.disk → Usable c.required c.disk))
        (λ c. Keeps b c × (w.writes ≡ ok tt → ⊥))
        (mark_checked w b)
unfolding mark_checked
mark_checked-Ends w b d e = ground arith

check_age-Ends :
    (w : World) (b : Box) (d : Disk)
    → b.disk ≡ some d
    → Usable b.required b.disk
    → Ends
        (λ a c. Keeps b c × Usable c.required c.disk)
        (λ c. Keeps b c × (c.disk ≡ b.disk))
        (check_age w d b)
unfolding check_age compare_hash mark_checked
check_age-Ends w b d e u = ground arith

all_texts_more :
    (s : List ℕ) (l k : List (List ℕ)) → all_texts l k ≡ true → all_texts l (s ∷ k) ≡ true
all_texts_more s [] k h = refl
all_texts_more s (t ∷ l) k h = ground (arith, all_texts_more s l k)

all_texts_refl : (l : List (List ℕ)) → all_texts l l ≡ true
all_texts_refl [] = refl
all_texts_refl (s ∷ l) = ground (arith, is_text_refl s, all_texts_more s l l, all_texts_refl l)

unpack-Ends :
    (w : World) (v : List ℕ) (b : Box)
    → Ends (λ a c. Keeps b c × Usable c.required c.disk) (λ c. Keeps b c) (unpack w v b)
unfolding unpack apply_fixups mark_checked
unpack-Ends w v b = ground (arith, all_texts_refl b.required)

pub install-Ends :
    (w : World) (b : Box)
    → Ends (λ a c. Keeps b c × Usable c.required c.disk) (λ c. Keeps b c) (install w b)
unfolding install fetch
install-Ends w b = grind (arith, unpack-Ends)

pub should_install_sandbox-Ends :
    (w : World) (b : Box)
    → Ends
        (λ a c. Keeps b c × (a ≡ false → Usable c.required c.disk))
        (λ c. Keeps b c × (w.writes ≡ ok tt → ⊥))
        (should_install_sandbox w b)
unfolding should_install_sandbox check_age compare_hash mark_checked
should_install_sandbox-Ends w b = ground arith

-- Once the interval of the checks has passed, a sandbox with its fixups is installed anew even if the
-- file tracker answers the very hash that the sandbox has.
pub same_hash-installs :
    (w : World) (b : Box) (d : Disk) (c last : ℕ) (hash : List ℕ)
    → b.disk ≡ some d
    → has_fixups b.required d.fixups ≡ ok true
    → d.last_check ≡ some last
    → last + w.check_interval ≤ w.now
    → d.hash ≡ some (c ∷ hash)
    → w.file_version ≡ ok (some (c ∷ hash))
    → should_install_sandbox w b ≡ (ok true, b)
unfolding should_install_sandbox check_age compare_hash
same_hash-installs w b d c last hash e f l old h v = rw (e, f, l, h, v) ground arith
