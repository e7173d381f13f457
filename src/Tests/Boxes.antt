-- ===== src/Tests/Boxes.antt =====
-- A sandbox that is entered twice, left once, and whose hash the file tracker repeats.
use sioworkers.Prelude.{◌≡◌, refl, ◌<◌, true, some, none, [], ◌∷◌, ok, arith, Ends}
use sioworkers.Sandbox.{
  World, Box, Disk, shared, unlocked, elf_loader_patch, should_install_sandbox, enter,
}
use sioworkers.Sandbox.Installing.{same_hash-installs, Usable}
use sioworkers.Sandbox.Entering.{enter-Ends, Joined, Turned}
use sioworkers.Sandbox.Locking.{created, entered, users-Held}

abbrev pub disk : Disk
disk = record {
  fixups = some (ok (elf_loader_patch ∷ []));
  operatives = some [];
  last_check = some 100;
  hash = some (97 ∷ 98 ∷ []);
}

abbrev pub box : Box
box = record {
  required = elf_loader_patch ∷ [];
  in_context = 0;
  lock = unlocked;
  disk = some disk;
  operative_fixups = none;
}

abbrev pub world : World
world = record {
  now = 200;
  check_interval = 3600;
  file_version = ok (some (97 ∷ 98 ∷ []));
  get_file = ok (97 ∷ 98 ∷ []);
  sandboxes_url = true;
  http = ok none;
  extract = ok true;
  patch = ok true;
  opens = ok tt;
  writes = ok tt;
}

abbrev later : World
later = record world { now = 9000 }

same_hash-installs_example : should_install_sandbox later box ≡ (ok true, box)
same_hash-installs_example =
    same_hash-installs later box disk 97 100 (98 ∷ []) refl refl refl (omega arith) refl refl

abbrev inside : Box
inside = record box { in_context = 1; lock = shared }

enter-Ends_example :
    Ends (λ a. Joined inside) (Turned later inside) (enter later (λ d. none) inside)
enter-Ends_example = enter-Ends later (λ d. none) inside (λ h. (refl, refl))

first : enter world (λ d. d) box ≡ (ok tt, inside)
unfolding enter
first = refl

users-Held_example :
    (inside.in_context ≡ 1)
    × (0 < 1 → (inside.lock ≡ shared) × Usable (elf_loader_patch ∷ []) inside.disk)
users-Held_example = users-Held (entered world (λ d. d) (created (some disk)) first)
