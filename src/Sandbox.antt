-- ===== src/Sandbox.antt =====
-- The cache of sandboxes: the class Sandbox of sio/workers/sandbox.py with its file lock. What the
-- clock, the file tracker, the web server, the archive and the disk answer is an argument, `World`.

pub mod Installing
pub mod Entering
pub mod Locking
use sioworkers.Prelude.{
  ℕ, zero, suc, ◌+◌, ◌-◌, ◌≡◌, Bool, true, false, not, Option, none, some, List, [], ◌∷◌, ltb, ◌==◌,
  if◌then◌else◌, Result, ok, raised, Exception, Action, pure, raise, gets, lift, or_raise, modify,
  require, ◌>>=◌, ◌>>◌, try_except, on_error, key_error, os_error, value_error, sandbox_error,
  is_text, all_texts, codes, str,
}

-- What is compared with `!=`: a text never equals bytes.
pub data Value : Type 0 where
  str_value bytes_value : List ℕ → Value

abbrev pub differs : Value → Value → Bool
differs (str_value s) (str_value t) = not (is_text s t)
differs (bytes_value s) (bytes_value t) = not (is_text s t)
differs (str_value s) (bytes_value t) = true
differs (bytes_value s) (str_value t) = true

-- The files of an extracted sandbox, none where there is no such file: `.fixups_applied`, which may
-- raise when it is read, `.fixups_operative`, `.last_check`, where none stands also for one that is no
-- number, and `.hash`.
pub record Disk : Type 0 where
  pub fixups : Option (Result (List (List ℕ)))
  pub operatives : Option (List (List ℕ))
  pub last_check : Option ℕ
  pub hash : Option (List ℕ)

pub data Lock : Type 0 where
  unlocked shared exclusive : Lock

-- An instance, with its directory and the state of the lock file that it has open.
pub record Box : Type 0 where
  pub required : List (List ℕ)
  pub in_context : ℕ
  pub lock : Lock
  pub disk : Option Disk
  pub operative_fixups : Option (List (List ℕ))

-- `get_file` gives the version, `http` the time of the last change, `extract` whether the archive
-- has the directory; `opens` and `writes` are what opening the lock file and writing files give.
pub record World : Type 0 where
  pub now : ℕ
  pub check_interval : ℕ
  pub file_version : Result (Option (List ℕ))
  pub get_file : Result (List ℕ)
  pub sandboxes_url : Bool
  pub http : Result (Option ℕ)
  pub extract : Result Bool
  pub patch : Result Bool
  pub opens : Result (Unit {0})
  pub writes : Result (Unit {0})

abbrev pub elf_loader_patch : List ℕ
elf_loader_patch = codes "elf_loader_patch"

-- The directory, for a write in it.
abbrev pub on_disk : (Disk → Disk) → Box → Box
on_disk f b = elim (b.disk) [ none ↦ b | some d ↦ record b { disk = some (f d) } ]

abbrev pub disk_exists : Option Disk → Bool
disk_exists none = false
disk_exists (some d) = true

-- `_mark_checked`
unfoldable pub mark_checked : World → Action Box (Unit {0})
mark_checked w = gets (λ b. disk_exists b.disk) >>= λ there.
    require there os_error
    >> lift w.writes
    >> modify (on_disk (λ d. record d { last_check = some w.now }))

abbrev pub hash_differs : List ℕ → Option (List ℕ) → Bool
hash_differs expected none = true
hash_differs expected (some h) = differs (bytes_value h) (str_value expected)

-- `str(expected_hash)`, an error if there is none.
abbrev pub expected_hash : Option (List ℕ) → Action Box (List ℕ)
expected_hash none = raise sandbox_error
expected_hash (some []) = raise sandbox_error
expected_hash (some (c ∷ h)) = pure (c ∷ h)

-- The check against the file tracker, when the last one is too old.
unfoldable pub compare_hash : World → Disk → Action Box Bool
unfolding mark_checked
compare_hash w d = lift w.file_version >>= expected_hash >>= λ e.
    if hash_differs e d.hash then pure true else (mark_checked w >> pure false)

unfoldable pub check_age : World → Disk → Action Box Bool
unfolding compare_hash
check_age w d = or_raise d.last_check value_error >>= λ last.
    if ltb w.now (last + w.check_interval) then pure false else compare_hash w d

-- `current_fixups.issuperset(required)`, for what reading `.fixups_applied` gives.
abbrev pub has_fixups : List (List ℕ) → Option (Result (List (List ℕ))) → Result Bool
has_fixups required none = ok false
has_fixups required (some (raised e)) = raised e
has_fixups required (some (ok l)) = ok (all_texts required l)

abbrev pub check_if : World → Disk → Bool → Action Box Bool
check_if w d true = check_age w d
check_if w d false = pure true

-- `_should_install_sandbox`: whatever fails in the check leaves the sandbox as it is.
abbrev pub check_disk : World → Box → Option Disk → Action Box Bool
check_disk w b none = pure true
check_disk w b (some d) =
    try_except (lift (has_fixups b.required d.fixups) >>= check_if w d)
      (λ e. mark_checked w >> pure false)

unfoldable pub should_install_sandbox : World → Action Box Bool
unfolding check_age mark_checked
should_install_sandbox w b = check_disk w b b.disk b

abbrev pub set_lock : Lock → Action Box (Unit {0})
set_lock l = modify (λ b. record b { lock = l })

abbrev pub modified : Option ℕ → List ℕ
modified none = codes "None"
modified (some n) = str n

-- The archive from the file tracker, or else from the web, and its version.
unfoldable pub fetch : World → Action Box (List ℕ)
fetch w =
    try_except (lift w.get_file) (λ e.
      if w.sandboxes_url then (lift w.http >>= λ n. pure (modified n)) else raise sandbox_error)

abbrev pub extracted : Bool → Option Disk
extracted false = none
extracted true = some (record { fixups = none; operatives = none; last_check = none; hash = none })

-- `_apply_fixups`
abbrev pub run_patch : World → List (List ℕ) → Action Box (List (List ℕ))
run_patch w required =
    if all_texts (elf_loader_patch ∷ []) required
    then (lift w.patch >>= λ works. pure (if works then elf_loader_patch ∷ [] else []))
    else pure []

unfoldable pub apply_fixups : World → Action Box (Unit {0})
apply_fixups w = gets (λ b. b.required) >>= λ required. run_patch w required >>= λ operative.
    lift w.writes
    >> modify (on_disk (λ d. record d { fixups = some (ok required); operatives = some operative }))

-- The `try` of `_get`: the old directory goes before the new archive comes.
unfoldable pub unpack : World → List ℕ → Action Box (Unit {0})
unfolding apply_fixups mark_checked
unpack w version = lift w.extract >>= λ has_directory.
    modify (λ b. record b { disk = extracted has_directory })
    >> require has_directory sandbox_error
    >> apply_fixups w
    >> modify (on_disk (λ d. record d { hash = some version }))
    >> mark_checked w

unfoldable pub install : World → Action Box (Unit {0})
unfolding fetch unpack
install w = modify (λ b. record b { disk = none }) >> fetch w >>= unpack w

unfoldable pub replace : World → Bool → Action Box (Unit {0})
unfolding install
replace w false = set_lock shared
replace w true = on_error (install w) (set_lock unlocked) >> set_lock shared

-- `_get`; between the two locks other processes may change the directory, to `other`.
unfoldable pub renew : World → (Option Disk → Option Disk) → Bool → Action Box (Unit {0})
unfolding should_install_sandbox replace
renew w other false = pure tt
renew w other true =
    set_lock unlocked
    >> modify (λ b. record b { disk = other b.disk })
    >> set_lock exclusive
    >> should_install_sandbox w
    >>= replace w

unfoldable pub get : World → (Option Disk → Option Disk) → Action Box (Unit {0})
unfolding should_install_sandbox renew
get w other = set_lock shared >> should_install_sandbox w >>= renew w other

abbrev pub count_out : Action Box (Unit {0})
count_out = modify (λ b. record b { in_context = b.in_context - 1 })

-- `__enter__`, where `first` is the test that nobody else is inside: a new lock file is opened, and
-- the object of the old one gives up its lock.
unfoldable pub enter_as : World → (Option Disk → Option Disk) → Bool → Action Box (Unit {0})
unfolding get
enter_as w other true = on_error (lift w.opens >> set_lock unlocked >> get w other) count_out
enter_as w other false = pure tt

unfoldable pub enter : World → (Option Disk → Option Disk) → Action Box (Unit {0})
unfolding enter_as
enter w other b = enter_as w other (b.in_context == 0) (record b { in_context = suc b.in_context })

-- `__exit__`, for a sandbox that was entered.
unfoldable pub exit : Action Box (Unit {0})
exit b =
    let b' = record b { in_context = b.in_context - 1 } in
    if b'.in_context == 0 then set_lock unlocked b' else (ok tt, b')

-- `has_fixup`: what is in effect is read once for an instance.
abbrev pub read_operatives : Box → Option (List (List ℕ)) → Action Box (List (List ℕ))
read_operatives b (some l) = pure l
read_operatives b none =
    or_raise (elim (b.disk) [ none ↦ none | some d ↦ d.operatives ]) os_error >>= λ l.
    modify (λ c. record c { operative_fixups = some l }) >> pure l

unfoldable pub has_fixup : List ℕ → Action Box Bool
has_fixup name b = (read_operatives b b.operative_fixups >>= λ l. pure (all_texts (name ∷ []) l)) b
