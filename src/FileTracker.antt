-- ===== src/FileTracker.antt =====
-- sio/workers/ft.py: downloads and uploads of files by the keys of an environment. The file tracker's
-- client and the file system are arguments; the transfers that are made are written down.
pub mod Transfers
pub mod Working
use sioworkers.Prelude.{
  ℕ, Bool, true, false, not, ◌&&◌, ◌||◌, Option, none, some, List, [], ◌∷◌, ◌++◌, if◌then◌else◌,
  Result, ok, raised, Exception, Action, pure, raise, gets, lift, modify, ◌>>=◌, ◌>>◌,
}
use sioworkers.Paths.{path_join, is_abs, is_nil, ends_with_sep, basename, dirname, tempcwd}
use sioworkers.Executors.Proot.{Env, env_get, env_set}

-- `environ.get('use_filetracker', True)`
pub data Mode : Type 0 where
  auto : Mode
  flag : Bool → Mode

pub data Transfer : Type 0 where
  made : List ℕ → Transfer
  copied got put : List ℕ → List ℕ → Transfer

pub record Files : Type 0 where
  pub environ : Env
  pub transfers : List Transfer

-- The directories of the thread and of the start, the files, and the answers of the client and of
-- `shutil.copy`. `put_file` answers with the name that the file has now.
pub record World : Type 0 where
  pub tmpdir : List ℕ
  pub original_cwd : List ℕ
  pub mode : Mode
  pub exists : List ℕ → Bool
  pub same_file : List ℕ → List ℕ → Bool
  pub copy : List ℕ → List ℕ → Result (Unit {0})
  pub get_file : List ℕ → List ℕ → Result (Unit {0})
  pub put_file : List ℕ → List ℕ → Result (List ℕ)

-- `_use_filetracker`
abbrev pub use_filetracker : Mode → List ℕ → Bool
use_filetracker auto name = is_abs name
use_filetracker (flag b) name = b

abbrev pub note : Transfer → Action Files (Unit {0})
note t = modify (λ f. record f { transfers = f.transfers ++ t ∷ [] })

-- A copy, unless the two are one file.
abbrev pub copy_to : World → List ℕ → List ℕ → Action Files (Unit {0})
copy_to w source dest =
    if not (w.exists dest) || not (w.same_file source dest)
    then (lift (w.copy source dest) >> note (copied source dest))
    else pure tt

-- The name of the file: that of the source where a directory or nothing is given.
abbrev pub named : Option (List ℕ) → List ℕ → List ℕ
named none source = basename source
named (some d) source = if ends_with_sep d then path_join d (basename source) else d

abbrev pub make_dir : World → List ℕ → Action Files (Unit {0})
make_dir w dir = if w.exists dir then pure tt else note (made dir)

-- What `download` does once it has the source and the path.
abbrev pub fetch_by : Bool → World → List ℕ → List ℕ → Action Files (Unit {0})
fetch_by true w source dest = lift (w.get_file source dest) >> note (got source dest)
fetch_by false w source dest = copy_to w (path_join w.original_cwd source) dest

abbrev pub fetch : World → List ℕ → List ℕ → Action Files (Unit {0})
fetch w source dest = fetch_by (use_filetracker w.mode source) w source dest

abbrev pub fetch_to : World → Option (List ℕ) → List ℕ → Action Files (List ℕ)
fetch_to w dest source =
    let place = tempcwd w.tmpdir (some (named dest source)) in
    make_dir w (dirname place) >> fetch w source place >> pure place

abbrev pub is_there : World → Option (List ℕ) → Bool
is_there w none = false
is_there w (some d) = not (is_nil d) && w.exists (tempcwd w.tmpdir (some d))

abbrev pub or_empty : Option (List ℕ) → List ℕ
or_empty none = []
or_empty (some d) = d

abbrev pub source_of : List ℕ → Action Files (List ℕ)
source_of key f = (env_get key f.environ, f)

-- `download`
unfoldable pub download : World → List ℕ → Option (List ℕ) → Bool → Action Files (List ℕ)
unfolding tempcwd
download w key dest skip_if_exists =
    if skip_if_exists && is_there w dest
    then pure (or_empty dest)
    else (source_of key >>= fetch_to w dest)

-- The name under which `upload` stores: the key's, if it has one.

abbrev pub upload_name : Option (List ℕ) → List ℕ → Result (List ℕ) → Result (List ℕ)
upload_name dest source (ok p) = ok p
upload_name none source (raised e) = raised e
upload_name (some d) source (raised e) = ok (named (some d) source)

abbrev pub store : World → List ℕ → List ℕ → Action Files (List ℕ)
store w source dest =
    if use_filetracker w.mode dest
    then (lift (w.put_file dest source) >>= λ name. note (put source name) >> pure name)
    else (copy_to w source (path_join w.original_cwd dest) >> pure (path_join w.original_cwd dest))

abbrev pub set_key : List ℕ → List ℕ → Action Files (List ℕ)
set_key key dest f = (ok dest, record f { environ = env_set key dest f.environ })

abbrev pub store_as : World → List ℕ → List ℕ → Result (List ℕ) → Action Files (List ℕ)
store_as w key source name = lift name >>= store w source >>= set_key key

-- `upload`
unfoldable pub upload : World → List ℕ → List ℕ → Option (List ℕ) → Action Files (List ℕ)
upload w key source dest f =
    store_as w key source (upload_name dest source (env_get key f.environ)) f
