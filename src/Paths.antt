-- ===== src/Paths.antt =====
-- Paths as texts: what the code uses of os.path, and path_join_abs and tempcwd of sio/workers/util.py.
use sioworkers.Prelude.{
  ℕ, Bool, true, false, ◌&&◌, ◌||◌, Option, none, some, List, [], ◌∷◌, ◌++◌, ◌==◌, if◌then◌else◌,
}

abbrev pub sep : ℕ
sep = b'/'

-- `os.path.isabs`
abbrev pub is_abs : List ℕ → Bool
is_abs [] = false
is_abs (c ∷ s) = c == sep

abbrev pub ends_with_sep : List ℕ → Bool
ends_with_sep [] = false
ends_with_sep (c ∷ []) = c == sep
ends_with_sep (c ∷ d ∷ s) = ends_with_sep (d ∷ s)

abbrev pub is_nil : List ℕ → Bool
is_nil [] = true
is_nil (c ∷ s) = false

-- `os.path.join`
abbrev pub path_join : List ℕ → List ℕ → List ℕ
path_join a b =
    if is_abs b then b else if is_nil a || ends_with_sep a then a ++ b else a ++ (sep ∷ b)

abbrev pub lstrip_sep : List ℕ → List ℕ
lstrip_sep [] = []
lstrip_sep (c ∷ s) = let rest = lstrip_sep s in if c == sep then rest else c ∷ s

-- A text all of separators is stripped whole.
abbrev pub rstrip_sep : List ℕ → List ℕ
rstrip_sep [] = []
rstrip_sep (c ∷ s) = let rest = rstrip_sep s in if (c == sep) && is_nil rest then [] else c ∷ rest

-- `path_join_abs`
unfoldable pub path_join_abs : List ℕ → List ℕ → List ℕ
path_join_abs base subpath = path_join base (rstrip_sep (lstrip_sep subpath))

-- `os.path.split(p)[1]`: what comes after the last separator.
abbrev pub has_sep : List ℕ → Bool
has_sep [] = false
has_sep (c ∷ s) = (c == sep) || has_sep s

abbrev pub basename : List ℕ → List ℕ
basename [] = []
basename (c ∷ s) = let rest = basename s in if has_sep s || (c == sep) then rest else c ∷ s

abbrev pub head_of : List ℕ → List ℕ
head_of [] = []
head_of (c ∷ s) =
    let rest = head_of s in if has_sep s then c ∷ rest else if c == sep then c ∷ [] else []

-- `os.path.dirname`
abbrev pub dirname : List ℕ → List ℕ
dirname p = let h = head_of p in if is_nil (rstrip_sep h) then h else rstrip_sep h

-- `tempcwd`, in the thread whose temporary directory is `d`.
unfoldable pub tempcwd : List ℕ → Option (List ℕ) → List ℕ
tempcwd d none = d
tempcwd d (some path) = if is_abs path then path else if is_nil path then d else path_join d path
