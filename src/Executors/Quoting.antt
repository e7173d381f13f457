-- ===== src/Executors/Quoting.antt =====
-- Commands as the shell gets them: `_argquote`, `shellquote` and `ulimit`. An argument that is itself
-- a list is quoted as one word, for `bash -c`.
pub mod Words
use sioworkers.Prelude.{
  ℕ, ◌+◌, ◌/◌, Bool, true, false, Option, none, some, List, [], ◌∷◌, ◌++◌, ◌==◌, if◌then◌else◌,
  codes, str,
}

mutual
  pub data Arg : Type 0 where
    plain : List ℕ → Arg
    noquote : List ℕ → Arg
    nested : Args → Arg

  pub data Args : Type 0 where
    nil : Args
    cons : Arg → Args → Args

abbrev pub quote : ℕ
quote = b'\''

abbrev pub space : ℕ
space = b' '

abbrev pub backslash : ℕ
backslash = b'\\'

-- `s.replace("'", "'\\''")`
abbrev pub escape : List ℕ → List ℕ
escape [] = []
escape (c ∷ s) =
    let rest = escape s in if c == quote then quote ∷ backslash ∷ quote ∷ quote ∷ rest else c ∷ rest

abbrev pub between_quotes : List ℕ → List ℕ
between_quotes s = quote ∷ (escape s ++ quote ∷ [])

-- `_argquote`, and `" ".join(map(_argquote, s))`.
unfoldable mutual
  pub argquote : Arg → List ℕ
  argquote (plain s) = between_quotes s
  argquote (noquote s) = s
  argquote (nested args) = between_quotes (quote_all args)

  pub quote_all : Args → List ℕ
  quote_all nil = []
  quote_all (cons a args) = argquote a ++ quote_more args

  pub quote_more : Args → List ℕ
  quote_more nil = []
  quote_more (cons a args) = space ∷ (argquote a ++ quote_more args)

pub data Command : Type 0 where
  words : Args → Command
  text : List ℕ → Command

unfoldable pub shellquote : Command → List ℕ
unfolding quote_all
shellquote (words args) = quote_all args
shellquote (text s) = s

abbrev pub append_args : Args → Args → Args
append_args nil args = args
append_args (cons a more) args = cons a (append_args more args)

abbrev pub plains : List (List ℕ) → Args
plains [] = nil
plains (s ∷ l) = cons (plain s) (plains l)

-- `ceil_ms2s` of sio/workers/util.py; the quotient of the code is a float, exact enough for limits.
abbrev pub ceil_ms2s : ℕ → ℕ
ceil_ms2s ms = (ms + 999) / 1000

-- A limit that is None or 0 is not set.
abbrev pub is_set : Option ℕ → Bool
is_set none = false
is_set (some n) = if n == 0 then false else true

abbrev pub and_and : Arg
and_and = noquote (codes "&&")

abbrev pub limit_memory : Option ℕ → Args → Args
limit_memory none command = command
limit_memory (some m) command =
    if m == 0
    then command
    else append_args (plains (codes "ulimit" ∷ codes "-Ss" ∷ codes "unlimited" ∷ [])) (
        cons and_and
          (append_args (plains (codes "ulimit" ∷ codes "-v" ∷ str m ∷ [])) (cons and_and command)))

abbrev pub limit_time : Option ℕ → Args → Args
limit_time none command = command
limit_time (some t) command =
    if t == 0
    then command
    else append_args (plains (codes "ulimit" ∷ codes "-t" ∷ str (ceil_ms2s t) ∷ []))
        (cons and_and command)

-- `ulimit`, for a command that is a list.
unfoldable pub ulimit : Option ℕ → Option ℕ → Args → Args
ulimit mem_limit time_limit command = limit_time time_limit (limit_memory mem_limit command)
