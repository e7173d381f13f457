-- ===== src/Executors/Quoting/Words.antt =====
-- How a shell splits a command into words, as far as blanks, single quotes and backslashes go, and
-- that it gets back the arguments that were quoted. Operators, as && and 3>, are words here.
use sioworkers.Prelude.{
  subst, inl, inr, if◌then◌else◌, ==_iff, append_assoc, append-nil, if◌then◌else◌, ℕ, ◌≡◌, refl, ap,
  ◌∙◌, sym, arith, Bool, true, false, Option, none, some, List, [], ◌∷◌, ◌++◌, ◌==◌, Bool-cases,
}
use sioworkers.Executors.Quoting.{
  Arg, Args, plain, noquote, nested, nil, cons, quote, space, backslash, escape, between_quotes,
  argquote, quote_all, quote_more, shellquote, words,
}

pub data Mode : Type 0 where
  blank bare quoted escaped : Mode

-- Where the shell is: in the word that it reads, with those before it.
pub record Reader : Type 0 where
  pub mode : Mode
  pub word : List ℕ
  pub done : List (List ℕ)

abbrev pub at : Mode → List ℕ → List (List ℕ) → Reader
at m w d = record { mode = m; word = w; done = d }

abbrev pub step : Mode → List ℕ → List (List ℕ) → ℕ → Reader
step blank w d c =
    if c == space
    then at blank [] d
    else if c == quote
    then at quoted [] d
    else if c == backslash
    then at escaped [] d
    else at bare (c ∷ []) d
step bare w d c =
    if c == space
    then at blank [] (d ++ w ∷ [])
    else if c == quote
    then at quoted w d
    else if c == backslash
    then at escaped w d
    else at bare (w ++ c ∷ []) d
step quoted w d c = if c == quote then at bare w d else at quoted (w ++ c ∷ []) d
step escaped w d c = at bare (w ++ c ∷ []) d

abbrev pub read : Reader → List ℕ → Reader
read r [] = r
read r (c ∷ s) = read (step r.mode r.word r.done c) s

abbrev pub finish : Mode → List ℕ → List (List ℕ) → Option (List (List ℕ))
finish blank w d = some d
finish bare w d = some (d ++ w ∷ [])
finish quoted w d = none
finish escaped w d = none

abbrev pub ends : Reader → Option (List (List ℕ))
ends r = finish r.mode r.word r.done

-- The words of a command, none if a quote is left open.
abbrev pub shell_words : List ℕ → Option (List (List ℕ))
shell_words s = ends (read (at blank [] []) s)

-- What each argument is for the program that gets it.
abbrev pub word_of : Arg → List ℕ
word_of (plain s) = s
word_of (noquote s) = s
word_of (nested args) = quote_all args

abbrev pub words_of : Args → List (List ℕ)
words_of nil = []
words_of (cons a args) = word_of a ∷ words_of args

abbrev pub is_special : ℕ → Bool
is_special c = if c == space then true else if c == quote then true else c == backslash

abbrev pub NoSpecial : List ℕ → Type 0
NoSpecial [] = Unit {0}
NoSpecial (c ∷ s) = (is_special c ≡ false) × NoSpecial s

-- An argument that is not quoted has to be a word of its own.
abbrev pub IsWord : Arg → Type 0
IsWord (noquote []) = ⊥
IsWord (noquote (c ∷ s)) = NoSpecial (c ∷ s)
IsWord a = Unit {0}

abbrev pub AreWords : Args → Type 0
AreWords nil = Unit {0}
AreWords (cons a args) = IsWord a × AreWords args

read-append : (r : Reader) (s t : List ℕ) → read r (s ++ t) ≡ read (read r s) t
read-append r [] t = refl
read-append r (c ∷ s) t = read-append (step r.mode r.word r.done c) s t

read-escape :
    (w s : List ℕ) (d : List (List ℕ)) → read (at quoted w d) (escape s) ≡ at quoted (w ++ s) d
read-escape w [] d = ap (λ x. at quoted x d) (sym (append-nil w))
read-escape w (c ∷ s) d =
    let next =
      read-escape (w ++ c ∷ []) s d ∙ ap (λ x. at quoted x d) (append_assoc w (c ∷ []) s) in
    elim (Bool-cases (c == quote)) [
      | inl e ↦ rw e (
          subst (λ x. read (at quoted (w ++ x ∷ []) d) (escape s) ≡ at quoted (w ++ c ∷ s) d)
            ((==_iff c quote).0 e) next)
      | inr e ↦ rw e (ap (λ r. read r (escape s)) (rw e refl) ∙ next)
    ]

read-between :
    (w s : List ℕ) (d : List (List ℕ)) → read (at blank w d) (between_quotes s) ≡ at bare s d
read-between w s d =
    read-append (at quoted [] d) (escape s) (quote ∷ [])
    ∙ ap (λ r. read r (quote ∷ [])) (read-escape [] s d)

step_bare :
    (w : List ℕ) (d : List (List ℕ)) (c : ℕ)
    → is_special c ≡ false
    → (step bare w d c ≡ at bare (w ++ c ∷ []) d) × (step blank w d c ≡ at bare (c ∷ []) d)
step_bare w d c h = ground arith

-- A bare word that has begun.
read-special_free :
    (w s : List ℕ) (d : List (List ℕ)) → NoSpecial s → read (at bare w d) s ≡ at bare (w ++ s) d
read-special_free w [] d h = ap (λ x. at bare x d) (sym (append-nil w))
read-special_free w (c ∷ s) d h =
    ap (λ r. read r s) (step_bare w d c h.0).0
    ∙ read-special_free (w ++ c ∷ []) s d h.1
    ∙ ap (λ x. at bare x d) (append_assoc w (c ∷ []) s)

read-argquote :
    (w : List ℕ) (d : List (List ℕ)) (a : Arg)
    → IsWord a
    → read (at blank w d) (argquote a) ≡ at bare (word_of a) d
unfolding argquote
read-argquote w d (plain s) h = read-between w s d
read-argquote w d (nested args) h = read-between w (quote_all args) d
read-argquote w d (noquote []) h = absurd h
read-argquote w d (noquote (c ∷ s)) h =
    ap (λ r. read r s) (step_bare w d c h.0).1 ∙ read-special_free (c ∷ []) s d h.1

ends-quote_more :
    (w : List ℕ) (d : List (List ℕ)) (args : Args)
    → AreWords args
    → ends (read (at bare w d) (quote_more args)) ≡ some (d ++ w ∷ words_of args)
unfolding quote_more
ends-quote_more w d nil h = refl
ends-quote_more w d (cons a args) h =
    ap ends (
      read-append (at blank [] (d ++ w ∷ [])) (argquote a) (quote_more args)
      ∙ ap (λ r. read r (quote_more args)) (read-argquote [] (d ++ w ∷ []) a h.0))
    ∙ ends-quote_more (word_of a) (d ++ w ∷ []) args h.1
    ∙ ap some (append_assoc d (w ∷ []) (word_of a ∷ words_of args))

-- The shell gets back the arguments that were quoted, whatever is in them, and a list of arguments
-- as one word. What is not quoted is a word if it has no blank, quote or backslash.
pub shellquote-words :
    (args : Args) → AreWords args → shell_words (shellquote (words args)) ≡ some (words_of args)
unfolding shellquote
shellquote-words nil h = refl
shellquote-words (cons a args) h =
    ap ends (
      read-append (at blank [] []) (argquote a) (quote_more args)
      ∙ ap (λ r. read r (quote_more args)) (read-argquote [] [] a h.0))
    ∙ ends-quote_more (word_of a) [] args h.1
