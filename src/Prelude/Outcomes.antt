-- ===== src/Prelude/Outcomes.antt =====
-- What an action leaves, when it ends with a value and when it raises.
use sioworkers.Prelude.Actions.{Result, ok, raised, Action, ◌>>=◌, Exception, try_except}

abbrev pub Ends : {S A : Type 0} → (A → S → Type 0) → (S → Type 0) → Result A × S → Type 0
Ends Q E (ok a, s) = Q a s
Ends Q E (raised e, s) = E s

module _ {S A : Type 0} (Q : A → S → Type 0) (E : S → Type 0) where
  -- The first part of a step is known by what it leaves.
  pub Ends-bind :
      {B : Type 0} (R : B → S → Type 0) (F : S → Type 0) (first : Result A × S)
      (rest : A → Action S B)
      → Ends Q E first
      → ((a : A) (s : S) → Q a s → Ends R F (rest a s))
      → ((s : S) → E s → F s)
      → Ends R F (((λ s. first) >>= rest) first.1)
  Ends-bind R F (ok a, s) rest h k g = k a s h
  Ends-bind R F (raised e, s) rest h k g = g s h

  pub Ends-try :
      (F : S → Type 0) (first : Result A × S) (handler : Exception → Action S A)
      → Ends Q E first
      → ((e : Exception) (s : S) → E s → Ends Q F (handler e s))
      → Ends Q F (try_except (λ s. first) handler first.1)
  Ends-try F (ok a, s) handler h k = h
  Ends-try F (raised e, s) handler h k = k e s h

  pub Ends-weaken :
      (R : A → S → Type 0) (F : S → Type 0) (end : Result A × S)
      → Ends Q E end
      → ((a : A) (s : S) → Q a s → R a s)
      → ((s : S) → E s → F s)
      → Ends R F end
  Ends-weaken R F (ok a, s) h k g = k a s h
  Ends-weaken R F (raised e, s) h k g = g s h
