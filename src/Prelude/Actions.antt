-- ===== src/Prelude/Actions.antt =====
-- Python statements that change a state and may raise. What was written before a raise stays
-- written, so the state comes back in both cases.
use mathlib.Core.Bool.{Bool, true, false}
use mathlib.Core.Option.{Option, none, some}

-- The exceptions that the code raises, by Python's class and the program's own.
pub data Exception : Type 0 where
  assertion_error key_error index_error value_error runtime_error : Exception
  timeout_error protocol_error no_such_method_error remote_error : Exception
  recursion_error worker_gone duplicate_worker worker_rejected multi_exception : Exception
  already_called checker_error interactor_error system_error : Exception
  exec_error os_error sandbox_error failure type_error : Exception

pub data Result {ℓ} (A : Type ℓ) : Type ℓ where
  ok : A → Result A
  raised : Exception → Result A

abbrev pub Action : Type 0 → Type 0 → Type 0
Action S A = S → Result A × S

module _ {S A : Type 0} where
  abbrev pub pure : A → Action S A
  pure a s = (ok a, s)

  abbrev pub raise : Exception → Action S A
  raise e s = (raised e, s)

  abbrev pub gets : (S → A) → Action S A
  gets f s = (ok (f s), s)

  abbrev pub or_raise : Option A → Exception → Action S A
  or_raise none e = raise e
  or_raise (some a) e = pure a

  abbrev pub lift : Result A → Action S A
  lift r s = (r, s)

module _ {S : Type 0} where
  abbrev pub modify : (S → S) → Action S (Unit {0})
  modify f s = (ok tt, f s)

  -- `if not c: raise e`, and so also `assert c`.
  abbrev pub require : Bool → Exception → Action S (Unit {0})
  require true e = pure tt
  require false e = raise e

infixl 5 ◌>>=◌ ◌>>◌
abbrev pub ◌>>=◌ : {S A B : Type 0} → Action S A → (A → Action S B) → Action S B
◌>>=◌ m f s = let (r, s') = m s in elim r [ ok a ↦ f a s' | raised e ↦ (raised e, s') ]

abbrev pub ◌>>◌ : {S A B : Type 0} → Action S A → Action S B → Action S B
m >> k = m >>= λ _. k

-- A step on one part of the state.
abbrev pub zoom : {S T A : Type 0} → (S → T) → (T → S → S) → Action T A → Action S A
zoom part put m s = let (r, t) = m (part s) in (r, put t s)

-- `try: m` and `except: h`.
abbrev pub try_except : {S A : Type 0} → Action S A → (Exception → Action S A) → Action S A
try_except m h s = let (r, s') = m s in elim r [ ok a ↦ (ok a, s') | raised e ↦ h e s' ]

-- `try: m` and `except: h; raise`.
abbrev pub on_error : {S A : Type 0} → Action S A → Action S (Unit {0}) → Action S A
on_error m h = try_except m (λ e. h >> raise e)
