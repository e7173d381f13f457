-- ===== src/Dispatch/Fair.antt =====
-- The invariant of the tables of the task manager, and how actions keep it.
use sioworkers.Prelude.{
  ℕ, sym, subst, Bool, true, false, Option, none, some, IsDict, arith, Result, ok, raised, Action,
  Ends, ◌>>=◌,
}
use sioworkers.Dispatch.{Board, ended}
use sioworkers.Dispatch.Counting.{Apart, Counting, Counting-mono}
use sioworkers.Dispatch.Frames.{Same, Quiet}

module _ (is_group : ℕ → Bool) where
  pub record Fair (owed : Option ℕ) (b : Board) : Type 0 where
    pub apart : Apart is_group b.in_progress
    pub counting : Counting is_group owed b.in_progress b.collectors
    pub unique : IsDict b.collectors

  -- Fair at the end, whatever the end is.
  abbrev pub Fine : {A : Type 0} → Option ℕ → Result A × Board → Type 0
  Fine owed end = Ends (λ a c. Fair owed c) (λ c. Fair owed c) end

  pub Fair-Same : {owed : Option ℕ} (b c : Board) → Same b c → Fair owed b → Fair owed c
  Fair-Same {owed} b c s f = record {
    apart = subst (Apart is_group) (sym s.in_progress) f.apart;
    counting =
        subst (λ d. Counting is_group owed d c.collectors) (sym s.in_progress)
          (subst (Counting is_group owed b.in_progress) (sym s.collectors) f.counting);
    unique = subst IsDict (sym s.collectors) f.unique;
  }

  pub quiet_Fine :
      {A : Type 0} (owed : Option ℕ) (b : Board) (end : Result A × Board)
      → Quiet b end
      → Fair owed b
      → Fine owed end
  quiet_Fine owed b (ok a, c) q f = Fair-Same b c q f
  quiet_Fine owed b (raised e, c) q f = Fair-Same b c q f

  pub fine_then :
      {A B : Type 0} (owed owed' : Option ℕ) (first : Result A × Board) (rest : A → Action Board B)
      → Fine owed first
      → ((a : A) (c : Board) → Fair owed c → Fine owed' (rest a c))
      → ((c : Board) → Fair owed c → Fair owed' c)
      → Fine owed' (((λ c. first) >>= rest) first.1)
  fine_then owed owed' (ok a, c) rest h k w = k a c h
  fine_then owed owed' (raised e, c) rest h k w = w c h

  -- A callback never raises.
  pub ended_then :
      {B : Type 0} (owed owed' : Option ℕ) (first : Result (Unit {0}) × Board)
      (rest : Bool → Action Board B)
      → Fine owed first
      → ((fine : Bool) (c : Board) → Fair owed c → Fine owed' (rest fine c))
      → Fine owed' ((ended (λ c. first) >>= rest) first.1)
  ended_then owed owed' (ok a, c) rest h k = k true c h
  ended_then owed owed' (raised e, c) rest h k = k false c h

  pub owing : (o : ℕ) (b : Board) → Fair none b → Fair (some o) b
  owing o b f = record {
    apart = f.apart;
    counting =
        Counting-mono is_group none (some o) b.in_progress b.in_progress b.collectors
          (λ k. omega arith) f.counting;
    unique = f.unique;
  }
