-- ===== src/Executors/Process/Detailed.antt =====
-- What the result of DetailedUnprotectedExecutor says of the process.
use sioworkers.Prelude.{
  ◌⊎◌, inl, inr, if◌then◌else◌, exec_error, ◌||◌, ◌&&◌, not, ℕ, ◌≡◌, refl, Bool, true, false,
  Option, some, List, arith, Result, ok, raised,
}
use sioworkers.Prelude.Int.{ℤ, pos}
use sioworkers.Executors.Quoting.{Args, is_set, words, shellquote, ulimit}
use sioworkers.Executors.Process.{
  none, execute_command, same_ℤ, Outcome, default_real_time, fails, renv_of, System, Kwargs, Renv,
  Code, code_ok, code_tle, over_time, detail, with_time, measured, timed, execute_detailed,
  execute_unprotected,
}

abbrev pub is_accepted : Option Code → Bool
is_accepted (some code_ok) = true
is_accepted c = false

abbrev pub is_timeout : Option Code → Bool
is_timeout (some code_tle) = true
is_timeout c = false

-- P of what is returned, and F if an exception is raised.
abbrev pub Concludes : {A : Type 0} → (A → Type 0) → Type 0 → Result A → Type 0
Concludes P F (ok r) = P r
Concludes P F (raised e) = F

-- The time that a result has: the one that was printed last, or, where none was printed and the
-- process was killed, the real time.
abbrev pub Took : Result (Option ℕ) → Bool → ℕ → ℕ → Type 0
Took (raised e) killed elapsed t = ⊥
Took (ok none) killed elapsed t = (killed ≡ true) × (t ≡ elapsed)
Took (ok (some n)) killed elapsed t = t ≡ n

-- A result, with the time that was used: accepted just if the process returned 0 by itself and in
-- time, and a timeout just if it was killed or too late.
abbrev pub Judged : Option ℕ → Result (Option ℕ) → Bool → ℕ → ℤ → Renv → Type 0
Judged limit time killed elapsed rc r =
    (t : ℕ) × (r.time_used ≡ some (pos t))
    × Took time killed elapsed t
    × (is_accepted r.result_code ≡ (same_ℤ rc (pos 0) && not killed && not (over_time limit t)))
    × (is_timeout r.result_code ≡ (over_time limit t || killed))

-- No time: it cannot be read, or none was printed and the process was not killed.
abbrev pub Timeless : Result (Option ℕ) → Bool → Type 0
Timeless (raised e) killed = Unit {0}
Timeless (ok none) killed = killed ≡ false
Timeless (ok (some t)) killed = ⊥

with_time-Judged :
    (limit : Option ℕ) (r : Renv) (time : Result (Option ℕ)) (rc : ℤ)
    → r.return_code ≡ some rc
    → Concludes
        (Judged limit time r.real_time_killed r.real_time_used rc)
        (Timeless time r.real_time_killed)
        (with_time limit r (measured time r))
with_time-Judged limit r time rc h = ground arith

-- The text that the shell runs for a command, and whether the timer kills what it starts.
abbrev pub timed_text : Args → Kwargs → List ℕ
timed_text command k = shellquote (words (ulimit k.mem_limit k.time_limit (timed command)))

abbrev pub is_killed : Kwargs → Outcome → Bool
is_killed k o = is_set (default_real_time 2 k.time_limit k.real_time_limit) && o.overran

-- The failures: the return code is an error, or there is no time.
abbrev pub Failed : Bool → Result (Option ℕ) → Bool → Type 0
Failed fail time killed = (fail ≡ true) ⊎ Timeless time killed

otherwise :
    (Q : Type 0) (P : Renv → Type 0) (E F : Type 0) (end : Result Renv)
    → Q
    → Concludes P F end
    → Concludes (λ r. Q × P r) (E ⊎ F) end
otherwise Q P E F (ok r) q h = (q, h)
otherwise Q P E F (raised e) q h = inr h

detail-Judged :
    (start : System) (command : List ℕ) (limit : Option ℕ) (k : Kwargs) (fail : Bool)
    → let o = start command in
      let killed = (renv_of k o).real_time_killed in
      Concludes
        (λ r. (fail ≡ false) × Judged limit o.user_time killed o.elapsed o.rc r)
        (Failed fail o.user_time killed)
        (detail start command limit (if fail then raised exec_error else ok (renv_of k o)))
detail-Judged start command limit k true = inl refl
detail-Judged start command limit k false =
    let o = start command in
    let r = renv_of k o in
    otherwise (false ≡ false) (Judged limit o.user_time r.real_time_killed o.elapsed o.rc) _ _
      (with_time limit r (measured o.user_time r)) refl
      (with_time-Judged limit r o.user_time o.rc refl)

-- DetailedUnprotectedExecutor raises just if the return code is an error that is not to be ignored, no
-- time was printed and the process was not killed, or the time cannot be read. Otherwise it returns a
-- result with the time that was printed, or with the real time after which the process was killed. It
-- is OK just if the process returned 0, was not killed for its real time and stayed below 95% of its
-- limit; it is TLE just if the process was killed or reached that.
pub execute_detailed-Judged :
    (start : System) (command : Args) (k : Kwargs)
    → let o = start (timed_text command k) in
      Concludes
        (λ r.
          (fails k o.rc ≡ false) × Judged k.time_limit o.user_time (is_killed k o) o.elapsed o.rc r)
        (Failed (fails k o.rc) o.user_time (is_killed k o))
        (execute_detailed start command k)
unfolding execute_detailed execute_unprotected execute_command
execute_detailed-Judged start command k =
    let k' = record k { real_time_limit = default_real_time 2 k.time_limit k.real_time_limit } in
    detail-Judged start (timed_text command k) k.time_limit k'
      (fails k' (start (timed_text command k)).rc)
