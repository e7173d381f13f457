-- ===== src/Executors/Supervised/Verdict.antt =====
-- What a supervised run returns, for every end of the supervisor and every report.
use sioworkers.Prelude.{
  any_text, [], is_utf8, all_utf8, value_error, Bool-cases, ◌≢◌, ◌≤◌, ◌<◌, ◌+◌, codes, Bool-cases,
  ◌>>=◌, ◌∷◌, ◌||◌, ap, ◌∙◌, if◌then◌else◌, ℕ, ◌≡◌, refl, Bool, true, false, Option, none, some,
  List, arith, Result, ok, raised, ◌⊎◌, starts_with,
}
use sioworkers.Prelude.Int.{ℤ, pos, negsuc}
use sioworkers.Executors.Process.{
  code_ok, code_rv, code_re, code_tle, code_mle, code_ole, code_mle, code_tle, code_re, code_rv,
  code_ok, same_ℤ, Kwargs, Renv, Outcome, no_renv, Code, code_se, said, of_error, any_ℤ,
}
use sioworkers.Executors.Supervised.{
  read_words, read_if, supervisor_result_to_code, is_utf8, codes, value_error, oiaug_codes,
  exec_error, find_code, Exception, take_return_code, ReadInt, read_report, supervise, settled,
  conclude, execute_supervised, supervised_limits, signal_of, signal_prefix, refuses, give_result,
  check_supervisor, decode,
}

abbrev pub is_some : {A : Type 0} → Option A → Bool
is_some none = false
is_some (some a) = true

abbrev pub Numbered : Renv → Type 0
Numbered r =
    (is_some r.time_used ≡ true) × (is_some r.mem_used ≡ true) × (is_some r.num_syscalls ≡ true)

-- What the run of the supervisor leaves: numbers, and a message or an error.
Settled : Outcome → Code × ℤ × Renv → Type 0
Settled o end =
    Numbered end.2
    × ((end.2.result_string ≡ some (said o.message))
        ⊎ ((end.0 ≡ code_se) × ((e : Exception) × (end.2.result_string ≡ some (of_error e)))))

-- What a result says: the message, if it is UTF-8, or with SE what was wrong.
abbrev pub Tells : Outcome → Renv → Code → Type 0
Tells o r c =
    ((r.result_string ≡ some (said o.message)) × (is_utf8 o.message ≡ true))
    ⊎ ((c ≡ code_se) × ((e : Exception) × (r.result_string ≡ some (of_error e))))

-- A supervised run that returns, with its code and exit code, and one that raises.
abbrev pub Returned : Outcome → Kwargs → Result Renv → Type 0
Returned o k (ok r) =
    Numbered r
    × ((c : Code) × (x : ℤ) × (r.result_code ≡ some c)
        × (r.return_code ≡ some x)
        × (refuses k c x ≡ false)
        × Tells o r c)
Returned o k (raised e) =
    ((e ≡ exec_error) × (k.ignore_errors ≡ false))
    ⊎ ((e ≡ value_error) × (is_utf8 o.message ≡ false))

-- A word that is none of the codes.
abbrev pub NotWord : List ℕ → Type 0
NotWord w =
    any_text w (codes "OK" ∷ codes "RV" ∷ codes "RE" ∷ codes "TLE" ∷ codes "MLE" ∷ codes "OLE" ∷ [])
    ≡ false

-- What the first word of a report, and its number, tell of the run: the code and the exit code.
pub data Told : List ℕ → ℤ → Code → ℤ → Type 0 where
  says_ok : (c : ℤ) → Told (codes "OK") c code_ok c
  says_rv : (c : ℤ) → Told (codes "RV") c code_rv c
  says_re : (c : ℤ) → Told (codes "RE") c code_re c
  says_tle : (c : ℤ) → Told (codes "TLE") c code_tle c
  says_mle : (c : ℤ) → Told (codes "MLE") c code_mle c
  says_ole : (c : ℤ) → Told (codes "OLE") c code_ole c
  is_0 : (w : List ℕ) → NotWord w → Told w (pos 0) code_ok (pos 0)
  is_120 : (w : List ℕ) → NotWord w → Told w (pos 120) code_ole (negsuc 0)
  is_121 : (w : List ℕ) → NotWord w → Told w (pos 121) code_rv (negsuc 0)
  is_124 : (w : List ℕ) → NotWord w → Told w (pos 124) code_mle (negsuc 0)
  is_125 : (w : List ℕ) → NotWord w → Told w (pos 125) code_tle (negsuc 0)
  is_other :
      (w : List ℕ) (n : ℕ)
      → NotWord w
      → n ≤ 200
      → n ≢ 0
      → n ≢ 120
      → n ≢ 121
      → n ≢ 124
      → n ≢ 125
      → Told w (pos n) code_re (negsuc 0)
  is_above : (w : List ℕ) (n : ℕ) → NotWord w → 0 < n → Told w (pos (200 + n)) code_re (pos n)
  is_negative : (w : List ℕ) (n : ℕ) → NotWord w → Told w (negsuc n) code_re (negsuc 0)

-- A report that can be read, of a supervisor that ended by itself with 0 or an expected code.
pub record IsReport (int : ReadInt) (o : Outcome) (word : List ℕ) (c t m n : ℤ) : Type 0 where
  pub unused : List ℕ
  pub code : List ℕ
  pub time : List ℕ
  pub memory : List ℕ
  pub syscalls : List ℕ
  pub rest : List (List ℕ)
  pub status : o.status ≡ word ∷ code ∷ time ∷ unused ∷ memory ∷ syscalls ∷ rest
  pub decoded : all_utf8 o.status ≡ true
  pub code_read : int code ≡ some c
  pub time_read : int time ≡ some t
  pub memory_read : int memory ≡ some m
  pub syscalls_read : int syscalls ≡ some n

read_words-IsReport :
    (int : ReadInt) (o : Outcome) (word : List ℕ) (c t m n : ℤ) (r : Renv)
    → IsReport int o word c t m n
    → read_words int o.status o.message r ≡ (
      ok (decode (find_code oiaug_codes word) c),
      record r {
        result_string = some (said o.message);
        time_used = some t;
        mem_used = some m;
        num_syscalls = some n;
      },
    )
unfolding read_words
read_words-IsReport int o word c t m n r h =
    rw h.status (ground (arith, h.code_read, h.time_read, h.memory_read, h.syscalls_read))

read_report-IsReport :
    (int : ReadInt) (o : Outcome) (word : List ℕ) (c t m n : ℤ) (r : Renv)
    → IsReport int o word c t m n
    → read_report int o.status o.message r ≡ (
      ok (decode (find_code oiaug_codes word) c),
      record r {
        result_string = some (said o.message);
        time_used = some t;
        mem_used = some m;
        num_syscalls = some n;
      },
    )
unfolding read_report read_if
read_report-IsReport int o word c t m n r h =
    ap (λ b. read_if int b o.status o.message r) h.decoded
    ∙ read_words-IsReport int o word c t m n r h

check_supervisor_passes :
    (extra : List ℤ) (found : Option ℤ) (rc : ℤ) (killed : Bool) (r : Renv)
    → killed ≡ false
    → found ≡ some rc
    → (same_ℤ rc (pos 0) || any_ℤ rc extra) ≡ true
    → check_supervisor extra found killed r ≡ (ok tt, r)
check_supervisor_passes extra found rc killed r alive e fine = rw (alive, e) ground arith

abbrev report_of : ReadInt → Outcome → Result (Unit {0}) × Renv → Result (Code × ℤ) × Renv
report_of int o end = ((λ r. end) >>= λ u. read_report int o.status o.message) end.1

supervise_passes :
    (int : ReadInt) (k : Kwargs) (o : Outcome) (s r : Renv) (rc : ℤ)
    → s.real_time_killed ≡ false
    → s.return_code ≡ some rc
    → (same_ℤ rc (pos 0) || any_ℤ rc k.extra_ignore_errors) ≡ true
    → supervise int k o (ok s) r ≡ read_report int o.status o.message (take_return_code s)
unfolding supervise
supervise_passes int k o s r rc alive code fine = ap (report_of int o) (
    check_supervisor_passes k.extra_ignore_errors s.return_code rc s.real_time_killed
      (take_return_code s) alive code fine)

give_result_good :
    (k : Kwargs) (c : Code) (x : ℤ) (r : Renv)
    → refuses k c x ≡ false
    → give_result k c x r (ok none)
      ≡ ok (record r { result_code = some c; return_code = some x; exit_signal = none })
give_result_good k c x r h =
    ap
      (λ b.
        if b
        then raised exec_error
        else ok (record r { result_code = some c; return_code = some x; exit_signal = none }))
      h

firsts : List (List ℕ × Code) → List (List ℕ)
firsts [] = []
firsts (item ∷ l) = item.0 ∷ firsts l

find_code-none :
    (l : List (List ℕ × Code)) (w : List ℕ) → any_text w (firsts l) ≡ false → find_code l w ≡ none
unfolding firsts
find_code-none [] w h = refl
find_code-none (item ∷ l) w h = ground (arith, find_code-none l w)

unknown : (w : List ℕ) → NotWord w → find_code oiaug_codes w ≡ none
unfolding firsts
unknown w h = find_code-none oiaug_codes w h

other_number :
    (n : ℕ)
    → n ≤ 200
    → n ≢ 0
    → n ≢ 120
    → n ≢ 121
    → n ≢ 124
    → n ≢ 125
    → supervisor_result_to_code (pos n) ≡ (code_re, negsuc 0)
unfolding supervisor_result_to_code
other_number n l a b c d f = ground arith

above_200 : (n : ℕ) → 0 < n → supervisor_result_to_code (pos (200 + n)) ≡ (code_re, pos n)
unfolding supervisor_result_to_code
above_200 n l = ground arith

negative : (n : ℕ) → supervisor_result_to_code (negsuc n) ≡ (code_re, negsuc 0)
unfolding supervisor_result_to_code
negative n = ground arith

Told-decode :
    {w : List ℕ} {c : ℤ} {code : Code} {x : ℤ}
    → Told w c code x
    → decode (find_code oiaug_codes w) c ≡ (code, x)
unfolding supervisor_result_to_code
Told-decode (says_ok c) = refl
Told-decode (says_rv c) = refl
Told-decode (says_re c) = refl
Told-decode (says_tle c) = refl
Told-decode (says_mle c) = refl
Told-decode (says_ole c) = refl
Told-decode (is_0 w e) = ap (λ o. decode o (pos 0)) (unknown w e)
Told-decode (is_120 w e) = ap (λ o. decode o (pos 120)) (unknown w e)
Told-decode (is_121 w e) = ap (λ o. decode o (pos 121)) (unknown w e)
Told-decode (is_124 w e) = ap (λ o. decode o (pos 124)) (unknown w e)
Told-decode (is_125 w e) = ap (λ o. decode o (pos 125)) (unknown w e)
Told-decode (is_other w n e l a b c d f) =
    ap (λ o. decode o (pos n)) (unknown w e) ∙ other_number n l a b c d f
Told-decode (is_above w n e l) = ap (λ o. decode o (pos (200 + n))) (unknown w e) ∙ above_200 n l
Told-decode (is_negative w n e) = ap (λ o. decode o (negsuc n)) (unknown w e) ∙ negative n

-- A report that can be read, with a message that is UTF-8, is what a supervised run returns: the code
-- and the exit code that its word and its number tell of, its time, memory and count of system calls,
-- and its message, if that is no error or one that is to be ignored.
pub execute_supervised-IsReport :
    (int : ReadInt) (run : Kwargs → Result Renv) (o : Outcome) (k : Kwargs) (s : Renv) (rc : ℤ)
    (word : List ℕ) (c t m n : ℤ) (code : Code) (exit : ℤ)
    → run (supervised_limits k) ≡ ok s
    → s.real_time_killed ≡ false
    → s.return_code ≡ some rc
    → (same_ℤ rc (pos 0) || any_ℤ rc k.extra_ignore_errors) ≡ true
    → IsReport int o word c t m n
    → Told word c code exit
    → is_utf8 o.message ≡ true
    → starts_with o.message signal_prefix ≡ false
    → refuses k code exit ≡ false
    → execute_supervised int run o k
      ≡ ok (record s {
        return_code = some exit;
        supervisor_return_code = some rc;
        time_used = some t;
        mem_used = some m;
        num_syscalls = some n;
        result_code = some code;
        result_string = some (said o.message);
        exit_signal = none;
      })
unfolding execute_supervised supervise
execute_supervised-IsReport int run o k s rc word c t m n code exit ran alive found fine report told
      text quiet good =
    let left = record (take_return_code s) {
      result_string = some (said o.message);
      time_used = some t;
      mem_used = some m;
      num_syscalls = some n;
    } in
    let silent : signal_of int (some (said o.message)) ≡ ok none = rw (text, quiet) refl in
    ap (λ z. conclude int k (settled (supervise int k o z no_renv))) ran
    ∙ ap (λ z. conclude int k (settled z))
        (supervise_passes int k o s no_renv rc alive found fine
          ∙ read_report-IsReport int o word c t m n (take_return_code s) report
          ∙ ap (λ (v : Code × ℤ). (ok v, left)) (Told-decode told))
    ∙ ap (λ z. give_result k code exit left z) silent
    ∙ give_result_good k code exit left good
    ∙ ap
        (λ z. ok (record s {
          return_code = some exit;
          supervisor_return_code = z;
          time_used = some t;
          mem_used = some m;
          num_syscalls = some n;
          result_code = some code;
          result_string = some (said o.message);
          exit_signal = none;
        }))
        found
