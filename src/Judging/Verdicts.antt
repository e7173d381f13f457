-- ===== src/Judging/Verdicts.antt =====
-- When a solution is accepted, by checker.py and by interactive_common.py.
use sioworkers.Prelude.{
  ap, ℕ, ◌+◌, ◌≤◌, ◌≡◌, refl, ◌⊎◌, inl, inr, Bool, true, false, not, ◌&&◌, List, [], ◌∷◌, ◌++◌,
  arith, ltb, leb, ◌==◌, if◌then◌else◌, length, length-append, length-take, take, Result, ok,
  raised, max, sym, Bool-cases, subst, ltb→lt, map, interactor_error,
}
use sioworkers.Prelude.Int.{ℤ}
use sioworkers.Prelude.Inserted.{All}
use sioworkers.Judging.{
  code_ok, code_tle, said, interactor_limit_exceeded, is_ok_code, is_tle, Run, limit_length,
  result_string_length_limit, suffix, says_ok, is_empty, Fraction, output_to_fraction,
  with_percentage, read_verdict, judge_lines, Checker, own_checker, untrusted_checker, oicompare,
  diff, wrong_answer, check, merge_runs, choose_run, is_sigpipe, fill_result,
}

ge_of_not_ltb : (n k : ℕ) → ltb n k ≡ false → k ≤ n
ge_of_not_ltb n k e = ground arith

length-cut : (n : ℕ) (s t : List ℕ) → length (take n s ++ t) ≤ n + length t
length-cut n s t = omega (arith, length-append (take n s) t, length-take n s)

-- A message is cut to the limit, and one within the limit is kept as it is.
pub limit_length_lem :
    (s : List ℕ)
    → (length (limit_length s) ≤ result_string_length_limit)
      × (length s ≤ result_string_length_limit → limit_length s ≡ s)
unfolding limit_length
limit_length_lem s = elim (Bool-cases (ltb result_string_length_limit (length s))) [
  | inl e ↦ rw e (
    length-cut 1019 s suffix,
    λ h. absurd (omega (arith, h, ltb→lt result_string_length_limit (length s) e)),
  )
  | inr e ↦ rw e (ge_of_not_ltb result_string_length_limit (length s) e, λ h. refl)
]

-- A verdict, if there is one, accepts just if `b`.
abbrev pub Accepts : Bool → Result Run → Type 0
Accepts b (ok q) = is_ok_code q.result_code ≡ b
Accepts b (raised e) = Unit {0}

with_percentage-Accepts :
    (b : Bool) (e : Run) (r : Result (ℤ × ℕ))
    → is_ok_code e.result_code ≡ b
    → Accepts b (with_percentage e r)
with_percentage-Accepts b e (ok x) h = h
with_percentage-Accepts b e (raised x) h = tt

says_ok-nonempty : (s : List ℕ) → says_ok s ≡ true → is_empty s ≡ false
says_ok-nonempty [] e = cc
says_ok-nonempty (x ∷ s) e = refl

not_ok : (b c : Bool) → (not b && c) ≡ true → b ≡ false
not_ok true c e = cc
not_ok false c e = refl

killed-Accepts :
    (b : Bool) (r : Run)
    → Accepts false (
        if b
        then ok (record r { result_code = code_tle; result_string = interactor_limit_exceeded })
        else raised interactor_error)
killed-Accepts true r = refl
killed-Accepts false r = tt

-- The interactor has said nothing.
silent-Accepts :
    (fraction : Fraction) (r i : Run) (first second third : List ℕ)
    → is_empty first ≡ true
    → Accepts false (fill_result fraction r i first second third)
unfolding fill_result
silent-Accepts fraction r i first second third n =
    rw n
      (elim (Bool-cases (
        not (is_ok_code i.result_code)
        && not (is_tle i.result_code)
        && not (is_sigpipe i.exit_signal))) [
          | inl e ↦ rw e tt
          | inr e ↦
              elim (Bool-cases (not (is_ok_code r.result_code) && not (is_sigpipe r.exit_signal))) [
                | inl f ↦ rw (e, f) (not_ok (is_ok_code r.result_code) _ f)
                | inr f ↦ elim (Bool-cases (is_sigpipe i.exit_signal)) [
                  | inl g ↦ rw (e, f, g) refl
                  | inr g ↦ rw (e, f, g) (killed-Accepts i.real_time_killed r)
                ]
              ]
        ])

fill_result-Accepts :
    (fraction : Fraction) (r i : Run) (first second third : List ℕ)
    → Accepts (says_ok first) (fill_result fraction r i first second third)
unfolding fill_result
fill_result-Accepts fraction r i first second third = elim (Bool-cases (says_ok first)) [
  | inl e ↦
      rw (says_ok-nonempty first e, e)
        (with_percentage-Accepts true
          (record r {
            result_code = code_ok;
            result_string = said (if is_empty second then [] else limit_length second);
          })
          (output_to_fraction fraction third) refl)
  | inr e ↦ elim (Bool-cases (is_empty first)) [
    | inl n ↦
        subst (λ b. Accepts b (fill_result fraction r i first second third)) (sym e)
          (silent-Accepts fraction r i first second third n)
    | inr n ↦ rw (n, e) refl
  ]
]

-- Whenever an interactive run ends with a verdict, the solution is accepted just if the first line
-- of the interactor is OK.
pub fill_result-accepts :
    (fraction : Fraction) (r i : Run) (first second third : List ℕ) (q : Run)
    → fill_result fraction r i first second third ≡ ok q
    → is_ok_code q.result_code ≡ says_ok first
fill_result-accepts fraction r i first second third q h =
    subst (Accepts (says_ok first)) h (fill_result-Accepts fraction r i first second third)

read_verdict-Accepts :
    (fraction : Fraction) (first second third : List ℕ) (e : Run)
    → Accepts (says_ok first) (read_verdict fraction first second third e)
unfolding read_verdict
read_verdict-Accepts fraction first second third e = elim (Bool-cases (says_ok first)) [
  | inl h ↦ rw h (
      with_percentage-Accepts true
        (record e {
          result_code = code_ok;
          result_string = if is_empty second then e.result_string else said (limit_length second);
        })
        (output_to_fraction fraction third) refl)
  | inr h ↦ rw h refl
]

abbrev pub first_says_ok : List (List ℕ) → Bool
first_says_ok [] = false
first_says_ok (line ∷ lines) = says_ok line

judge_lines-Accepts :
    (fraction : Fraction) (lines : List (List ℕ)) (e : Run)
    → Accepts (first_says_ok lines) (judge_lines fraction lines e)
judge_lines-Accepts fraction [] e = read_verdict-Accepts fraction [] [] [] e
judge_lines-Accepts fraction (a ∷ []) e = read_verdict-Accepts fraction a [] [] e
judge_lines-Accepts fraction (a ∷ b ∷ []) e = read_verdict-Accepts fraction a b [] e
judge_lines-Accepts fraction (a ∷ b ∷ c ∷ l) e = read_verdict-Accepts fraction a b c e

-- What the checking program says: OK in its first line, or a return code of nought.
abbrev pub approves : Checker → Bool
approves (own_checker code lines) = first_says_ok lines
approves (untrusted_checker code lines) = first_says_ok lines
approves (oicompare code lines) = code == 0
approves (diff code) = code == 0

wrong_answer-Accepts : (lines : List (List ℕ)) (e : Run) → Accepts false (wrong_answer lines e)
wrong_answer-Accepts [] e = tt
wrong_answer-Accepts (line ∷ lines) e = refl

pub check-Accepts :
    (fraction : Fraction) (checker : Checker) (e : Run)
    → Accepts (approves checker) (check fraction checker e)
unfolding check
check-Accepts fraction (own_checker code lines) e = elim (Bool-cases (leb 2 code)) [
  | inl h ↦ rw h tt
  | inr h ↦ rw h (judge_lines-Accepts fraction lines e)
]
check-Accepts fraction (untrusted_checker code lines) e = elim (Bool-cases (code == 0)) [
  | inl h ↦ rw h (judge_lines-Accepts fraction lines e)
  | inr h ↦ rw h tt
]
check-Accepts fraction (oicompare code lines) e = elim (Bool-cases (code == 0)) [
  | inl h ↦ rw h refl
  | inr h ↦ elim (Bool-cases (code == 1)) [
    | inl g ↦ rw (h, g) (wrong_answer-Accepts lines e)
    | inr g ↦ rw (h, g) tt
  ]
]
check-Accepts fraction (diff code) e = elim (Bool-cases (leb 2 code)) [
  | inl h ↦ rw h tt
  | inr h ↦ elim (Bool-cases (code == 0)) [
    | inl g ↦ rw (h, g) (judge_lines-Accepts fraction ((79 ∷ 75 ∷ []) ∷ []) e)
    | inr g ↦ rw (h, g) (judge_lines-Accepts fraction ((87 ∷ 65 ∷ []) ∷ []) e)
  ]
]

-- Whenever the checking of an output ends with a result, the output is accepted just if the checking
-- program says so: the task's checker by OK in its first line, oicompare and diff by returning 0.
pub check-accepts :
    (fraction : Fraction) (checker : Checker) (e q : Run)
    → check fraction checker e ≡ ok q
    → is_ok_code q.result_code ≡ approves checker
check-accepts fraction checker e q h =
    subst (Accepts (approves checker)) h (check-Accepts fraction checker e)

-- The greatest of a list of numbers, and of `n`.
abbrev pub greatest : ℕ → List ℕ → ℕ
greatest n [] = n
greatest n (x ∷ l) = greatest (max n x) l

abbrev pub IsOk : Run → Type 0
IsOk p = is_ok_code p.result_code ≡ true

-- The first process that did not end with OK.
abbrev pub FirstFailed : Run → List Run → Type 0
FirstFailed q [] = ⊥
FirstFailed q (p ∷ ps) =
    ((q ≡ p) × (is_ok_code p.result_code ≡ false)) ⊎ (IsOk p × FirstFailed q ps)

-- How the runs `ps` were merged into `q`, beginning from `r`.
abbrev pub Merged : Run → List Run → Run → Type 0
Merged r ps q =
    (All IsOk ps
      × (q.result_code ≡ r.result_code)
      × (q.time_used ≡ greatest r.time_used (map (λ p. p.time_used) ps))
      × (q.mem_used ≡ greatest r.mem_used (map (λ p. p.mem_used) ps)))
    ⊎ FirstFailed q ps

merge_runs_cases : (r : Run) (ps : List Run) → Merged r ps (merge_runs r ps)
merge_runs_cases r [] = inl (tt, refl, refl, refl)
merge_runs_cases r (p ∷ ps) =
    let next : Run = record r {
      time_used = max r.time_used p.time_used;
      mem_used = max r.mem_used p.mem_used;
    } in
    elim (Bool-cases (is_ok_code p.result_code)) [
      | inl e ↦
          subst (Merged r (p ∷ ps)) (sym (ap (λ b. if b then merge_runs next ps else p) e))
            (elim (merge_runs_cases next ps) [
              | inl (a, c, t, m) ↦ inl ((e, a), c, t, m)
              | inr f ↦ inr (inr (e, f))
            ])
      | inr e ↦
          subst (Merged r (p ∷ ps)) (sym (ap (λ b. if b then merge_runs next ps else p) e))
            (inr (inl (refl, e)))
    ]

-- Of the processes of a solution, of which there is at least one, the result is that of the first
-- that did not end with OK; if all did, the code is that of the first process, and the time and the
-- memory are the greatest.
pub choose_run-Merged :
    (p : Run) (ps : List Run) → (q : Run) × (choose_run (p ∷ ps) ≡ ok q) × Merged p (p ∷ ps) q
choose_run-Merged p ps = (merge_runs p (p ∷ ps), refl, merge_runs_cases p (p ∷ ps))
