-- ===== src/Tests/Runs.antt =====
-- Runs of processes: a command with a quote in it, a process that is killed, reports of supervisors,
-- and sandboxes that are entered in pairs.
use sioworkers.Prelude.{
  is_utf8, all_utf8, ◌-◌, ◌≡◌, refl, true, false, some, none, [], ◌∷◌, ◌++◌, ok, raised, exec_error,
  arith, codes, Ends, Result,
}
use sioworkers.Prelude.Int.{pos}
use sioworkers.Sandbox.Entering.{Joined}
use sioworkers.Executors.Quoting.{Args, plain, noquote, nested, cons, nil, shellquote, words}
use sioworkers.Executors.Quoting.Words.{shell_words, words_of, shellquote-words}
use sioworkers.Executors.Process.{
  System, Outcome, Kwargs, Renv, fails, execute_detailed, no_renv, said, code_ok,
}
use sioworkers.Executors.Process.Detailed.{
  Judged, Failed, Concludes, is_killed, execute_detailed-Judged,
}
use sioworkers.Executors.Supervised.{ReadInt, execute_supervised}
use sioworkers.Executors.Supervised.Verdict.{says_ok, IsReport, execute_supervised-IsReport}
use sioworkers.Executors.Compound.{Pair, Outside, enter_both}
use sioworkers.Executors.Compound.Release.{enter_both-Ends, OfChroot, SameUsers}
use sioworkers.Executors.Proot.{Proot, Env, execute_proot}
use sioworkers.Executors.Proot.Leaks.{execute_proot-leaks, binding, run_with}
use sioworkers.Tests.Boxes.{world, box}

-- it's && [a 'b]
abbrev command : Args
command = cons (plain (codes "it's")) (
    cons (noquote (codes "&&"))
      (cons (nested (cons (plain (codes "a")) (cons (plain (codes "'b")) nil))) nil))

shellquote-words_example : shell_words (shellquote (words command)) ≡ some (words_of command)
shellquote-words_example = shellquote-words command (tt, ((refl, (refl, tt)), (tt, tt)))

abbrev kwargs : Kwargs
kwargs = record {
  mem_limit = some 1000;
  time_limit = some 2000;
  real_time_limit = none;
  output_limit = none;
  ignore_errors = true;
  extra_ignore_errors = [];
  capture_output = false;
  split_lines = false;
}

abbrev outcome : Outcome
outcome = record {
  rc = pos 0;
  elapsed = 4000;
  overran = true;
  printed = [];
  user_time = ok (some 1000);
  status = codes "OK" ∷ codes "0" ∷ codes "5" ∷ codes "-" ∷ codes "6" ∷ codes "7" ∷ [];
  message = codes "ok";
}

abbrev system : System
system text = outcome

execute_detailed-Judged_example :
    Concludes
      (λ r.
        (fails kwargs outcome.rc ≡ false)
        × Judged kwargs.time_limit outcome.user_time
            (is_killed kwargs outcome)
            outcome.elapsed
            outcome.rc
            r)
      (Failed (fails kwargs outcome.rc) outcome.user_time (is_killed kwargs outcome))
      (execute_detailed system command kwargs)
execute_detailed-Judged_example = execute_detailed-Judged system command kwargs

-- Digits alone.
abbrev int : ReadInt
int [] = none
int (c ∷ []) = some (pos (c - 48))
int (c ∷ d ∷ s) = none

abbrev failing : Kwargs → Result Renv
failing k = raised exec_error

abbrev ended : Renv
ended = record no_renv { return_code = some (pos 0) }

abbrev good : Kwargs → Result Renv
good k = ok ended

report : IsReport int outcome (codes "OK") (pos 0) (pos 5) (pos 6) (pos 7)
unfolding all_utf8 is_utf8
report = record {
  unused = codes "-";
  code = codes "0";
  time = codes "5";
  memory = codes "6";
  syscalls = codes "7";
  rest = [];
  status = refl;
  decoded = refl;
  code_read = refl;
  time_read = refl;
  memory_read = refl;
  syscalls_read = refl;
}

execute_supervised-IsReport_example :
    execute_supervised int good outcome kwargs
    ≡ ok (record ended {
      return_code = some (pos 0);
      supervisor_return_code = some (pos 0);
      time_used = some (pos 5);
      mem_used = some (pos 6);
      num_syscalls = some (pos 7);
      result_code = some code_ok;
      result_string = some (said (codes "ok"));
      exit_signal = none;
    })
unfolding is_utf8
execute_supervised-IsReport_example =
    execute_supervised-IsReport int good outcome kwargs ended (pos 0) (codes "OK") (pos 0) (pos 5)
      (pos 6) (pos 7) code_ok (pos 0) refl refl refl refl report (says_ok (pos 0)) refl refl refl

-- The lock file of the caller's sandbox cannot be opened.
abbrev outside : Outside
outside = record {
  tool_world = world;
  chroot_world = record world { opens = raised exec_error };
  tool_other = λ d. d;
  chroot_other = λ d. d;
}

abbrev boxes : Pair
boxes = record { tool = box; chroot = some box }

enter_both-Ends_example :
    Ends
      (λ a q. Joined boxes.tool q.tool × OfChroot Joined boxes.chroot q.chroot)
      (λ q. SameUsers boxes.tool q.tool × OfChroot SameUsers boxes.chroot q.chroot)
      (enter_both outside boxes)
enter_both-Ends_example =
    enter_both-Ends outside boxes
      ((λ h. absurd (omega (arith, h))), (λ h. absurd (omega (arith, h))))

abbrev proot : Proot
proot = record {
  chroot_path = codes "/box";
  tool_path = codes "/tool";
  tempcwd = codes "/job";
  unpatched_sh = codes "/box/bin/sh.orig";
  patched = false;
  exists = λ p. true;
  is_exe = λ p. true;
}

abbrev systems : Env → System
systems env = system

execute_proot-leaks_example :
    execute_proot systems proot [] [] command [] kwargs
      (execute_proot systems proot
        ((codes "/a", codes "/b", codes "rw") ∷ [])
        []
        command
        []
        kwargs
        []).1
    ≡ run_with systems proot command [] kwargs
        (([] ++ (binding ((codes "/a", codes "/b", codes "rw") ∷ []) ++ [])) ++ (binding [] ++ []))
execute_proot-leaks_example =
    execute_proot-leaks systems proot ((codes "/a", codes "/b", codes "rw") ∷ []) [] [] [] command
      command [] [] kwargs kwargs [] (refl, tt) tt
