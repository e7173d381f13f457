-- ===== src/Tests/Wrappers.antt =====
-- Wrappers: a program in Java that runs twice with one environment.
use sioworkers.Prelude.{
  ◌≡◌, refl, true, false, some, none, [], ◌∷◌, ok, codes, raised, system_error,
}
use sioworkers.Executors.Quoting.{nil}
use sioworkers.Executors.Process.{Environ, Kwargs, take_limits}
use sioworkers.FileRunners.{
  Use, java, call_of, java_command, get_file_runner, supervised, sio2jail, java_sio,
}
use sioworkers.FileRunners.Limits.{JvmStarted, Passed, call_of-limits, java_again-unlimited}

abbrev kwargs : Kwargs
kwargs = record {
  mem_limit = none;
  time_limit = none;
  real_time_limit = none;
  output_limit = none;
  ignore_errors = true;
  extra_ignore_errors = [];
  capture_output = false;
  split_lines = false;
}

abbrev started : Use
started = record {
  info = record { preferred_filename = none; main_class = some (codes "Main") };
  place = λ p. p;
  entry_point = none;
  prefix = some (codes "exec_");
  kwargs = kwargs;
}

abbrev environ : Environ
environ = (codes "exec_mem_limit", some 1000) ∷ (codes "exec_time_limit", some 2000) ∷ []

call_of-limits_example :
    let c = call_of java started environ (codes "a.jar") nil in
    let given = take_limits environ (codes "exec_") kwargs in
    Passed java kwargs given (take_limits c.limits (codes "exec_") c.kwargs)
    × JvmStarted java given.mem_limit c.command
call_of-limits_example = call_of-limits java started (codes "exec_") environ (codes "a.jar") nil

java_again-unlimited_example :
    let left = (call_of java started environ (codes "a.jar") nil).limits in
    let again = call_of java started left (codes "a.jar") nil in
    (again.command ≡ java_command started none (codes "a.jar") nil)
    × ((take_limits again.limits (codes "exec_") again.kwargs).mem_limit ≡ none)
java_again-unlimited_example =
    java_again-unlimited started (codes "exec_") environ (codes "a.jar") (codes "a.jar") nil nil
      refl

-- The first call has the limit.
limited :
    (call_of java started environ (codes "a.jar") nil).command
    ≡ java_command started (some 1000) (codes "a.jar") nil
unfolding call_of
limited = refl

-- Which wrappers there are.
supervised_java : get_file_runner supervised (some (codes "java")) ≡ ok java_sio
unfolding get_file_runner
supervised_java = refl

jailed_java : get_file_runner sio2jail (some (codes "java")) ≡ raised system_error
unfolding get_file_runner
jailed_java = refl
