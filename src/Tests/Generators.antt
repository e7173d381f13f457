-- ===== src/Tests/Generators.antt =====
-- A generator that makes two inputs and a note.
use sioworkers.Prelude.{◌≡◌, refl, true, some, [], ◌∷◌, ok, codes, Ends, starts_with}
use sioworkers.Prelude.Int.{pos}
use sioworkers.Executors.Process.{Renv, no_renv}
use sioworkers.FileTracker.{Files}
use sioworkers.Generating.{Request, Machine, run_in_executor}
use sioworkers.Generating.Collected.{Gives, run_in_executor-Gives}
use sioworkers.Tests.Compilations.{world}

abbrev ended : Renv
ended = record no_renv { return_code = some (pos 0) }

abbrev request : Request
request = record {
  limits = [];
  matches = λ name. starts_with name (codes "in");
  collected_files_path = ok (codes "/problem/in");
}

abbrev machine : Machine
machine = record {
  enter = ok tt;
  execute = λ args k. ok ended;
  program = codes "/tmp/1/ingen";
  listing = codes "in1" ∷ codes "note" ∷ codes "in2" ∷ [];
}

abbrev files : Files
files = record { environ = (codes "exe_file", codes "/x/ingen") ∷ []; transfers = [] }

run_in_executor-Gives_example :
    Ends
      (λ o g.
        Gives true request.matches machine.listing o.collected_files × (g.environ ≡ files.environ))
      (λ g. ⊥)
      (run_in_executor world request machine files)
unfolding sioworkers.Executors.Process.call_executor
run_in_executor-Gives_example =
    run_in_executor-Gives world request machine ended true (codes "/problem/in") files (λ a b. refl)
      (λ a b. refl) (λ a b. refl) refl refl refl refl
