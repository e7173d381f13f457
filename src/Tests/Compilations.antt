-- ===== src/Tests/Compilations.antt =====
-- A compilation of Java with a compiler that always succeeds, and names of compilers.
use sioworkers.Prelude.{◌≡◌, refl, true, false, ◌||◌, some, none, [], ◌∷◌, ok, codes, Ends}
use sioworkers.Prelude.Int.{pos}
use sioworkers.Paths.{path_join}
use sioworkers.Executors.Process.{Renv, no_renv}
use sioworkers.FileTracker.{World, flag}
use sioworkers.Compilers.{Host, Compiler, Request, Job, java, for_all, one, absent, several}
use sioworkers.Compilers.Driver.{compile, class_name}
use sioworkers.Compilers.Running.{Judged, OutputStored, too_large, last_fails, info_for}
use sioworkers.Compilers.Results.{compile-Judged}
use sioworkers.Compilers.Jobs.{default_name, until_dot}

abbrev pub world : World
world = record {
  tmpdir = codes "/tmp/1";
  original_cwd = codes "/root";
  mode = flag true;
  exists = λ p. true;
  same_file = λ p q. false;
  copy = λ p q. ok tt;
  get_file = λ p q. ok tt;
  put_file = λ p q. ok (codes "/a/b@1");
}

abbrev answer : Renv
answer = record no_renv { return_code = some (pos 0); stdout = codes "fine" ∷ [] }

abbrev host : Host
host = record {
  world = world;
  enter = ok tt;
  call = λ l a k. ok answer;
  rcwd = λ p. path_join (codes "/tmp/1") p;
  rpath = codes "/";
  config_template = ok (codes "-Fu__DIR__/lib");
  size = λ p. ok 100;
  names_in = λ p. ok [];
  real_path = λ p. p;
  exists_after = λ l p. false;
  classes = codes "Main.class" ∷ [];
  utf = λ s. s;
}

abbrev compiler : Compiler
compiler = record { kind = java; lang = codes "java"; output_file = codes "a.jar"; options = [] }

abbrev request : Request
request = record {
  extra_compilation_args = for_all (one (codes "-g"));
  additional_includes = absent;
  additional_sources = for_all (several (codes "/x/Lib.java" ∷ []));
  extra_files = [];
  additional_archive = codes "/x/more.zip";
  problem_short_name = none;
  result_size_limit = some 1000;
  limits = [];
}

abbrev job : Job
job = record {
  files = record {
    environ = (codes "source_file", codes "/s/Main.java") ∷ (codes "out_file", codes "/s/out") ∷ [];
    transfers = [];
  };
  tmp = [];
  ran = [];
  extracted = [];
  config = none;
  compiler_output = none;
  result_code = none;
  exec_info = none;
}

compile-Judged_example :
    Ends
      (λ u k.
        Judged
          (OutputStored host compiler (codes "/s/out"))
          (last_fails k.ran || too_large host compiler request)
          (info_for compiler (class_name request (codes "/s/Main.java")))
          (job.files).environ
          k)
      (λ k. ⊥)
      (compile host compiler request job)
compile-Judged_example =
    compile-Judged host compiler request (λ a b. refl) (λ a b. refl) (λ a b. refl) refl refl
      (λ p. refl) (λ p. refl) (λ l a k. refl) job (codes "/s/Main.java") (codes "/s/out") refl refl

-- A name is looked up until its first dot.
names : until_dot (codes "gcc.4_8_2") ≡ codes "gcc"
names = refl

default_of : default_name (codes "/s/a.b/Main.CPP") ≡ codes "default-cpp"
default_of = refl
