-- ===== src/Generating/Collected.antt =====
-- Which files are collected.
use sioworkers.Prelude.{
  lift, ◌>>=◌, ℕ, ◌≡◌, refl, Bool, true, false, ◌||◌, ◌&&◌, Option, none, some, List, [], ◌∷◌,
  Result, ok, raised, arith, ap, ◌∙◌, sym, subst, Ends, Ends-bind, Ends-weaken, is_text, any_text,
  if◌then◌else◌, ◌>>◌,
}
use sioworkers.Paths.{path_join}
use sioworkers.Executors.Proot.{Env, env_get, env_set}
use sioworkers.FileTracker.{World, Files, upload}
use sioworkers.FileTracker.Working.{is_ok, upload_to-Ends}
use sioworkers.Executors.Process.{Renv}
use sioworkers.Generating.{
  tracked, collect, collected_name, with_collected, Request, Machine, Generated, run_program,
  ended_well, after_run, after, collect_all, run_in_executor,
}

is_text-same : (s t : List ℕ) → is_text s t ≡ true → s ≡ t
is_text-same [] [] h = refl
is_text-same [] (y ∷ t) h = grind arith
is_text-same (x ∷ s) [] h = grind arith
is_text-same (x ∷ s) (y ∷ t) h = grind (arith, is_text-same s t)

same_start : (s t name : List ℕ) → is_text s t ≡ true → is_text s name ≡ is_text t name
same_start s t name h = ap (λ z. is_text z name) (is_text-same s t h)

is_text-sym : (s t : List ℕ) → is_text s t ≡ is_text t s
is_text-sym [] [] = refl
is_text-sym [] (y ∷ t) = refl
is_text-sym (x ∷ s) [] = refl
is_text-sym (x ∷ s) (y ∷ t) = ground (arith, is_text-sym s t)

has_key-env_set :
    (name key text : List ℕ) (env : Env)
    → is_ok (env_get name (env_set key text env)) ≡ (is_text key name || is_ok (env_get name env))
has_key-env_set name key text [] = ground arith
has_key-env_set name key text (item ∷ env) =
    ground (arith, same_start item.0 key name, has_key-env_set name key text env)

-- The names that are keys after a collection.
abbrev pub Collects : (List ℕ → Bool) → List (List ℕ) → Files → Files → Type 0
Collects matches names f g =
    (name : List ℕ)
    → is_ok (env_get name g.environ)
      ≡ ((any_text name names && matches name) || is_ok (env_get name f.environ))

-- What a name that matches, or one that does not, adds to those that are found.
found_more :
    (s t any m o b : Bool)
    → t ≡ s
    → (s ≡ true → m ≡ b)
    → ((any && m) || ((b && t) || o)) ≡ (((if s then true else any) && m) || o)
found_more s t any m o b e h = ground arith

module _ (w : World) (matches : List ℕ → Bool) (path : List ℕ)
    (gets : (a b : List ℕ) → is_ok (w.get_file a b) ≡ true)
    (copies : (a b : List ℕ) → is_ok (w.copy a b) ≡ true)
    (puts : (a b : List ℕ) → is_ok (w.put_file a b) ≡ true) where
  Collects-cons :
      (name : List ℕ) (names : List (List ℕ)) (b : Bool) (f g h : Files)
      → matches name ≡ b
      → ((n : List ℕ)
          → is_ok (env_get n g.environ) ≡ ((b && is_text name n) || is_ok (env_get n f.environ)))
      → Collects matches names g h
      → Collects matches (name ∷ names) f h
  Collects-cons name names b f g h e k c n =
      c n
      ∙ ap (λ o. (any_text n names && matches n) || o) (k n)
      ∙ found_more (is_text n name) (is_text name n) (any_text n names) (matches n)
          (is_ok (env_get n f.environ)) b (is_text-sym name n)
          (λ q. ap matches (is_text-same n name q) ∙ e)

  -- Where the file tracker does what it is asked, the files whose names match are collected, and no
  -- other.
  pub collect-Collects :
      (names : List (List ℕ)) (f : Files)
      → Ends (λ u g. Collects matches names f g) (λ g. ⊥) (collect w matches path names f)
  unfolding collect
  collect-Collects [] f = λ n. refl
  collect-Collects (name ∷ names) f = choose (matches name) refl (collect-Collects names)
    where
      choose :
          (b : Bool)
          → matches name ≡ b
          → ((g : Files)
              → Ends (λ u h. Collects matches names g h) (λ h. ⊥) (collect w matches path names g))
          → Ends
              (λ u g. Collects matches (name ∷ names) f g)
              (λ g. ⊥)
              ((if b
                  then (upload w name (path_join w.tmpdir name) (some (collected_name path name))
                      >> collect w matches path names)
                  else collect w matches path names)
                f)
      choose true e rest =
          Ends-bind (λ d g. g.environ ≡ env_set name d f.environ) (λ g. ⊥)
            (λ u g. Collects matches (name ∷ names) f g) (λ g. ⊥)
            (upload w name (path_join w.tmpdir name) (some (collected_name path name)) f)
            (λ d. collect w matches path names)
            (upload_to-Ends w gets copies puts name (path_join w.tmpdir name)
              (collected_name path name) f)
            (λ d g z.
              Ends-weaken (λ u h. Collects matches names g h) (λ h. ⊥)
                (λ u h. Collects matches (name ∷ names) f h) (λ h. ⊥)
                (collect w matches path names g) (rest g)
                (λ u h c.
                  Collects-cons name names true f g h e
                    (λ n. ap (λ env. is_ok (env_get n env)) z ∙ has_key-env_set n name d f.environ)
                    c)
                (λ h z. z))
            (λ g z. z)
      choose false e rest =
          Ends-weaken (λ u h. Collects matches names f h) (λ h. ⊥)
            (λ u h. Collects matches (name ∷ names) f h) (λ h. ⊥) (collect w matches path names f)
            (rest f) (λ u h c. Collects-cons name names false f f h e (λ n. refl) c) (λ h z. z)

-- What a run gives of files: of all that match, or nothing.
abbrev pub Gives : Bool → (List ℕ → Bool) → List (List ℕ) → Option Env → Type 0
Gives true matches names none = ⊥
Gives true matches names (some env) =
    (name : List ℕ) → is_ok (env_get name env) ≡ (any_text name names && matches name)
Gives false matches names none = Unit {0}
Gives false matches names (some env) = ⊥

or_false : (b : Bool) → (b || false) ≡ b
or_false true = refl
or_false false = refl

with_collected-Gives :
    (v : Renv) (matches : List ℕ → Bool) (names : List (List ℕ)) (f : Files)
    (end : Result (Unit {0}) × Files)
    → Ends (λ u g. Collects matches names (record f { environ = [] }) g) (λ g. ⊥) end
    → Ends
        (λ o g. Gives true matches names o.collected_files × (g.environ ≡ f.environ))
        (λ g. ⊥)
        (with_collected v f end)
with_collected-Gives v matches names f (ok u, g) h =
    ((λ n. h n ∙ or_false (any_text n names && matches n)), refl)
with_collected-Gives v matches names f (raised e, g) h = h

-- Where the file tracker does what it is asked and a run of ingen returns, the files that it gives are
-- those of the directory whose names match, if the run ended with 0, and otherwise there are none; the
-- keys of the job are as they were.
pub run_in_executor-Gives :
    (w : World) (r : Request) (m : Machine) (v : Renv) (b : Bool) (path : List ℕ) (f : Files)
    → ((a b : List ℕ) → is_ok (w.get_file a b) ≡ true)
    → ((a b : List ℕ) → is_ok (w.copy a b) ≡ true)
    → ((a b : List ℕ) → is_ok (w.put_file a b) ≡ true)
    → m.enter ≡ ok tt
    → run_program r m ≡ ok v
    → ended_well v ≡ ok b
    → r.collected_files_path ≡ ok path
    → Ends
        (λ o g. Gives b r.matches m.listing o.collected_files × (g.environ ≡ f.environ))
        (λ g. ⊥)
        (run_in_executor w r m f)
unfolding run_in_executor
run_in_executor-Gives w r m v b path f gets copies puts enter ran well place =
    subst (λ o. Goal ((lift o >> lift (run_program r m) >>= after w r m) f)) (sym enter)
      (subst (λ o. Goal ((lift o >>= after w r m) f)) (sym ran)
        (subst (λ o. Goal ((lift o >>= after_run w r m v) f)) (sym well) (choose b)))
  where
    Goal : Result Generated × Files → Type 0
    Goal end =
        Ends (λ o g. Gives b r.matches m.listing o.collected_files × (g.environ ≡ f.environ))
          (λ g. ⊥) end

    choose :
        (b : Bool)
        → Ends
            (λ o g. Gives b r.matches m.listing o.collected_files × (g.environ ≡ f.environ))
            (λ g. ⊥)
            (after_run w r m v b f)
    choose false = (tt, refl)
    choose true =
        subst
          (λ o.
            Ends (λ o g. Gives true r.matches m.listing o.collected_files × (g.environ ≡ f.environ))
              (λ g. ⊥) ((lift o >>= collect_all w r m v) f))
          (sym place)
          (with_collected-Gives v r.matches m.listing f
            (collect (tracked w) r.matches path m.listing (record f { environ = [] }))
            (collect-Collects (tracked w) r.matches path gets copies puts m.listing
              (record f { environ = [] })))
