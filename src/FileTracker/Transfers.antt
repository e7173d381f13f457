-- ===== src/FileTracker/Transfers.antt =====
-- What a download finds after an upload.
use sioworkers.Prelude.{
  lift, raised, none, ◌>>◌, pure, Ends-weaken, Ends-bind, sym, ◌>>=◌, ℕ, ◌≡◌, refl, ap, ◌∙◌, subst,
  Bool, true, false, Option, some, List, [], ◌∷◌, ◌++◌, Result, ok, Ends, arith, is_text_refl,
  if◌then◌else◌,
}
use sioworkers.Paths.{path_join, dirname, tempcwd}
use sioworkers.Executors.Proot.{Env, env_get, env_set}
use sioworkers.FileTracker.{
  put, copy_to, store, set_key, fetch_by, use_filetracker, note, fetch, flag, make_dir, World,
  Files, Transfer, got, made, download, upload, named, fetch_to, store_as, upload_name,
}

pub env_get-env_set : (key text : List ℕ) (env : Env) → env_get key (env_set key text env) ≡ ok text
env_get-env_set key text [] = ground (arith, is_text_refl key)
env_get-env_set key text (item ∷ env) =
    ground (arith, is_text_refl key, env_get-env_set key text env)

-- What the file tracker got of an upload, and the name that it gave.
abbrev pub Put : World → List ℕ → List ℕ → Files → List ℕ → Files → Type 0
Put w source asked f name g =
    (w.put_file asked source ≡ ok name) × (g.transfers ≡ f.transfers ++ put source name ∷ [])

-- The name that is asked for: the key's if it has one, and otherwise the one that is given.
abbrev pub Asked : Option (List ℕ) → List ℕ → Result (List ℕ) → List ℕ → Type 0
Asked dest source (ok p) asked = asked ≡ p
Asked none source (raised e) asked = ⊥
Asked (some d) source (raised e) asked = asked ≡ named (some d) source

abbrev pub Stored : World → List ℕ → List ℕ → Option (List ℕ) → Files → List ℕ → Files → Type 0
Stored w key source dest f name g =
    (asked : List ℕ) × (Asked dest source (env_get key f.environ) asked
      × Put w source asked f name g)

send : World → List ℕ → List ℕ → Bool → Files → Result (List ℕ) × Files
send w source asked b f =
    (if b
        then (lift (w.put_file asked source) >>= λ name. note (put source name) >> pure name)
        else (copy_to w source (path_join w.original_cwd asked)
            >> pure (path_join w.original_cwd asked)))
      f

send-Put :
    (w : World) (source asked : List ℕ) (f : Files)
    → Ends (Put w source asked f) (λ g. g.environ ≡ f.environ) (send w source asked true f)
unfolding send
send-Put w source asked f = choose (w.put_file asked source) refl
  where
    choose :
        (o : Result (List ℕ))
        → w.put_file asked source ≡ o
        → Ends
            (Put w source asked f)
            (λ g. g.environ ≡ f.environ)
            ((lift o >>= λ name. note (put source name) >> pure name) f)
    choose (ok name) q = (q, refl)
    choose (raised e) q = refl

store-Put :
    (w : World) (source asked : List ℕ) (f : Files)
    → w.mode ≡ flag true
    → Ends (Put w source asked f) (λ g. g.environ ≡ f.environ) (store w source asked f)
unfolding send
store-Put w source asked f m =
    subst (λ b. Ends (Put w source asked f) (λ g. g.environ ≡ f.environ) (send w source asked b f))
      (sym (ap (λ m. use_filetracker m asked) m)) (send-Put w source asked f)

-- What a key has after an upload that asked for a name.
abbrev Keyed : World → List ℕ → List ℕ → List ℕ → Files → List ℕ → Files → Type 0
Keyed w key source asked f name g = Put w source asked f name g × (env_get key g.environ ≡ ok name)

store_as-Keyed :
    (w : World) (key source asked : List ℕ) (f : Files)
    → w.mode ≡ flag true
    → Ends
        (Keyed w key source asked f)
        (λ g. g.environ ≡ f.environ)
        (store_as w key source (ok asked) f)
store_as-Keyed w key source asked f m =
    Ends-bind (Put w source asked f) (λ g. g.environ ≡ f.environ) (Keyed w key source asked f)
      (λ g. g.environ ≡ f.environ) (store w source asked f) (set_key key)
      (store-Put w source asked f m) (λ name g z. (z, env_get-env_set key name g.environ))
      (λ g z. z)

abbrev Found :
    World → List ℕ → List ℕ → Option (List ℕ) → Result (List ℕ) → Files → List ℕ → Files → Type 0
Found w key source dest o f name g =
    ((asked : List ℕ) × (Asked dest source o asked × Put w source asked f name g))
    × (env_get key g.environ ≡ ok name)

store_as-Found :
    (w : World) (key source : List ℕ) (dest : Option (List ℕ)) (o : Result (List ℕ)) (f : Files)
    → w.mode ≡ flag true
    → Ends
        (Found w key source dest o f)
        (λ g. g.environ ≡ f.environ)
        (store_as w key source (upload_name dest source o) f)
store_as-Found w key source dest (ok p) f m =
    Ends-weaken (Keyed w key source p f) (λ g. g.environ ≡ f.environ)
      (Found w key source dest (ok p) f) (λ g. g.environ ≡ f.environ)
      (store_as w key source (ok p) f) (store_as-Keyed w key source p f m)
      (λ name g z. ((p, (refl, z.0)), z.1)) (λ g z. z)
store_as-Found w key source none (raised e) f m = refl
store_as-Found w key source (some d) (raised e) f m =
    let asked = named (some d) source in
    Ends-weaken (Keyed w key source asked f) (λ g. g.environ ≡ f.environ)
      (Found w key source (some d) (raised e) f) (λ g. g.environ ≡ f.environ)
      (store_as w key source (ok asked) f) (store_as-Keyed w key source asked f m)
      (λ name g z. ((asked, (refl, z.0)), z.1)) (λ g z. z)

-- A download of a file from the file tracker: where it goes, and from where it came.
abbrev pub Fetched : World → Option (List ℕ) → List ℕ → List ℕ → Files → Type 0
Fetched w dest source place g =
    (place ≡ tempcwd w.tmpdir (some (named dest source)))
    × ((before : List Transfer) × (g.transfers ≡ before ++ got source place ∷ []))

fetch_by-Ends :
    (w : World) (source place : List ℕ) (f : Files)
    → Ends
        (λ u g. g.transfers ≡ f.transfers ++ got source place ∷ [])
        (λ g. g.environ ≡ f.environ)
        (fetch_by true w source place f)
fetch_by-Ends w source place f = ground arith

fetch-Ends :
    (w : World) (source place : List ℕ) (f : Files)
    → w.mode ≡ flag true
    → Ends
        (λ u g. g.transfers ≡ f.transfers ++ got source place ∷ [])
        (λ g. g.environ ≡ f.environ)
        (fetch w source place f)
fetch-Ends w source place f m =
    subst
      (λ b.
        Ends (λ u g. g.transfers ≡ f.transfers ++ got source place ∷ [])
          (λ g. g.environ ≡ f.environ) (fetch_by b w source place f))
      (sym (ap (λ m. use_filetracker m source) m)) (fetch_by-Ends w source place f)

pub make_dir-Ends :
    (w : World) (dir : List ℕ) (f : Files)
    → Ends (λ u g. g.environ ≡ f.environ) (λ g. ⊥) (make_dir w dir f)
make_dir-Ends w dir f = choose (w.exists dir)
  where
    choose :
        (b : Bool)
        → Ends (λ u g. g.environ ≡ f.environ) (λ g. ⊥) ((if b then pure tt else note (made dir)) f)
    choose true = refl
    choose false = refl

fetch_to-Ends :
    (w : World) (dest : Option (List ℕ)) (source : List ℕ) (f : Files)
    → w.mode ≡ flag true
    → Ends (Fetched w dest source) (λ g. g.environ ≡ f.environ) (fetch_to w dest source f)
fetch_to-Ends w dest source f m =
    let place = tempcwd w.tmpdir (some (named dest source)) in
    Ends-bind (λ u g. (before : List Transfer) × (g.transfers ≡ before ++ got source place ∷ []))
      (λ g. g.environ ≡ f.environ) (Fetched w dest source) (λ g. g.environ ≡ f.environ)
      ((make_dir w (dirname place) >> fetch w source place) f) (λ u. pure place)
      (Ends-bind (λ u g. g.environ ≡ f.environ) (λ g. ⊥)
        (λ u g. (before : List Transfer) × (g.transfers ≡ before ++ got source place ∷ []))
        (λ g. g.environ ≡ f.environ) (make_dir w (dirname place) f) (λ u. fetch w source place)
        (make_dir-Ends w (dirname place) f)
        (λ u g h.
          Ends-weaken (λ u k. k.transfers ≡ g.transfers ++ got source place ∷ [])
            (λ k. k.environ ≡ g.environ)
            (λ u k. (before : List Transfer) × (k.transfers ≡ before ++ got source place ∷ []))
            (λ k. k.environ ≡ f.environ) (fetch w source place g) (fetch-Ends w source place g m)
            (λ u k z. (g.transfers, z)) (λ k z. z ∙ h))
        (λ g h. absurd h))
      (λ u g h. (refl, h)) (λ g h. h)

-- An upload with a file tracker sends the file, under the name of the key or else the one that is
-- given, and what a later download of the key fetches comes from the name that the file tracker gave
-- to it. It goes into the temporary directory, under the name that is asked for or that of the file.
-- An upload or a download that fails leaves the keys alone.
pub download-upload :
    (w : World) (key source : List ℕ) (dest place : Option (List ℕ)) (f : Files)
    → w.mode ≡ flag true
    → Ends
        (λ name g.
          Stored w key source dest f name g
          × Ends (Fetched w place name) (λ h. h.environ ≡ g.environ) (download w key place false g))
        (λ g. g.environ ≡ f.environ)
        (upload w key source dest f)
unfolding upload download
download-upload w key source dest place f m =
    let o = env_get key f.environ in
    Ends-weaken (Found w key source dest o f) (λ g. g.environ ≡ f.environ)
      (λ name g.
        Stored w key source dest f name g
        × Ends (Fetched w place name) (λ h. h.environ ≡ g.environ) (download w key place false g))
      (λ g. g.environ ≡ f.environ) (store_as w key source (upload_name dest source o) f)
      (store_as-Found w key source dest o f m)
      (λ d g h. (
        h.0,
        subst
            (λ o.
              Ends (Fetched w place d) (λ h. h.environ ≡ g.environ)
                (((λ g. (o, g)) >>= fetch_to w place) g))
            (sym h.1) (fetch_to-Ends w place d g m),
      ))
      (λ g h. h)
