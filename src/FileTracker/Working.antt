-- ===== src/FileTracker/Working.antt =====
-- Downloads and uploads where the file tracker and the file system do what they are asked.
use sioworkers.Prelude.{
  ◌⊎◌, inl, inr, ◌&&◌, ◌||◌, not, raised, List, [], ◌∷◌, ◌++◌, pure, lift, if◌then◌else◌, ap, ℕ,
  ◌≡◌, refl, Bool, true, false, Option, none, some, Result, ok, Ends, Ends-bind, Ends-weaken, arith,
  sym, subst, ◌∙◌, ◌>>=◌, ◌>>◌,
}
use sioworkers.Executors.Proot.{env_get, env_set}
use sioworkers.FileTracker.{
  copied, Transfer, put, note, World, Files, download, upload, set_key, fetch_by, fetch, fetch_to,
  copy_to, store, store_as, use_filetracker, named, make_dir, upload_name,
}
use sioworkers.FileTracker.Transfers.{env_get-env_set, make_dir-Ends}
use sioworkers.Paths.{dirname, tempcwd, path_join}

abbrev pub is_ok : {A : Type 0} → Result A → Bool
is_ok (ok a) = true
is_ok (raised e) = false

-- A copy was made, unless the two are one file.
abbrev pub Copied : World → List ℕ → List ℕ → List Transfer → Type 0
Copied w source place transfers =
    ((w.exists place && w.same_file source place) ≡ true)
    ⊎ ((before : List Transfer) × (transfers ≡ before ++ copied source place ∷ []))

-- The file that an upload stored under a new name, by the old one: the file tracker got it and gave
-- the name, or it was copied to the directory of the start.
abbrev pub KeptAs : Bool → World → List ℕ → List ℕ → List ℕ → List Transfer → Type 0
KeptAs true w source old d transfers =
    (w.put_file old source ≡ ok d)
    × ((before : List Transfer) × (transfers ≡ before ++ put source d ∷ []))
KeptAs false w source old d transfers =
    (d ≡ path_join w.original_cwd old) × Copied w source (path_join w.original_cwd old) transfers

abbrev pub Uploaded : World → List ℕ → List ℕ → List ℕ → Files → Type 0
Uploaded w key source old g =
    (d : List ℕ) × ((env_get key g.environ ≡ ok d)
      × KeptAs (use_filetracker w.mode old) w source old d g.transfers)

-- A file tracker and a file system that do what they are asked.
module _ (w : World) (gets : (a b : List ℕ) → is_ok (w.get_file a b) ≡ true)
    (copies : (a b : List ℕ) → is_ok (w.copy a b) ≡ true)
    (puts : (a b : List ℕ) → is_ok (w.put_file a b) ≡ true) where
  copy_to-Ends :
      (a b : List ℕ) (f : Files) → Ends (λ u g. g.environ ≡ f.environ) (λ g. ⊥) (copy_to w a b f)
  copy_to-Ends a b f = ground (arith, copies a b)

  copy_to-Copied :
      (a b : List ℕ) (f : Files) → Ends (λ u g. Copied w a b g.transfers) (λ g. ⊥) (copy_to w a b f)
  copy_to-Copied a b f = choose (w.exists b) (w.same_file a b) (w.copy a b) refl refl (copies a b)
    where
      choose :
          (there same : Bool) (o : Result (Unit {0}))
          → w.exists b ≡ there
          → w.same_file a b ≡ same
          → is_ok o ≡ true
          → Ends
              (λ u g. Copied w a b g.transfers)
              (λ g. ⊥)
              ((if not there || not same then (lift o >> note (copied a b)) else pure tt) f)
      choose true true o e h k = inl (rw (e, h) refl)
      choose true false (ok u) e h k = inr (f.transfers, refl)
      choose false same (ok u) e h k = inr (f.transfers, refl)
      choose true false (raised x) e h k = grind arith
      choose false same (raised x) e h k = grind arith

  fetch_by-Ends :
      (b : Bool) (source place : List ℕ) (f : Files)
      → Ends (λ u g. g.environ ≡ f.environ) (λ g. ⊥) (fetch_by b w source place f)
  fetch_by-Ends true source place f = ground (arith, gets source place)
  fetch_by-Ends false source place f = copy_to-Ends (path_join w.original_cwd source) place f

  fetch_to-Ends :
      (dest : Option (List ℕ)) (source : List ℕ) (f : Files)
      → Ends (λ u g. g.environ ≡ f.environ) (λ g. ⊥) (fetch_to w dest source f)
  fetch_to-Ends dest source f =
      let place = tempcwd w.tmpdir (some (named dest source)) in
      Ends-bind (λ u g. g.environ ≡ f.environ) (λ g. ⊥) (λ u g. g.environ ≡ f.environ) (λ g. ⊥)
        ((make_dir w (dirname place) >> fetch w source place) f) (λ u g. (ok place, g))
        (Ends-bind (λ u g. g.environ ≡ f.environ) (λ g. ⊥) (λ u g. g.environ ≡ f.environ) (λ g. ⊥)
          (make_dir w (dirname place) f) (λ u. fetch w source place)
          (make_dir-Ends w (dirname place) f)
          (λ u g h.
            Ends-weaken (λ u k. k.environ ≡ g.environ) (λ k. ⊥) (λ u k. k.environ ≡ f.environ)
              (λ k. ⊥) (fetch w source place g)
              (fetch_by-Ends (use_filetracker w.mode source) source place g) (λ u k z. z ∙ h)
              (λ k z. z))
          (λ g h. h))
        (λ u g h. h) (λ g h. h)

  -- A download under a key that is there leaves the keys alone.
  pub download-Ends :
      (key source : List ℕ) (dest : Option (List ℕ)) (f : Files)
      → env_get key f.environ ≡ ok source
      → Ends (λ u g. g.environ ≡ f.environ) (λ g. ⊥) (download w key dest false f)
  unfolding download
  download-Ends key source dest f h =
      subst
        (λ o. Ends (λ u g. g.environ ≡ f.environ) (λ g. ⊥) (((λ g. (o, g)) >>= fetch_to w dest) f))
        (sym h) (fetch_to-Ends dest source f)

  pub fetch_extra-Ends :
      (key path dest : List ℕ) (f : Files)
      → Ends (λ u g. Unit {0}) (λ g. ⊥) ((set_key key path >> download w key (some dest) false) f)
  fetch_extra-Ends key path dest f =
      Ends-weaken (λ u g. g.environ ≡ env_set key path f.environ) (λ g. ⊥) (λ u g. Unit {0})
        (λ g. ⊥) ((set_key key path >> download w key (some dest) false) f)
        (download-Ends key path (some dest) (record f { environ = env_set key path f.environ })
          (env_get-env_set key path f.environ))
        (λ u g h. tt) (λ g h. h)

  store-Ends :
      (b : Bool) (source dest : List ℕ) (f : Files)
      → use_filetracker w.mode dest ≡ b
      → Ends (λ u g. g.environ ≡ f.environ) (λ g. ⊥) (store w source dest f)
  store-Ends true source dest f h = ground (arith, puts dest source)
  store-Ends false source dest f h = ground (arith, copies source (path_join w.original_cwd dest))

  store-KeptAs :
      (b : Bool) (source dest : List ℕ) (f : Files)
      → Ends
          (λ d g. KeptAs b w source dest d g.transfers)
          (λ g. ⊥)
          ((if b
              then (lift (w.put_file dest source) >>= λ name. note (put source name) >> pure name)
              else (copy_to w source (path_join w.original_cwd dest)
                  >> pure (path_join w.original_cwd dest)))
            f)
  store-KeptAs true source dest f = sent (w.put_file dest source) refl (puts dest source)
    where
      sent :
          (o : Result (List ℕ))
          → w.put_file dest source ≡ o
          → is_ok o ≡ true
          → Ends
              (λ d g. KeptAs true w source dest d g.transfers)
              (λ g. ⊥)
              ((lift o >>= λ name. note (put source name) >> pure name) f)
      sent (ok name) q h = (q, (f.transfers, refl))
      sent (raised e) q h = grind arith
  store-KeptAs false source dest f =
      let place = path_join w.original_cwd dest in
      Ends-bind (λ u g. Copied w source place g.transfers) (λ g. ⊥)
        (λ d g. (d ≡ place) × Copied w source place g.transfers) (λ g. ⊥) (copy_to w source place f)
        (λ u g. (ok place, g)) (copy_to-Copied source place f) (λ u g z. (refl, z)) (λ g z. z)

  -- An upload under a key that is there.
  pub upload-Uploaded :
      (key source name : List ℕ) (f : Files)
      → env_get key f.environ ≡ ok name
      → Ends (λ d g. Uploaded w key source name g) (λ g. ⊥) (upload w key source none f)
  unfolding upload
  upload-Uploaded key source name f h =
      let by = use_filetracker w.mode name in
      subst
        (λ o.
          Ends (λ d g. Uploaded w key source name g) (λ g. ⊥)
            (store_as w key source (upload_name none source o) f))
        (sym h)
        (Ends-bind (λ d g. KeptAs by w source name d g.transfers) (λ g. ⊥)
          (λ d g. Uploaded w key source name g) (λ g. ⊥) (store w source name f) (set_key key)
          (store-KeptAs by source name f) (λ d g z. (d, (env_get-env_set key d g.environ, z)))
          (λ g z. z))

  -- An upload to a name that is given sets the key, whether it was there or not.
  pub upload_to-Ends :
      (key source dest : List ℕ) (f : Files)
      → Ends
          (λ d g. g.environ ≡ env_set key d f.environ)
          (λ g. ⊥)
          (upload w key source (some dest) f)
  unfolding upload
  upload_to-Ends key source dest f = choose (env_get key f.environ)
    where
      stored :
          (name : List ℕ)
          → Ends
              (λ d g. g.environ ≡ env_set key d f.environ)
              (λ g. ⊥)
              (store_as w key source (ok name) f)
      stored name =
          Ends-bind (λ u g. g.environ ≡ f.environ) (λ g. ⊥)
            (λ d g. g.environ ≡ env_set key d f.environ) (λ g. ⊥) (store w source name f)
            (set_key key) (store-Ends (use_filetracker w.mode name) source name f refl)
            (λ d g z. ap (env_set key d) z) (λ g z. z)

      choose :
          (o : Result (List ℕ))
          → Ends
              (λ d g. g.environ ≡ env_set key d f.environ)
              (λ g. ⊥)
              (store_as w key source (upload_name (some dest) source o) f)
      choose (ok name) = stored name
      choose (raised e) = stored (named (some dest) source)
