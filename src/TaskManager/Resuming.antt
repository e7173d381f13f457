-- ===== src/TaskManager/Resuming.antt =====
-- What startService of taskmanager.py makes of the jobs that it finds in the database.
use sioworkers.Prelude.{
  ℕ, ◌≡◌, refl, Option, none, some, List, [], ◌∷◌, leb, ok, Dict, lookup, if◌then◌else◌, ◌∙◌, sym,
  ap, ap₂, subst, Bool-cases, inl, inr, ◌==◌,
}
use sioworkers.Prelude.Inserted.{All, In}
use sioworkers.TaskManager.{
  AddGroup, Job, Database, loaded, Resumed, stamps, stamp_first, and_then, place_job, sort_jobs,
  resume_job, resume_all, start_service, get_items,
}

-- An entry that cannot be read, or that startService can resume.
abbrev pub CanResume : AddGroup → Option Job → Type 0
CanResume add none = Unit {0}
CanResume add (some job) =
    ((t : ℕ) × (job.timestamp ≡ some t)) × ((r : Resumed) × (resume_job add job ≡ ok r))

abbrev pub WellKept : AddGroup → Dict (Option Job) → Type 0
WellKept add = All (λ x. CanResume add x.1)

abbrev pub CanResumeAt : AddGroup → ℕ × Job → Type 0
CanResumeAt add x = (r : Resumed) × (resume_job add x.1 ≡ ok r)

-- The jobs with their timestamps.
abbrev pub Stamped : AddGroup → Dict (Option Job) → List (ℕ × Job) → Type 0
Stamped add d l =
    (stamps (loaded d) ≡ some l)
    × All (CanResumeAt add) l
    × ((key : ℕ) (job : Job) → lookup key d ≡ some (some job) → (t : ℕ) × In (t, job) l)

pub found_first :
    (k key t : ℕ) (job other : Job) (d : Dict (Option Job)) (l : List (ℕ × Job))
    → lookup key ((k, some job) ∷ d) ≡ some (some other)
    → (lookup key d ≡ some (some other) → (u : ℕ) × In (u, other) l)
    → (u : ℕ) × In (u, other) ((t, job) ∷ l)
found_first k key t job other d l e found = elim (Bool-cases (k == key)) [
  | inl f ↦
      let same : some (some job) ≡ some (some other) =
        subst (λ b. (if b then some (some job) else lookup key d) ≡ some (some other)) f e in
      (t, inl (ap (λ (j : Job). (t, j)) (cc)))
  | inr f ↦
      let (u, i) =
        found
          (subst (λ b. (if b then some (some job) else lookup key d) ≡ some (some other)) f e) in
      (u, inr i)
]

pub skip_first :
    (k key : ℕ) (other : Job) (d : Dict (Option Job))
    → lookup key ((k, none) ∷ d) ≡ some (some other)
    → lookup key d ≡ some (some other)
skip_first k key other d e = elim (Bool-cases (k == key)) [
  | inl f ↦
      let no_entry : some none ≡ some (some other) =
        subst (λ b. (if b then some none else lookup key d) ≡ some (some other)) f e in
      absurd (cc)
  | inr f ↦ subst (λ b. (if b then some none else lookup key d) ≡ some (some other)) f e
]

pub stamps_lem :
    (add : AddGroup) (d : Dict (Option Job))
    → WellKept add d
    → (l : List (ℕ × Job)) × Stamped add d l
stamps_lem add [] h = ([], (refl, tt, λ key job e. absurd (cc)))
stamps_lem add ((k, none) ∷ d) (h, hs) =
    let (l, (f, all, found)) = stamps_lem add d hs in
    (l, (f, all, λ key job e. found key job (skip_first k key job d e)))
stamps_lem add ((k, some job) ∷ d) (((t, e), r), hs) =
    let (l, (f, all, found)) = stamps_lem add d hs in
    (
      (t, job) ∷ l,
      (
        ap₂ (λ o os. stamp_first o job os) e f,
        (r, all),
        λ key other g. found_first k key t job other d l g (found key other),
      ),
    )

-- Sorting keeps the jobs.
pub place_later :
    (x y z : ℕ × Job) (l : List (ℕ × Job))
    → In y (x ∷ z ∷ l)
    → (In y (x ∷ l) → In y (place_job x l))
    → In y (z ∷ place_job x l)
place_later x y z l (inl e) k = inr (k (inl e))
place_later x y z l (inr (inl e)) k = inl e
place_later x y z l (inr (inr i)) k = inr (k (inr i))

pub place_job-In : (x y : ℕ × Job) (l : List (ℕ × Job)) → In y (x ∷ l) → In y (place_job x l)
place_job-In x y [] h = h
place_job-In x y (z ∷ l) h = elim (Bool-cases (leb x.0 z.0)) [
  | inl e ↦ rw e h
  | inr e ↦ rw e (place_later x y z l h (place_job-In x y l))
]

pub place_job-All :
    (add : AddGroup) (x : ℕ × Job) (l : List (ℕ × Job))
    → CanResumeAt add x
    → All (CanResumeAt add) l
    → All (CanResumeAt add) (place_job x l)
place_job-All add x [] p h = (p, tt)
place_job-All add x (z ∷ l) p h = elim (Bool-cases (leb x.0 z.0)) [
  | inl e ↦ rw e (p, h)
  | inr e ↦ rw e (h.0, place_job-All add x l p h.1)
]

pub sort_jobs-All :
    (add : AddGroup) (l : List (ℕ × Job))
    → All (CanResumeAt add) l
    → All (CanResumeAt add) (sort_jobs l)
sort_jobs-All add [] h = tt
sort_jobs-All add (x ∷ l) (p, h) = place_job-All add x (sort_jobs l) p (sort_jobs-All add l h)

pub sort_jobs-In : (y : ℕ × Job) (l : List (ℕ × Job)) → In y l → In y (sort_jobs l)
sort_jobs-In y [] h = h
sort_jobs-In y (x ∷ l) (inl e) = place_job-In x y (sort_jobs l) (inl e)
sort_jobs-In y (x ∷ l) (inr h) = place_job-In x y (sort_jobs l) (inr (sort_jobs-In y l h))

pub resume_all_lem :
    (add : AddGroup) (l : List (ℕ × Job))
    → All (CanResumeAt add) l
    → (rs : List Resumed) × (resume_all add l ≡ ok rs)
      × ((x : ℕ × Job) (r : Resumed) → In x l → resume_job add x.1 ≡ ok r → In r rs)
resume_all_lem add [] h = ([], refl, λ x r i. elim i [ ])
resume_all_lem add (y ∷ l) ((r, e), h) =
    let (rs, f, found) = resume_all_lem add l h in
    (
      r ∷ rs,
      ap₂ and_then e f,
      λ x q i g. elim i [
        | inl same ↦
            inl (let both : ok q ≡ ok r = sym g ∙ ap (λ z. resume_job add z.1) same ∙ e in cc)
        | inr later ↦ inr (found x q later g)
      ],
    )

-- A restarted process that finds only entries that it can resume does so for every one of them.
pub start_service_lem :
    (add : AddGroup) (d : Database)
    → WellKept add d.db
    → (rs : List Resumed) × ((start_service add d).0 ≡ ok rs)
      × ((key : ℕ) (job : Job) (r : Resumed)
          → lookup key d.db ≡ some (some job)
          → resume_job add job ≡ ok r
          → In r rs)
unfolding start_service get_items
start_service_lem add d h =
    let (l, (f, all, found)) = stamps_lem add d.db h in
    let (rs, g, all_found) = resume_all_lem add (sort_jobs l) (sort_jobs-All add l all) in
    (
      rs,
      rw (f, g) refl,
      λ key job r e k.
          let (t, i) = found key job e in all_found (t, job) r (sort_jobs-In (t, job) l i) k,
    )
