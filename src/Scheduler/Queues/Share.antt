-- ===== src/Scheduler/Queues/Share.antt =====
-- Of the numbers that `randint` may draw, how many choose a contest.
use sioworkers.Prelude.{
  ℕ, zero, suc, ◌+◌, ◌≤◌, ◌<◌, ◌≡◌, refl, sym, subst, ap, ap₂, ◌∙◌, ◌≢◌, inl, inr, Bool, true,
  false, none, some, List, [], ◌∷◌, arith, ◌==◌, if◌then◌else◌, Bool-cases,
}
use native.Mathlib.Nat.{zero-add, add-zero}
use sioworkers.Prelude.Int.{ℤ}
use sioworkers.Prelude.Inserted.{All, In, All-In}
use sioworkers.Scheduler.Task.{TaskInfo, ContestInfo}
use sioworkers.Scheduler.Queues.{Candidate, eqb_ℤ, weigh, weigh_all, pick}
use sioworkers.Scheduler.Queues.Choice.{sum_at, IsBest, IsWeighted, weigh_all-Weighed}

-- How many of the numbers p + 1, …, p + k pass a test.
abbrev pub count_range : (ℕ → Bool) → ℕ → ℕ → ℕ
count_range f p zero = 0
count_range f p (suc k) = (if f (suc p) then 1 else 0) + count_range f (suc p) k

count_range-add :
    (f : ℕ → Bool) (p j k : ℕ)
    → count_range f p (j + k) ≡ count_range f p j + count_range f (p + j) k
count_range-add f p zero k = rw (zero-add, add-zero) (omega arith)
count_range-add f p (suc j) k =
    let e : suc j + k ≡ suc (j + k) = omega arith in
    let shift : p + suc j ≡ suc p + j = omega arith in
    rw (e, shift) (omega (arith, count_range-add f (suc p) j k))

count_range-const :
    (f : ℕ → Bool) (b : Bool) (p k : ℕ)
    → ((r : ℕ) → p < r → r ≤ p + k → f r ≡ b)
    → count_range f p k ≡ (if b then k else 0)
count_range-const f b p zero h = ground arith
count_range-const f b p (suc k) h = ground (
  arith,
  h (suc p) (omega arith) (omega arith),
  count_range-const f b (suc p) k (λ r lo hi. h r (omega arith) (omega arith)),
)

count_range-same :
    (f g : ℕ → Bool) (p k : ℕ)
    → ((r : ℕ) → p < r → f r ≡ g r)
    → count_range f p k ≡ count_range g p k
count_range-same f g p zero h = refl
count_range-same f g p (suc k) h =
    ground
      (arith, h (suc p) (omega arith), count_range-same f g (suc p) k (λ r lo. h r (omega arith)))

-- Whether the second loop stops at the contest `uid` when `r` is drawn.
abbrev pub picks : ℤ → ℕ → ℕ → List Candidate → ℕ → Bool
picks best uid p cs r = elim (pick best r p cs) [ none ↦ false | some c ↦ c.0.uid == uid ]

abbrev pub share : ℤ → ℕ → List Candidate → ℕ
share best uid [] = 0
share best uid ((c, l) ∷ cs) =
    (if eqb_ℤ c.priority best then (if c.uid == uid then c.weight else 0) else 0)
    + share best uid cs

module _ (best : ℤ) (uid : ℕ) (c : ContestInfo) (l : List TaskInfo) (cs : List Candidate) where
  picks-within :
      (p r : ℕ)
      → eqb_ℤ c.priority best ≡ true
      → r ≤ p + c.weight
      → picks best uid p ((c, l) ∷ cs) r ≡ (c.uid == uid)
  unfolding pick
  picks-within p r e h = ground arith

  picks-beyond :
      (p r : ℕ)
      → eqb_ℤ c.priority best ≡ true
      → p + c.weight < r
      → picks best uid p ((c, l) ∷ cs) r ≡ picks best uid (p + c.weight) cs r
  unfolding pick
  picks-beyond p r e h = ground arith

  picks-other :
      (p r : ℕ)
      → eqb_ℤ c.priority best ≡ false
      → picks best uid p ((c, l) ∷ cs) r ≡ picks best uid p cs r
  unfolding pick
  picks-other p r e = ground arith

count-share :
    (best : ℤ) (uid : ℕ) (cs : List Candidate) (p : ℕ)
    → count_range (picks best uid p cs) p (sum_at best cs) ≡ share best uid cs
count-share best uid [] p = refl
count-share best uid ((c, l) ∷ cs) p = elim (Bool-cases (eqb_ℤ c.priority best)) [
  | inl e ↦ rw e (
      count_range-add (picks best uid p ((c, l) ∷ cs)) p c.weight (sum_at best cs)
      ∙ ap₂ ◌+◌
          (count_range-const (picks best uid p ((c, l) ∷ cs)) (c.uid == uid) p c.weight
            (λ r lo hi. picks-within best uid c l cs p r e hi))
          (count_range-same (picks best uid p ((c, l) ∷ cs)) (picks best uid (p + c.weight) cs)
              (p + c.weight) (sum_at best cs) (λ r lo. picks-beyond best uid c l cs p r e lo)
            ∙ count-share best uid cs (p + c.weight)))
  | inr e ↦
      rw (e, zero-add, zero-add)
        (count_range-same (picks best uid p ((c, l) ∷ cs)) (picks best uid p cs) p (sum_at best cs)
            (λ r lo. picks-other best uid c l cs p r e)
          ∙ count-share best uid cs p)
]

-- Contests are told apart by their uids.
abbrev pub IsDistinct : List Candidate → Type 0
IsDistinct [] = Unit {0}
IsDistinct (c ∷ cs) = All (λ d. d.0.uid ≢ c.0.uid) cs × IsDistinct cs

share-absent :
    (best : ℤ) (uid : ℕ) (cs : List Candidate) → All (λ d. d.0.uid ≢ uid) cs → share best uid cs ≡ 0
share-absent best uid [] a = refl
share-absent best uid ((c, l) ∷ cs) a = ground (arith, share-absent best uid cs a.1)

share-head :
    (best : ℤ) (b : ContestInfo) (l : List TaskInfo) (cs : List Candidate)
    → All (λ d. d.0.uid ≢ b.uid) cs
    → share best b.uid ((b, l) ∷ cs) ≡ (if eqb_ℤ b.priority best then b.weight else 0)
share-head best b l cs a = ground (arith, share-absent best b.uid cs a)

share-In :
    (best : ℤ) (cs : List Candidate) (c : Candidate)
    → IsDistinct cs
    → In c cs
    → share best c.0.uid cs ≡ (if eqb_ℤ c.0.priority best then c.0.weight else 0)
share-In best [] c d h = elim h [ ]
share-In best ((b, l) ∷ cs) c d (inl e) =
    subst
      (λ a. share best a.0.uid ((b, l) ∷ cs) ≡ (if eqb_ℤ a.0.priority best then a.0.weight else 0))
      (sym e) (share-head best b l cs d.0)
share-In best ((b, l) ∷ cs) c d (inr h) =
    ground (arith, share-In best cs c d.1 h, All-In (λ a. a.0.uid ≢ b.uid) cs c d.0 h)

-- The first loop finds a greatest priority `best` and a number `sum`. Of the numbers 1, …, sum that
-- may be drawn, a contest of that priority is chosen by as many as its weight, and any other
-- contest by none. There is at least one contest, weights are positive and uids distinct.
pub choice_is_proportional :
    (cs : List Candidate) (c : Candidate)
    → IsWeighted cs
    → IsDistinct cs
    → In c cs
    → (best : ℤ) × (sum : ℕ) × (weigh_all none cs ≡ some (best, sum))
      × IsBest best cs
      × (count_range (picks best c.0.uid 0 cs) 0 sum
          ≡ (if eqb_ℤ c.0.priority best then c.0.weight else 0))
unfolding weigh_all weigh
choice_is_proportional [] c w d h = elim h [ ]
choice_is_proportional ((b, l) ∷ cs) c w d h =
    let (best, sum, e, total, above, all, pos) =
      weigh_all-Weighed cs b.priority (0 + b.weight) (omega (arith, w.0)) w.1 in
    let count : sum ≡ sum_at best ((b, l) ∷ cs) = ground arith in
    (
      best,
      sum,
      e,
      (above, all),
      ap (count_range (picks best c.0.uid 0 ((b, l) ∷ cs)) 0) count
          ∙ count-share best c.0.uid ((b, l) ∷ cs) 0
          ∙ share-In best ((b, l) ∷ cs) c d h,
    )
