-- ===== src/Rpc/Places.antt =====
-- Where the calls of one end of sio/protocol/rpc.py are: waiting for the connection, pending, or
-- answered.
use sioworkers.Prelude.{
  ℕ, ◌+◌, ◌≡◌, Option, none, some, List, [], ◌∷◌, ◌++◌, arith, ltb, ◌==◌, if◌then◌else◌, Dict,
  lookup, insert, erase, IsDict, lookup-insert, lookup-erase, erase-IsDict, ap,
}
use sioworkers.Rpc.{Answer, Request, Peer, fire}

abbrev pub count_waiting : ℕ → List Request → ℕ
count_waiting id [] = 0
count_waiting id (r ∷ rs) = (if r.id == id then 1 else 0) + count_waiting id rs

abbrev pub count_fired : ℕ → List (ℕ × Answer) → ℕ
count_fired id [] = 0
count_fired id (f ∷ fs) = (if f.0 == id then 1 else 0) + count_fired id fs

abbrev pub one_if_some : Option (Unit {0}) → ℕ
one_if_some none = 0
one_if_some (some u) = 1

-- How often a call is waiting, pending or answered, in all.
abbrev pub places : ℕ → Peer → ℕ
places id p =
    count_waiting id p.waiting + one_if_some (lookup id p.pending_calls) + count_fired id p.fired

-- Each call that was made is in one of the three places, once, and no other is in any.
pub record Counted (p : Peer) : Type 0 where
  pub each : (id : ℕ) → places id p ≡ (if ltb id p.request_id then 1 else 0)
  pub dict : IsDict p.pending_calls

pub count_waiting-append :
    (id : ℕ) (rs : List Request) (r : Request)
    → count_waiting id (rs ++ r ∷ []) ≡ count_waiting id rs + (if r.id == id then 1 else 0)
count_waiting-append id [] r = omega arith
count_waiting-append id (s ∷ rs) r = omega (arith, count_waiting-append id rs r)

pub count_fired-append :
    (id : ℕ) (fs : List (ℕ × Answer)) (f : ℕ × Answer)
    → count_fired id (fs ++ f ∷ []) ≡ count_fired id fs + (if f.0 == id then 1 else 0)
count_fired-append id [] f = omega arith
count_fired-append id (g ∷ fs) f = omega (arith, count_fired-append id fs f)

pub one_if-insert :
    (id key : ℕ) (d : Dict (Unit {0}))
    → lookup key d ≡ none
    → one_if_some (lookup id (insert key tt d))
      ≡ one_if_some (lookup id d) + (if key == id then 1 else 0)
one_if-insert id key d e =
    rw (lookup-insert id key tt d) (ground (arith, ap (λ (n : ℕ). lookup n d)))

pub one_if-erase :
    (id key : ℕ) (d : Dict (Unit {0}))
    → IsDict d
    → lookup key d ≡ some tt
    → one_if_some (lookup id (erase key d)) + (if key == id then 1 else 0)
      ≡ one_if_some (lookup id d)
one_if-erase id key d valid e =
    rw (lookup-erase id key d valid) (ground (arith, ap (λ (n : ℕ). lookup n d)))

-- Nothing that the count looks at changed.
pub same-Counted :
    (p q : Peer)
    → q.waiting ≡ p.waiting
    → q.pending_calls ≡ p.pending_calls
    → q.fired ≡ p.fired
    → q.request_id ≡ p.request_id
    → Counted p
    → Counted q
same-Counted p q e f g i h = record { each = λ id. rw (e, f, g, i) (h.each id); dict = rw f h.dict }

-- A pending call is answered.
pub answered-Counted :
    (id : ℕ) (a : Answer) (p : Peer)
    → lookup id p.pending_calls ≡ some tt
    → Counted p
    → Counted (fire id a (record p { pending_calls = erase id p.pending_calls }))
answered-Counted id a p e h = record {
  each = λ j. omega (
    arith,
    h.each j,
    count_fired-append j p.fired (id, a),
    one_if-erase j id p.pending_calls h.dict e,
  );
  dict = erase-IsDict id p.pending_calls h.dict;
}
