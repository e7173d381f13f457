-- ===== src/WorkerServer.antt =====
-- WorkerServerFactory of sio/sioworkersd/server.py, which stands between the connections and the
-- worker manager. A connection has a unique id (its name and address), a name and a number.
use sioworkers.Prelude.{
  ℕ, ◌≡◌, refl, Bool, true, false, none, some, List, [], ◌∷◌, arith, if◌then◌else◌, Option, Dict,
  lookup, insert, erase, Action, Result, ok, raised, Exception, key_error, duplicate_worker,
  worker_rejected, gets, modify, or_raise, ◌>>=◌, ◌>>◌, zoom, lookup-insert, ap, ◌⊎◌, ◌==◌,
}
use sioworkers.WorkerManager.{
  Manager, Info, begin_new_worker, finish_new_worker, worker_lost, add_to_set, discard, drop,
}

pub record Factory : Type 0 where
  pub workers : Dict ℕ
  pub ignore_set : List ℕ
  pub manager : Manager

abbrev pub in_set : ℕ → List ℕ → Bool
in_set x [] = false
in_set x (y ∷ l) = if x == y then true else in_set x l

abbrev pub is_rejection : Exception → Bool
is_rejection duplicate_worker = true
is_rejection worker_rejected = true
is_rejection e = false

-- `except (DuplicateWorker, WorkerRejected)`: the connection is to be ignored, and the error goes on.
abbrev pub note_rejection : ℕ → Result (Unit {0}) × Manager → Factory → Result (Unit {0}) × Factory
note_rejection uid (ok a, m) f = (ok a, record f { manager = m })
note_rejection uid (raised e, m) f = (
  raised e,
  record f {
    manager = m;
    ignore_set = if is_rejection e then add_to_set uid f.ignore_set else f.ignore_set;
  },
)

-- workerConnected up to the wait of newWorker, and after it.
unfoldable pub worker_connected : ℕ → ℕ → ℕ → Action Factory (Unit {0})
worker_connected uid name connection f =
    note_rejection uid (begin_new_worker name connection f.manager)
      (record f { workers = insert uid connection f.workers })

unfoldable pub worker_answered : ℕ → ℕ → ℕ → List ℕ → Option Info → Action Factory (Unit {0})
worker_answered uid name connection running info f =
    note_rejection uid (finish_new_worker name connection running info f.manager) f

-- workerDisconnected
unfoldable pub forget_worker : ℕ → ℕ → Action Factory (Unit {0})
forget_worker uid name = do
  f ← gets (λ f. f)
  _ ← or_raise (lookup uid f.workers) key_error
  modify (λ f. record f { workers = erase uid f.workers })
  zoom (λ f. f.manager) (λ m f. record f { manager = m }) (worker_lost name)

unfoldable pub worker_disconnected : ℕ → ℕ → Action Factory (Unit {0})
unfolding forget_worker
worker_disconnected uid name f =
    if in_set uid f.ignore_set
    then (ok tt, record f { ignore_set = discard uid f.ignore_set })
    else forget_worker uid name f

in_set-add_to_set : (x : ℕ) (l : List ℕ) → in_set x (add_to_set x l) ≡ true
in_set-add_to_set x [] = ground arith
in_set-add_to_set x (y ∷ l) = ground (arith, in_set-add_to_set x l)

discard-add_to_set : (x : ℕ) (l : List ℕ) → in_set x l ≡ false → discard x (add_to_set x l) ≡ l
discard-add_to_set x [] e = ground arith
discard-add_to_set x (y ∷ l) e = ground (arith, discard-add_to_set x l)

-- The end of a connection that is to be ignored.
forgotten :
    (uid name : ℕ) (d : Dict ℕ) (l : List ℕ) (m : Manager)
    → in_set uid l ≡ false
    → worker_disconnected uid name
        (record { workers = d; ignore_set = add_to_set uid l; manager = m })
      ≡ (ok tt, record { workers = d; ignore_set = l; manager = m })
unfolding worker_disconnected
forgotten uid name d l m e =
    rw (worker_disconnected, in_set-add_to_set uid l, discard-add_to_set uid l e) refl

refuses_duplicate :
    (name connection other : ℕ) (m : Manager)
    → lookup name m.workers ≡ some other
    → begin_new_worker name connection m ≡ (raised duplicate_worker, drop connection m)
unfolding begin_new_worker
refuses_duplicate name connection other m e = rw (begin_new_worker, e) refl

-- A second connection under the name of a connected worker is refused with DuplicateWorker and
-- closed, and its end does not touch the first: the manager keeps all that it had, but for the
-- closed connection, and the set of connections to ignore is as it was before.
pub duplicate_is_ignored :
    (uid name connection other : ℕ) (f : Factory)
    → lookup name f.manager.workers ≡ some other
    → in_set uid f.ignore_set ≡ false
    → let g = worker_connected uid name connection f in
      let h = worker_disconnected uid name g.1 in
      (g.0 ≡ raised duplicate_worker)
      × (h.0 ≡ ok tt)
      × (h.1.manager ≡ drop connection f.manager)
      × (h.1.ignore_set ≡ f.ignore_set)
unfolding worker_connected
duplicate_is_ignored uid name connection other f e n =
    let known = insert uid connection f.workers in
    rw (refuses_duplicate name connection other f.manager e) (
      let end = forgotten uid name known f.ignore_set (drop connection f.manager) n in
      (refl, ap (λ r. r.0) end, ap (λ r. r.1.manager) end, ap (λ r. r.1.ignore_set) end))

rejects_worker :
    (name connection : ℕ) (running : List ℕ) (info : Option Info) (m : Manager)
    → (¬ (running ≡ [])) ⊎ (info ≡ none)
    → finish_new_worker name connection running info m ≡ (raised worker_rejected, m)
unfolding finish_new_worker
rejects_worker name connection (t ∷ running) info m h = refl
rejects_worker name connection [] none m h = refl
rejects_worker name connection [] (some info) m h = absurd (ground arith)

-- So too a connection that newWorker rejects after its answer, since it runs tasks or its
-- information is not valid: WorkerRejected is raised, and at its end the manager and the set of
-- connections to ignore are as they were before.
pub rejected_is_ignored :
    (uid name connection : ℕ) (running : List ℕ) (info : Option Info) (f : Factory)
    → (¬ (running ≡ [])) ⊎ (info ≡ none)
    → in_set uid f.ignore_set ≡ false
    → let g = worker_answered uid name connection running info f in
      let h = worker_disconnected uid name g.1 in
      (g.0 ≡ raised worker_rejected)
      × (h.0 ≡ ok tt)
      × (h.1.manager ≡ f.manager)
      × (h.1.ignore_set ≡ f.ignore_set)
unfolding worker_answered
rejected_is_ignored uid name connection running info f h n =
    rw (rejects_worker name connection running info f.manager h) (
      let end = forgotten uid name f.workers f.ignore_set f.manager n in
      (refl, ap (λ r. r.0) end, ap (λ r. r.1.manager) end, ap (λ r. r.1.ignore_set) end))

accepts_name :
    (name connection : ℕ) (m : Manager)
    → lookup name m.workers ≡ none
    → begin_new_worker name connection m ≡ (ok tt, m)
unfolding begin_new_worker
accepts_name name connection m e = rw (begin_new_worker, e) refl

lost_unknown :
    (name : ℕ) (m : Manager)
    → lookup name m.worker_data ≡ none
    → worker_lost name m ≡ (raised key_error, m)
unfolding worker_lost
lost_unknown name m e = rw e refl

forget_unknown :
    (uid name connection : ℕ) (f : Factory)
    → lookup uid f.workers ≡ some connection
    → lookup name f.manager.worker_data ≡ none
    → (forget_worker uid name f).0 ≡ raised key_error
unfolding forget_worker
forget_unknown uid name connection f e g = rw (e, lost_unknown name f.manager g) refl

-- A connection under a new name that is lost while newWorker waits for the answer to get_running
-- ends in KeyError: the factory has the connection, but the manager has no such worker yet.
pub lost_before_answer :
    (uid name connection : ℕ) (f : Factory)
    → lookup name f.manager.workers ≡ none
    → lookup name f.manager.worker_data ≡ none
    → in_set uid f.ignore_set ≡ false
    → let g = worker_connected uid name connection f in
      (g.0 ≡ ok tt) × ((worker_disconnected uid name g.1).0 ≡ raised key_error)
unfolding worker_connected worker_disconnected
lost_before_answer uid name connection f e g n = rw (accepts_name name connection f.manager e) (
  refl,
  rw (worker_disconnected, n)
      (forget_unknown uid name connection _
        (rw (lookup-insert uid uid connection f.workers) (ground arith)) g),
)
