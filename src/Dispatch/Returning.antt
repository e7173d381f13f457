-- ===== src/Dispatch/Returning.antt =====
-- When a group is returned: as its last task ends.
use sioworkers.Prelude.{
  ◌≢◌, insert, pure, modify, ℕ, suc, ◌≡◌, refl, ◌∙◌, sym, ap, subst, Bool, true, false, not, ◌&&◌,
  ◌||◌, Option, some, List, [], ◌∷◌, ◌++◌, ◌==◌, if◌then◌else◌, lookup, arith, Result, ok, raised,
  Ends, Ends-bind, Ends-weaken, ◌>>=◌, ◌>>◌,
}
use sioworkers.Scheduler.State.{Packages}
use sioworkers.Dispatch.{
  modify, Board, Collector, find_item, let_go, take_out, try_execute, task_done, ended, tally,
  count_task, finish_task, end_group,
}
use sioworkers.Dispatch.Frames.{let_go-Quiet, Same, find_item-Quiet, try_execute-Quiet, Quiet-then}

-- The DeferredLists and the groups that were returned stay as they are.
abbrev Steady : Board → Board → Type 0
Steady b c = (c.collectors ≡ b.collectors) × (c.returned ≡ b.returned)

module _ (packages : Packages) (fuel depth : ℕ) where
  task_done-Steady :
      (fail : Bool) (tid : ℕ) (b : Board)
      → Ends (λ a c. Steady b c) (Steady b) (task_done packages fuel depth fail tid b)
  unfolding task_done
  task_done-Steady fail tid b =
      Ends-bind (λ a c. Steady b c) (Steady b) (λ a c. Steady b c) (Steady b)
        ((find_item tid >>= let_go packages fuel depth tid fail >> take_out tid) b)
        (λ u. try_execute packages fuel depth)
        (Ends-bind (λ a c. Same b c) (Same b) (λ a c. Steady b c) (Steady b)
          ((find_item tid >>= let_go packages fuel depth tid fail) b) (λ u. take_out tid)
          (Quiet-then b (find_item tid b) (let_go packages fuel depth tid fail)
            (find_item-Quiet tid b) (let_go-Quiet packages fuel depth tid fail))
          (λ u c s. (s.collectors, s.returned)) (λ c s. (s.collectors, s.returned)))
        (λ u c s.
          Ends-weaken (λ a d. Same c d) (Same c) (λ a d. Steady b d) (Steady b)
            (try_execute packages fuel depth c) (try_execute-Quiet packages fuel depth c)
            (λ a d k. (k.collectors ∙ s.0, k.returned ∙ s.1))
            (λ d k. (k.collectors ∙ s.0, k.returned ∙ s.1)))
        (λ c s. s)

  -- What is returned at the end of a DeferredList.
  Returns : Collector → List (ℕ × Bool) → Board → Type 0
  Returns c before d =
      (good : Bool) × (d.returned ≡ before ++ (c.group.group_id, good) ∷ [])
      × (c.has_failed ≡ true → good ≡ false)

  end_group-Returns :
      (c : Collector) (b : Board) → Returns c b.returned (end_group packages fuel depth c b).1
  unfolding end_group Returns
  end_group-Returns c b =
      after (task_done packages fuel depth c.has_failed c.group.group_id b)
        (task_done-Steady c.has_failed c.group.group_id b)
    where
      after :
          (first : Result (Unit {0}) × Board)
          → Ends (λ a d. Steady b d) (Steady b) first
          → Returns c b.returned
              ((ended (λ d. first) >>= λ fine. modify (λ b. record b {
                returned = b.returned ++ (c.group.group_id, fine && not c.has_failed) ∷ [];
              }))
                first.1).1
      after (ok a, d) s = (
        not c.has_failed,
        ap (λ l. l ++ (c.group.group_id, not c.has_failed) ∷ []) s.1,
        λ h. rw h refl,
      )
      after (raised e, d) s = (false, ap (λ l. l ++ (c.group.group_id, false) ∷ []) s.1, λ h. refl)

  -- What a DeferredList does when one more of its tasks has ended.
  abbrev pub Tallied : Collector → Bool → List (ℕ × Bool) → Board → Type 0
  Tallied c fail before d =
      (suc c.finished ≡ c.size
        → (good : Bool) × (d.returned ≡ before ++ (c.group.group_id, good) ∷ [])
          × ((c.has_failed || fail) ≡ true → good ≡ false))
      × (suc c.finished ≢ c.size → d.returned ≡ before)

  count_task-Tallied :
      (owner : ℕ) (fail : Bool) (c : Collector) (o : Option Collector) (b : Board)
      → o ≡ some c
      → c.collecting ≡ true
      → Tallied c fail b.returned (count_task packages fuel depth owner fail o b).1
  unfolding Returns
  count_task-Tallied owner fail c o b e h =
      subst (λ o. Tallied c fail b.returned (count_task packages fuel depth owner fail o b).1)
        (sym e) (fires (c.collecting && (suc c.finished == c.size)) refl)
    where
      fires :
          (x : Bool)
          → (c.collecting && (suc c.finished == c.size)) ≡ x
          → Tallied c fail b.returned
              ((if x
                  then end_group packages fuel depth
                      (record c { finished = suc c.finished; has_failed = c.has_failed || fail })
                  else pure tt)
                (record b {
                  collectors =
                      insert owner
                        (record c { finished = suc c.finished; has_failed = c.has_failed || fail })
                        b.collectors;
                })).1
      fires true f = (
        λ last.
            end_group-Returns
              (record c { finished = suc c.finished; has_failed = c.has_failed || fail })
              (record b {
                collectors =
                    insert owner
                      (record c { finished = suc c.finished; has_failed = c.has_failed || fail })
                      b.collectors;
              }),
        λ other. absurd (ground (arith, f, h)),
      )
      fires false f = (λ last. absurd (ground (arith, f, h, last)), λ other. refl)

  either_way :
      (c : Collector) (fail fine : Bool) (before : List (ℕ × Bool)) (d : Board)
      → Tallied c (fail || not fine) before d
      → Tallied c fail before d
  either_way c fail fine before d h =
      (λ e. let k = h.0 e in (k.0, k.1, λ f. k.2 (ground arith)), h.1)

  -- When a task of a group ends, by a result or an error, the group is returned just if it was the
  -- last one, whatever is raised meanwhile. A group is returned as a failure if one of its tasks failed.
  pub finish_task-returned :
      (tid owner : ℕ) (fail : Bool) (b : Board) (c : Collector)
      → lookup owner b.collectors ≡ some c
      → c.collecting ≡ true
      → Tallied c fail b.returned (finish_task packages fuel depth tid owner fail b).1
  unfolding finish_task
  finish_task-returned tid owner fail b c e h =
      after (task_done packages fuel depth fail tid b) (task_done-Steady fail tid b)
    where
      tallied :
          (fine : Bool) (d : Board)
          → Steady b d
          → Tallied c fail b.returned (tally packages fuel depth owner fail fine d).1
      tallied fine d s =
          subst (λ r. Tallied c fail r (tally packages fuel depth owner fail fine d).1) s.1
            (either_way c fail fine d.returned (tally packages fuel depth owner fail fine d).1 (
              count_task-Tallied owner (fail || not fine) c (lookup owner d.collectors) d
                (ap (lookup owner) s.0 ∙ e) h))

      after :
          (first : Result (Unit {0}) × Board)
          → Ends (λ a d. Steady b d) (Steady b) first
          → Tallied c fail b.returned
              ((ended (λ d. first) >>= tally packages fuel depth owner fail) first.1).1
      after (ok a, d) s = tallied true d s
      after (raised x, d) s = tallied false d s
