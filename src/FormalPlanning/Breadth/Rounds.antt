-- ===== src/FormalPlanning/Breadth/Rounds.antt =====
-- The search rejects only where no plan exists: an invariant on the states seen.
use plan_auditor.Base.{
  ℕ, String, true, false, some, List, [], ◌∷◌, ◌≡◌, ◌⊎◌, refl, inl, inr, nat_eq, string_eq, ◌==◌,
  mem, keys, lookup, length, subset, subset_of_mem, arith, mem-keys_of_lookup, subst,
  length_le_of_subset,
}
use plan_auditor.PlanGraph.Steps.{Graph}
use plan_auditor.FormalPlanning.Model.{FormalAction, FormalContract, remaining_ids}
use plan_auditor.FormalPlanning.Search.{Node, Key, Frontier, future_impossible, expand}
use plan_auditor.FormalPlanning.Spec.{effect, mark, IsReady, Completes, after}
use plan_auditor.FormalPlanning.Facts.{
  facts_of, applicable_of_IsReady, mem-remaining_ids, nodup-by_step,
}
use plan_auditor.FormalPlanning.Reached.{acts, all_placed}
use plan_auditor.FormalPlanning.Execution.{after-cons}
use plan_auditor.FormalPlanning.Breadth.Sound.{NodeIsReached}
use plan_auditor.FormalPlanning.Breadth.Future.{HasDistinctSteps, future_impossible_sound}
use plan_auditor.FormalPlanning.Breadth.States.{
  Moment, moment_of, key_of, Has, moment-apply, IsTracked, expand-lem,
}

module _ (contract : FormalContract) (deps : Graph) where
  abbrev pub CompletesAt : Moment → List ℕ → Type 0
  CompletesAt (w, d) = Completes contract deps w d

  -- Some order of the steps that are left completes the plan.
  abbrev pub IsViable : Moment → Type 0
  IsViable m = (order : List ℕ) × CompletesAt m order

  -- The state is no end of a plan, and the states behind it that can lead to one have been seen.
  pub record IsExplored (seen : List Key) (m : Moment) : Type 0 where
    pub unfinished : ¬ CompletesAt m []
    pub behind :
        (sid : ℕ) (a : FormalAction)
        → lookup sid (acts contract deps) ≡ some a
        → m.1 sid ≡ false
        → IsReady deps a m.0 m.1
        → IsViable (effect a m.0, mark sid m.1)
        → Has (effect a m.0, mark sid m.1) seen

  Completes-head :
      (m : Moment) (sid : ℕ) (a : FormalAction) (order : List ℕ)
      → lookup sid (acts contract deps) ≡ some a
      → m.1 sid ≡ false
      → IsReady deps a m.0 m.1
      → CompletesAt (effect a m.0, mark sid m.1) order
      → CompletesAt m (sid ∷ order)
  unfolding mem
  Completes-head (w, d) sid a order found new ready c = record {
    executes = (a, found, new, ready, c.executes);
    covers = λ n m. ground (arith, c.covers n m);
    reaches = λ f m. rw (after-cons (acts contract deps) deps w sid order found) (c.reaches f m);
  }

  Completes-tail :
      (m : Moment) (sid : ℕ) (order : List ℕ)
      → CompletesAt m (sid ∷ order)
      → (a : FormalAction) × (lookup sid (acts contract deps) ≡ some a)
        × (m.1 sid ≡ false)
        × IsReady deps a m.0 m.1
        × CompletesAt (effect a m.0, mark sid m.1) order
  unfolding mem
  Completes-tail (w, d) sid order c =
      let (a, found, new, ready, rest) = c.executes in
      (
        a,
        found,
        new,
        ready,
        record {
          executes = rest;
          covers = λ n m. ground (arith, c.covers n m);
          reaches =
              λ f m. rw (after-cons (acts contract deps) deps w sid order found) at (c.reaches f m);
        },
      )

  -- When every state seen is explored no state seen can be completed.
  pub none_viable :
      (seen : List Key)
      → ((m : Moment) → Has m seen → IsExplored seen m)
      → (order : List ℕ) (m : Moment) → Has m seen
      → ¬ CompletesAt m order
  none_viable seen all [] m h c = (all m h).unfinished c
  none_viable seen all (sid ∷ order) m h c =
      let (a, found, new, ready, rest) = Completes-tail m sid order c in
      none_viable seen all order (effect a m.0, mark sid m.1)
        ((all m h).behind sid a found new ready (order, rest)) rest

  pub IsExplored-mono :
      (seen more : List Key) (m : Moment)
      → ((k : Moment) → Has k seen → Has k more)
      → IsExplored seen m
      → IsExplored more m
  IsExplored-mono seen more m grows e = record {
    unfinished = e.unfinished;
    behind = λ sid a found new ready v. grows _ (e.behind sid a found new ready v);
  }

  -- A state that cannot be completed is explored.
  IsExplored-of_not_viable : (seen : List Key) (m : Moment) → ¬ IsViable m → IsExplored seen m
  IsExplored-of_not_viable seen m hopeless = record {
    unfinished = λ c. hopeless ([], c);
    behind = λ sid a found new ready v.
        absurd (hopeless (sid ∷ v.0, Completes-head m sid a v.0 found new ready v.1));
  }

  -- The loop's invariant: a state seen waits in the queue or is explored.
  abbrev pub IsSearched : List Node → List Key → Type 0
  IsSearched queue seen = IsTracked (IsExplored seen) (record { queue = queue; seen = seen })

  module _ (node : Node) (queue : List Node) (seen : List Key)
      (reached : NodeIsReached contract deps node) (inv : IsSearched (node ∷ queue) seen) where
    -- The popped state is explored: drop it from the queue.
    drop_explored : IsExplored seen (moment_of (key_of node)) → IsSearched queue seen
    drop_explored e m h = elim (inv m h) [
      | inl (inl here) ↦ inr (subst (IsExplored seen) here e)
      | inl (inr waits) ↦ inl waits
      | inr p ↦ inr p
    ]

    -- All steps have run and some goal fails.
    pub drop_failed :
        (length node.done == length (keys (acts contract deps))) ≡ true
        → subset contract.goal_facts node.facts ≡ false
        → IsSearched queue seen
    drop_failed complete unmet = drop_explored (record {
      unfinished =
          λ c. cc (unmet, subset_of_mem contract.goal_facts node.facts (λ f g. goal c f g));
      behind = λ sid a found new ready v. absurd (
          cc (
            new,
            all_placed contract deps node.facts node.done node.order reached
                (ground (arith, complete)) sid
                (mem-keys_of_lookup sid (acts contract deps) a found),
          ));
    })
      where
        goal :
            CompletesAt (moment_of (key_of node)) []
            → (f : String) → mem f contract.goal_facts ≡ true
            → mem f node.facts ≡ true
        goal c f g = subst (λ b. b ≡ true) (after_nil f) (c.reaches f g)
          where
            after_nil :
                (x : String)
                → after (acts contract deps) (facts_of node.facts) [] x ≡ mem x node.facts
            after_nil x = unfold after in refl

    pub drop_hopeless :
        HasDistinctSteps contract
        → future_impossible contract node.facts node.done ≡ true
        → IsSearched queue seen
    drop_hopeless distinct h = drop_explored (
        IsExplored-of_not_viable seen (moment_of (key_of node))
          (λ v. future_impossible_sound contract deps node.facts node.done v.0 distinct h v.1))

    -- The `for` loop has offered every applicable step.
    pub grow :
        (length node.done == length (keys (acts contract deps))) ≡ false
        → let grown =
            expand contract deps node
              (remaining_ids (acts contract deps) node.done)
              (record { queue = queue; seen = seen }) in
          IsSearched grown.queue grown.seen
    grow incomplete =
        let sids = remaining_ids (acts contract deps) node.done in
        let s : Frontier = record { queue = queue; seen = seen } in
        let here = moment_of (key_of node) in
        let (grows, tracks, sees) =
          expand-lem contract deps node sids s (λ m. (here ≡ m) ⊎ IsExplored seen m) in
        let grown = expand contract deps node sids s in
        let explored : IsExplored grown.seen here = record {
          unfinished = λ c. not_all incomplete (λ n m. covered c n m);
          behind = λ sid a found new ready v.
              subst (λ m. Has m grown.seen) (moment-apply a sid node)
                (sees sid a
                  (ground (
                    arith,
                    mem-remaining_ids (acts contract deps) node.done sid,
                    mem-keys_of_lookup sid (acts contract deps) a found,
                    new,
                  ))
                  found (applicable_of_IsReady deps a node.facts node.done ready));
        } in
        λ m h.
          elim (tracks
            (λ k w. elim (inv k w) [
              | inl (inl same) ↦ inr (inl same)
              | inl (inr waits) ↦ inl waits
              | inr p ↦ inr (inr p)
            ])
            m h) [
              | inl waits ↦ inl waits
              | inr (inl same) ↦ inr (subst (IsExplored grown.seen) same explored)
              | inr (inr p) ↦ inr (IsExplored-mono seen grown.seen m grows p)
            ]
      where
        covered :
            CompletesAt (moment_of (key_of node)) []
            → (n : ℕ) → mem n (keys (acts contract deps)) ≡ true
            → mem n node.done ≡ true
        covered c n m = ground (arith, c.covers n m, nil n)
          where
            nil : (x : ℕ) → mem x [] ≡ false
            nil x = unfold mem in refl

        not_all :
            (length node.done == length (keys (acts contract deps))) ≡ false
            → ((n : ℕ) → mem n (keys (acts contract deps)) ≡ true → mem n node.done ≡ true)
            → ⊥
        not_all incomplete all =
            let up =
              length_le_of_subset (keys (acts contract deps)) node.done (nodup-by_step contract)
                all in
            let down =
              length_le_of_subset node.done (keys (acts contract deps)) reached.distinct
                reached.inside in
            ground (arith, incomplete, up, down)
