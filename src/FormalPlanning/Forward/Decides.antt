-- ===== src/FormalPlanning/Forward/Decides.antt =====
-- The forward pass `_monotonic_solve` decides whether a contract without deletes has a plan.
use plan_auditor.Base.{
  ℕ, zero, suc, ◌+◌, String, true, false, not, some, List, [], ◌∷◌, ◌++◌, ◌≡◌, ◌⊎◌, refl, inl, inr,
  nat_eq, string_eq, ◌==◌, mem, mem-add, add, length, length-add, nodup, nodup-add, keys, lookup,
  List-cases, Bool-cases, All, mem-keys_of_lookup, mem_of_length_le, length_le_of_subset, is_empty,
  diff, diff_empty_of_mem, arith, mem-cons_self, mem-cons_of_mem, beq→eq, any, mem_of_is_empty,
}
use plan_auditor.PlanGraph.Steps.{Graph}
use plan_auditor.FormalPlanning.Model.{
  Facts, FormalAction, FormalContract, by_step, apply, monotonic, pass, reject,
}
use plan_auditor.FormalPlanning.Monotonic.{
  candidates, check_goals, dead_end_at, monotonic_rounds, monotonic_solve,
}
use plan_auditor.FormalPlanning.Spec.{
  World, Done, effect, mark, Executes, after, initial_world, nothing_done, IsPlan,
}
use plan_auditor.FormalPlanning.Facts.{
  mem-apply, applicable_of_IsReady, nodup-by_step, by_step-lift,
}
use plan_auditor.FormalPlanning.Execution.{after-cons, Executes-known}
use plan_auditor.FormalPlanning.Reached.{acts, IsReached-start}
use plan_auditor.FormalPlanning.Forward.Sound.{candidates-nil, candidates-cons, rounds_sound}

abbrev HasNoDeletes : FormalAction → Type 0
HasNoDeletes a = is_empty a.del_effects ≡ true

All-of_monotonic :
    (actions : List FormalAction)
    → not (any (λ a. not (is_empty a.del_effects)) actions) ≡ true
    → All HasNoDeletes actions
All-of_monotonic [] h = tt
All-of_monotonic (a ∷ actions) h = (ground arith, All-of_monotonic actions (ground arith))

no_deletes :
    (contract : FormalContract)
    → monotonic contract ≡ true
    → (sid : ℕ) (a : FormalAction) → lookup sid (by_step contract) ≡ some a
    → (f : String) → mem f a.del_effects ≡ false
unfolding monotonic
no_deletes contract h sid a found f =
    mem_of_is_empty f a.del_effects
      (by_step-lift HasNoDeletes contract (All-of_monotonic contract.actions h) sid a found)

module _ (contract : FormalContract) (deps : Graph) (mono : monotonic contract ≡ true) where
  -- The facts that any order of the placed steps could have made hold.
  record Grown (facts : Facts) (done : List ℕ) : Type 0 where
    initial : (f : String) → mem f contract.initial_facts ≡ true → mem f facts ≡ true
    added :
        (sid : ℕ) (a : FormalAction)
        → mem sid done ≡ true
        → lookup sid (acts contract deps) ≡ some a
        → (f : String) → mem f a.add_effects ≡ true
        → mem f facts ≡ true
    distinct : nodup done ≡ true
    inside : (n : ℕ) → mem n done ≡ true → mem n (keys (acts contract deps)) ≡ true

  module _ (facts : Facts) (done : List ℕ) (grown : Grown facts done) where
    -- In a stuck state every step of a run that starts below it is already placed.
    run_placed :
        (w : World) (d : Done) (order : List ℕ)
        → Executes (acts contract deps) deps w d order
        → ((f : String) → w f ≡ true → mem f facts ≡ true)
        → ((n : ℕ) → d n ≡ true → mem n done ≡ true)
        → candidates contract deps facts done ≡ []
        → (n : ℕ) → mem n order ≡ true
        → mem n done ≡ true
    unfolding mem
    run_placed w d [] run below before stuck n m = cc
    run_placed w d (s ∷ order) (a, found, new, ready, rest) below before stuck n m =
        let placed : mem s done ≡ true = elim (Bool-cases (mem s done)) [
          | inl old ↦ old
          | inr left ↦
              let can = applicable_of_IsReady deps a facts done (record {
                prerequisites = λ k p. before k (ready.prerequisites k p);
                preconditions = λ f p. below f (ready.preconditions f p);
              }) in
              let cannot = candidates-nil contract deps facts done s a stuck found left in cc
        ] in
        elim (Bool-cases (n == s)) [
          | inl hit ↦ rw (beq→eq n s hit) placed
          | inr miss ↦
              run_placed (effect a w) (mark s d) order rest
                (λ f h. ground (arith, below f, grown.added s a placed found f, h))
                (λ k h. elim (Bool-cases (k == s)) [
                  | inl same ↦ rw (beq→eq k s same) placed
                  | inr other ↦ before k (rw other at h)
                ])
                stuck n (rw miss at m)
        ]

    -- The world that a run of placed steps leaves behind lies below the facts.
    world_below :
        (w : World) (d : Done) (order : List ℕ)
        → Executes (acts contract deps) deps w d order
        → ((f : String) → w f ≡ true → mem f facts ≡ true)
        → ((n : ℕ) → mem n order ≡ true → mem n done ≡ true)
        → (f : String) → after (acts contract deps) w order f ≡ true
        → mem f facts ≡ true
    unfolding after
    world_below w d [] run below placed f h = below f h
    world_below w d (s ∷ order) (a, found, new, ready, rest) below placed f h =
        world_below (effect a w) (mark s d) order rest
          (λ g k.
            ground (arith, below g, grown.added s a (placed s (mem-cons_self s order)) found g, k))
          (λ n m. placed n (mem-cons_of_mem n s order m)) f
          (rw (after-cons (acts contract deps) deps w s order found) at h)

  Grown-start : Grown contract.initial_facts []
  unfolding mem nodup
  Grown-start = record {
    initial = λ f m. m;
    added = λ sid a m found f e. cc;
    distinct = refl;
    inside = λ n m. cc;
  }

  Grown-step :
      (facts : Facts) (done : List ℕ) (a : FormalAction)
      → Grown facts done
      → lookup a.step_id (acts contract deps) ≡ some a
      → Grown (apply a facts) (add a.step_id done)
  Grown-step facts done a grown found = record {
    initial = λ f m. kept f (grown.initial f m);
    added = λ sid b m named f e. elim (Bool-cases (sid == a.step_id)) [
      | inl hit ↦
          let here : lookup a.step_id (acts contract deps) ≡ some b =
            rw (beq→eq sid a.step_id hit) at named in
          let same : some a ≡ some b = cc in ground (arith, mem-apply a facts f, same)
      | inr miss ↦
          kept f (grown.added sid b (ground (arith, mem-add sid a.step_id done, miss, m)) named f e)
    ];
    distinct = nodup-add a.step_id done grown.distinct;
    inside = λ n m. elim (Bool-cases (n == a.step_id)) [
      | inl hit ↦
          rw (beq→eq n a.step_id hit) (mem-keys_of_lookup a.step_id (acts contract deps) a found)
      | inr miss ↦ grown.inside n (ground (arith, mem-add n a.step_id done, miss, m))
    ];
  }
    where
      kept : (f : String) → mem f facts ≡ true → mem f (apply a facts) ≡ true
      kept f m =
          ground (arith, mem-apply a facts f, no_deletes contract mono a.step_id a found f, m)

  -- If any order is a plan, the loop ends with the verdict PASS from every state that it reaches.
  rounds_complete :
      (plan : List ℕ)
      → IsPlan contract deps plan
      → (left : ℕ) (facts : Facts) (done order : List ℕ) (explored : ℕ) → Grown facts done
      → length done + left ≡ length (keys (acts contract deps))
      → (monotonic_rounds contract deps left facts done order explored).verdict ≡ pass
  unfolding monotonic_rounds check_goals
  rounds_complete plan p zero facts done order explored grown count =
      let placed : (n : ℕ) → mem n plan ≡ true → mem n done ≡ true = λ n m.
        let (a, found) =
          Executes-known (acts contract deps) deps (initial_world contract) nothing_done plan
            p.executes n m in
        mem_of_length_le done (keys (acts contract deps)) n grown.distinct grown.inside
          (omega (arith, count)) (mem-keys_of_lookup n (acts contract deps) a found) in
      rw (
        diff_empty_of_mem contract.goal_facts facts (λ f m.
          world_below facts done grown (initial_world contract) nothing_done plan p.executes
            grown.initial placed f (p.reaches f m)))
  rounds_complete plan p (suc left) facts done order explored grown count =
      elim (List-cases (candidates contract deps facts done)) [
        | inl stuck ↦
            let placed =
              run_placed facts done grown (initial_world contract) nothing_done plan p.executes
                grown.initial (λ n h. absurd (cc h)) stuck in
            absurd (
              omega (
                arith,
                length_le_of_subset (keys (acts contract deps)) done (nodup-by_step contract)
                    (λ n m. placed n (p.covers n m)),
                count,
              ))
        | inr (a, rest, e) ↦
            let (is_left, can) = candidates-cons contract deps facts done a rest e in
            rw (e, monotonic_rounds)
              (rounds_complete plan p left (apply a facts) (add a.step_id done)
                (order ++ a.step_id ∷ []) (explored + 1) (Grown-step facts done a grown is_left.0)
                (omega (arith, count, length-add a.step_id done is_left.1)))
      ]

-- The two verdicts of the forward pass.
rounds_verdict :
    (contract : FormalContract) (deps : Graph) (left : ℕ) (facts : Facts) (done order : List ℕ)
    (explored : ℕ)
    → ((monotonic_rounds contract deps left facts done order explored).verdict ≡ pass)
      ⊎ ((monotonic_rounds contract deps left facts done order explored).verdict ≡ reject)
unfolding monotonic_rounds check_goals dead_end_at
rounds_verdict contract deps zero facts done order explored =
    elim (Bool-cases (is_empty (diff contract.goal_facts facts))) [
      | inl met ↦ inl (rw met)
      | inr unmet ↦ inr (rw unmet)
    ]
rounds_verdict contract deps (suc left) facts done order explored =
    elim (List-cases (candidates contract deps facts done)) [
      | inl stuck ↦ inr (rw (stuck, monotonic_rounds))
      | inr (a, rest, e) ↦
          rw (e, monotonic_rounds)
            (rounds_verdict contract deps left (apply a facts) (add a.step_id done)
              (order ++ a.step_id ∷ []) (explored + 1))
    ]

-- For a contract without delete effects the forward pass decides whether there is a plan: either the
-- verdict is PASS and the order that it returns is a plan (it runs every step once, each after its
-- prerequisites and where its preconditions hold, and ends where every goal holds), or the verdict is
-- REJECT and no order of the steps is a plan.
pub monotonic_solve-decides :
    (contract : FormalContract) (deps : Graph)
    → monotonic contract ≡ true
    → ((monotonic_solve contract deps).verdict ≡ pass)
        × IsPlan contract deps (monotonic_solve contract deps).order
      ⊎ ((monotonic_solve contract deps).verdict ≡ reject)
        × ((plan : List ℕ) → ¬ IsPlan contract deps plan)
unfolding monotonic_solve
monotonic_solve-decides contract deps mono =
    let n = length (keys (acts contract deps)) in
    elim (rounds_verdict contract deps n contract.initial_facts [] [] 1) [
      | inl passed ↦ inl (
        passed,
        rounds_sound contract deps n contract.initial_facts [] [] 1 (IsReached-start contract deps)
            (omega arith) passed,
      )
      | inr rejected ↦ inr (
        rejected,
        λ plan p.
            let passed =
              rounds_complete contract deps mono plan p n contract.initial_facts [] [] 1
                (Grown-start contract deps mono) (omega arith) in
            cc,
      )
    ]
