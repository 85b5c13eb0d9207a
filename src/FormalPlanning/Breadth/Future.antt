-- ===== src/FormalPlanning/Breadth/Future.antt =====
-- `_future_impossible` prunes only states from which no order of the remaining steps is a plan.
use plan_auditor.Base.{
  ℕ, String, Bool, true, false, not, ◌&&◌, ◌||◌, some, List, [], ◌∷◌, ◌≡◌, refl, sym, ◌∙◌, ap, inl,
  inr, nat_eq, string_eq, ◌==◌, mem, mem-union, mem-diff, keys, lookup, lookup-put, put, Bool-cases,
  All, All-keep, All-map, any-false_of_All, keep, subset, diff, subset_of_mem, nodup, map, arith,
  beq_refl, and-true, mem-keys_of_lookup,
}
use plan_auditor.PlanGraph.Steps.{Graph}
use plan_auditor.FormalPlanning.Model.{
  Facts, FormalAction, FormalContract, Actions, by_step, index_actions,
}
use plan_auditor.FormalPlanning.Search.{all_adds, remaining_actions, other_adds, future_impossible}
use plan_auditor.FormalPlanning.Spec.{Completes}
use plan_auditor.FormalPlanning.Facts.{facts_of, steps_of, by_step-lift, by_step-IsKeyed}
use plan_auditor.FormalPlanning.Breadth.Adds.{Adds, Executes-fresh, after_cases, precondition_cases}

-- No two actions of a contract name one step: `_parse_contract` refuses such a contract.
abbrev pub HasDistinctSteps : FormalContract → Type 0
HasDistinctSteps contract = nodup (map (λ a. a.step_id) contract.actions) ≡ true

lookup-index_actions_other :
    (acc : Actions) (actions : List FormalAction) (sid : ℕ)
    → mem sid (map (λ a. a.step_id) actions) ≡ false
    → lookup sid (index_actions acc actions) ≡ lookup sid acc
unfolding index_actions mem
lookup-index_actions_other acc [] sid h = refl
lookup-index_actions_other acc (a ∷ actions) sid h =
    lookup-index_actions_other (put a.step_id a acc) actions sid (ground (arith, h))
    ∙ ground (arith, lookup-put a.step_id sid a acc, h)

index_actions-All :
    (acc : Actions) (actions : List FormalAction)
    → nodup (map (λ a. a.step_id) actions) ≡ true
    → All (λ a. lookup a.step_id (index_actions acc actions) ≡ some a) actions
unfolding index_actions nodup
index_actions-All acc [] n = tt
index_actions-All acc (a ∷ actions) n =
    let (fresh, rest) =
      and-true (not (mem a.step_id (map (λ b. b.step_id) actions)))
        (nodup (map (λ b. b.step_id) actions)) n in
    (
      lookup-index_actions_other (put a.step_id a acc) actions a.step_id (ground (arith, fresh))
          ∙ ground (arith, lookup-put a.step_id a.step_id a acc, beq_refl a.step_id),
      index_actions-All (put a.step_id a acc) actions rest,
    )

-- The dict files each action of a contract.
pub by_step-All :
    (contract : FormalContract)
    → HasDistinctSteps contract
    → All (λ a. lookup a.step_id (by_step contract) ≡ some a) contract.actions
unfolding by_step
by_step-All contract = index_actions-All [] contract.actions

-- The facts that the kept actions add are among the union.
mem-all_adds :
    (test : FormalAction → Bool) (f : String) (actions : List FormalAction)
    → All
        (λ b.
          test b ≡ true → mem f b.add_effects ≡ true → mem f (all_adds (keep test actions)) ≡ true)
        actions
unfolding all_adds
mem-all_adds test f [] = tt
mem-all_adds test f (a ∷ actions) = (
  λ t m. rw t (ground (arith, mem-union f a.add_effects (all_adds (keep test actions)), m)),
  All-map _ _ actions
      (λ b h t m. elim (Bool-cases (test a)) [
        | inl kept ↦
            rw kept
              (ground (arith, mem-union f a.add_effects (all_adds (keep test actions)), h t m))
        | inr dropped ↦ rw dropped (h t m)
      ])
      (mem-all_adds test f actions),
)

keep-keep :
    (p q : FormalAction → Bool) (actions : List FormalAction)
    → keep p (keep q actions) ≡ keep (λ b. q b && p b) actions
keep-keep p q [] = refl
keep-keep p q (a ∷ actions) = ground (arith, keep-keep p q actions)

module _ (contract : FormalContract) (deps : Graph) (facts : Facts) (done : List ℕ) (order : List ℕ)
    (distinct : HasDistinctSteps contract)
    (plan : Completes contract deps (facts_of facts) (steps_of done) order) where
  -- A fact that a step of the plan adds is one that the remaining actions add.
  Adds-remaining :
      (counts : ℕ → Bool) (f : String)
      → Adds (by_step contract) deps order counts f
      → mem f (all_adds (keep (λ b. counts b.step_id) (remaining_actions contract done))) ≡ true
  unfolding remaining_actions
  Adds-remaining counts f (n, b, m, c, found, e) =
      let named = by_step-IsKeyed contract n b found in
      let fresh =
        Executes-fresh (by_step contract) deps (facts_of facts) (steps_of done) order n
          plan.executes m in
      rw (keep-keep (λ x. counts x.step_id) (λ x. not (mem x.step_id done)) contract.actions) (
        by_step-lift
          (λ x.
            (not (mem x.step_id done) && counts x.step_id) ≡ true
            → mem f x.add_effects ≡ true
            → mem f (
                all_adds
                  (keep (λ y. not (mem y.step_id done) && counts y.step_id) contract.actions))
              ≡ true)
          contract
          (mem-all_adds (λ y. not (mem y.step_id done) && counts y.step_id) f contract.actions) n b
          found (simp (named, fresh, c)) e)

  goals_supplied :
      subset (diff contract.goal_facts facts) (all_adds (remaining_actions contract done)) ≡ true
  goals_supplied = subset_of_mem _ _ (λ f m.
      let (goal, lacking) =
        and-true (mem f contract.goal_facts) (not (mem f facts))
          (sym (mem-diff f contract.goal_facts facts) ∙ m) in
      elim (after_cases (by_step contract) deps (facts_of facts) (steps_of done) order f
        plan.executes (plan.reaches f goal)) [
          | inl held ↦ absurd (cc (rw held at lacking))
          | inr added ↦ rw keep_all at (Adds-remaining (λ _. true) f added)
        ])
    where
      keep_true : (xs : List FormalAction) → keep (λ _. true) xs ≡ xs
      keep_true [] = refl
      keep_true (x ∷ xs) = ap (λ t. x ∷ t) (keep_true xs)

      keep_all :
          keep (λ _. true) (remaining_actions contract done) ≡ remaining_actions contract done
      keep_all = keep_true (remaining_actions contract done)

  preconditions_supplied :
      (a : FormalAction)
      → lookup a.step_id (by_step contract) ≡ some a
      → mem a.step_id done ≡ false
      → subset (diff a.preconditions facts) (other_adds (remaining_actions contract done) a) ≡ true
  unfolding other_adds
  preconditions_supplied a found left = subset_of_mem _ _ (λ f m.
      let (needed, lacking) =
        and-true (mem f a.preconditions) (not (mem f facts))
          (sym (mem-diff f a.preconditions facts) ∙ m) in
      elim (precondition_cases (by_step contract) deps (facts_of facts) (steps_of done) order
        a.step_id a f plan.executes (runs_here (plan.covers a.step_id placed)) found needed) [
          | inl held ↦ absurd (cc (rw held at lacking))
          | inr added ↦ Adds-remaining (λ n. not (n == a.step_id)) f added
        ])
    where
      placed : mem a.step_id (keys (by_step contract)) ≡ true
      placed = mem-keys_of_lookup a.step_id (by_step contract) a found

      runs_here : (mem a.step_id done || mem a.step_id order) ≡ true → mem a.step_id order ≡ true
      runs_here h = ground (arith, h, left)

-- Where `_future_impossible` holds no order of the steps that are left completes the plan.
pub future_impossible_sound :
    (contract : FormalContract) (deps : Graph) (facts : Facts) (done order : List ℕ)
    → HasDistinctSteps contract
    → future_impossible contract facts done ≡ true
    → ¬ Completes contract deps (facts_of facts) (steps_of done) order
unfolding future_impossible remaining_actions
future_impossible_sound contract deps facts done order distinct h plan =
    let remaining = remaining_actions contract done in
    let fine =
      any-false_of_All (λ a. not (subset (diff a.preconditions facts) (other_adds remaining a)))
        remaining
        (All-map _ _ remaining
          (λ a k. rw (
            preconditions_supplied contract deps facts done order distinct plan a k.0
              (ground (arith, k.1))))
          (All-keep (λ a. lookup a.step_id (by_step contract) ≡ some a)
            (λ a. not (mem a.step_id done)) contract.actions (by_step-All contract distinct))) in
    let goals = goals_supplied contract deps facts done order distinct plan in
    cc (rw (goals, fine) at h)
