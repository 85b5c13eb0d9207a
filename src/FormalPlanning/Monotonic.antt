-- ===== src/FormalPlanning/Monotonic.antt =====
-- supervisor/formal_planning.py: `_monotonic_solve`, the forward pass for contracts without deletes.
use plan_auditor.Base.{
  ℕ, zero, suc, ◌+◌, List, [], ◌∷◌, ◌++◌, nat_eq, string_eq, if◌then◌else◌, diff, keep, length,
  is_empty, keys, add,
}
use plan_auditor.Json.{sort_texts}
use plan_auditor.PlanGraph.Steps.{Graph}
use plan_auditor.FormalPlanning.Model.{
  Facts, FormalAction, FormalContract, by_step, applicable, apply, remaining_ids, actions_at,
  blocked_detail, pass, reject, reachable, dead_end, goals_false, Solved,
}

module _ (contract : FormalContract) (deps : Graph) where
  unfoldable pub candidates : Facts → List ℕ → List FormalAction
  unfolding applicable remaining_ids actions_at by_step
  candidates facts done =
      keep (λ a. applicable deps a facts done)
        (actions_at (by_step contract) (remaining_ids (by_step contract) done))

  -- The end of `_monotonic_solve`, after the loop.
  unfoldable pub check_goals : Facts → List ℕ → ℕ → Solved
  check_goals facts order explored =
      let missing = diff contract.goal_facts facts in
      if is_empty missing
      then record { verdict = pass; order = order; explored = explored; reason = reachable }
      else record {
        verdict = reject;
        order = order;
        explored = explored;
        reason = goals_false (sort_texts missing);
      }

  unfoldable pub dead_end_at : Facts → List ℕ → List ℕ → ℕ → Solved
  unfolding blocked_detail by_step
  dead_end_at facts done order explored = record {
    verdict = reject;
    order = order;
    explored = explored;
    reason = dead_end (blocked_detail (by_step contract) deps facts done);
  }

  -- The `while` loop. Its test is `len(done) < len(by_step)`, and each round adds one new step to
  -- `done`, so `left`, their difference, counts the rounds.
  unfoldable pub monotonic_rounds : ℕ → Facts → List ℕ → List ℕ → ℕ → Solved
  unfolding candidates apply add check_goals dead_end_at
  monotonic_rounds zero facts done order explored = check_goals facts order explored
  monotonic_rounds (suc left) facts done order explored = elim (candidates facts done) [
    | [] ↦ dead_end_at facts done order explored
    | a ∷ _ ↦
        monotonic_rounds left (apply a facts) (add a.step_id done) (order ++ a.step_id ∷ [])
          (explored + 1)
  ]

  unfoldable pub monotonic_solve : Solved
  unfolding monotonic_rounds by_step
  monotonic_solve =
      monotonic_rounds (length (keys (by_step contract))) contract.initial_facts [] [] 1
