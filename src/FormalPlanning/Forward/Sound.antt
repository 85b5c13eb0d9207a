-- ===== src/FormalPlanning/Forward/Sound.antt =====
-- The forward pass keeps an executable order, so the order that it returns is a plan.
use plan_auditor.Base.{
  ℕ, zero, suc, ◌+◌, true, false, some, List, [], ◌∷◌, ◌++◌, ◌≡◌, inl, inr, nat_eq, string_eq, mem,
  add, length, length-add, keys, lookup, List-cases, Bool-cases, All-keep, All-head,
  All-of_keep_nil, mem-keys_of_lookup, is_empty, diff, mem_of_diff_empty, arith,
}
use plan_auditor.PlanGraph.Steps.{Graph}
use plan_auditor.FormalPlanning.Model.{
  Facts, FormalAction, FormalContract, applicable, apply, remaining_ids, actions_at, pass, reject,
}
use plan_auditor.FormalPlanning.Monotonic.{candidates, check_goals, dead_end_at, monotonic_rounds}
use plan_auditor.FormalPlanning.Spec.{IsPlan}
use plan_auditor.FormalPlanning.Facts.{
  by_step-IsKeyed, mem-remaining_ids, IsLeft, remaining-IsLeft, at_step,
}
use plan_auditor.FormalPlanning.Reached.{acts, IsReached, IsReached-step, IsReached-IsPlan}

module _ (contract : FormalContract) (deps : Graph) where
  pub candidates-cons :
      (facts : Facts) (done : List ℕ) (a : FormalAction) (rest : List FormalAction)
      → candidates contract deps facts done ≡ a ∷ rest
      → IsLeft (acts contract deps) done a × (applicable deps a facts done ≡ true)
  unfolding candidates
  candidates-cons facts done a rest e =
      All-head (λ b. IsLeft (acts contract deps) done b × (applicable deps b facts done ≡ true)) e
        (All-keep (IsLeft (acts contract deps) done) (λ b. applicable deps b facts done)
          (actions_at (acts contract deps) (remaining_ids (acts contract deps) done))
          (remaining-IsLeft (acts contract deps) done (by_step-IsKeyed contract)))

  -- With no candidate, no step that is left is applicable.
  pub candidates-nil :
      (facts : Facts) (done : List ℕ) (sid : ℕ) (a : FormalAction)
      → candidates contract deps facts done ≡ []
      → lookup sid (acts contract deps) ≡ some a
      → mem sid done ≡ false
      → applicable deps a facts done ≡ false
  unfolding candidates
  candidates-nil facts done sid a e found left =
      at_step (λ b. applicable deps b facts done ≡ false) (acts contract deps)
        (remaining_ids (acts contract deps) done) sid a
        (All-of_keep_nil (λ b. applicable deps b facts done)
          (actions_at (acts contract deps) (remaining_ids (acts contract deps) done)) e)
        (ground (
          arith,
          mem-remaining_ids (acts contract deps) done sid,
          mem-keys_of_lookup sid (acts contract deps) a found,
          left,
        ))
        found

  pub rounds_sound :
      (left : ℕ) (facts : Facts) (done order : List ℕ) (explored : ℕ)
      → IsReached contract deps facts done order
      → length done + left ≡ length (keys (acts contract deps))
      → (monotonic_rounds contract deps left facts done order explored).verdict ≡ pass
      → IsPlan contract deps (monotonic_rounds contract deps left facts done order explored).order
  unfolding monotonic_rounds check_goals dead_end_at
  rounds_sound zero facts done order explored inv count h =
      elim (Bool-cases (is_empty (diff contract.goal_facts facts))) [
        | inl met ↦ rw met (
            IsReached-IsPlan contract deps facts done order inv (omega arith)
              (λ f. mem_of_diff_empty f contract.goal_facts facts met))
        | inr unmet ↦ absurd (cc (rw unmet at h))
      ]
  rounds_sound (suc left) facts done order explored inv count h =
      elim (List-cases (candidates contract deps facts done)) [
        | inl stuck ↦ let verdict : reject ≡ pass = rw (stuck, monotonic_rounds) at h in cc
        | inr (a, rest, e) ↦
            let ((found, new), can) = candidates-cons facts done a rest e in
            rw (e, monotonic_rounds)
              (rounds_sound left (apply a facts) (add a.step_id done) (order ++ a.step_id ∷ [])
                (explored + 1)
                (IsReached-step contract deps facts done order a.step_id a inv found new can)
                (omega (arith, count, length-add a.step_id done new))
                (rw (e, monotonic_rounds) at h))
      ]
