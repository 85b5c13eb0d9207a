-- ===== src/Tests/Completion.antt =====
-- supervisor/gate.py: a completion with one silent rule and a low finding, and what blocks it.
use plan_auditor.Base.{
  ℕ, Bool, true, false, none, some, List, [], ◌∷◌, ◌≡◌, ◌↔◌, refl, All, is_empty, any, ◌||◌,
  if◌then◌else◌,
}
use plan_auditor.Tests.Language.{language}
use plan_auditor.Tests.Rulings.{sample_finding}
use plan_auditor.Priority.{RuleResult, Outcome, passed, failed, undecided}
use plan_auditor.Sealing.Changes.{MonotonicCheck}
use plan_auditor.Gate.{AdversarialFinding, is_blocking, evaluate, evaluate_rules}
use plan_auditor.Gate.Outcomes.{
  policy_verdict, is_failing, is_undecided, is_seal_broken, is_traffic_broken, outcome-evaluate,
  evaluate-adversarial, evaluate-passed,
}

-- A rule that fires in a context that says so.
abbrev rules : List (Bool → RuleResult)
rules = (λ fires. sample_finding "tests" 2 fires) ∷ []

abbrev whole : MonotonicCheck
whole = record { ok = true; violations = []; improvements = [] }

abbrev low : AdversarialFinding
low = record { severity = "warn"; description = "style" }

abbrev high : AdversarialFinding
high = record { severity = "high"; description = "untested path" }

evaluate-low : (evaluate rules true [] false (some whole) (low ∷ []) none).outcome ≡ passed
unfolding evaluate language
evaluate-low = refl

evaluate-high :
    (evaluate rules true [] false (some whole) (low ∷ high ∷ []) none).outcome ≡ undecided
unfolding evaluate language
evaluate-high = refl

evaluate_fired : (evaluate rules true [] true (some whole) (low ∷ []) none).outcome ≡ failed
unfolding evaluate language
evaluate_fired = refl

outcome-evaluate_example :
    (evaluate rules true (4 ∷ []) false (some whole) (high ∷ []) none).outcome ≡ (
      if is_failing rules false true (4 ∷ []) (some whole) none
      then failed
      else if is_undecided (policy_verdict rules false).outcome || any is_blocking (high ∷ [])
      then undecided
      else passed)
outcome-evaluate_example = outcome-evaluate rules false true (4 ∷ []) (some whole) (high ∷ []) none

evaluate-adversarial_example :
    let judge : List AdversarialFinding → Outcome =
      λ review. (evaluate rules true [] false (some whole) review none).outcome in
    ((judge (high ∷ []) ≡ failed) ↔ (judge [] ≡ failed))
    × (judge (high ∷ []) ≡ passed → judge [] ≡ passed)
evaluate-adversarial_example =
    evaluate-adversarial rules false true [] (some whole) (high ∷ []) none

evaluate-passed_example :
    (is_empty {A = ℕ} [] ≡ true)
    × (true ≡ true)
    × All (λ f. f.triggered ≡ false) (evaluate_rules rules false)
    × (is_seal_broken (some whole) ≡ false)
    × (is_traffic_broken none ≡ false)
    × (any is_blocking (low ∷ []) ≡ false)
evaluate-passed_example =
    evaluate-passed rules false true [] (some whole) (low ∷ []) none evaluate-low
