-- ===== src/Priority.antt =====
-- supervisor/priority.py: which of the policy findings is authoritative, and the outcome it gives. The
-- finding is `RuleResult` of supervisor/policies.py; its level is one of the constants, never below 0.
pub mod Rulings
use plan_auditor.Base.{
  ℕ, ◌≤◌, ◌<◌, String, Bool, true, false, Option, none, some, List, [], ◌∷◌, ◌++◌, ◌≡◌, ◌⊎◌, inl,
  inr, refl, sym, ◌∙◌, ap, nat_eq, ◌==◌, if◌then◌else◌, leb, keep, All, All-map, All-keep,
  Bool-cases, List-cases, arith, subst,
}
use mathlib.Core.Option.{some-injective}

pub record RuleResult : Type 0 where
  pub rule_id : String
  pub triggered : Bool
  pub level : ℕ
  pub detail : String
  pub evidence : String

abbrev pub security_policy_level : ℕ
security_policy_level = 3

abbrev pub requirement_coverage_level : ℕ
requirement_coverage_level = 4

pub data Outcome : Type 0 where
  passed failed undecided : Outcome

pub record PriorityVerdict : Type 0 where
  pub outcome : Outcome
  pub blocking_level : Option ℕ
  pub blocking_detail : String
  pub contributing : List (String × ℕ × String)

-- `min(triggered, key=...)`: the first of the findings with the least level.
unfoldable pub least : RuleResult → List RuleResult → RuleResult
least best [] = best
least best (f ∷ fs) = if leb best.level f.level then least best fs else least f fs

unfoldable pub contributions : List RuleResult → List (String × ℕ × String)
contributions [] = []
contributions (f ∷ fs) = (f.rule_id, f.level, f.detail) ∷ contributions fs

unfoldable pub outcome_of : RuleResult → Outcome
outcome_of worst =
    if leb worst.level security_policy_level
    then failed
    else if worst.level == requirement_coverage_level
    then undecided
    else failed

unfoldable pub resolve_triggered : List RuleResult → PriorityVerdict
unfolding least contributions outcome_of
resolve_triggered [] = record {
  outcome = passed;
  blocking_level = none;
  blocking_detail = "";
  contributing = [];
}
resolve_triggered (f ∷ fs) =
    let worst = least f fs in
    record {
      outcome = outcome_of worst;
      blocking_level = some worst.level;
      blocking_detail = worst.detail;
      contributing = contributions (f ∷ fs);
    }

abbrev pub triggered_of : List RuleResult → List RuleResult
triggered_of findings = keep (λ f. f.triggered) findings

unfoldable pub resolve_priority : List RuleResult → PriorityVerdict
unfolding resolve_triggered
resolve_priority findings = resolve_triggered (triggered_of findings)
