-- ===== src/Sealing/Changes.antt =====
-- supervisor/sealing.py: `MonotonicCheck`, with a constructor for each text, and what comparisons add to it.
use plan_auditor.Base.{String, Bool, true, false, List, [], ◌∷◌, ◌++◌, is_empty}
use plan_auditor.Json.{Value}

-- The values are the id of a step and the name of an output.
pub data Violation : Type 0 where
  step_scope_changed task_changed requirement_scope_changed requirements_changed : Violation
  tool_scope_changed traffic_scope_changed : Violation
  step_removed title_changed check_removed dependency_removed required_output_removed :
      Value → Violation
  coverage_changed output_scope_changed : Value → Violation
  output_metadata_changed output_weakened : Value → String → Violation
  environment_changed : Value → Value → Violation

pub data Improvement : Type 0 where
  checks_increased dependencies_tightened required_outputs_increased : Value → Improvement
  output_checks_increased : Value → String → Improvement

pub record MonotonicCheck : Type 0 where
  pub ok : Bool
  pub violations : List Violation
  pub improvements : List Improvement

-- The two lists as they grow.
pub record Changes : Type 0 where
  pub violations : List Violation
  pub improvements : List Improvement

abbrev pub unchanged : Changes
unchanged = record { violations = []; improvements = [] }

abbrev pub violation : Violation → Changes
violation v = record { violations = v ∷ []; improvements = [] }

abbrev pub improvement : Improvement → Changes
improvement i = record { violations = []; improvements = i ∷ [] }

unfoldable pub join_changes : Changes → Changes → Changes
join_changes a b = record {
  violations = a.violations ++ b.violations;
  improvements = a.improvements ++ b.improvements;
}

-- `violations.append(v)` under a condition.
unfoldable pub violation_if : Bool → Violation → Changes
violation_if true v = violation v
violation_if false v = unchanged

unfoldable pub judged : Changes → MonotonicCheck
judged c = record {
  ok = is_empty c.violations;
  violations = c.violations;
  improvements = c.improvements;
}
