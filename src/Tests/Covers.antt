-- ===== src/Tests/Covers.antt =====
-- supervisor/coverage.py: a plan that covers its requirement, and one that leaves it out.
use plan_auditor.Base.{ℕ, true, false, some, List, [], ◌∷◌, ◌≡◌, refl, is_empty}
use plan_auditor.Json.{
  Value, null, get_or, as_list, int, str, arr, obj, nil, cons, pos, Items, Fields, end, field,
  codes, is_space, codes_le, decimal,
}
use plan_auditor.Tests.Language.{language}
use plan_auditor.PlanGraph.Steps.{plan_steps}
use plan_auditor.Coverage.Requirements.{not_covered, read_priority}
use plan_auditor.Coverage.Analysis.{CoverageResult, analyze_coverage}
use plan_auditor.Coverage.Required.{AreMet}
use plan_auditor.Coverage.Covered.{IsCovered, analyze_coverage-valid}

abbrev plan_covering : Items → Fields
plan_covering covers = field "requirements" (arr (cons (str "Ship it") nil)) (
    field "steps"
      (arr (cons (obj (field "id" (int (pos 4)) (field "covers" (arr covers) end))) nil)) end)

abbrev requirement : List ℕ
requirement = codes "REQ-001"

abbrev covered : CoverageResult
covered = record {
  valid = true;
  required_ids = requirement ∷ [];
  covered_ids = requirement ∷ [];
  missing_ids = [];
  errors = [];
  mapping = (requirement, 4 ∷ []) ∷ [];
}

analyze_covered : analyze_coverage (plan_covering (cons (str " REQ-001 ") nil)) ≡ some covered
unfolding analyze_coverage read_priority plan_steps codes is_space codes_le decimal language
analyze_covered = refl

abbrev uncovered : CoverageResult
uncovered = record {
  valid = false;
  required_ids = requirement ∷ [];
  covered_ids = [];
  missing_ids = requirement ∷ [];
  errors = not_covered (requirement ∷ []) ∷ [];
  mapping = (requirement, []) ∷ [];
}

analyze_uncovered : analyze_coverage (plan_covering nil) ≡ some uncovered
unfolding analyze_coverage read_priority plan_steps codes is_space codes_le decimal language
analyze_uncovered = refl

analyze_coverage-valid_example :
    (steps : List Fields) × (raw : List Value) × (plan_steps
        (plan_covering (cons (str " REQ-001 ") nil))
      ≡ some steps)
    × (as_list (get_or "requirements" (plan_covering (cons (str " REQ-001 ") nil)) null) ≡ some raw)
    × (is_empty raw ≡ false)
    × AreMet (IsCovered steps) 1 raw
analyze_coverage-valid_example =
    analyze_coverage-valid (plan_covering (cons (str " REQ-001 ") nil)) covered analyze_covered refl
