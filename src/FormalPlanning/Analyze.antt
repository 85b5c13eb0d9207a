-- ===== src/FormalPlanning/Analyze.antt =====
-- supervisor/formal_planning.py: `analyze_formal_contract`. The SHA-256 of a contract's canonical text
-- is the parameter `sha256`. `none`: a field that cannot be iterated, which is a TypeError.
use plan_auditor.Base.{
  ℕ, String, Bool, true, false, Option, none, some, List, [], ◌∷◌, ◌++◌, map, if◌then◌else◌, length,
  is_empty, ok, err,
}
use plan_auditor.Json.{Value, null, Fields, get_or, as_object}
use plan_auditor.PlanGraph.Steps.{GraphError, Graph, plan_steps, effective_dependencies}
use plan_auditor.FormalPlanning.Model.{
  FormalContract, monotonic, Verdict, pass, reject, unknown, Reason, Solved,
}
use plan_auditor.FormalPlanning.Monotonic.{monotonic_solve}
use plan_auditor.FormalPlanning.Search.{search_solve}
use plan_auditor.FormalPlanning.Parse.{FormalError, Parsed, parse_contract}
use plan_auditor.FormalPlanning.Anchors.{
  AnchorError, Anchor, formal_key, anchor_argv_errors, find_formal_anchors,
}

-- The texts of `errors`, of `reason` and of `warnings`.
pub data AnalysisError : Type 0 where
  found_anchors : ℕ → AnalysisError
  not_an_object : AnalysisError
  at_anchor : AnchorError → AnalysisError
  in_contract : FormalError → AnalysisError
  in_graph : GraphError → AnalysisError
  unsolvable : Reason → AnalysisError

pub data Explanation : Type 0 where
  no_contract not_one_anchor no_object structurally_invalid : Explanation
  graph_failed : GraphError → Explanation
  solver_says : Reason → Explanation

pub data Warning : Type 0 where
  effect_free_actions : Warning
  undecided : Reason → Warning

pub record FormalPlanningResult : Type 0 where
  pub enabled : Bool
  pub verdict : Verdict
  pub reason : Explanation
  pub digest : Option String
  pub anchor_step : Value
  pub solution_order : List ℕ
  pub explored_states : ℕ
  pub is_monotonic : Bool
  pub errors : List AnalysisError
  pub warnings : List Warning

abbrev pub default_result : FormalPlanningResult
default_result = record {
  enabled = false;
  verdict = pass;
  reason = no_contract;
  digest = none;
  anchor_step = null;
  solution_order = [];
  explored_states = 0;
  is_monotonic = true;
  errors = [];
  warnings = [];
}

unfoldable pub verdict_errors : Verdict → Reason → List AnalysisError
verdict_errors reject reason = unsolvable reason ∷ []
verdict_errors _ reason = []

unfoldable pub verdict_warnings : Verdict → Reason → List Warning
verdict_warnings unknown reason = undecided reason ∷ []
verdict_warnings _ reason = []

unfoldable pub solve : FormalContract → Graph → ℕ → Solved
solve contract deps max_states =
    if monotonic contract
    then monotonic_solve contract deps
    else search_solve contract deps max_states

unfoldable pub report : FormalPlanningResult → FormalContract → Solved → FormalPlanningResult
unfolding verdict_errors verdict_warnings
report result contract solved = record {
  enabled = result.enabled;
  verdict = solved.verdict;
  reason = solver_says solved.reason;
  digest = result.digest;
  anchor_step = result.anchor_step;
  solution_order = solved.order;
  explored_states = solved.explored;
  is_monotonic = monotonic contract;
  errors = result.errors ++ verdict_errors solved.verdict solved.reason;
  warnings = result.warnings ++ verdict_warnings solved.verdict solved.reason;
}

unfoldable pub analyze_contract :
    List Fields → FormalPlanningResult → FormalContract → ℕ → FormalPlanningResult
unfolding solve report
analyze_contract steps result contract max_states = elim (effective_dependencies steps) [
  | err e ↦ record result {
    verdict = reject;
    is_monotonic = monotonic contract;
    reason = graph_failed e;
    errors = result.errors ++ in_graph e ∷ [];
  }
  | ok deps ↦ report result contract (solve contract deps max_states)
]

unfoldable pub structurally_rejected : FormalPlanningResult → FormalPlanningResult
structurally_rejected result = record result { verdict = reject; reason = structurally_invalid }

unfoldable pub analyze_parsed :
    List Fields → FormalPlanningResult → Parsed → ℕ → FormalPlanningResult
unfolding analyze_contract structurally_rejected
analyze_parsed steps result parsed max_states = elim parsed.contract [
  | none ↦ structurally_rejected result
  | some contract ↦
      if is_empty result.errors
      then analyze_contract steps result contract max_states
      else structurally_rejected result
]

module _ (sha256 : Fields → String) where
  unfoldable pub enabled_result : Anchor → FormalPlanningResult
  enabled_result anchor = record default_result { enabled = true; anchor_step = anchor.step }

  -- The result with the digest and with what the two checks of the structure have found.
  unfoldable pub checked_result : Anchor → Fields → Parsed → FormalPlanningResult
  unfolding enabled_result
  checked_result anchor fields parsed = record (enabled_result anchor) {
    digest = some (sha256 fields);
    errors =
        map at_anchor (anchor_argv_errors anchor.check (sha256 fields))
        ++ map in_contract parsed.errors;
    warnings = if parsed.effect_free then effect_free_actions ∷ [] else [];
  }

  unfoldable pub analyze_anchor : List Fields → Anchor → ℕ → FormalPlanningResult
  unfolding checked_result analyze_parsed
  analyze_anchor steps anchor max_states =
      let raw = get_or formal_key anchor.check null in
      elim (as_object raw) [
        | none ↦ record (enabled_result anchor) {
          verdict = reject;
          reason = no_object;
          errors = not_an_object ∷ [];
        }
        | some fields ↦
            let parsed = parse_contract steps raw in
            analyze_parsed steps (checked_result anchor fields parsed) parsed max_states
      ]

  -- The second argument is what `plan.get("steps", [])` runs over.
  unfoldable pub analyze_anchors :
      List Anchor → Option (List Fields) → ℕ → Option FormalPlanningResult
  unfolding analyze_anchor
  analyze_anchors [] steps max_states = some default_result
  analyze_anchors (anchor ∷ []) none max_states = none
  analyze_anchors (anchor ∷ []) (some steps) max_states =
      some (analyze_anchor steps anchor max_states)
  analyze_anchors (first ∷ second ∷ others) steps max_states = some (record default_result {
    enabled = true;
    verdict = reject;
    reason = not_one_anchor;
    errors = found_anchors (length (first ∷ second ∷ others)) ∷ [];
  })

  unfoldable pub analyze_formal_contract : Fields → ℕ → Option FormalPlanningResult
  unfolding analyze_anchors
  analyze_formal_contract plan max_states = elim (find_formal_anchors plan) [
    | none ↦ none
    | some anchors ↦ analyze_anchors anchors (plan_steps plan) max_states
  ]
