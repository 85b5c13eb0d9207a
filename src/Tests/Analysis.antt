-- ===== src/Tests/Analysis.antt =====
-- supervisor/formal_planning.py: the analysis of a whole plan, with a constant in place of the digest.
use plan_auditor.Base.{String, List, [], ◌∷◌, some, ◌≡◌, refl, true, false}
use plan_auditor.Json.{Value, int, str, arr, obj, pos, Fields, end, field}
use plan_auditor.Tests.Language.{language}
use plan_auditor.Tests.Graph.{plan_step}
use plan_auditor.Tests.Contracts.{texts, listed}
use plan_auditor.FormalPlanning.Model.{pass, reachable}
use plan_auditor.FormalPlanning.Anchors.{option_errors, option_without_value, unsupported_token}
use plan_auditor.FormalPlanning.Analyze.{FormalPlanningResult, solver_says}

abbrev constant : Fields → String
constant fields = "0000"

abbrev argv : List String
argv = "plan-auditor-formal" ∷ "verify" ∷ "." ∷ "--contract-sha" ∷ "0000" ∷ []

abbrev anchor : Value → Fields
anchor contract =
    field "type" (str "run")
      (field "argv" (arr (texts argv)) (field "formal_planning" contract end))

abbrev anchored_step : Value → Fields
anchored_step contract = field "id" (int (pos 1)) (
    field "depends_on" (arr (listed (int (pos 2) ∷ [])))
      (field "verify" (arr (listed (obj (anchor contract) ∷ []))) end))

abbrev steps : Value → List Fields
steps contract = anchored_step contract ∷ plan_step 2 [] ∷ []

abbrev plan : Value → Fields
plan contract =
    field "steps" (arr (listed (obj (anchored_step contract) ∷ obj (plan_step 2 []) ∷ []))) end

abbrev shipped : FormalPlanningResult
shipped = record {
  enabled = true;
  verdict = pass;
  reason = solver_says reachable;
  digest = some "0000";
  anchor_step = int (pos 1);
  solution_order = 2 ∷ 1 ∷ [];
  explored_states = 3;
  is_monotonic = true;
  errors = [];
  warnings = [];
}

option_errors_repeated :
    option_errors false false ("--fast-downward" ∷ "fd" ∷ "--fast-downward" ∷ "fd" ∷ [])
    ≡ unsupported_token "--fast-downward" ∷ []
unfolding option_errors language
option_errors_repeated = refl

option_errors_dangling :
    option_errors false false ("--require-fast-downward" ∷ "--fast-downward" ∷ [])
    ≡ option_without_value ∷ []
unfolding option_errors language
option_errors_dangling = refl
