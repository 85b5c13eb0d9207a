-- ===== src/FormalPlanning/Verdicts.antt =====
-- What the verdict of `analyze_formal_contract` says.
use plan_auditor.Base.{ℕ, ◌+◌, String, false, some, List, [], ◌∷◌, ◌≡◌, ◌⊎◌, is_empty, ok}
use plan_auditor.Json.{Value, null, Fields, get_or}
use plan_auditor.PlanGraph.Steps.{Graph, effective_dependencies}
use plan_auditor.FormalPlanning.Model.{FormalContract, pass, reject, unknown}
use plan_auditor.FormalPlanning.Spec.{IsPlan}
use plan_auditor.FormalPlanning.Parse.{parse_contract}
use plan_auditor.FormalPlanning.Accepts.{IsAccepted}
use plan_auditor.FormalPlanning.Anchors.{Anchor, formal_key}
use plan_auditor.FormalPlanning.Analyze.{FormalPlanningResult}

-- What a planner says of a contract and its dependencies.
abbrev pub IsSolved : FormalContract → Graph → ℕ → FormalPlanningResult → Type 0
IsSolved contract deps max_states r =
    (r.verdict ≡ pass) × IsPlan contract deps r.solution_order
    ⊎ (r.verdict ≡ reject) × ((plan : List ℕ) → ¬ IsPlan contract deps plan)
    ⊎ (r.verdict ≡ unknown) × (r.explored_states ≡ max_states + 1)

-- The contract that `parse_contract` reads from a document was accepted and a planner has decided it.
pub record IsDecided (steps : List Fields) (raw : Value) (max_states : ℕ) (r : FormalPlanningResult)
    : Type 0 where
  pub contract : FormalContract
  pub parsed : (parse_contract steps raw).contract ≡ some contract
  pub accepted : IsAccepted steps contract
  pub deps : Graph
  pub graph : effective_dependencies steps ≡ ok deps
  pub solved : IsSolved contract deps max_states r

-- An error was found before any planner ran.
abbrev pub IsRefused : FormalPlanningResult → Type 0
IsRefused r = (r.verdict ≡ reject) × (is_empty r.errors ≡ false)

module _ (sha256 : Fields → String) where
  -- The contract of the plan's one anchor was decided.
  pub record IsAnchored (steps : List Fields) (anchors : List Anchor) (max_states : ℕ)
      (r : FormalPlanningResult) : Type 0 where
    pub anchor : Anchor
    pub single : anchors ≡ anchor ∷ []
    pub decided : IsDecided steps (get_or formal_key anchor.check null) max_states r
