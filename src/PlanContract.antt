-- ===== src/PlanContract.antt =====
-- scripts/contract.py: the part of a plan that a seal binds, and its digest. `none` is a TypeError, where
-- `steps` or a step's `verify` cannot be iterated.
pub mod Stable
use plan_auditor.Base.{
  ℕ, String, Bool, true, false, not, Option, none, some, List, [], ◌∷◌, map, mem, nat_eq, keys,
  if◌then◌else◌, Result, ok, err,
}
use plan_auditor.Json.{
  Value, null, arr, obj, nil, cons, Items, Fields, end, field, get, get_or, has_key, set_field,
  positive_int, iterate, objects,
}
use plan_auditor.PlanGraph.Steps.{GraphError, Graph, plan_steps, effective_dependencies}
use plan_auditor.Integrity.{canonical_digest}

-- A list of dicts as a document.
unfoldable pub object_items : List Fields → Items
object_items [] = nil
object_items (fs ∷ rest) = cons (obj fs) (object_items rest)

-- `[c for c in step.get("verify", []) if isinstance(c, dict)]`
unfoldable pub checks_of : Fields → Option (List Fields)
unfolding get_or iterate objects
checks_of step = elim (iterate (get_or "verify" step (arr nil))) [
  | none ↦ none
  | some vs ↦ some (objects vs)
]

-- The result of `contract_step`, but for `depends_on` and the checks.
unfoldable pub contract_fields : Fields → Value → List Fields → Fields
unfolding get_or object_items
contract_fields step dependencies checks = field "id" (get_or "id" step null) (
    field "title" (get_or "title" step null) (
      field "depends_on" dependencies (
        field "requires_outputs" (get_or "requires_outputs" step (arr nil)) (
          field "outputs" (get_or "outputs" step (arr nil)) (
            field "covers" (get_or "covers" step (arr nil))
              (field "verify" (arr (object_items checks)) end))))))

unfoldable pub contract_step : Fields → Option Fields
unfolding contract_fields checks_of
contract_step step = elim (checks_of step) [
  | none ↦ none
  | some checks ↦ some (contract_fields step (get_or "depends_on" step null) checks)
]

-- A list whose head or tail may raise.
unfoldable pub cons_some : {A : Type 0} → Option A → Option (List A) → Option (List A)
cons_some none rest = none
cons_some (some x) none = none
cons_some (some x) (some xs) = some (x ∷ xs)

unfoldable pub contract_steps : List Fields → Option (List Fields)
unfolding cons_some
contract_steps [] = some []
contract_steps (step ∷ steps) = cons_some (contract_step step) (contract_steps steps)

unfoldable pub legacy_v3_contract_plan : Fields → Option Fields
unfolding plan_steps object_items
legacy_v3_contract_plan plan = elim (plan_steps plan) [
  | none ↦ none
  | some steps ↦ elim (contract_steps steps) [
    | none ↦ none
    | some contracted ↦ some (
        field "task" (get_or "task" plan null) (
          field "requirements" (get_or "requirements" plan null) (
            field "required_tools" (get_or "required_tools" plan (arr nil))
              (field "steps" (arr (object_items contracted)) end))))
  ]
]

-- `isinstance(sid, int) and sid in dependencies`, where a graph that is refused has no dependencies.
unfoldable pub has_dependencies : Result GraphError Graph → Fields → Bool
unfolding mem
has_dependencies (err e) step = false
has_dependencies (ok deps) step = elim (positive_int (get_or "id" step null)) [
  | none ↦ false
  | some sid ↦ mem sid (keys deps)
]

-- `contracted["depends_on"] = dependencies[sid]`, which is the list that the step declares, or an empty one.
unfoldable pub bind_dependencies : Result GraphError Graph → Fields → Fields → Fields
unfolding set_field
bind_dependencies deps step contracted =
    if has_dependencies deps step
    then set_field "depends_on" (get_or "depends_on" step (arr nil)) contracted
    else contracted

unfoldable pub bound_step : Result GraphError Graph → Fields → Option Fields
unfolding bind_dependencies
bound_step deps step = elim (contract_step step) [
  | none ↦ none
  | some contracted ↦ some (bind_dependencies deps step contracted)
]

unfoldable pub bound_steps : Result GraphError Graph → List Fields → Option (List Fields)
unfolding bound_step cons_some
bound_steps deps [] = some []
bound_steps deps (step ∷ steps) = cons_some (bound_step deps step) (bound_steps deps steps)

-- The `traffic` entry, behind the others, where the plan has one.
unfoldable pub traffic_entry : Option Value → Fields
traffic_entry none = end
traffic_entry (some traffic) = field "traffic" traffic end

unfoldable pub contract_document : Fields → List Fields → Fields
unfolding object_items traffic_entry
contract_document plan contracted = field "task" (get_or "task" plan null) (
    field "requirements" (get_or "requirements" plan null) (
      field "required_tools" (get_or "required_tools" plan (arr nil))
        (field "steps" (arr (object_items contracted)) (traffic_entry (get "traffic" plan)))))

unfoldable pub contract_plan : Fields → Option Fields
unfolding bound_steps contract_document
contract_plan plan = elim (plan_steps plan) [
  | none ↦ none
  | some steps ↦ elim (bound_steps (effective_dependencies steps) steps) [
    | none ↦ none
    | some contracted ↦ some (contract_document plan contracted)
  ]
]

module _ (sha256 : List ℕ → String) where
  -- The digest of the canonical text of a contract.
  unfoldable pub digest_of : Option Fields → Option String
  unfolding canonical_digest
  digest_of none = none
  digest_of (some contract) = some (canonical_digest sha256 (obj contract))

  unfoldable pub plan_hash : Fields → Option String
  unfolding digest_of
  plan_hash plan = digest_of (contract_plan plan)

  unfoldable pub legacy_v3_plan_hash : Fields → Option String
  unfolding digest_of
  legacy_v3_plan_hash plan = digest_of (legacy_v3_contract_plan plan)
