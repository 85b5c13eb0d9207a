-- ===== src/Coverage/Analysis.antt =====
-- supervisor/coverage.py: `analyze_coverage`. `none` is a TypeError: the steps of the plan cannot be iterated.
use plan_auditor.Base.{
  ℕ, suc, Bool, not, Option, none, some, List, [], ◌∷◌, ◌++◌, map, nat_eq, list_eq, if◌then◌else◌,
  leb, is_empty, keep, mem, Dict, lookup_or, put, sort_with,
}
use plan_auditor.Json.{Value, null, int, arr, nil, pos, Fields, get_or, as_list, codes_le}
use plan_auditor.PlanGraph.Steps.{plan_steps}
use plan_auditor.Coverage.Requirements.{
  RequirementId, as_id, CoverageError, Requirement, Collected, failure_if, requirements_of,
  is_required, step_id_invalid, covers_not_list, invalid_cover, repeated_cover, unknown_cover,
  not_covered,
}

-- The mapping and the errors of the loop over the steps.
pub record Found : Type 0 where
  pub mapping : Dict RequirementId (List ℕ)
  pub errors : List CoverageError

unfoldable pub complain : CoverageError → Found → Found
complain e found = record { mapping = found.mapping; errors = found.errors ++ e ∷ [] }

-- `mapping.setdefault(req_id, []).append(sid)`
unfoldable pub cover : RequirementId → ℕ → Found → Found
unfolding put lookup_or
cover id sid found = record {
  mapping = put id (lookup_or id found.mapping [] ++ sid ∷ []) found.mapping;
  errors = found.errors;
}

-- The body of the loop over `covers`: the ids that were seen, and what was found.
unfoldable pub visit_cover :
    List RequirementId → ℕ → List RequirementId → Found → Value → List RequirementId × Found
unfolding as_id complain cover mem
visit_cover known sid seen found v = elim (as_id v) [
  | none ↦ (seen, complain (invalid_cover sid) found)
  | some id ↦
      if mem id seen
      then (seen, complain (repeated_cover sid id) found)
      else if mem id known
      then (id ∷ seen, cover id sid found)
      else (id ∷ seen, complain (unknown_cover sid id) found)
]

unfoldable pub visit_covers :
    List RequirementId → ℕ → List RequirementId → Found → List Value → Found
unfolding visit_cover
visit_covers known sid seen found [] = found
visit_covers known sid seen found (v ∷ vs) =
    let next = visit_cover known sid seen found v in visit_covers known sid next.0 next.1 vs

-- `type(sid) is int and sid > 0`, with the number.
unfoldable pub step_number : Value → Option ℕ
step_number (int (pos (suc n))) = some (suc n)
step_number _ = none

-- `step.get("covers", [])`, where a null is an empty list; `none` where it is no list.
unfoldable pub covers_of : Fields → Option (List Value)
unfolding get_or
covers_of step = elim (get_or "covers" step (arr nil)) [ null ↦ some [] | v ↦ as_list v ]

unfoldable pub cover_step : List RequirementId → Fields → Found → Found
unfolding visit_covers covers_of step_number complain get_or
cover_step known step found = elim (step_number (get_or "id" step null)) [
  | none ↦ complain (step_id_invalid (get_or "id" step null)) found
  | some sid ↦ elim (covers_of step) [
    | none ↦ complain (covers_not_list sid) found
    | some covers ↦ visit_covers known sid [] found covers
  ]
]

unfoldable pub cover_steps : List RequirementId → List Fields → Found → Found
unfolding cover_step
cover_steps known [] found = found
cover_steps known (step ∷ steps) found = cover_steps known steps (cover_step known step found)

-- `{req_id: [] for req_id in known}`
unfoldable pub empty_mapping : List RequirementId → Dict RequirementId (List ℕ)
empty_mapping [] = []
empty_mapping (id ∷ ids) = (id, []) ∷ empty_mapping ids

pub record CoverageResult : Type 0 where
  pub valid : Bool
  pub required_ids : List RequirementId
  pub covered_ids : List RequirementId
  pub missing_ids : List RequirementId
  pub errors : List CoverageError
  pub mapping : Dict RequirementId (List ℕ)

abbrev pub has_steps : Dict RequirementId (List ℕ) → RequirementId → Bool
has_steps mapping id = not (is_empty (lookup_or id mapping []))

unfoldable pub sorted_entries : Dict RequirementId (List ℕ) → Dict RequirementId (List ℕ)
unfolding sort_with codes_le
sorted_entries mapping =
    sort_with (λ a b. codes_le a.0 b.0) (map (λ e. (e.0, sort_with leb e.1)) mapping)

unfoldable pub finish : List RequirementId → Found → CoverageResult
unfolding sort_with codes_le lookup_or sorted_entries
finish required found =
    let covered = sort_with codes_le (keep (has_steps found.mapping) required) in
    let missing = sort_with codes_le (keep (λ id. not (has_steps found.mapping id)) required) in
    let errors = found.errors ++ failure_if (not (is_empty missing)) (not_covered missing) in
    record {
      valid = is_empty errors;
      required_ids = required;
      covered_ids = covered;
      missing_ids = missing;
      errors = errors;
      mapping = sorted_entries found.mapping;
    }

unfoldable pub analyze_steps : Collected → List Fields → CoverageResult
unfolding finish cover_steps empty_mapping
analyze_steps read steps =
    let known = map (λ (r : Requirement). r.id) read.result in
    let required = map (λ (r : Requirement). r.id) (keep is_required read.result) in
    finish required
      (cover_steps known steps (record { mapping = empty_mapping known; errors = read.errors }))

unfoldable pub analyze_coverage : Fields → Option CoverageResult
unfolding analyze_steps requirements_of
analyze_coverage plan = elim (plan_steps plan) [
  | none ↦ none
  | some steps ↦ some (analyze_steps (requirements_of plan) steps)
]
