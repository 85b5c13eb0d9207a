-- ===== src/PlanGraph/Steps.antt =====
-- scripts/plan_graph.py: `_steps`, `step_index`, `explicit_graph`, `effective_dependencies`.
-- An id is a positive Python int; True is an int and equal to 1, so ids are natural numbers here.
use plan_auditor.Base.{
  ℕ, String, Bool, not, ◌&&◌, Option, none, some, List, [], ◌∷◌, map, nat_eq, mem, nodup, keep, any,
  length, is_empty, ltb, Dict, keys, put, Result, ok, err, ◌>>=◌, ◌>>◌, raise_if,
}
use plan_auditor.Json.{
  Value, null, arr, nil, Fields, get_or, has_key, positive_int, as_list, iterate, objects,
}

-- The messages of `PlanGraphError`, each with the values that it prints.
pub data GraphError : Type 0 where
  step_id_invalid : GraphError
  duplicate_step_id : ℕ → GraphError
  missing_depends_on : List ℕ → GraphError
  depends_on_not_list : ℕ → GraphError
  depends_on_not_ids : ℕ → GraphError
  duplicate_dependencies : ℕ → GraphError
  self_dependency : ℕ → GraphError
  unknown_dependencies : ℕ → List ℕ → GraphError
  dependency_cycle : List ℕ → GraphError
  outputs_not_list : Value → GraphError
  output_not_object : Value → GraphError
  output_name_invalid : Value → GraphError
  duplicate_output : Value → String → GraphError
  output_without_checks : Value → String → GraphError
  requires_not_list : Value → GraphError
  required_not_object : Value → GraphError
  required_source_invalid : Value → GraphError
  required_name_invalid : Value → GraphError
  required_repeated : Value → ℕ → String → GraphError

abbrev pub Graph : Type 0
Graph = Dict ℕ (List ℕ)

-- `_steps` on a plan. `none`: the field `steps` cannot be iterated, which is a TypeError.
unfoldable pub plan_steps : Fields → Option (List Fields)
plan_steps plan = elim (iterate (get_or "steps" plan (arr nil))) [
  | none ↦ none
  | some vs ↦ some (objects vs)
]

-- `step.get("id")`, if it is a positive int.
unfoldable pub step_id : Fields → Option ℕ
step_id step = positive_int (get_or "id" step null)

-- `int(step["id"])`, read only where `step_index` has accepted the id.
unfoldable pub sid_of : Fields → ℕ
unfolding step_id
sid_of step = elim (step_id step) [ none ↦ 0 | some sid ↦ sid ]

unfoldable pub step_ids : List Fields → List ℕ
step_ids steps = map sid_of steps

-- One round of the loop of `step_index`, and the loop.
unfoldable pub index_step : Dict ℕ Fields → Fields → Result GraphError (Dict ℕ Fields)
index_step result step = elim (step_id step) [
  | none ↦ err step_id_invalid
  | some sid ↦ do raise_if (mem sid (keys result)) (duplicate_step_id sid); ok (put sid step result)
]

unfoldable pub index_steps : Dict ℕ Fields → List Fields → Result GraphError (Dict ℕ Fields)
index_steps result [] = ok result
index_steps result (step ∷ steps) = do result' ← index_step result step; index_steps result' steps

unfoldable pub step_index : List Fields → Result GraphError (Dict ℕ Fields)
unfolding index_steps index_step
step_index steps = index_steps [] steps

unfoldable pub explicit_graph : List Fields → Bool
explicit_graph steps = any (has_key "depends_on") steps

-- The list as ids. `none`: some entry is not a positive int.
unfoldable pub positive_ids : List Value → Option (List ℕ)
positive_ids [] = some []
positive_ids (v ∷ vs) = elim (positive_int v) [
  | none ↦ none
  | some n ↦ elim (positive_ids vs) [ none ↦ none | some ns ↦ some (n ∷ ns) ]
]

-- The body of the last loop of `effective_dependencies`: the tests on one step's ids.
unfoldable pub check_ids : List ℕ → ℕ → List ℕ → Result GraphError (List ℕ)
check_ids known sid current = do
  raise_if (not (nodup current)) (duplicate_dependencies sid)
  raise_if (mem sid current) (self_dependency sid)
  let unknown = keep (λ dep. not (mem dep known)) current
  raise_if (not (is_empty unknown)) (unknown_dependencies sid unknown)
  ok current

unfoldable pub read_ids : List ℕ → ℕ → List Value → Result GraphError (List ℕ)
unfolding check_ids
read_ids known sid raw = elim (positive_ids raw) [
  | none ↦ err (depends_on_not_ids sid)
  | some current ↦ check_ids known sid current
]

unfoldable pub step_dependencies : List ℕ → Fields → Result GraphError (List ℕ)
unfolding read_ids
step_dependencies known step = elim (as_list (get_or "depends_on" step (arr nil))) [
  | none ↦ err (depends_on_not_list (sid_of step))
  | some raw ↦ read_ids known (sid_of step) raw
]

-- `deps[sid] = current` adds a new key last, since the ids differ.
unfoldable pub all_dependencies : List ℕ → List Fields → Result GraphError Graph
all_dependencies known [] = ok []
all_dependencies known (step ∷ steps) = do
  current ← step_dependencies known step
  rest ← all_dependencies known steps
  ok ((sid_of step, current) ∷ rest)

-- The steps of a plan with several steps that do not declare `depends_on`.
unfoldable pub undeclared : List Fields → List ℕ
undeclared steps = step_ids (keep (λ step. not (has_key "depends_on" step)) steps)

unfoldable pub effective_dependencies : List Fields → Result GraphError Graph
unfolding step_index all_dependencies step_dependencies undeclared step_ids sid_of
effective_dependencies steps = do
  by_id ← step_index steps
  raise_if (ltb 1 (length steps) && not (is_empty (undeclared steps)))
      (missing_depends_on (undeclared steps))
  all_dependencies (keys by_id) steps
