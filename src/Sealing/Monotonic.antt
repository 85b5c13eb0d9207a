-- ===== src/Sealing/Monotonic.antt =====
-- supervisor/sealing.py: `check_monotonic`, `_traffic_scope` and `check_environment`. `none` is a TypeError: a
-- value cannot be iterated, or an id is no key of a dict. The texts of hosts are normalized by `str.strip` and
-- `str.lower`, which are a parameter.
use plan_auditor.Base.{
  String, Bool, true, false, not, ◌&&◌, Option, none, some, List, [], ◌∷◌, string_eq, if◌then◌else◌,
  add,
}
use plan_auditor.Json.{
  Value, null, str, arr, obj, nil, cons, Items, Fields, end, get_or, as_text, as_list, truthy,
  set_field, py_eq, sort_texts,
}
use plan_auditor.PlanGraph.Steps.{plan_steps}
use plan_auditor.Sealing.Multisets.{same_multiset}
use plan_auditor.Sealing.Changes.{
  step_scope_changed, task_changed, requirement_scope_changed, requirements_changed,
  tool_scope_changed, traffic_scope_changed, step_removed, environment_changed, MonotonicCheck,
  Changes, unchanged, violation, violation_if, judged,
}
use plan_auditor.Sealing.Steps.{listed, both, compare_lists, compare_step}

-- A dict of steps by their ids.
abbrev pub StepMap : Type 0
StepMap = List (Value × Fields)

abbrev pub hashable : Value → Bool
hashable (arr xs) = false
hashable (obj fs) = false
hashable _ = true

unfoldable pub find_step : Value → StepMap → Option Fields
unfolding py_eq
find_step sid [] = none
find_step sid ((k, step) ∷ steps) = if py_eq sid k then some step else find_step sid steps

unfoldable pub put_step : Value → Fields → StepMap → StepMap
unfolding py_eq
put_step sid step [] = (sid, step) ∷ []
put_step sid step ((k, old) ∷ steps) =
    let rest = put_step sid step steps in if py_eq sid k then (k, step) ∷ steps else (k, old) ∷ rest

abbrev pub id_of : Fields → Value
id_of step = get_or "id" step null

-- `{s.get("id"): s for s in steps}`
unfoldable pub step_map : StepMap → List Fields → Option StepMap
unfolding put_step
step_map found [] = some found
step_map found (step ∷ steps) =
    let rest = step_map (put_step (id_of step) step found) steps in
    if hashable (id_of step) then rest else none

unfoldable pub same_ids : List Fields → List Fields → Bool
unfolding py_eq
same_ids [] [] = true
same_ids (step ∷ steps) (other ∷ others) = py_eq (id_of step) (id_of other) && same_ids steps others
same_ids _ _ = false

-- The loop over the steps.
unfoldable pub compare_steps : StepMap → StepMap → Option Changes
unfolding find_step compare_step both
compare_steps [] after = some unchanged
compare_steps ((sid, step) ∷ before) after =
    let rest = compare_steps before after in
    elim (find_step sid after) [
      | none ↦ both (some (violation (step_removed sid))) rest
      | some current ↦ both (compare_step sid step current) rest
    ]

unfoldable pub compare_step_maps : Option StepMap → Option StepMap → Option Changes
unfolding compare_steps
compare_step_maps none after = none
compare_step_maps (some before) none = none
compare_step_maps (some before) (some after) = compare_steps before after

unfoldable pub compare_requirements : Value → Value → Changes
unfolding violation_if same_multiset as_list py_eq
compare_requirements before after = elim (as_list before) [
  | none ↦ violation_if (not (py_eq before after)) requirements_changed
  | some xs ↦ elim (as_list after) [
    | none ↦ violation_if (not (py_eq before after)) requirements_changed
    | some ys ↦ violation_if (not (same_multiset xs ys)) requirement_scope_changed
  ]
]

unfoldable pub text_items : List String → Items
text_items [] = nil
text_items (t ∷ ts) = cons (str t) (text_items ts)

module _ (normal_host : String → String) where
  -- The set of the normalized texts of a list.
  unfoldable pub host_set : List Value → List String
  unfolding add as_text
  host_set [] = []
  host_set (v ∷ vs) =
      let rest = host_set vs in
      elim (as_text v) [ none ↦ rest | some host ↦ add (normal_host host) rest ]

  unfoldable pub traffic_scope : Value → Value
  unfolding host_set set_field sort_texts text_items as_list get_or
  traffic_scope (obj fs) = elim (as_list (get_or "allowed_hosts" fs null)) [
    | none ↦ obj fs
    | some hosts ↦
        obj (set_field "allowed_hosts" (arr (text_items (sort_texts (host_set hosts)))) fs)
  ]
  traffic_scope v = v

  -- The requirements, the tools and the traffic.
  unfoldable pub compare_scopes : Fields → Fields → Option Changes
  unfolding both violation_if compare_requirements compare_lists listed same_multiset traffic_scope
      py_eq
  compare_scopes before after =
      both
        (some (
          compare_requirements (get_or "requirements" before null)
            (get_or "requirements" after null)))
        (both
          (compare_lists (λ xs ys. violation_if (not (same_multiset xs ys)) tool_scope_changed)
            (listed "required_tools" before) (listed "required_tools" after))
          (some (
            violation_if
              (not (
                py_eq (traffic_scope (get_or "traffic" before null))
                  (traffic_scope (get_or "traffic" after null))))
              traffic_scope_changed)))

  unfoldable pub compare_plans : Fields → Fields → List Fields → List Fields → Option Changes
  unfolding both violation_if same_ids step_map compare_step_maps compare_scopes py_eq
  compare_plans before after before_steps after_steps =
      both (some (violation_if (not (same_ids after_steps before_steps)) step_scope_changed)) (
        both (compare_step_maps (step_map [] before_steps) (step_map [] after_steps)) (
          both
            (some (
              violation_if (not (py_eq (get_or "task" before null) (get_or "task" after null)))
                task_changed))
            (compare_scopes before after)))

  unfoldable pub check_monotonic : Fields → Fields → Option MonotonicCheck
  unfolding plan_steps compare_plans judged
  check_monotonic before after = elim (plan_steps before) [
    | none ↦ none
    | some before_steps ↦ elim (plan_steps after) [
      | none ↦ none
      | some after_steps ↦ elim (compare_plans before after before_steps after_steps) [
        | none ↦ none
        | some changes ↦ some (judged changes)
      ]
    ]
  ]

-- What the check says of the environment of a seal, which may be null.
unfoldable pub check_environment : Value → Value → MonotonicCheck
unfolding truthy py_eq judged violation_if
check_environment sealed current =
    let expected = if truthy sealed then sealed else obj end in
    judged (violation_if (not (py_eq expected current)) (environment_changed expected current))
