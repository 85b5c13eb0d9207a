-- ===== src/Sealing/Steps.antt =====
-- supervisor/sealing.py: what `check_monotonic` compares of two steps, and `_output_map`. `none` is a TypeError:
-- a value cannot be iterated.
use plan_auditor.Base.{
  String, not, Option, none, some, List, [], ◌∷◌, map, length, ltb, string_eq, if◌then◌else◌,
  same_set, Dict, keys, lookup, put,
}
use plan_auditor.Json.{
  Value, null, arr, obj, nil, Fields, get_or, as_text, iterate, objects, truthy, without, py_eq,
}
use plan_auditor.PlanContract.{checks_of}
use plan_auditor.Sealing.Multisets.{multiset_contains, same_multiset}
use plan_auditor.Sealing.Changes.{
  Violation, title_changed, check_removed, dependency_removed, required_output_removed,
  coverage_changed, output_scope_changed, output_metadata_changed, output_weakened, Improvement,
  checks_increased, dependencies_tightened, required_outputs_increased, output_checks_increased,
  Changes, unchanged, violation, improvement, join_changes, violation_if,
}

-- `value or []`
unfoldable pub or_empty : Value → Value
unfolding truthy
or_empty v = if truthy v then v else arr nil

-- `list(d.get(k) or [])`
unfoldable pub listed : String → Fields → Option (List Value)
unfolding or_empty iterate get_or
listed k fs = iterate (or_empty (get_or k fs null))

-- Both changes, where both comparisons return.
unfoldable pub both : Option Changes → Option Changes → Option Changes
unfolding join_changes
both none d = none
both (some c) none = none
both (some c) (some d) = some (join_changes c d)

-- The three tests that allow a list to grow.
unfoldable pub may_grow : Violation → Improvement → List Value → List Value → Changes
unfolding multiset_contains
may_grow bad good before after =
    if not (multiset_contains before after)
    then violation bad
    else if ltb (length before) (length after)
    then improvement good
    else unchanged

unfoldable pub compare_lists :
    (List Value → List Value → Changes) → Option (List Value) → Option (List Value) → Option Changes
compare_lists test none after = none
compare_lists test (some before) none = none
compare_lists test (some before) (some after) = some (test before after)

-- The checks of a step or an output, as documents.
unfoldable pub checks : Fields → Option (List Value)
unfolding checks_of
checks fs = elim (checks_of fs) [ none ↦ none | some cs ↦ some (map obj cs) ]

unfoldable pub enter_output : Dict String Fields → Fields → Dict String Fields
unfolding put as_text get_or
enter_output result item = elim (as_text (get_or "name" item null)) [
  | none ↦ result
  | some name ↦ put name item result
]

unfoldable pub enter_outputs : Dict String Fields → List Fields → Dict String Fields
unfolding enter_output
enter_outputs result [] = result
enter_outputs result (item ∷ rest) = enter_outputs (enter_output result item) rest

-- `_output_map`
unfoldable pub output_map : Fields → Option (Dict String Fields)
unfolding enter_outputs or_empty iterate objects get_or
output_map step = elim (iterate (or_empty (get_or "outputs" step (arr nil)))) [
  | none ↦ none
  | some vs ↦ some (enter_outputs [] (objects vs))
]

-- The body of the loop over the outputs of a step.
unfoldable pub compare_output : Value → String → Fields → Fields → Option Changes
unfolding both checks without py_eq
compare_output sid name before after =
    both
      (some (
        violation_if (not (py_eq (obj (without "verify" before)) (obj (without "verify" after))))
          (output_metadata_changed sid name)))
      (compare_lists (may_grow (output_weakened sid name) (output_checks_increased sid name))
        (checks before) (checks after))

unfoldable pub compare_outputs : Value → Dict String Fields → Dict String Fields → Option Changes
unfolding compare_output lookup both
compare_outputs sid [] after = some unchanged
compare_outputs sid ((name, output) ∷ rest) after =
    let others = compare_outputs sid rest after in
    elim (lookup name after) [
      | none ↦ others
      | some now ↦ both (compare_output sid name output now) others
    ]

unfoldable pub compare_output_maps :
    Value → Option (Dict String Fields) → Option (Dict String Fields) → Option Changes
unfolding compare_outputs same_set violation_if
compare_output_maps sid none after = none
compare_output_maps sid (some before) none = none
compare_output_maps sid (some before) (some after) =
    both
      (some (violation_if (not (same_set (keys after) (keys before))) (output_scope_changed sid)))
      (compare_outputs sid before after)

-- The body of the loop over the steps, behind the lookup.
unfoldable pub compare_step : Value → Fields → Fields → Option Changes
unfolding both violation_if compare_lists may_grow checks listed same_multiset output_map
    compare_output_maps py_eq
compare_step sid step current =
    both
      (some (
        violation_if (not (py_eq (get_or "title" step null) (get_or "title" current null)))
          (title_changed sid)))
      (both
        (compare_lists (may_grow (check_removed sid) (checks_increased sid)) (checks step)
          (checks current))
        (both
          (compare_lists (may_grow (dependency_removed sid) (dependencies_tightened sid))
            (listed "depends_on" step) (listed "depends_on" current))
          (both
            (compare_lists (may_grow (required_output_removed sid) (required_outputs_increased sid))
              (listed "requires_outputs" step) (listed "requires_outputs" current))
            (both
              (compare_lists
                (λ before after.
                  violation_if (not (same_multiset before after)) (coverage_changed sid))
                (listed "covers" step) (listed "covers" current))
              (compare_output_maps sid (output_map step) (output_map current))))))
