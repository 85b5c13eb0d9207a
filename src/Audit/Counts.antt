-- ===== src/Audit/Counts.antt =====
-- scripts/audit_check.py: `failed_attempt_counts`, the graph that `audit_steps` reads first, the index of the
-- steps and the statuses that are saved. A file is its lines as `_strict_external_json`
-- reads them.
use plan_auditor.Base.{
  ℕ, ◌+◌, String, not, Option, none, some, List, [], ◌∷◌, nat_eq, string_eq, pair_eq, if◌then◌else◌,
  is_empty, Dict, lookup, lookup_or, put, map, ok, err,
}
use plan_auditor.Json.{
  Value, null, int, str, ℤ, int_eq, Fields, get_or, as_object, as_text, is_text, set_field,
}
use plan_auditor.PlanGraph.Steps.{Graph, effective_dependencies, sid_of}
use plan_auditor.PlanGraph.Order.{topological_order}
use plan_auditor.PlanGraph.Outputs.{validate_output_links}
use plan_auditor.Evidence.Chain.{Line, blank, not_json, json, File}

-- `isinstance(step, int) and not isinstance(step, bool)`
unfoldable pub plain_int : Value → Option ℤ
plain_int (int n) = some n
plain_int _ = none

abbrev pub AttemptCounts : Type 0
AttemptCounts = Dict (String × ℤ) ℕ

-- `counts[key] = counts.get(key, 0) + 1`
unfoldable pub count_attempt : String × ℤ → AttemptCounts → AttemptCounts
unfolding put lookup_or
count_attempt key counts = put key (lookup_or key counts 0 + 1) counts

-- The plan and the step of a record that counts.
unfoldable pub failed_attempt : String → Fields → Option (String × ℤ)
unfolding is_text get_or plain_int as_text
failed_attempt mode rec =
    if not (is_text mode (get_or "mode" rec null))
    then none
    else if not (is_text "failed" (get_or "status" rec null))
    then none
    else elim (plain_int (get_or "step" rec null)) [
      | none ↦ none
      | some step ↦ elim (as_text (get_or "plan" rec (str "default"))) [
        | none ↦ none
        | some plan ↦ some (plan, step)
      ]
    ]

unfoldable pub count_record : String → Fields → AttemptCounts → AttemptCounts
unfolding failed_attempt count_attempt
count_record mode rec counts = elim (failed_attempt mode rec) [
  | none ↦ counts
  | some key ↦ count_attempt key counts
]

-- The loop over one file. `none` is a ValueError.
unfoldable pub count_file : String → List Line → AttemptCounts → Option AttemptCounts
unfolding count_record as_object
count_file mode [] counts = some counts
count_file mode (blank ∷ lines) counts = count_file mode lines counts
count_file mode (not_json ∷ lines) counts = none
count_file mode (json v ∷ lines) counts = elim (as_object v) [
  | none ↦ none
  | some rec ↦ count_file mode lines (count_record mode rec counts)
]

unfoldable pub count_files : String → List File → AttemptCounts → Option AttemptCounts
unfolding count_file
count_files mode [] counts = some counts
count_files mode (none ∷ files) counts = count_files mode files counts
count_files mode (some lines ∷ files) counts = elim (count_file mode lines counts) [
  | none ↦ none
  | some counts' ↦ count_files mode files counts'
]

-- The archives and then the active file.
unfoldable pub failed_attempt_counts : List File → String → Option AttemptCounts
unfolding count_files
failed_attempt_counts files mode = count_files mode files []

unfoldable pub count_failed_attempts : List File → ℤ → String → String → Option ℕ
unfolding failed_attempt_counts lookup_or
count_failed_attempts files sid plan mode = elim (failed_attempt_counts files mode) [
  | none ↦ none
  | some counts ↦ some (lookup_or (plan, sid) counts 0)
]

-- The `try` block: the order and the dependencies of a plan whose links are valid.
unfoldable pub read_graph : List Fields → Option (List ℕ × Graph)
read_graph steps = elim (topological_order steps) [
  | err e ↦ none
  | ok order ↦ elim (effective_dependencies steps) [
    | err e ↦ none
    | ok deps ↦ if is_empty (validate_output_links steps) then some (order, deps) else none
  ]
]

-- `{step["id"]: step for step in plan["steps"] if isinstance(step, dict)}`, of valid ids.
unfoldable pub index_into : Dict ℕ Fields → List Fields → Dict ℕ Fields
unfolding put sid_of
index_into result [] = result
index_into result (step ∷ steps) = index_into (put (sid_of step) step result) steps

unfoldable pub index_all : List Fields → Dict ℕ Fields
unfolding index_into
index_all steps = index_into [] steps

-- A step with the status that a call gave it, and the steps that `save_plan` stores.
unfoldable pub saved_step : Dict ℕ String → Fields → Fields
unfolding lookup set_field sid_of
saved_step statuses step = elim (lookup (sid_of step) statuses) [
  | none ↦ step
  | some status ↦ set_field "status" (str status) step
]

unfoldable pub saved_steps : Dict ℕ String → List Fields → List Fields
unfolding saved_step
saved_steps statuses steps = map (saved_step statuses) steps
