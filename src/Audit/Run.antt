-- ===== src/Audit/Run.antt =====
-- scripts/audit_check.py: `_prerequisite_gate` and `audit_steps`. The status that a call gives a step is
-- held beside the step's dict. Printing is left out, and so are failures of the disk.
use plan_auditor.Base.{
  ℕ, String, Bool, true, false, ◌&&◌, ◌||◌, Option, none, some, List, [], ◌∷◌, nat_eq, string_eq,
  pair_eq, if◌then◌else◌, mem, Dict, lookup, lookup_or, ok, err,
}
use plan_auditor.Json.{Value, null, bool, str, arr, ℤ, int_eq, Fields, end, field, get_or, is_text}
use plan_auditor.PlanGraph.Steps.{Graph}
use plan_auditor.PlanGraph.Outputs.{Ref, output_index}
use plan_auditor.PlanContract.{object_items}
use plan_auditor.Audit.Records.{nat, AuditMode, is_audit, Prerequisites}

-- What a call of `audit_steps` holds fixed: `by_id`, `deps` and `selected`, the plan's key, the failed
-- attempts so far and the fingerprint at the start.
pub record Job : Type 0 where
  pub mode : AuditMode
  pub key : String
  pub by_id : Dict ℕ Fields
  pub deps : Graph
  pub selected : List ℕ
  pub max_attempts : ℕ
  pub force : Bool
  pub failed_attempts : Dict (String × ℤ) ℕ
  pub baseline : String

-- What it changes: the files, the steps' statuses, the records appended, `passed_this_run` and `all_ok`.
pub record Run (W : Type 0) : Type 0 where
  pub world : W
  pub statuses : Dict ℕ String
  pub log : List Fields
  pub passed : Dict ℕ Bool
  pub all_ok : Bool

-- A round of the loop goes on, leaves the loop or raises.
pub data Round (W : Type 0) : Type 0 where
  next : Run W → Round W
  leave : Run W → Round W
  raised : Round W

-- `step.get("status")`
unfoldable pub status_of : Dict ℕ String → ℕ → Fields → Value
unfolding lookup get_or
status_of statuses sid step = elim (lookup sid statuses) [
  | none ↦ get_or "status" step null
  | some status ↦ str status
]

unfoldable pub step_of : Job → ℕ → Fields
unfolding lookup_or
step_of job sid = lookup_or sid job.by_id end

unfoldable pub has_passed : Dict ℕ Bool → ℕ → Bool
unfolding lookup_or
has_passed passed sid = lookup_or sid passed false

module _ {W : Type 0} (job : Job) where
  -- In a full audit and for the selected steps only this call counts.
  unfoldable pub dependency_ok : Run W → ℕ → Bool
  unfolding mem has_passed status_of step_of is_text
  dependency_ok r dep =
      if is_audit job.mode || mem dep job.selected
      then has_passed r.passed dep
      else is_text "verified" (status_of r.statuses dep (step_of job dep))

  unfoldable pub dependency_result : Run W → ℕ → Fields
  unfolding dependency_ok mem
  dependency_result r dep = field "step" (nat dep) (
      field "passed" (bool (dependency_ok r dep)) (
        field "source"
          (str (
            if is_audit job.mode || mem dep job.selected
            then "current_pass"
            else "persisted_status"))
          end))

  unfoldable pub dependencies_ok : Run W → List ℕ → Bool
  unfolding dependency_ok
  dependencies_ok r [] = true
  dependencies_ok r (dep ∷ deps) = dependency_ok r dep && dependencies_ok r deps

unfoldable pub required_result : ℕ → String → Bool → List Fields → Fields
unfolding object_items
required_result source name passed results = field "step" (nat source) (
    field "name" (str name)
      (field "passed" (bool passed) (field "results" (arr (object_items results)) end)))

-- `by_id[source]`, and the contract of that name there; `none` is a KeyError or a PlanGraphError.
unfoldable pub contract_of : Dict ℕ Fields → Ref → Option Fields
unfolding lookup
contract_of by_id (source, name) = elim (lookup source by_id) [
  | none ↦ none
  | some step ↦ elim (output_index step) [ err e ↦ none | ok outputs ↦ lookup name outputs ]
]

-- The gate's result, the results of the required outputs and the files behind it.
pub record GateResult (W : Type 0) : Type 0 where
  pub ok_all : Bool
  pub prerequisites : Prerequisites
  pub world : W
