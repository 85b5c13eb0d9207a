-- ===== src/Audit/Records.antt =====
-- scripts/audit_check.py: the records that `audit_steps` appends to the evidence, without the chain that
-- `append_evidence` adds, and the fingerprint of a plan.
use plan_auditor.Base.{ℕ, String, Bool, true, false, List, [], ◌∷◌, map}
use plan_auditor.Json.{
  Value, null, int, str, arr, obj, pos, Items, nil, cons, Fields, end, field, get, get_or, utf8,
}
use plan_auditor.PlanContract.{object_items, traffic_entry}
use plan_auditor.Evidence.Chain.{evidence_json}

abbrev pub nat : ℕ → Value
nat n = int (pos n)

unfoldable pub id_items : List ℕ → Items
id_items [] = nil
id_items (n ∷ ns) = cons (nat n) (id_items ns)

pub data AuditMode : Type 0 where
  run_mode audit_mode : AuditMode

abbrev pub mode_text : AuditMode → String
mode_text run_mode = "run"
mode_text audit_mode = "audit"

abbrev pub is_audit : AuditMode → Bool
is_audit run_mode = false
is_audit audit_mode = true

-- "verified" or "failed".
abbrev pub verdict_text : Bool → String
verdict_text true = "verified"
verdict_text false = "failed"

unfoldable pub base_record : String → String → String → ℕ → Fields → Fields
base_record ts mode key sid rest =
    field "ts" (str ts)
      (field "mode" (str mode) (field "plan" (str key) (field "step" (nat sid) rest)))

-- The record of a workspace that changed between two steps, and at the end.
unfoldable pub step_guard_record : String → String → ℕ → Fields
unfolding base_record
step_guard_record ts key sid = base_record ts "audit_guard" key sid (
    field "results" (arr nil) (
      field "status" (str "failed")
        (field "reason" (str "workspace changed between final-audit steps") end)))

unfoldable pub final_guard_record : String → String → String → String → Fields
unfolding base_record
final_guard_record ts key before after = base_record ts "audit_guard" key 0 (
    field "results" (arr nil) (
      field "status" (str "failed") (
        field "reason" (str "workspace changed during complete final audit")
          (field "before" (str before) (field "after" (str after) end)))))

-- What `_prerequisite_gate` gives for a step: the dependencies, and the results as documents.
pub record Prerequisites : Type 0 where
  pub deps : List ℕ
  pub dependency_results : List Fields
  pub required : List Fields

unfoldable pub gate_fields : Prerequisites → Fields → Fields
unfolding id_items object_items
gate_fields g rest = field "dependencies" (arr (id_items g.deps)) (
    field "dependency_results" (arr (object_items g.dependency_results))
      (field "required_outputs" (arr (object_items g.required)) rest))

unfoldable pub blocked_record : String → String → String → ℕ → Prerequisites → Fields
unfolding base_record gate_fields
blocked_record ts mode key sid g = base_record ts mode key sid (
    gate_fields g (
      field "outputs" (arr nil) (
        field "results" (arr nil) (
          field "status" (str "blocked") (
            field "reason"
              (str "prerequisite step or required output is not independently verified") end)))))

-- The `attempt` entry is written in run mode alone.
unfoldable pub attempt_entry : AuditMode → ℕ → Fields
attempt_entry run_mode attempt = field "attempt" (nat attempt) end
attempt_entry audit_mode attempt = end

unfoldable pub step_record :
    String → AuditMode → String → ℕ → Prerequisites → List Fields → List Fields → Bool → ℕ → Fields
unfolding base_record gate_fields object_items attempt_entry
step_record ts mode key sid g outputs results passed attempt =
    base_record ts (mode_text mode) key sid (
      gate_fields g (
        field "outputs" (arr (object_items outputs)) (
          field "results" (arr (object_items results))
            (field "status" (str (verdict_text passed)) (attempt_entry mode attempt)))))

-- The fingerprint of a plan's contract: the fields that `plan_contract_fingerprint` reads.
unfoldable pub fingerprint_step : Fields → Fields
unfolding get_or
fingerprint_step step = field "id" (get_or "id" step null) (
    field "title" (get_or "title" step null) (
      field "depends_on" (get_or "depends_on" step null) (
        field "requires_outputs" (get_or "requires_outputs" step (arr nil)) (
          field "outputs" (get_or "outputs" step (arr nil)) (
            field "covers" (get_or "covers" step (arr nil))
              (field "verify" (get_or "verify" step (arr nil)) end))))))

unfoldable pub contract_of_prints : Fields → List Fields → Fields
unfolding get get_or object_items traffic_entry
contract_of_prints plan prints = field "contract_version" (nat 3) (
    field "task" (get_or "task" plan null) (
      field "requirements" (get_or "requirements" plan null) (
        field "required_tools" (get_or "required_tools" plan (arr nil))
          (field "steps" (arr (object_items prints)) (traffic_entry (get "traffic" plan))))))

unfoldable pub fingerprint_contract : Fields → List Fields → Fields
unfolding contract_of_prints fingerprint_step
fingerprint_contract plan steps = contract_of_prints plan (map fingerprint_step steps)

-- The plan's fields, and the dicts of its `steps`. `evidence_json` is `canonical`.
unfoldable pub plan_contract_fingerprint : (List ℕ → String) → Fields → List Fields → String
unfolding fingerprint_contract evidence_json utf8
plan_contract_fingerprint sha256 plan steps =
    sha256 (utf8 (evidence_json (obj (fingerprint_contract plan steps))))

-- `complete` is the last record of a full audit.
unfoldable pub complete_record : String → String → Bool → ℕ → List ℕ → String → String → Fields
unfolding base_record id_items
complete_record ts key passed count order plan_print workspace_print =
    base_record ts "audit_complete" key 0 (
      field "results" (arr nil) (
        field "status" (str (verdict_text passed)) (
          field "steps" (nat count) (
            field "topological_order" (arr (id_items order)) (
              field "plan_fingerprint" (str plan_print)
                (field "workspace_fingerprint" (str workspace_print) end))))))
