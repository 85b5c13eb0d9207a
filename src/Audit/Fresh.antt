-- ===== src/Audit/Fresh.antt =====
-- supervisor/orchestrator.py: `fresh_full_audit_proof`. The verdict of `verify_chain`, the archives and the
-- present fingerprint of the workspace are a record; `sha256` and the arguments of `norm_check` are
-- parameters.
use plan_auditor.Base.{
  ℕ, String, Bool, true, false, not, ◌&&◌, ◌||◌, Option, none, some, List, [], ◌∷◌, ◌++◌, nat_eq,
  string_eq, ◌==◌, if◌then◌else◌, is_empty, length, ltb, Dict, lookup_or, ok, err,
}
use plan_auditor.Json.{Value, null, str, arr, Fields, end, get_or, is_text, py_eq}
use plan_auditor.PlanGraph.Steps.{GraphError, Graph, effective_dependencies}
use plan_auditor.PlanGraph.Order.{topological_order}
use plan_auditor.Evidence.Chain.{File}
use plan_auditor.Evidence.Archives.{ArchiveManifest, verify_anchor_chain}
use plan_auditor.Audit.Records.{nat, id_items, plan_contract_fingerprint}
use plan_auditor.Audit.Counts.{index_all}
use plan_auditor.Audit.Proof.{iter_evidence_records, checks_match}

-- The reasons of a `FreshAuditProof` that is not valid.
pub data Stale : Type 0 where
  chain_invalid not_anchored no_steps no_marker audit_failed order_changed contract_changed
        workspace_changed incomplete wrong_steps :
      Stale
  graph_invalid : GraphError → Stale
  step_mismatch : ℕ → Stale

-- A valid proof has the time of the marker and the number of steps.
pub data FreshAuditProof : Type 0 where
  invalid : Stale → FreshAuditProof
  valid : Value → ℕ → FreshAuditProof

-- `deque(maxlen=n)`: a record more drops the oldest.
unfoldable pub drop_first : List Fields → List Fields
drop_first [] = []
drop_first (x ∷ xs) = xs

unfoldable pub push_bounded : ℕ → Fields → List Fields → List Fields
unfolding drop_first
push_bounded n x xs =
    let grown = xs ++ x ∷ [] in if ltb n (length grown) then drop_first grown else grown

-- The pending records of the audit, the candidate and the last marker.
pub record Scan : Type 0 where
  pub pending : List Fields
  pub candidate : List Fields
  pub marker : Option Fields

unfoldable pub scan_record : ℕ → String → Scan → Fields → Scan
unfolding get_or is_text push_bounded
scan_record n plan_name s rec =
    let mode = get_or "mode" rec null in
    if not (is_text plan_name (get_or "plan" rec (str "default")))
    then s
    else if is_text "audit_complete" mode
    then record s { marker = some rec; candidate = s.pending }
    else if is_text "audit" mode
    then record s { pending = push_bounded n rec s.pending }
    else s

unfoldable pub scan_records : ℕ → String → Scan → List Fields → Scan
unfolding scan_record
scan_records n plan_name s [] = s
scan_records n plan_name s (rec ∷ recs) =
    scan_records n plan_name (scan_record n plan_name s rec) recs

unfoldable pub empty_scan : Scan
empty_scan = record { pending = []; candidate = []; marker = none }

-- `[record.get("step") for record in candidate] != order`
unfoldable pub names_steps : List Fields → List ℕ → Bool
unfolding get_or py_eq
names_steps [] [] = true
names_steps (rec ∷ recs) (sid ∷ sids) =
    py_eq (get_or "step" rec null) (nat sid) && names_steps recs sids
names_steps _ _ = false

-- What the workspace holds when the proof is asked for.
pub record Workspace : Type 0 where
  pub chain_ok : Bool
  pub archives : ArchiveManifest
  pub files : List File
  pub print : String

module _ (sha256 : List ℕ → String) (split : String → Option (List String)) (python : String) where
  -- The tests of the marker, in their order.
  unfoldable pub marker_problem : Fields → List Fields → List ℕ → String → Fields → Option Stale
  unfolding get_or is_text py_eq id_items plan_contract_fingerprint
  marker_problem plan steps order print marker =
      if not (is_text "verified" (get_or "status" marker null))
      then some audit_failed
      else if not (py_eq (get_or "topological_order" marker null) (arr (id_items order)))
      then some order_changed
      else if not (
          is_text (plan_contract_fingerprint sha256 plan steps)
            (get_or "plan_fingerprint" marker null))
      then some contract_changed
      else if not (is_text print (get_or "workspace_fingerprint" marker null))
      then some workspace_changed
      else none

  -- The step's record is verified and matches. `none` is an exception.
  unfoldable pub step_proven : Dict ℕ Fields → Graph → ℕ → Fields → Option Bool
  unfolding get_or is_text checks_match lookup_or
  step_proven by_id deps sid rec =
      if is_text "verified" (get_or "status" rec null)
      then checks_match split python by_id (lookup_or sid by_id end) rec (lookup_or sid deps [])
      else some false

  -- The last loop: the first step that its record does not prove.
  unfoldable pub first_unproven : Dict ℕ Fields → Graph → List ℕ → List Fields → Option (Option ℕ)
  unfolding step_proven
  first_unproven by_id deps (sid ∷ sids) (rec ∷ recs) = elim (step_proven by_id deps sid rec) [
    | none ↦ none
    | some false ↦ some (some sid)
    | some true ↦ first_unproven by_id deps sids recs
  ]
  first_unproven by_id deps _ _ = some none

  unfoldable pub judge_candidate :
      Dict ℕ Fields → Graph → List ℕ → List Fields → Fields → Option FreshAuditProof
  unfolding names_steps first_unproven get_or
  judge_candidate by_id deps order candidate marker =
      if ltb (length candidate) (length order)
      then some (invalid incomplete)
      else if not (names_steps candidate order)
      then some (invalid wrong_steps)
      else elim (first_unproven by_id deps order candidate) [
        | none ↦ none
        | some (some sid) ↦ some (invalid (step_mismatch sid))
        | some none ↦ some (valid (get_or "ts" marker null) (length order))
      ]

  unfoldable pub judge_scan :
      Fields → List Fields → List ℕ → Graph → String → Scan → Option FreshAuditProof
  unfolding marker_problem judge_candidate index_all
  judge_scan plan steps order deps print s = elim s.marker [
    | none ↦ some (invalid no_marker)
    | some marker ↦ elim (marker_problem plan steps order print marker) [
      | some reason ↦ some (invalid reason)
      | none ↦ judge_candidate (index_all steps) deps order s.candidate marker
    ]
  ]

  unfoldable pub prove_graph :
      Fields → List Fields → String → Workspace → List ℕ → Graph → Option FreshAuditProof
  unfolding judge_scan scan_records iter_evidence_records empty_scan index_all
  prove_graph plan steps plan_name ws order deps =
      if is_empty order || not (length (index_all steps) == length order)
      then some (invalid no_steps)
      else judge_scan plan steps order deps ws.print
          (scan_records (length order) plan_name empty_scan (iter_evidence_records ws.files))

  -- `steps` are the dicts of the plan's field `steps`.
  unfoldable pub fresh_full_audit_proof :
      Fields → List Fields → String → Workspace → Option FreshAuditProof
  unfolding verify_anchor_chain prove_graph
  fresh_full_audit_proof plan steps plan_name ws =
      if not ws.chain_ok
      then some (invalid chain_invalid)
      else if not (verify_anchor_chain ws.archives).is_anchored
      then some (invalid not_anchored)
      else elim (topological_order steps) [
        | err e ↦ some (invalid (graph_invalid e))
        | ok order ↦ elim (effective_dependencies steps) [
          | err e ↦ some (invalid (graph_invalid e))
          | ok deps ↦ prove_graph plan steps plan_name ws order deps
        ]
      ]
