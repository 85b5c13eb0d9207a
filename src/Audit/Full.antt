-- ===== src/Audit/Full.antt =====
-- scripts/audit_check.py: `audit_steps`. What `_runtime_limits` gives is an argument; `none` stands for its
-- ValueError.
use plan_auditor.Base.{
  ℕ, String, Bool, true, false, not, ◌&&◌, Option, none, some, List, [], nat_eq, string_eq, pair_eq,
  ◌==◌, if◌then◌else◌, is_empty, length, diff, mem, keep, keys,
}
use plan_auditor.Json.{Value, int_eq, Fields, objects}
use plan_auditor.Evidence.Chain.{File}
use plan_auditor.Audit.Checks.{System}
use plan_auditor.Audit.Records.{
  AuditMode, run_mode, audit_mode, is_audit, complete_record, final_guard_record,
  plan_contract_fingerprint,
}
use plan_auditor.Audit.Run.{Job, Run}
use plan_auditor.Audit.Visit.{append_record, visit_steps}
use plan_auditor.Audit.Counts.{AttemptCounts, failed_attempt_counts, index_all, read_graph}

-- The arguments of a call: `ids` is None or a list of ids.
pub record AuditRequest : Type 0 where
  pub mode : AuditMode
  pub ids : Option (List ℕ)
  pub key : String
  pub force : Bool

-- `set(order)`, or the ids asked for.
unfoldable pub selection : AuditRequest → List ℕ → List ℕ
selection req order = elim req.ids [
  | none ↦ order
  | some ids ↦ if is_audit req.mode then order else ids
]

-- `not selected`, where ids are given.
unfoldable pub asks_nothing : AuditRequest → Bool
asks_nothing req = elim req.ids [
  | none ↦ false
  | some ids ↦ not (is_audit req.mode) && is_empty ids
]

-- The call returns False at once, exits at unknown ids, raises, or runs and returns `all_ok`.
pub data Audited (W : Type 0) : Type 0 where
  refused exits crashed : Audited W
  returned : Bool → Run W → Audited W

unfoldable pub start : {W : Type 0} → W → Run W
start w = record { world = w; statuses = []; log = []; passed = []; all_ok = true }

-- `failed_attempt_counts` is called in run mode.
unfoldable pub attempts_for : AuditMode → List File → Option AttemptCounts
unfolding failed_attempt_counts
attempts_for run_mode files = failed_attempt_counts files "run"
attempts_for audit_mode files = some []

module _ (sha256 : List ℕ → String) {W : Type 0} (sys : System W) where
  -- The files differ from those at the start.
  unfoldable pub guard_audit : Job → String → Run W → Run W
  unfolding append_record final_guard_record
  guard_audit job final r =
      if final == job.baseline
      then r
      else append_record sys job (λ ts. final_guard_record ts job.key job.baseline final)
          (record r { all_ok = false })

  -- The plan's steps may hold more than dicts; `count` is their number.
  unfoldable pub complete_audit : Job → Fields → List Fields → ℕ → List ℕ → String → Run W → Run W
  unfolding append_record complete_record plan_contract_fingerprint
  complete_audit job plan steps count order final r =
      append_record sys job
        (λ ts.
          complete_record ts job.key r.all_ok count order
            (plan_contract_fingerprint sha256 plan steps) final)
        r

  -- The records at the end of a full audit.
  unfoldable pub close_audit : Job → Fields → List Fields → ℕ → List ℕ → Run W → Run W
  unfolding guard_audit complete_audit
  close_audit job plan steps count order r =
      let final = sys.fingerprint r.world in
      complete_audit job plan steps count order final (guard_audit job final r)

  unfoldable pub finish_audit : Job → Fields → List Fields → ℕ → List ℕ → Run W → Audited W
  unfolding close_audit
  finish_audit job plan steps count order r =
      let final = if is_audit job.mode then close_audit job plan steps count order r else r in
      returned final.all_ok final

  unfoldable pub run_job : Job → Fields → List Fields → ℕ → List ℕ → W → Audited W
  unfolding visit_steps finish_audit mem start
  run_job job plan steps count order w =
      elim (visit_steps sys job (keep (λ sid. mem sid job.selected) order) (start w)) [
        | none ↦ crashed
        | some r ↦ finish_audit job plan steps count order r
      ]

  -- `raw` is the list `plan["steps"]`, and `files` are the evidence files.
  unfoldable pub audit_steps :
      AuditRequest → Option ℕ → Fields → List Value → List File → W → Audited W
  audit_steps req none plan raw files w = refused
  audit_steps req (some max_attempts) plan raw files w =
      let steps = objects raw in
      elim (read_graph steps) [
        | none ↦ refused
        | some (order, deps) ↦
            let selected = selection req order in
            let by_id = index_all steps in
            if not (is_empty (diff selected (keys by_id)))
            then exits
            else if asks_nothing req
            then returned true (start w)
            else elim (attempts_for req.mode files) [
              | none ↦ crashed
              | some counts ↦
                  let job : Job = record {
                    mode = req.mode;
                    key = req.key;
                    by_id = by_id;
                    deps = deps;
                    selected = selected;
                    max_attempts = max_attempts;
                    force = req.force;
                    failed_attempts = counts;
                    baseline = sys.fingerprint w;
                  } in
                  run_job job plan steps (length raw) order w
            ]
      ]
