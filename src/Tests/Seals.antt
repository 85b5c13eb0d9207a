-- ===== src/Tests/Seals.antt =====
-- supervisor/sealing.py and supervisor/assessment.py on a plan of one step, with digests that are fixed texts.
use plan_auditor.Base.{◌≤◌, String, true, false, Option, none, some, [], ◌∷◌, ◌≡◌, refl, Result, ok}
use mathlib.Core.Logic.{◌≢◌}
use plan_auditor.Json.{
  Value, null, int, str, arr, obj, nil, cons, pos, Fields, end, field, get_or, as_object, set_field,
  without, py_eq,
}
use plan_auditor.Tests.Language.{language}
use plan_auditor.Tests.Records.{digest, mac, key}
use plan_auditor.Integrity.{KeyMaterial, KeyError, make_auth, verify_auth}
use plan_auditor.PlanGraph.Steps.{plan_steps, positive_ids, effective_dependencies}
use plan_auditor.PlanContract.{contract_step, has_dependencies, contract_plan}
use plan_auditor.Sealing.Changes.{MonotonicCheck, checks_increased, check_removed}
use plan_auditor.Sealing.Monotonic.{check_monotonic}
use plan_auditor.Sealing.Seals.{
  Seal, seal_domain, or_empty_dict, payload, as_plan, seal_plan, validate_seal_self_consistency,
}
use plan_auditor.Sealing.Files.{save_seal, load_seal}
use plan_auditor.Sealing.Sealed.{signed_by, load_seal-save_seal}
use plan_auditor.Assessment.{
  assessment_domain, unknown_outcome, AssessmentFile, max_assessment_bytes, EvidenceState,
  evidence_binding, write_assessment, named_outcome, verified_outcome,
}
use plan_auditor.Assessment.Proven.{
  verified_outcome-write_assessment, verified_outcome-proven, write_assessment-unsigned,
}
use plan_auditor.Sealing.Kept.{KeepsPlan, check_monotonic-KeepsPlan}

abbrev check : String → Value
check kind = obj (field "type" (str kind) end)

abbrev step_with : Value → Fields
step_with checks =
    field "id" (int (pos 1))
      (field "title" (str "build") (field "verify" checks (field "status" (str "pending") end)))

abbrev plan_with : Value → Fields → Fields
plan_with tools step =
    field "task" (str "ship")
      (field "required_tools" tools (field "steps" (arr (cons (obj step) nil)) end))

abbrev pub plan : Fields
plan = plan_with (arr nil) (step_with (arr (cons (check "file_exists") nil)))

abbrev stricter : Fields
stricter =
    plan_with (arr nil) (step_with (arr (cons (check "command") (cons (check "file_exists") nil))))

abbrev weaker : Fields
weaker = plan_with (arr nil) (step_with (arr (cons (check "command") nil)))

abbrev contracted_step : Fields
contracted_step = field "id" (int (pos 1)) (
    field "title" (str "build") (
      field "depends_on" (arr nil) (
        field "requires_outputs" (arr nil) (
          field "outputs" (arr nil) (
            field "covers" (arr nil)
              (field "verify" (arr (cons (check "file_exists") nil)) end))))))

abbrev contract : Fields
contract = field "task" (str "ship") (
    field "requirements" null
      (field "required_tools" (arr nil) (field "steps" (arr (cons (obj contracted_step) nil)) end)))

pub contract_plan-plan : contract_plan plan ≡ some contract
unfolding contract_plan effective_dependencies language plan_steps contract_step has_dependencies
    positive_ids
contract_plan-plan = refl

abbrev pub seal : Seal
seal = record {
  plan_id = str "p";
  sealed_at = str "now";
  plan_hash = str "0123456789abcdef0123";
  criteria_count = pos 1;
  steps = arr (cons (obj contracted_step) nil);
  task = str "ship";
  requirements = null;
  required_tools = arr nil;
  environment = obj end;
  traffic = none;
  format_version = pos 4;
  auth = none;
}

pub seal_plan-plan : seal_plan digest plan "p" "now" null ≡ some seal
unfolding seal_plan contract_plan effective_dependencies language contract_step has_dependencies
    positive_ids
seal_plan-plan = refl

abbrev document : Value
document =
    obj (set_field "auth" (obj (make_auth mac key seal_domain (obj (payload seal)))) (payload seal))

saved : save_seal digest mac (λ v. none) true (ok (some key)) seal ≡ ok document
unfolding save_seal validate_seal_self_consistency contract_plan effective_dependencies language
    as_plan contract_step has_dependencies positive_ids
saved = refl

load_seal-save_seal_example :
    load_seal digest mac (λ v. none) true (ok (some key)) (some (some document))
    ≡ ok (some (signed_by mac (some key) seal))
unfolding or_empty_dict language
load_seal-save_seal_example =
    load_seal-save_seal digest mac (λ v. none) (some key) seal document refl saved

abbrev same_host : String → String
same_host host = host

abbrev accepted : MonotonicCheck
accepted = record { ok = true; violations = []; improvements = checks_increased (int (pos 1)) ∷ [] }

check_monotonic-stricter : check_monotonic same_host plan stricter ≡ some accepted
unfolding check_monotonic language
check_monotonic-stricter = refl

check_monotonic-weaker :
    check_monotonic same_host plan weaker
    ≡ some (record { ok = false; violations = check_removed (int (pos 1)) ∷ []; improvements = [] })
unfolding check_monotonic language
check_monotonic-weaker = refl

check_monotonic-KeepsPlan_example : KeepsPlan plan stricter
check_monotonic-KeepsPlan_example =
    check_monotonic-KeepsPlan same_host plan stricter accepted check_monotonic-stricter refl

abbrev evidence : EvidenceState
evidence = record { active = none; last_archive = none }

abbrev pub verdict : Fields
verdict = field "outcome" (str "PASS") end

abbrev reason : Option KeyError → String
reason e = "no key"

-- A file of 300 bytes.
abbrev stored_file : Fields → AssessmentFile
stored_file document = record { size = 300; document = some document }

verified_outcome-write_assessment_example :
    verified_outcome mac
      (ok (some key))
      evidence
      (some (stored_file (write_assessment mac reason (ok (some key)) evidence verdict)))
    ≡ named_outcome verdict
verified_outcome-write_assessment_example =
    verified_outcome-write_assessment mac reason key evidence verdict 300

write_assessment-unsigned_example :
    (named_outcome (write_assessment mac reason (ok none) evidence verdict) ≡ unknown_outcome)
    × (verified_outcome mac
          (ok (some key))
          evidence
          (some (stored_file (write_assessment mac reason (ok none) evidence verdict)))
        ≡ unknown_outcome)
write_assessment-unsigned_example =
    write_assessment-unsigned mac reason (ok none) (ok (some key)) evidence evidence verdict 300
      (λ k h. cc h)

abbrev signed_verdict : Fields
signed_verdict = write_assessment mac reason (ok (some key)) evidence verdict

read_pass :
    verified_outcome mac (ok (some key)) evidence (some (stored_file signed_verdict))
    ≢ unknown_outcome
unfolding named_outcome language
read_pass h = absurd (cc (verified_outcome-write_assessment mac reason key evidence verdict 300, h))

verified_outcome-proven_example :
    (k : KeyMaterial) × (stored : Fields) × (◌≡◌ {A = Result KeyError (Option KeyMaterial)}
      (ok (some key))
      (ok (some k)))
    × ((f : AssessmentFile) × (some (stored_file signed_verdict) ≡ some f)
        × (f.size ≤ max_assessment_bytes)
        × (f.document ≡ some stored))
    × (verify_auth mac k assessment_domain (obj (without "auth" stored)) (get_or "auth" stored null)
        ≡ true)
    × ((binding : Fields) × (as_object (get_or "evidence_binding" (without "auth" stored) null)
          ≡ some binding)
        × (py_eq (obj binding) (obj (evidence_binding evidence k)) ≡ true))
    × (verified_outcome mac (ok (some key)) evidence (some (stored_file signed_verdict))
        ≡ named_outcome (without "auth" stored))
verified_outcome-proven_example =
    verified_outcome-proven mac (ok (some key)) evidence (some (stored_file signed_verdict))
      read_pass
