-- ===== src/Tests/Trust.antt =====
-- scripts/exec_trust.py: the sealed plan of one step may run, and a plan without a seal may not.
use plan_auditor.Base.{String, Option, some, ◌≡◌, refl, Result, ok}
use mathlib.Core.Logic.{◌≢◌}
use plan_auditor.Json.{null, Fields, set_field}
use plan_auditor.Tests.Language.{language}
use plan_auditor.Tests.Records.{digest, mac, key}
use plan_auditor.Tests.Seals.{plan, seal, contract_plan-plan, seal_plan-plan}
use plan_auditor.Integrity.{KeyMaterial, KeyError, canonical_digest}
use plan_auditor.PlanContract.{digest_of, plan_hash}
use plan_auditor.Sealing.Seals.{payload}
use plan_auditor.ExecTrust.{
  no_file, object_file, committed_request, validate_plan_name, plan_key, require_plan_trust,
}
use plan_auditor.ExecTrust.Trusted.{IsTrusted, require_plan_trust-IsTrusted}
use plan_auditor.ExecTrust.Sealed.{file_fields, require_plan_trust-seal_plan}

abbrev file : Fields
file = file_fields mac (some key) seal

valid_name : validate_plan_name (some "release-1.0") ≡ some (some "release-1.0")
unfolding validate_plan_name language
valid_name = refl

plan_hash-plan : plan_hash digest plan ≡ some "0123456789abcdef0123"
unfolding plan_hash digest_of canonical_digest
plan_hash-plan = rw (contract_plan-plan, plan_hash) refl

hash-plan : plan_hash digest plan ≢ some ""
hash-plan h = cc (plan_hash-plan, h)

no_request : committed_request file ≡ null
unfolding committed_request payload set_field language
no_request = refl

trusted :
    require_plan_trust digest mac
      (ok (some key))
      (object_file file)
      no_file
      plan
      (some "release-1.0")
    ≡ ok file
trusted =
    require_plan_trust-seal_plan digest mac (some key) plan "p" "now" null seal (some "release-1.0")
      (some "release-1.0") seal_plan-plan hash-plan no_request valid_name

require_plan_trust-seal_plan_example :
    require_plan_trust digest mac
      (ok (some key))
      (object_file file)
      no_file
      plan
      (some "release-1.0")
    ≡ ok file
require_plan_trust-seal_plan_example =
    require_plan_trust-seal_plan digest mac (some key) plan "p" "now" null seal (some "release-1.0")
      (some "release-1.0") seal_plan-plan hash-plan no_request valid_name

require_plan_trust-IsTrusted_example :
    (k : Option KeyMaterial) × (safe_name : Option String) × (expected : String) × (◌≡◌
      {A = Result KeyError (Option KeyMaterial)}
      (ok (some key))
      (ok k))
    × (object_file file ≡ object_file file)
    × (validate_plan_name (some "release-1.0") ≡ some safe_name)
    × (plan_hash digest plan ≡ some expected)
    × IsTrusted digest mac k (plan_key safe_name) expected no_file file
require_plan_trust-IsTrusted_example =
    require_plan_trust-IsTrusted digest mac (ok (some key)) (object_file file) no_file plan
      (some "release-1.0") file trusted
