-- ===== src/Audit/Statuses.antt =====
-- scripts/audit_check.py: the statuses that a run writes into a plan, and the plan's fingerprint.
use plan_auditor.Base.{
  ℕ, String, List, [], ◌∷◌, map, ◌≡◌, refl, ap, inl, inr, string_eq, nat_eq, Option-cases, Dict,
  lookup,
}
use plan_auditor.Json.{
  Value, null, str, arr, obj, nil, utf8, Fields, set_field, get_or-set_field_other,
}
use plan_auditor.PlanGraph.Steps.{sid_of}
use plan_auditor.Evidence.Chain.{evidence_json}
use plan_auditor.Audit.Records.{
  contract_of_prints, fingerprint_step, fingerprint_contract, plan_contract_fingerprint,
}
use plan_auditor.Audit.Counts.{saved_step, saved_steps}

fingerprint_step-set_status :
    (status : Value) (step : Fields)
    → fingerprint_step (set_field "status" status step) ≡ fingerprint_step step
unfolding fingerprint_step
fingerprint_step-set_status status step =
    rw
      (
        get_or-set_field_other "id" "status" status null step refl,
        get_or-set_field_other "title" "status" status null step refl,
        get_or-set_field_other "depends_on" "status" status null step refl,
        get_or-set_field_other "requires_outputs" "status" status (arr nil) step refl,
        get_or-set_field_other "outputs" "status" status (arr nil) step refl,
        get_or-set_field_other "covers" "status" status (arr nil) step refl,
        get_or-set_field_other "verify" "status" status (arr nil) step refl,
      )
      refl

fingerprint_step-saved_step :
    (statuses : Dict ℕ String) (step : Fields)
    → fingerprint_step (saved_step statuses step) ≡ fingerprint_step step
unfolding saved_step
fingerprint_step-saved_step statuses step = elim (Option-cases (lookup (sid_of step) statuses)) [
  | inl unseen ↦ rw (saved_step, unseen) refl
  | inr (status, e) ↦ rw (saved_step, e) (fingerprint_step-set_status (str status) step)
]

map-saved_steps :
    (statuses : Dict ℕ String) (steps : List Fields)
    → map fingerprint_step (saved_steps statuses steps) ≡ map fingerprint_step steps
unfolding saved_steps
map-saved_steps statuses [] = refl
map-saved_steps statuses (step ∷ steps) =
    rw (fingerprint_step-saved_step statuses step)
      (ap (λ l. fingerprint_step step ∷ l) (map-saved_steps statuses steps))

fingerprint_contract-saved_steps :
    (plan : Fields) (statuses : Dict ℕ String) (steps : List Fields)
    → fingerprint_contract plan (saved_steps statuses steps) ≡ fingerprint_contract plan steps
unfolding fingerprint_contract
fingerprint_contract-saved_steps plan statuses steps =
    ap (λ l. contract_of_prints plan l) (map-saved_steps statuses steps)

-- A plan that is saved with the statuses of any run has the fingerprint that it had, so the last record of a
-- full audit stays bound to it.
pub plan_contract_fingerprint-saved_steps :
    (sha256 : List ℕ → String) (plan : Fields) (statuses : Dict ℕ String) (steps : List Fields)
    → plan_contract_fingerprint sha256 plan (saved_steps statuses steps)
      ≡ plan_contract_fingerprint sha256 plan steps
unfolding plan_contract_fingerprint
plan_contract_fingerprint-saved_steps sha256 plan statuses steps =
    ap (λ c. sha256 (utf8 (evidence_json (obj c))))
      (fingerprint_contract-saved_steps plan statuses steps)
