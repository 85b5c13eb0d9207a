-- ===== src/Gate.antt =====
-- supervisor/gate.py: `CompletionGate.evaluate`, the only source of a PASS, over the policy engine of
-- supervisor/policies.py and the priority layer. The texts of the notes are constructors, and the
-- adversarial findings are taken as `_normalize_adversarial` returns them.
pub mod Outcomes
use plan_auditor.Base.{
  ℕ, String, Bool, true, false, not, ◌&&◌, ◌||◌, Option, none, some, List, [], ◌∷◌, ◌++◌, string_eq,
  ◌==◌, if◌then◌else◌, any, is_empty, map,
}
use plan_auditor.Json.{Fields}
use plan_auditor.Sealing.Changes.{Violation, MonotonicCheck}
use plan_auditor.Priority.{
  RuleResult, Outcome, passed, failed, undecided, PriorityVerdict, triggered_of, resolve_priority,
}

pub record TrafficCheck : Type 0 where
  pub required : Bool
  pub ok : Bool
  pub outcome : String
  pub reason : String
  pub requests : ℕ
  pub classes : List (String × ℕ)
  pub violations : List Fields
  pub authenticated : Bool
  pub sessions : List Fields

pub record AdversarialFinding : Type 0 where
  pub severity : String
  pub description : String

pub data Note : Type 0 where
  pending : List ℕ → Note
  no_fresh_proof : Note
  policy_level : Option ℕ → String → Note
  seal_violated : List Violation → Note
  traffic_gate : String → Note
  adversarial_review : Note

-- The variables `outcome` and `notes` of `evaluate`.
pub record Ruling : Type 0 where
  pub outcome : Outcome
  pub notes : List Note

unfoldable pub fail_with : Note → Ruling → Ruling
fail_with note r = record { outcome = failed; notes = r.notes ++ note ∷ [] }

-- UNKNOWN instead of a PASS; any other outcome stays, and then there is no note.
unfoldable pub withhold : Note → Ruling → Ruling
withhold note r = elim r.outcome [
  | passed ↦ record { outcome = undecided; notes = r.notes ++ note ∷ [] }
  | failed ↦ r
  | undecided ↦ r
]

unfoldable pub check_pending : List ℕ → Ruling → Ruling
unfolding fail_with
check_pending steps r = if is_empty steps then r else fail_with (pending steps) r

unfoldable pub check_proof : Bool → Ruling → Ruling
unfolding fail_with
check_proof deterministic_passed r = if deterministic_passed then r else fail_with no_fresh_proof r

unfoldable pub check_policy : PriorityVerdict → Ruling → Ruling
unfolding fail_with withhold
check_policy v r = elim v.outcome [
  | failed ↦ fail_with (policy_level v.blocking_level v.blocking_detail) r
  | undecided ↦ withhold (policy_level v.blocking_level v.blocking_detail) r
  | passed ↦ r
]

unfoldable pub check_seal : Option MonotonicCheck → Ruling → Ruling
unfolding fail_with
check_seal none r = r
check_seal (some c) r = if c.ok then r else fail_with (seal_violated c.violations) r

unfoldable pub check_traffic : Option TrafficCheck → Ruling → Ruling
unfolding fail_with
check_traffic none r = r
check_traffic (some t) r = if t.required && not t.ok then fail_with (traffic_gate t.reason) r else r

unfoldable pub is_blocking : AdversarialFinding → Bool
is_blocking f = f.severity == "high" || f.severity == "critical"

unfoldable pub check_adversarial : List AdversarialFinding → Ruling → Ruling
unfolding withhold is_blocking
check_adversarial findings r = if any is_blocking findings then withhold adversarial_review r else r

pub record CompletionReport : Type 0 where
  pub outcome : Outcome
  pub deterministic_passed : Bool
  pub pending_steps : List ℕ
  pub policy_findings : List RuleResult
  pub verdict : PriorityVerdict
  pub seal_check : Option MonotonicCheck
  pub adversarial_findings : List AdversarialFinding
  pub traffic_check : Option TrafficCheck
  pub notes : List Note

-- `PolicyEngine.evaluate` and `PolicyEngine.failures`, for contexts of any type.
unfoldable pub evaluate_rules : {C : Type 0} → List (C → RuleResult) → C → List RuleResult
evaluate_rules rules context = map (λ rule. rule context) rules

unfoldable pub failures : {C : Type 0} → List (C → RuleResult) → C → List RuleResult
unfolding evaluate_rules
failures rules context = triggered_of (evaluate_rules rules context)

unfoldable pub evaluate :
    {C : Type 0}
    → List (C → RuleResult)
    → Bool
    → List ℕ
    → C
    → Option MonotonicCheck
    → List AdversarialFinding
    → Option TrafficCheck
    → CompletionReport
unfolding check_pending check_proof check_policy check_seal check_traffic check_adversarial failures
    resolve_priority
evaluate rules deterministic_passed pending_steps context seal_check adversarial traffic_check =
    let findings = failures rules context in
    let verdict = resolve_priority findings in
    let start : Ruling = record { outcome = passed; notes = [] } in
    let ruling = check_adversarial adversarial (
      check_traffic traffic_check (
        check_seal seal_check (
          check_policy verdict
            (check_proof deterministic_passed (check_pending pending_steps start))))) in
    record {
      outcome = ruling.outcome;
      deterministic_passed = deterministic_passed;
      pending_steps = pending_steps;
      policy_findings = findings;
      verdict = verdict;
      seal_check = seal_check;
      adversarial_findings = adversarial;
      traffic_check = traffic_check;
      notes = ruling.notes;
    }
