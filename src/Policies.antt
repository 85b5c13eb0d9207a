-- ===== src/Policies.antt =====
-- supervisor/policies.py: the default rules of the policy engine. The context is the dict that
-- supervisor/orchestrator.py builds, with a field for each key that the rules read; `none` is an absent key.
-- The search for a secret in a log is a parameter.
pub mod Rules
use plan_auditor.Base.{
  ℕ, String, ◌<>◌, Bool, true, false, not, ◌&&◌, ◌||◌, Option, none, some, List, [], ◌∷◌, map, any,
  is_empty, if◌then◌else◌,
}
use plan_auditor.Json.{Value, null, bool, is_text, truthy, py_eq}
use plan_auditor.Evidence.Chain.{is_null}
use plan_auditor.Priority.{RuleResult}

-- `step.get("status")` and `check.get("passed")` of each of the results.
pub record PlanStep : Type 0 where
  pub status : Value
  pub results : List Value

pub record Context : Type 0 where
  pub plan_steps : List PlanStep
  pub seal_ok : Option Value
  pub seal_hash : Value
  pub current_hash : Value
  pub logs : List String
  pub evidence_valid : Option Value
  pub agent_registry_valid : Option Value
  pub missing_required_tools : List String
  pub configuration_errors : List String
  pub policy_errors : List String

-- `v is True`, `v is False`
unfoldable pub is_true_value : Value → Bool
is_true_value (bool true) = true
is_true_value _ = false

unfoldable pub is_false_value : Value → Bool
is_false_value (bool false) = true
is_false_value _ = false

-- `sep.join(texts)`
unfoldable pub join_texts : String → List String → String
join_texts sep [] = ""
join_texts sep (t ∷ []) = t
join_texts sep (t ∷ u ∷ ts) = t <> (sep <> join_texts sep (u ∷ ts))

unfoldable pub has_pending : Context → Bool
unfolding is_text
has_pending ctx = any (λ step. not (is_text "verified" step.status)) ctx.plan_steps

unfoldable pub has_failed_test : Context → Bool
unfolding is_false_value
has_failed_test ctx = any (λ step. any is_false_value step.results) ctx.plan_steps

unfoldable pub seal_intact : Context → Bool
unfolding is_true_value is_null truthy py_eq
seal_intact ctx = elim ctx.seal_ok [
  | some v ↦ is_true_value v
  | none ↦
      if not (is_null ctx.seal_hash) || not (is_null ctx.current_hash)
      then truthy ctx.seal_hash && truthy ctx.current_hash && py_eq ctx.seal_hash ctx.current_hash
      else true
]

-- `detail if hit else ""`
unfoldable pub text_if : Bool → String → String
text_if true detail = detail
text_if false detail = ""

unfoldable pub rule_finding : String → ℕ → Bool → String → String → RuleResult
unfolding text_if
rule_finding rule_id level hit detail evidence = record {
  rule_id = rule_id;
  triggered = hit;
  level = level;
  detail = text_if hit detail;
  evidence = text_if hit evidence;
}

unfoldable pub required_tests_passing : Context → RuleResult
unfolding rule_finding has_failed_test
required_tests_passing ctx =
    rule_finding "REQ_TESTS_PASS" 2 (has_failed_test ctx) "A required test failed" ""

unfoldable pub no_pending_steps : Context → RuleResult
unfolding rule_finding has_pending
no_pending_steps ctx =
    rule_finding "NO_PENDING" 2 (has_pending ctx) "Plan has steps not marked verified" ""

unfoldable pub seal_not_violated : Context → RuleResult
unfolding rule_finding seal_intact
seal_not_violated ctx =
    rule_finding "SEAL_INTACT" 1 (not (seal_intact ctx))
      "Plan seal is missing, legacy, or monotonic verification failed" ""

-- The two rules on a flag that is not judged where it is absent.
unfoldable pub flag_finding : String → Option Value → String → RuleResult
unfolding rule_finding is_true_value
flag_finding rule_id none detail = rule_finding rule_id 2 false detail ""
flag_finding rule_id (some v) detail = rule_finding rule_id 2 (not (is_true_value v)) detail ""

unfoldable pub evidence_chain_valid : Context → RuleResult
unfolding flag_finding
evidence_chain_valid ctx =
    flag_finding "EVIDENCE_VALID" ctx.evidence_valid "Evidence integrity check failed or is unknown"

unfoldable pub agent_registry_chain_valid : Context → RuleResult
unfolding flag_finding
agent_registry_chain_valid ctx =
    flag_finding "AGENT_REGISTRY_VALID" ctx.agent_registry_valid
      "Agent registry chain/head integrity check failed or is unknown"

unfoldable pub required_tool_present : Context → RuleResult
unfolding rule_finding join_texts
required_tool_present ctx =
    let missing = ctx.missing_required_tools in
    rule_finding "TOOLS_PRESENT" 2 (not (is_empty missing))
      ("Missing required tools: " <> join_texts ", " missing) ""

unfoldable pub configuration_valid : Context → RuleResult
unfolding rule_finding join_texts
configuration_valid ctx =
    let errors = ctx.configuration_errors in
    rule_finding "CONFIG_VALID" 1 (not (is_empty errors)) "Supervisor configuration is invalid"
      (join_texts "\n" errors)

unfoldable pub policy_configuration_valid : Context → RuleResult
unfolding rule_finding join_texts
policy_configuration_valid ctx =
    let errors = ctx.policy_errors in
    rule_finding "POLICY_CONFIG_VALID" 1 (not (is_empty errors))
      "Configured policy files are invalid" (join_texts "\n" errors)

module _ (secret_in : String → Option String) where
  -- The first match in the logs.
  unfoldable pub first_secret : List String → Option String
  first_secret [] = none
  first_secret (log ∷ logs) =
      let rest = first_secret logs in elim (secret_in log) [ none ↦ rest | some hit ↦ some hit ]

  -- An empty match would be a finding without detail.
  unfoldable pub no_secret_leak : Context → RuleResult
  unfolding first_secret text_if
  no_secret_leak ctx = elim (first_secret ctx.logs) [
    | none ↦ record {
      rule_id = "NO_SECRET_LEAK";
      triggered = false;
      level = 3;
      detail = "";
      evidence = "";
    }
    | some hit ↦ record {
      rule_id = "NO_SECRET_LEAK";
      triggered = true;
      level = 3;
      detail = text_if (truthy (Value.str hit)) "Possible secret in logs";
      evidence = hit;
    }
  ]

  -- The functions of DEFAULT_RULES, in order.
  unfoldable pub default_rules : List (Context → RuleResult)
  unfolding configuration_valid policy_configuration_valid required_tests_passing no_pending_steps
      seal_not_violated no_secret_leak evidence_chain_valid agent_registry_chain_valid
      required_tool_present
  default_rules =
      configuration_valid ∷ policy_configuration_valid ∷ required_tests_passing ∷ no_pending_steps
      ∷ seal_not_violated ∷ no_secret_leak ∷ evidence_chain_valid ∷ agent_registry_chain_valid
      ∷ required_tool_present ∷ []
