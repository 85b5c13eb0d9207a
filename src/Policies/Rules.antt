-- ===== src/Policies/Rules.antt =====
-- supervisor/policies.py under supervisor/gate.py: what a PASS says of the context.
use plan_auditor.Base.{
  true_of_not, ℕ, String, Bool, true, false, not, Option, none, some, List, [], ◌∷◌, ◌++◌, ◌≡◌,
  refl, ap, subst, any, is_empty, All, inl, inr, Option-cases, arith,
}
use plan_auditor.Json.{Value, is_text}
use plan_auditor.Sealing.Changes.{MonotonicCheck}
use plan_auditor.Priority.{RuleResult, passed}
use plan_auditor.Gate.{AdversarialFinding, TrafficCheck, evaluate, evaluate_rules}
use plan_auditor.Gate.Outcomes.{evaluate-passed}
use plan_auditor.Policies.{
  PlanStep, Context, is_true_value, has_pending, has_failed_test, seal_intact, flag_finding,
  rule_finding, evidence_chain_valid, agent_registry_chain_valid, first_secret, no_secret_leak,
  default_rules,
}

All-front : {A : Type 0} (P : A → Type 0) (xs ys : List A) → All P (xs ++ ys) → All P xs
All-front P [] ys h = tt
All-front P (x ∷ xs) ys (first, rest) = (first, All-front P xs ys rest)

evaluate_rules-append :
    {C : Type 0} (rules more : List (C → RuleResult)) (context : C)
    → evaluate_rules (rules ++ more) context
      ≡ evaluate_rules rules context ++ evaluate_rules more context
unfolding evaluate_rules
evaluate_rules-append [] more context = refl
evaluate_rules-append (rule ∷ rules) more context =
    ap (λ found. rule context ∷ found) (evaluate_rules-append rules more context)

-- The flag is absent or True.
abbrev pub IsUnobjected : Option Value → Type 0
IsUnobjected none = Unit
IsUnobjected (some v) = is_true_value v ≡ true

flag_finding-IsUnobjected :
    (rule_id : String) (flag : Option Value) (detail : String)
    → (flag_finding rule_id flag detail).triggered ≡ false
    → IsUnobjected flag
unfolding flag_finding rule_finding
flag_finding-IsUnobjected rule_id none detail h = tt
flag_finding-IsUnobjected rule_id (some v) detail h = ground arith

all_verified :
    (steps : List PlanStep)
    → any (λ step. not (is_text "verified" step.status)) steps ≡ false
    → All (λ step. is_text "verified" step.status ≡ true) steps
all_verified [] h = tt
all_verified (step ∷ steps) h = (ground arith, all_verified steps (ground arith))

module _ (secret_in : String → Option String) where
  all_clean :
      (logs : List String)
      → first_secret secret_in logs ≡ none
      → All (λ log. secret_in log ≡ none) logs
  unfolding first_secret
  all_clean [] h = tt
  all_clean (log ∷ logs) h = elim (Option-cases (secret_in log)) [
    | inl clean ↦ (clean, all_clean logs (rw (clean, first_secret) at h))
    | inr (hit, found) ↦ absurd (cc (rw (found, first_secret) at h))
  ]

  no_secret_leak-clean :
      (ctx : Context)
      → (no_secret_leak secret_in ctx).triggered ≡ false
      → first_secret secret_in ctx.logs ≡ none
  unfolding no_secret_leak
  no_secret_leak-clean ctx h = ground arith

  -- A context that the default rules do not object to.
  pub record IsSound (ctx : Context) : Type 0 where
    pub configured : is_empty ctx.configuration_errors ≡ true
    pub policies_read : is_empty ctx.policy_errors ≡ true
    pub tests : has_failed_test ctx ≡ false
    pub verified : All (λ step. is_text "verified" step.status ≡ true) ctx.plan_steps
    pub sealed : seal_intact ctx ≡ true
    pub clean : All (λ log. secret_in log ≡ none) ctx.logs
    pub evidence : IsUnobjected ctx.evidence_valid
    pub registry : IsUnobjected ctx.agent_registry_valid
    pub tools : is_empty ctx.missing_required_tools ≡ true

  default_rules-IsSound :
      (ctx : Context)
      → All (λ f. f.triggered ≡ false) (evaluate_rules (default_rules secret_in) ctx)
      → IsSound ctx
  unfolding default_rules evaluate_rules rule_finding has_pending evidence_chain_valid
      agent_registry_chain_valid
  default_rules-IsSound ctx
        (
          config,
          (policy, (tests, (pending, (seal, (secret, (evidence, (registry, (tools, _)))))))),
        ) =
      record {
        configured = true_of_not _ config;
        policies_read = true_of_not _ policy;
        tests = tests;
        verified = all_verified ctx.plan_steps pending;
        sealed = true_of_not _ seal;
        clean = all_clean ctx.logs (no_secret_leak-clean ctx secret);
        evidence = flag_finding-IsUnobjected _ ctx.evidence_valid _ evidence;
        registry = flag_finding-IsUnobjected _ ctx.agent_registry_valid _ registry;
        tools = true_of_not _ tools;
      }

  -- Where the default rules stand in front of the rules of the engine, a PASS of the gate means that the
  -- configuration and the policy files are read without an error, no required test has failed, every step is
  -- verified, the seal is intact, no log shows a secret, the evidence and the registry are not found invalid
  -- or unknown, and no required tool is missing.
  pub evaluate-IsSound :
      (more : List (Context → RuleResult)) (ctx : Context) (deterministic_passed : Bool)
      (pending_steps : List ℕ)
      → (seal_check : Option MonotonicCheck) (adversarial : List AdversarialFinding)
        (traffic_check : Option TrafficCheck)
      → (evaluate
          (default_rules secret_in ++ more)
          deterministic_passed
          pending_steps
          ctx
          seal_check
          adversarial
          traffic_check).outcome
        ≡ passed
      → IsSound ctx
  evaluate-IsSound more ctx proof steps seal adversarial traffic h =
      let (_, _, silent, _, _, _) =
        evaluate-passed (default_rules secret_in ++ more) ctx proof steps seal adversarial traffic
          h in
      default_rules-IsSound ctx (
        All-front (λ f. f.triggered ≡ false) (evaluate_rules (default_rules secret_in) ctx)
          (evaluate_rules more ctx)
          (subst (All (λ f. f.triggered ≡ false))
            (evaluate_rules-append (default_rules secret_in) more ctx) silent))
