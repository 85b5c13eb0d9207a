-- ===== src/Tests/Policy.antt =====
-- supervisor/policies.py: a context that the default rules let pass, and one with a failed test.
use plan_auditor.Base.{String, true, false, Option, none, some, [], ◌∷◌, ◌++◌, ◌≡◌, refl}
use plan_auditor.Json.{Value, null, bool, str}
use plan_auditor.Tests.Language.{language}
use plan_auditor.Priority.{passed, failed}
use plan_auditor.Gate.{evaluate}
use plan_auditor.Policies.{Context, default_rules}
use plan_auditor.Policies.Rules.{IsSound, evaluate-IsSound}

abbrev no_secret : String → Option String
no_secret log = none

abbrev context_of : Value → Context
context_of result = record {
  plan_steps = record { status = str "verified"; results = result ∷ [] } ∷ [];
  seal_ok = some (bool true);
  seal_hash = null;
  current_hash = null;
  logs = "done" ∷ [];
  evidence_valid = some (bool true);
  agent_registry_valid = none;
  missing_required_tools = [];
  configuration_errors = [];
  policy_errors = [];
}

evaluate_pass :
    (evaluate (default_rules no_secret ++ []) true [] (context_of (bool true)) none [] none).outcome
    ≡ passed
unfolding evaluate default_rules language
evaluate_pass = refl

evaluate_fail :
    (evaluate
      (default_rules no_secret ++ [])
      true
      []
      (context_of (bool false))
      none
      []
      none).outcome
    ≡ failed
unfolding evaluate default_rules language
evaluate_fail = refl

evaluate-IsSound_example : IsSound no_secret (context_of (bool true))
evaluate-IsSound_example =
    evaluate-IsSound no_secret [] (context_of (bool true)) true [] none [] none evaluate_pass
