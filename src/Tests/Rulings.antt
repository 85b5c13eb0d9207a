-- ===== src/Tests/Rulings.antt =====
-- supervisor/priority.py on findings of three levels.
use plan_auditor.Base.{ℕ, Bool, true, String, [], ◌∷◌, ◌≡◌, refl, arith, some}
use plan_auditor.Priority.{RuleResult, resolve_priority, failed, undecided, triggered_of}
use plan_auditor.Priority.Rulings.{IsResolved, resolve_priority-IsResolved, resolve_priority-failed}

abbrev pub sample_finding : String → ℕ → Bool → RuleResult
sample_finding name level fires = record {
  rule_id = name;
  triggered = fires;
  level = level;
  detail = name;
  evidence = "";
}

abbrev uncovered : RuleResult
uncovered = sample_finding "coverage" 4 true

abbrev judged : RuleResult
judged = sample_finding "judgment" 5 true

abbrev tampered : RuleResult
tampered = sample_finding "integrity" 1 true

resolve_priority-uncovered : (resolve_priority (judged ∷ uncovered ∷ [])).outcome ≡ undecided
unfolding resolve_priority
resolve_priority-uncovered = refl

-- A judgment alone fails.
resolve_priority-judged : (resolve_priority (judged ∷ [])).outcome ≡ failed
unfolding resolve_priority
resolve_priority-judged = refl

blocked-uncovered : (resolve_priority (uncovered ∷ [])).blocking_level ≡ some 4
unfolding resolve_priority
blocked-uncovered = refl

resolve_priority-IsResolved_example :
    IsResolved (triggered_of (judged ∷ tampered ∷ [])) (resolve_priority (judged ∷ tampered ∷ []))
resolve_priority-IsResolved_example = resolve_priority-IsResolved (judged ∷ tampered ∷ [])

resolve_priority-failed_example :
    (resolve_priority (judged ∷ tampered ∷ uncovered ∷ [])).outcome ≡ failed
resolve_priority-failed_example =
    resolve_priority-failed (judged ∷ []) tampered (uncovered ∷ []) refl (omega arith)
