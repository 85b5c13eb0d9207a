-- ===== src/Tests/Tasks.antt =====
-- supervisor/lifecycle.py: a task that passes after one retry, and one that is never sealed.
use plan_auditor.Base.{◌≤◌, ◌||◌, true, false, List, [], ◌∷◌, ◌≡◌, refl, ap}
use plan_auditor.Tests.Language.{language}
use plan_auditor.Lifecycle.{
  State, discovered, analyzing, requirements_ready, plan_proposed, plan_review, revision_required,
  plan_approved, sealed, implementing, verifying, retrying, escalated, passed, recovery,
  TaskLifecycle, new_task, transition, progress_fraction,
}
use plan_auditor.Lifecycle.Trails.{Request, run, entered, IsConsistent, run-new_task-IsConsistent}
use plan_auditor.Lifecycle.Guards.{progress_fraction_bounds, is_working, run-working}

abbrev requests : List State → List Request
requests [] = []
requests (s ∷ ss) = record { target = s; operator = "operator"; note = "" } ∷ requests ss

-- The transition from NEW to PASSED is refused.
abbrev retried : List Request
retried = requests (
    passed ∷ discovered ∷ analyzing ∷ requirements_ready ∷ plan_proposed ∷ plan_review
    ∷ plan_approved ∷ sealed ∷ implementing ∷ retrying ∷ implementing ∷ verifying ∷ passed ∷ [])

abbrev unsealed : List Request
unsealed = requests (
    discovered ∷ analyzing ∷ requirements_ready ∷ plan_proposed ∷ plan_review ∷ revision_required
    ∷ escalated ∷ recovery ∷ implementing ∷ verifying ∷ passed ∷ [])

run-retried : (run (new_task "t") retried).state ≡ passed
unfolding run new_task transition language
run-retried = refl

run-retried_counts : (run (new_task "t") retried).retries ≡ 1
unfolding run new_task transition language
run-retried_counts = refl

-- A task whose plan was rejected passes without a seal, by way of ESCALATED and RECOVERY.
run-unsealed : (run (new_task "t") unsealed).state ≡ passed
unfolding run new_task transition language
run-unsealed = refl

not_entered-unsealed : entered sealed (run (new_task "t") unsealed).history ≡ false
unfolding run new_task transition language
not_entered-unsealed = refl

abbrev done : TaskLifecycle
done = run (new_task "t") retried

run-new_task-IsConsistent_example : IsConsistent done
run-new_task-IsConsistent_example = run-new_task-IsConsistent "t" retried

run-working_example : (entered sealed done.history || entered escalated done.history) ≡ true
run-working_example = run-working "t" retried (ap is_working run-retried)

progress_fraction_bounds_example :
    ((progress_fraction done).0 ≤ (progress_fraction done).1)
    × ((progress_fraction done).0 ≡ (progress_fraction done).1 → done.state ≡ passed)
progress_fraction_bounds_example = progress_fraction_bounds done
