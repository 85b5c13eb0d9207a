-- ===== src/Lifecycle/Guards.antt =====
-- supervisor/lifecycle.py: which states end a task, and what a task has been through.
use plan_auditor.Base.{
  ◌≤◌, String, Bool, true, false, not, ◌||◌, List, [], ◌∷◌, ◌≡◌, refl, ◌==◌, mem, all, all-mem,
  arith,
}
use plan_auditor.Lifecycle.{
  State, new, sealed, implementing, verifying, retrying, escalated, final_audit, passed, failed,
  unknown, recovery, cancelled, state_eq, targets, TransitionRecord, TaskLifecycle, new_task,
  can_transition, terminal, progress_of, progress_fraction,
}
use plan_auditor.Lifecycle.Trails.{Request, run, IsTrail, entered, run-new_task-IsConsistent}

-- A task that is not terminal can be cancelled, so it can always be brought to an end.
pub can_transition-cancelled : (l : TaskLifecycle) → can_transition l cancelled ≡ not (terminal l)
unfolding can_transition terminal targets
can_transition-cancelled l = at_state l.state
  where
    at_state :
        (s : State) → mem cancelled (targets s) ≡ not (mem s (passed ∷ failed ∷ cancelled ∷ []))
    at_state new = refl
    at_state _ = refl

-- The progress is a fraction of at most 1, and it is 1 only where the task has passed.
pub progress_fraction_bounds :
    (l : TaskLifecycle)
    → ((progress_fraction l).0 ≤ (progress_fraction l).1)
      × ((progress_fraction l).0 ≡ (progress_fraction l).1 → l.state ≡ passed)
unfolding progress_fraction progress_of
progress_fraction_bounds l = at_state l.state
  where
    at_state :
        (s : State)
        → ((progress_of s).0 ≤ (progress_of s).1)
          × ((progress_of s).0 ≡ (progress_of s).1 → s ≡ passed)
    at_state passed = (omega arith, λ _. refl)
    at_state new = (omega arith, λ h. absurd (omega arith))
    at_state _ = (omega arith, λ h. absurd (omega arith))

-- The states in which a plan is carried out or has been judged.
abbrev pub is_working : State → Bool
is_working implementing = true
is_working verifying = true
is_working retrying = true
is_working final_audit = true
is_working passed = true
is_working unknown = true
is_working recovery = true
is_working _ = false

abbrev is_authorised : State → Bool
is_authorised s = is_working s || s == sealed || s == escalated

-- Where an allowed transition enters a working state it leaves one, or SEALED or ESCALATED.
working_from : (s : State) → all (λ t. not (is_working t) || is_authorised s) (targets s) ≡ true
unfolding targets
working_from new = refl
working_from _ = refl

authorised_step :
    (s t : State) → mem t (targets s) ≡ true → is_working t ≡ true → is_authorised s ≡ true
authorised_step s t m w =
    or_right (is_working t) (is_authorised s) w
      (all-mem (λ u. not (is_working u) || is_authorised s) (targets s) t (working_from s) m)
  where
    or_right : (a b : Bool) → a ≡ true → (not a || b) ≡ true → b ≡ true
    or_right true b w h = h
    or_right false b w h = absurd (cc w)

merge :
    (w s e s' e' a : Bool)
    → (w ≡ true → a ≡ true)
    → ((w || s || e) || s' || e') ≡ true
    → (a || (s || s') || (e || e')) ≡ true
merge true s e s' e' a f h = rw (f refl) refl
merge false s e s' e' a f h = ground arith

-- A trail that ends in a working state and starts elsewhere enters SEALED or ESCALATED.
trail-IsAuthorised :
    (s t : State) (rs : List TransitionRecord)
    → IsTrail s rs t
    → is_working t ≡ true
    → (is_authorised s || entered sealed rs || entered escalated rs) ≡ true
trail-IsAuthorised s t [] e w = rw e (or_first (is_working t) w)
  where
    or_first :
        (a : Bool) → a ≡ true → ((a || t == sealed || t == escalated) || false || false) ≡ true
    or_first true h = refl
    or_first false h = absurd (cc h)
trail-IsAuthorised s t (r ∷ rs) (e, allowed, rest) w =
    merge (is_working r.to) (r.to == sealed) (r.to == escalated) (entered sealed rs)
      (entered escalated rs) (is_authorised s)
      (λ working. rw (← e) (authorised_step r.frm r.to allowed working))
      (trail-IsAuthorised r.to t rs rest w)

-- A task in IMPLEMENTING, VERIFYING, RETRYING, FINAL_AUDIT, PASSED, UNKNOWN or RECOVERY has entered
-- SEALED or ESCALATED before.
pub run-working :
    (id : String) (rs : List Request)
    → is_working (run (new_task id) rs).state ≡ true
    → (entered sealed (run (new_task id) rs).history
        || entered escalated (run (new_task id) rs).history)
      ≡ true
run-working id rs w =
    trail-IsAuthorised new (run (new_task id) rs).state (run (new_task id) rs).history
      (run-new_task-IsConsistent id rs).trail w
