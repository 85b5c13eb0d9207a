-- ===== src/Lifecycle/Trails.antt =====
-- supervisor/lifecycle.py: what holds of a task after any sequence of calls of `transition`.
use plan_auditor.Base.{
  ℕ, String, Bool, true, false, List, [], ◌∷◌, ◌++◌, ◌≡◌, inl, inr, refl, sym, ap, ◌∙◌, ◌==◌, mem,
  any, Bool-cases,
}
use plan_auditor.Lifecycle.{
  State, new, retrying, revision_required, state_eq, targets, TransitionRecord, TaskLifecycle,
  new_task, can_transition, counted, move, transition,
}

-- The arguments of one call of `transition`.
pub record Request : Type 0 where
  pub target : State
  pub operator : String
  pub note : String

unfoldable pub run : TaskLifecycle → List Request → TaskLifecycle
run l [] = l
run l (r ∷ rs) = run (transition l r.target r.operator r.note).0 rs

-- The records lead from one state to another by allowed transitions.
abbrev pub IsTrail : State → List TransitionRecord → State → Type 0
IsTrail s [] t = s ≡ t
IsTrail s (r ∷ rs) t = (r.frm ≡ s) × (mem r.to (targets r.frm) ≡ true) × IsTrail r.to rs t

unfoldable pub entries : State → List TransitionRecord → ℕ
entries s [] = 0
entries s (r ∷ rs) = counted (r.to == s) (entries s rs)

abbrev pub entered : State → List TransitionRecord → Bool
entered s rs = any (λ r. r.to == s) rs

pub record IsConsistent (l : TaskLifecycle) : Type 0 where
  pub trail : IsTrail new l.history l.state
  pub retries_counted : l.retries ≡ entries retrying l.history
  pub rejections_counted : l.rejected_plans ≡ entries revision_required l.history

IsTrail-snoc :
    (s t : State) (rs : List TransitionRecord) (r : TransitionRecord)
    → IsTrail s rs t
    → r.frm ≡ t
    → mem r.to (targets r.frm) ≡ true
    → IsTrail s (rs ++ r ∷ []) r.to
IsTrail-snoc s t [] r e f allowed = (f ∙ sym e, allowed, refl)
IsTrail-snoc s t (q ∷ rs) r (a, b, c) f allowed = (a, b, IsTrail-snoc q.to t rs r c f allowed)

counted_comm : (a b : Bool) (n : ℕ) → counted a (counted b n) ≡ counted b (counted a n)
counted_comm true true n = refl
counted_comm true false n = refl
counted_comm false true n = refl
counted_comm false false n = refl

entries-snoc :
    (s : State) (rs : List TransitionRecord) (r : TransitionRecord)
    → entries s (rs ++ r ∷ []) ≡ counted (r.to == s) (entries s rs)
unfolding entries
entries-snoc s [] r = refl
entries-snoc s (q ∷ rs) r =
    ap (counted (q.to == s)) (entries-snoc s rs r)
    ∙ counted_comm (q.to == s) (r.to == s) (entries s rs)

move-IsConsistent :
    (l : TaskLifecycle) (to : State) (operator note : String)
    → IsConsistent l
    → can_transition l to ≡ true
    → IsConsistent (move l to operator note)
unfolding move can_transition
move-IsConsistent l to operator note inv allowed =
    let r : TransitionRecord = record {
      frm = l.state;
      to = to;
      operator = operator;
      note = note;
    } in
    record {
      trail = IsTrail-snoc new l.state l.history r inv.trail refl allowed;
      retries_counted =
          ap (counted (to == retrying)) inv.retries_counted
          ∙ sym (entries-snoc retrying l.history r);
      rejections_counted =
          ap (counted (to == revision_required)) inv.rejections_counted
          ∙ sym (entries-snoc revision_required l.history r);
    }

transition-IsConsistent :
    (l : TaskLifecycle) (to : State) (operator note : String)
    → IsConsistent l
    → IsConsistent (transition l to operator note).0
unfolding transition
transition-IsConsistent l to operator note inv = elim (Bool-cases (can_transition l to)) [
  | inl yes' ↦ rw yes' (move-IsConsistent l to operator note inv yes')
  | inr no' ↦ rw no' inv
]

run-IsConsistent :
    (l : TaskLifecycle) (rs : List Request) → IsConsistent l → IsConsistent (run l rs)
unfolding run
run-IsConsistent l [] inv = inv
run-IsConsistent l (r ∷ rs) inv =
    run-IsConsistent (transition l r.target r.operator r.note).0 rs
      (transition-IsConsistent l r.target r.operator r.note inv)

-- After any calls of transition on a new task its history is a trail of allowed transitions from NEW to
-- its state, and the two counters count the entries into RETRYING and REVISION_REQUIRED.
pub run-new_task-IsConsistent :
    (id : String) (rs : List Request) → IsConsistent (run (new_task id) rs)
unfolding new_task entries
run-new_task-IsConsistent id rs =
    run-IsConsistent _ rs
      (record { trail = refl; retries_counted = refl; rejections_counted = refl })
