-- ===== src/Lifecycle.antt =====
-- supervisor/lifecycle.py: the states of a task and the guarded transitions between them.
pub mod Trails
pub mod Guards
use plan_auditor.Base.{
  ℕ, zero, suc, ◌+◌, String, Bool, true, false, not, ◌||◌, Option, none, some, List, [], ◌∷◌, ◌++◌,
  ◌≡◌, ◌↔◌, refl, sym, ap, ◌∙◌, nat_beq, nat_beq_iff, Eq, ◌==◌, if◌then◌else◌, mem, arith,
}
use plan_auditor.Json.{Fields, end}
use mathlib.Core.Option.{some-injective}

-- `States`
pub data State : Type 0 where
  new discovered analyzing requirements_ready plan_proposed plan_review revision_required
        plan_approved sealed :
      State
  implementing verifying retrying escalated final_audit passed failed unknown recovery cancelled :
      State

abbrev pub index : State → ℕ
index new = 0
index discovered = 1
index analyzing = 2
index requirements_ready = 3
index plan_proposed = 4
index plan_review = 5
index revision_required = 6
index plan_approved = 7
index sealed = 8
index implementing = 9
index verifying = 10
index retrying = 11
index escalated = 12
index final_audit = 13
index passed = 14
index failed = 15
index unknown = 16
index recovery = 17
index cancelled = 18

state_at : ℕ → Option State
state_at zero = some new
state_at (suc zero) = some discovered
state_at (suc (suc zero)) = some analyzing
state_at (suc (suc (suc zero))) = some requirements_ready
state_at (suc (suc (suc (suc zero)))) = some plan_proposed
state_at (suc (suc (suc (suc (suc zero))))) = some plan_review
state_at (suc (suc (suc (suc (suc (suc zero)))))) = some revision_required
state_at (suc (suc (suc (suc (suc (suc (suc zero))))))) = some plan_approved
state_at (suc (suc (suc (suc (suc (suc (suc (suc zero)))))))) = some sealed
state_at (suc (suc (suc (suc (suc (suc (suc (suc (suc zero))))))))) = some implementing
state_at (suc (suc (suc (suc (suc (suc (suc (suc (suc (suc zero)))))))))) = some verifying
state_at (suc (suc (suc (suc (suc (suc (suc (suc (suc (suc (suc zero))))))))))) = some retrying
state_at (suc (suc (suc (suc (suc (suc (suc (suc (suc (suc (suc (suc zero)))))))))))) =
    some escalated
state_at (suc (suc (suc (suc (suc (suc (suc (suc (suc (suc (suc (suc (suc zero))))))))))))) =
    some final_audit
state_at (suc (suc (suc (suc (suc (suc (suc (suc (suc (suc (suc (suc (suc (suc zero)))))))))))))) =
    some passed
state_at
      (suc
        (suc (suc (suc (suc (suc (suc (suc (suc (suc (suc (suc (suc (suc (suc zero))))))))))))))) =
    some failed
state_at
      (suc (
        suc (
          suc
            (suc (suc (suc (suc (suc (suc (suc (suc (suc (suc (suc (suc (suc zero)))))))))))))))) =
    some unknown
state_at
      (suc (
        suc (
          suc (
            suc (
              suc
                (suc (suc (suc (suc (suc (suc (suc (suc (suc (suc (suc (suc zero))))))))))))))))) =
    some recovery
state_at
      (suc (
        suc (
          suc (
            suc (
              suc (
                suc (
                  suc
                    (suc (suc (suc (suc (suc (suc (suc (suc (suc (suc (suc zero)))))))))))))))))) =
    some cancelled
state_at _ = none

state_at-index : (s : State) → state_at (index s) ≡ some s
unfolding state_at
state_at-index new = refl
state_at-index discovered = refl
state_at-index analyzing = refl
state_at-index requirements_ready = refl
state_at-index plan_proposed = refl
state_at-index plan_review = refl
state_at-index revision_required = refl
state_at-index plan_approved = refl
state_at-index sealed = refl
state_at-index implementing = refl
state_at-index verifying = refl
state_at-index retrying = refl
state_at-index escalated = refl
state_at-index final_audit = refl
state_at-index passed = refl
state_at-index failed = refl
state_at-index unknown = refl
state_at-index recovery = refl
state_at-index cancelled = refl

index_injective : (s t : State) → index s ≡ index t → s ≡ t
index_injective s t h =
    some-injective _ _ (sym (state_at-index s) ∙ ap state_at h ∙ state_at-index t)

abbrev pub state_beq : State → State → Bool
state_beq s t = nat_beq (index s) (index t)

pub state_beq_iff : (s t : State) → (state_beq s t ≡ true) ↔ (s ≡ t)
state_beq_iff s t = (
  λ h. index_injective s t ((nat_beq_iff (index s) (index t)).0 h),
  λ e. (nat_beq_iff (index s) (index t)).1 (ap index e),
)

instance abbrev pub state_eq : Eq State
state_eq = record { beq = state_beq; beq_iff = state_beq_iff }

-- `_TRANSITIONS`
unfoldable pub targets : State → List State
targets new = discovered ∷ cancelled ∷ []
targets discovered = analyzing ∷ cancelled ∷ []
targets analyzing = requirements_ready ∷ failed ∷ cancelled ∷ []
targets requirements_ready = plan_proposed ∷ failed ∷ cancelled ∷ []
targets plan_proposed = plan_review ∷ cancelled ∷ []
targets plan_review = plan_approved ∷ revision_required ∷ failed ∷ cancelled ∷ []
targets revision_required = plan_proposed ∷ escalated ∷ cancelled ∷ []
targets plan_approved = sealed ∷ cancelled ∷ []
targets sealed = implementing ∷ cancelled ∷ []
targets implementing = verifying ∷ retrying ∷ failed ∷ cancelled ∷ []
targets verifying = passed ∷ retrying ∷ failed ∷ final_audit ∷ cancelled ∷ []
targets retrying = implementing ∷ escalated ∷ failed ∷ cancelled ∷ []
targets escalated = failed ∷ recovery ∷ cancelled ∷ []
targets final_audit = passed ∷ failed ∷ unknown ∷ cancelled ∷ []
targets passed = []
targets failed = []
targets unknown = recovery ∷ failed ∷ cancelled ∷ []
targets recovery = implementing ∷ failed ∷ cancelled ∷ []
targets cancelled = []

pub record TransitionRecord : Type 0 where
  pub frm : State
  pub to : State
  pub operator : String
  pub note : String

pub record TaskLifecycle : Type 0 where
  pub task_id : String
  pub state : State
  pub history : List TransitionRecord
  pub rejected_plans : ℕ
  pub retries : ℕ
  pub metadata : Fields

unfoldable pub new_task : String → TaskLifecycle
new_task id = record {
  task_id = id;
  state = new;
  history = [];
  rejected_plans = 0;
  retries = 0;
  metadata = end;
}

unfoldable pub can_transition : TaskLifecycle → State → Bool
unfolding targets mem
can_transition l to = mem to (targets l.state)

-- `count += 1` under a test
abbrev pub counted : Bool → ℕ → ℕ
counted b n = if b then n + 1 else n

unfoldable pub move : TaskLifecycle → State → String → String → TaskLifecycle
move l to operator note = record l {
  history = l.history ++ record { frm = l.state; to = to; operator = operator; note = note } ∷ [];
  state = to;
  retries = counted (to == retrying) l.retries;
  rejected_plans = counted (to == revision_required) l.rejected_plans;
}

-- The task, and whether the transition was made.
unfoldable pub transition : TaskLifecycle → State → String → String → TaskLifecycle × Bool
unfolding can_transition move
transition l to operator note =
    if can_transition l to then (move l to operator note, true) else (l, false)

unfoldable pub terminal : TaskLifecycle → Bool
unfolding mem
terminal l = mem l.state (passed ∷ failed ∷ cancelled ∷ [])

-- `ordered`
unfoldable pub ordered : List State
ordered =
    new ∷ discovered ∷ analyzing ∷ requirements_ready ∷ plan_proposed ∷ plan_review ∷ plan_approved
    ∷ sealed ∷ implementing ∷ verifying ∷ final_audit ∷ passed ∷ []

-- `ordered.index(s)`. `none`: a ValueError.
unfoldable pub position : State → List State → Option ℕ
position s [] = none
position s (t ∷ ts) =
    let rest = position s ts in
    if s == t then some 0 else elim rest [ none ↦ none | some n ↦ some (n + 1) ]

-- The float as the fraction that it rounds: numerator and denominator.
unfoldable pub progress_of : State → ℕ × ℕ
unfolding mem ordered position
progress_of s =
    if mem s (failed ∷ cancelled ∷ [])
    then (0, 1)
    else if s == passed
    then (1, 1)
    else elim (position s ordered) [ none ↦ (1, 2) | some n ↦ (n, 11) ]

unfoldable pub progress_fraction : TaskLifecycle → ℕ × ℕ
unfolding progress_of
progress_fraction l = progress_of l.state
