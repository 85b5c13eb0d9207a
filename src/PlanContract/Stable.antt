-- ===== src/PlanContract/Stable.antt =====
-- scripts/contract.py: a contract is its own contract.
use plan_auditor.Base.{
  Option, none, some, List, [], ◌∷◌, ◌≡◌, refl, ap, ◌∙◌, inl, inr, Bool-cases, Option-cases, Result,
  subst,
}
use mathlib.Core.Option.{some-injective}
use plan_auditor.Json.{
  Value, null, arr, nil, Fields, get, get_or, set_field, iterate, items, objects,
}
use plan_auditor.PlanGraph.Steps.{GraphError, Graph, plan_steps, effective_dependencies}
use plan_auditor.PlanContract.{
  object_items, checks_of, contract_fields, contract_step, cons_some, bound_step, has_dependencies,
  bind_dependencies, bound_steps, traffic_entry, contract_document, contract_plan,
}

objects-items : (fs : List Fields) → objects (items (object_items fs)) ≡ fs
unfolding objects items object_items
objects-items [] = refl
objects-items (f ∷ fs) = ap (λ r. f ∷ r) (objects-items fs)

-- The form of a contracted step.
abbrev pub IsContract : Fields → Type 0
IsContract c =
    (step : Fields) × (d : Value) × (checks : List Fields) × (contract_fields step d checks ≡ c)

contract_step-contract_fields :
    (step : Fields) (d : Value) (checks : List Fields)
    → contract_step (contract_fields step d checks) ≡ some (contract_fields step d checks)
unfolding contract_step checks_of contract_fields iterate get_or
contract_step-contract_fields step d checks = rw (objects-items checks) refl

bound_step-contract_fields :
    (deps : Result GraphError Graph) (step : Fields) (d : Value) (checks : List Fields)
    → bound_step deps (contract_fields step d checks) ≡ some (contract_fields step d checks)
unfolding bound_step bind_dependencies contract_fields set_field get_or
bound_step-contract_fields deps step d checks =
    rw (contract_step-contract_fields step d checks, bound_step)
      (elim (Bool-cases (has_dependencies deps (contract_fields step d checks))) [
        | inl bound ↦ rw bound refl
        | inr free ↦ rw free refl
      ])

bind_dependencies-IsContract :
    (deps : Result GraphError Graph) (step : Fields) (d : Value) (checks : List Fields)
    → IsContract (bind_dependencies deps step (contract_fields step d checks))
unfolding bind_dependencies contract_fields set_field
bind_dependencies-IsContract deps step d checks = elim (Bool-cases (has_dependencies deps step)) [
  | inl bound ↦ rw bound (step, get_or "depends_on" step (arr nil), checks, refl)
  | inr free ↦ rw free (step, d, checks, refl)
]

bound_step-IsContract :
    (deps : Result GraphError Graph) (step contracted : Fields)
    → bound_step deps step ≡ some contracted
    → IsContract contracted
unfolding bound_step contract_step
bound_step-IsContract deps step contracted h = elim (Option-cases (checks_of step)) [
  | inl stuck ↦ absurd (cc (rw (stuck, bound_step) at h))
  | inr (checks, e) ↦
      subst IsContract (some-injective _ _ (rw (e, bound_step) at h))
        (bind_dependencies-IsContract deps step (get_or "depends_on" step null) checks)
]

cons_some-eq-some :
    {A : Type 0} (x : Option A) (xs : Option (List A)) (out : List A)
    → cons_some x xs ≡ some out
    → (a : A) × (rest : List A) × (x ≡ some a) × (xs ≡ some rest) × (a ∷ rest ≡ out)
unfolding cons_some
cons_some-eq-some none xs out h = absurd (cc h)
cons_some-eq-some (some a) none out h = absurd (cc h)
cons_some-eq-some (some a) (some rest) out h = (a, rest, refl, refl, some-injective _ _ h)

-- Contracted steps stay, whatever the graph.
bound_steps-bound :
    (deps deps' : Result GraphError Graph) (steps contracted : List Fields)
    → bound_steps deps steps ≡ some contracted
    → bound_steps deps' contracted ≡ some contracted
unfolding bound_steps
bound_steps-bound deps deps' [] contracted h =
    let same : [] ≡ contracted = some-injective _ _ h in rw (← same) refl
bound_steps-bound deps deps' (step ∷ steps) contracted h =
    let (first, rest, e, f, same) =
      cons_some-eq-some (bound_step deps step) (bound_steps deps steps) contracted h in
    let (step', d, checks, form) = bound_step-IsContract deps step first e in
    let one : bound_step deps' first ≡ some first =
      subst (λ c. bound_step deps' c ≡ some c) form
        (bound_step-contract_fields deps' step' d checks) in
    rw (← same) (rw (one, bound_steps-bound deps deps' steps rest f) refl)

-- What `contract_plan` gives, where it gives something.
pub contract_plan-some :
    (plan contract : Fields)
    → contract_plan plan ≡ some contract
    → (steps contracted : List Fields) × (bound_steps (effective_dependencies steps) steps
        ≡ some contracted)
      × (contract_document plan contracted ≡ contract)
unfolding contract_plan
contract_plan-some plan contract h = elim (Option-cases (plan_steps plan)) [
  | inl stuck ↦ absurd (cc (rw (stuck, contract_plan) at h))
  | inr (steps, e) ↦ elim (Option-cases (bound_steps (effective_dependencies steps) steps)) [
    | inl stuck ↦ absurd (cc (rw (e, stuck, contract_plan) at h))
    | inr (contracted, f) ↦
        (steps, contracted, f, some-injective _ _ (rw (e, f, contract_plan) at h))
  ]
]

plan_steps-contracted :
    (plan : Fields) (contracted : List Fields)
    → get_or "steps" plan (arr nil) ≡ arr (object_items contracted)
    → plan_steps plan ≡ some contracted
unfolding plan_steps iterate
plan_steps-contracted plan contracted named =
    rw (named, plan_steps) (ap some (objects-items contracted))

-- A plan with contracted steps has its own steps for its contract.
pub contract_plan-contracted :
    (plan : Fields) (deps : Result GraphError Graph) (steps contracted : List Fields)
    → get_or "steps" plan (arr nil) ≡ arr (object_items contracted)
    → bound_steps deps steps ≡ some contracted
    → contract_plan plan ≡ some (contract_document plan contracted)
unfolding contract_plan
contract_plan-contracted plan deps steps contracted named bound =
    rw
      (
        plan_steps-contracted plan contracted named,
        bound_steps-bound deps (effective_dependencies contracted) steps contracted bound,
        contract_plan,
      )
      refl

contract_document_twice :
    (plan : Fields) (contracted : List Fields)
    → contract_document (contract_document plan contracted) contracted
      ≡ contract_document plan contracted
unfolding contract_document traffic_entry get_or get
contract_document_twice plan contracted = elim (Option-cases (get "traffic" plan)) [
  | inl absent ↦ rw absent refl
  | inr (traffic, present) ↦ rw present refl
]

steps-contract_document :
    (plan : Fields) (contracted : List Fields)
    → get_or "steps" (contract_document plan contracted) (arr nil) ≡ arr (object_items contracted)
unfolding contract_document get_or
steps-contract_document plan contracted = refl

-- The contract of a contract is the contract itself.
pub contract_plan_idempotent :
    (plan contract : Fields)
    → contract_plan plan ≡ some contract
    → contract_plan contract ≡ some contract
contract_plan_idempotent plan contract h =
    let (steps, contracted, bound, same) = contract_plan-some plan contract h in
    subst (λ c. contract_plan c ≡ some c) same
      (contract_plan-contracted (contract_document plan contracted) (effective_dependencies steps)
          steps contracted (steps-contract_document plan contracted) bound
        ∙ ap some (contract_document_twice plan contracted))
