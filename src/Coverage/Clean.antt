-- ===== src/Coverage/Clean.antt =====
-- supervisor/coverage.py: the errors that the loop over the steps collects.
use plan_auditor.Base.{
  ℕ, true, false, List, [], ◌∷◌, ◌≡◌, sym, ◌∙◌, inl, inr, nat_eq, list_eq, is_empty, mem,
  Bool-cases, Option-cases, is_empty-append, and-true,
}
use plan_auditor.Json.{Value, null, Fields, get_or}
use plan_auditor.Coverage.Requirements.{
  RequirementId, as_id, CoverageError, step_id_invalid, covers_not_list, invalid_cover,
  repeated_cover, unknown_cover,
}
use plan_auditor.Coverage.Analysis.{
  Found, complain, cover, visit_cover, visit_covers, step_number, covers_of, cover_step,
  cover_steps,
}

-- The loop over the steps adds errors and removes none.
complain-errors :
    (e : CoverageError) (found : Found)
    → is_empty (complain e found).errors ≡ true
    → is_empty found.errors ≡ true
unfolding complain
complain-errors e found h =
    (and-true (is_empty found.errors) false (sym (is_empty-append found.errors (e ∷ [])) ∙ h)).0

visit_cover-errors :
    (known : List RequirementId) (sid : ℕ) (seen : List RequirementId) (found : Found) (v : Value)
    → is_empty (visit_cover known sid seen found v).1.errors ≡ true
    → is_empty found.errors ≡ true
unfolding visit_cover cover
visit_cover-errors known sid seen found v h = elim (Option-cases (as_id v)) [
  | inl bad ↦ complain-errors (invalid_cover sid) found (rw (visit_cover, bad) at h)
  | inr (id, e) ↦ elim (Bool-cases (mem id seen)) [
    | inl again ↦ complain-errors (repeated_cover sid id) found (rw (visit_cover, e, again) at h)
    | inr new ↦ elim (Bool-cases (mem id known)) [
      | inl there ↦ rw (visit_cover, e, new, there) at h
      | inr other ↦
          complain-errors (unknown_cover sid id) found (rw (visit_cover, e, new, other) at h)
    ]
  ]
]

visit_covers-errors :
    (known : List RequirementId) (sid : ℕ) (seen : List RequirementId) (found : Found)
    (vs : List Value)
    → is_empty (visit_covers known sid seen found vs).errors ≡ true
    → is_empty found.errors ≡ true
unfolding visit_covers
visit_covers-errors known sid seen found [] h = h
visit_covers-errors known sid seen found (v ∷ vs) h =
    let next = visit_cover known sid seen found v in
    visit_cover-errors known sid seen found v (visit_covers-errors known sid next.0 next.1 vs h)

cover_step-errors :
    (known : List RequirementId) (step : Fields) (found : Found)
    → is_empty (cover_step known step found).errors ≡ true
    → is_empty found.errors ≡ true
unfolding cover_step
cover_step-errors known step found h = elim (Option-cases (step_number (get_or "id" step null))) [
  | inl bad ↦
      complain-errors (step_id_invalid (get_or "id" step null)) found (rw (cover_step, bad) at h)
  | inr (sid, e) ↦ elim (Option-cases (covers_of step)) [
    | inl bad ↦ complain-errors (covers_not_list sid) found (rw (cover_step, e, bad) at h)
    | inr (vs, f) ↦ visit_covers-errors known sid [] found vs (rw (cover_step, e, f) at h)
  ]
]

pub cover_steps-errors :
    (known : List RequirementId) (steps : List Fields) (found : Found)
    → is_empty (cover_steps known steps found).errors ≡ true
    → is_empty found.errors ≡ true
unfolding cover_steps
cover_steps-errors known [] found h = h
cover_steps-errors known (step ∷ steps) found h =
    cover_step-errors known step found
      (cover_steps-errors known steps (cover_step known step found) h)
