-- ===== src/Coverage/Covered.antt =====
-- supervisor/coverage.py: what a valid coverage says of the steps.
use plan_auditor.Base.{
  ℕ, Bool, true, false, not, ◌&&◌, none, some, List, [], ◌∷◌, ◌++◌, ◌≡◌, refl, sym, ap, ◌∙◌, inl,
  inr, nat_eq, list_eq, ◌==◌, beq_refl, beq→eq, is_empty, keep, any, mem, mem-append, Dict,
  lookup_or, lookup_or-put, sort_with, map, All, Bool-cases, Option-cases, List-cases,
  is_empty-append, mem-sort_with, is_empty_of_mem, mem_of_is_empty, and-true, or-true, arith,
}
use mathlib.Core.Option.{some-injective}
use plan_auditor.Json.{Value, null, Fields, get_or, as_list, codes_le}
use plan_auditor.PlanGraph.Steps.{plan_steps}
use plan_auditor.Coverage.Requirements.{
  RequirementId, as_id, CoverageError, Requirement, not_covered, failure_if, is_required,
  requirements_of,
}
use plan_auditor.Coverage.Required.{AreMet, requirements_of-AreMet}
use plan_auditor.Coverage.Clean.{cover_steps-errors}
use plan_auditor.Coverage.Analysis.{
  Found, complain, cover, visit_cover, visit_covers, step_number, covers_of, cover_step,
  cover_steps, empty_mapping, CoverageResult, has_steps, finish, analyze_steps, analyze_coverage,
}

-- The value names the id.
abbrev names : RequirementId → Value → Bool
names id v = elim (as_id v) [ none ↦ false | some found ↦ id == found ]

-- The step has the number, and its covers name the requirement.
abbrev pub covers_id : RequirementId → ℕ → Fields → Bool
covers_id id sid step = elim (step_number (get_or "id" step null)) [
  | none ↦ false
  | some n ↦ elim (covers_of step) [ none ↦ false | some vs ↦ sid == n && any (names id) vs ]
]

module _ (P : RequirementId → ℕ → Type 0) where
  -- The pairs of the mapping have the property.
  abbrev IsSound : Dict RequirementId (List ℕ) → Type 0
  IsSound mapping =
      (id : RequirementId) (sid : ℕ) → mem sid (lookup_or id mapping []) ≡ true → P id sid

  cover-IsSound :
      (id : RequirementId) (sid : ℕ) (found : Found)
      → P id sid
      → IsSound found.mapping
      → IsSound (cover id sid found).mapping
  unfolding cover mem
  cover-IsSound id sid found p sound j n m = elim (Bool-cases (j == id)) [
    | inl same ↦
        let here : mem n (lookup_or id found.mapping [] ++ sid ∷ []) ≡ true =
          rw (lookup_or-put id j (lookup_or id found.mapping [] ++ sid ∷ []) [] found.mapping, same)
            at m in
        let id_same = beq→eq j id same in
        elim (or-true (mem n (lookup_or id found.mapping [])) (mem n (sid ∷ []))
          (sym (mem-append n (lookup_or id found.mapping []) (sid ∷ [])) ∙ here)) [
            | inl old ↦ rw id_same (sound id n old)
            | inr new ↦ rw (id_same, beq→eq n sid (ground (arith, new))) p
          ]
    | inr other ↦ sound j n (
        rw (lookup_or-put id j (lookup_or id found.mapping [] ++ sid ∷ []) [] found.mapping, other)
          at m)
  ]

  visit_cover-IsSound :
      (known : List RequirementId) (sid : ℕ) (seen : List RequirementId) (found : Found) (v : Value)
      → ((id : RequirementId) → names id v ≡ true → P id sid)
      → IsSound found.mapping
      → IsSound (visit_cover known sid seen found v).1.mapping
  unfolding visit_cover complain
  visit_cover-IsSound known sid seen found v p sound = elim (Option-cases (as_id v)) [
    | inl bad ↦ rw (bad, visit_cover) sound
    | inr (id, e) ↦ elim (Bool-cases (mem id seen)) [
      | inl repeated ↦ rw (e, repeated, visit_cover) sound
      | inr fresh ↦ elim (Bool-cases (mem id known)) [
        | inr unknown ↦ rw (e, fresh, unknown, visit_cover) sound
        | inl there ↦
            let named : names id v ≡ true = rw (e, names) (beq_refl id) in
            rw (e, fresh, there, visit_cover) (cover-IsSound id sid found (p id named) sound)
      ]
    ]
  ]

  visit_covers-IsSound :
      (known : List RequirementId) (sid : ℕ) (seen : List RequirementId) (found : Found)
      (vs : List Value)
      → ((id : RequirementId) → any (names id) vs ≡ true → P id sid)
      → IsSound found.mapping
      → IsSound (visit_covers known sid seen found vs).mapping
  unfolding visit_covers
  visit_covers-IsSound known sid seen found [] p sound = sound
  visit_covers-IsSound known sid seen found (v ∷ vs) p sound =
      let next = visit_cover known sid seen found v in
      visit_covers-IsSound known sid next.0 next.1 vs (λ id h. p id (ground (arith, h)))
        (visit_cover-IsSound known sid seen found v (λ id h. p id (ground (arith, h))) sound)

  cover_step-IsSound :
      (known : List RequirementId) (step : Fields) (found : Found)
      → ((id : RequirementId) (sid : ℕ) → covers_id id sid step ≡ true → P id sid)
      → IsSound found.mapping
      → IsSound (cover_step known step found).mapping
  unfolding cover_step complain
  cover_step-IsSound known step found p sound =
      elim (Option-cases (step_number (get_or "id" step null))) [
        | inl bad ↦ rw (bad, cover_step) sound
        | inr (sid, e) ↦ elim (Option-cases (covers_of step)) [
          | inl bad ↦ rw (e, bad, cover_step) sound
          | inr (vs, f) ↦
              rw (e, f, cover_step)
                (visit_covers-IsSound known sid [] found vs
                  (λ id h. p id sid (rw (e, f, covers_id) (rw (beq_refl sid) h))) sound)
        ]
      ]

  cover_steps-IsSound :
      (known : List RequirementId) (steps : List Fields) (found : Found)
      → ((id : RequirementId) (sid : ℕ) → any (covers_id id sid) steps ≡ true → P id sid)
      → IsSound found.mapping
      → IsSound (cover_steps known steps found).mapping
  unfolding cover_steps
  cover_steps-IsSound known [] found p sound = sound
  cover_steps-IsSound known (step ∷ steps) found p sound =
      cover_steps-IsSound known steps (cover_step known step found)
        (λ id sid h. p id sid (ground (arith, h)))
        (cover_step-IsSound known step found (λ id sid h. p id sid (ground (arith, h))) sound)

lookup_or-empty_mapping :
    (id : RequirementId) (ids : List RequirementId) → lookup_or id (empty_mapping ids) [] ≡ []
unfolding lookup_or empty_mapping
lookup_or-empty_mapping id [] = refl
lookup_or-empty_mapping id (j ∷ ids) = elim (Bool-cases (id == j)) [
  | inl same ↦ rw same refl
  | inr other ↦ rw other (lookup_or-empty_mapping id ids)
]

-- Some step covers the requirement.
abbrev pub IsCovered : List Fields → RequirementId → Type 0
IsCovered steps id = (sid : ℕ) × (any (covers_id id sid) steps ≡ true)

first_step :
    (steps : List Fields) (mapping : Dict RequirementId (List ℕ)) (id : RequirementId)
    → ((j : RequirementId) (sid : ℕ)
        → mem sid (lookup_or j mapping []) ≡ true
        → any (covers_id j sid) steps ≡ true)
    → has_steps mapping id ≡ true
    → IsCovered steps id
unfolding mem
first_step steps mapping id sound h = elim (List-cases (lookup_or id mapping [])) [
  | inl none_there ↦ absurd (cc (rw none_there at h))
  | inr (sid, rest, e) ↦ (sid, sound id sid (rw e (rw (beq_refl sid) refl)))
]

all-IsCovered :
    (steps : List Fields) (mapping : Dict RequirementId (List ℕ)) (required : List RequirementId)
    → ((j : RequirementId) (sid : ℕ)
        → mem sid (lookup_or j mapping []) ≡ true
        → any (covers_id j sid) steps ≡ true)
    → is_empty (keep (λ id. not (has_steps mapping id)) required) ≡ true
    → All (IsCovered steps) required
all-IsCovered steps mapping [] sound h = tt
all-IsCovered steps mapping (id ∷ required) sound h = elim (Bool-cases (has_steps mapping id)) [
  | inl there ↦ (
    first_step steps mapping id sound there,
    all-IsCovered steps mapping required sound (rw there at h),
  )
  | inr missing ↦ absurd (cc (rw missing at h))
]

is_empty-sort_with :
    (le : RequirementId → RequirementId → Bool) (ids : List RequirementId)
    → is_empty (sort_with le ids) ≡ true
    → is_empty ids ≡ true
is_empty-sort_with le ids h =
    is_empty_of_mem ids
      (λ id. sym (mem-sort_with le id ids) ∙ mem_of_is_empty id (sort_with le ids) h)

no_error : (b : Bool) (e : CoverageError) → is_empty (failure_if (not b) e) ≡ true → b ≡ true
no_error true e h = refl
no_error false e h = absurd (cc h)

finish-clean :
    (required : List RequirementId) (found : Found)
    → (finish required found).valid ≡ true
    → let missing = sort_with codes_le (keep (λ id. not (has_steps found.mapping id)) required) in
      (is_empty found.errors ≡ true) × (is_empty missing ≡ true)
unfolding finish
finish-clean required found h =
    let missing = sort_with codes_le (keep (λ id. not (has_steps found.mapping id)) required) in
    let (clean, silent) =
      and-true (is_empty found.errors)
        (is_empty (failure_if (not (is_empty missing)) (not_covered missing)))
        (sym (
            is_empty-append found.errors
              (failure_if (not (is_empty missing)) (not_covered missing)))
          ∙ h) in
    (clean, no_error (is_empty missing) (not_covered missing) silent)

finish-IsCovered :
    (required : List RequirementId) (found : Found) (steps : List Fields)
    → ((j : RequirementId) (sid : ℕ)
        → mem sid (lookup_or j found.mapping []) ≡ true
        → any (covers_id j sid) steps ≡ true)
    → (finish required found).valid ≡ true
    → All (IsCovered steps) required
finish-IsCovered required found steps sound h =
    let missing = keep (λ id. not (has_steps found.mapping id)) required in
    all-IsCovered steps found.mapping required sound
      (is_empty-sort_with codes_le missing (finish-clean required found h).1)

-- A coverage that is valid is that of a plan whose list of requirements is not empty, and every one of them is
-- covered by a step of the plan with a number whose covers name it, but for those whose priority reads "may": a
-- text by its numbered id, and a dict by its own id.
pub analyze_coverage-valid :
    (plan : Fields) (result : CoverageResult)
    → analyze_coverage plan ≡ some result
    → result.valid ≡ true
    → (steps : List Fields) × (raw : List Value) × (plan_steps plan ≡ some steps)
      × (as_list (get_or "requirements" plan null) ≡ some raw)
      × (is_empty raw ≡ false)
      × AreMet (IsCovered steps) 1 raw
unfolding analyze_coverage analyze_steps
analyze_coverage-valid plan result h valid = elim (Option-cases (plan_steps plan)) [
  | inl stuck ↦ absurd (cc (rw (stuck, analyze_coverage) at h))
  | inr (steps, e) ↦
      let same : analyze_steps (requirements_of plan) steps ≡ result =
        some-injective _ _ (rw (e, analyze_coverage) at h) in
      let read = requirements_of plan in
      let known = map (λ (r : Requirement). r.id) read.result in
      let required = map (λ (r : Requirement). r.id) (keep is_required read.result) in
      let start : Found = record { mapping = empty_mapping known; errors = read.errors } in
      let sound =
        cover_steps-IsSound (λ j sid. any (covers_id j sid) steps ≡ true) known steps start
          (λ j sid m. m) (λ j sid m. absurd (cc (rw (lookup_or-empty_mapping j known) at m))) in
      let checked : (finish required (cover_steps known steps start)).valid ≡ true =
        ap (λ (r : CoverageResult). r.valid) same ∙ valid in
      let (raw, listed, filled, met) =
        requirements_of-AreMet (IsCovered steps) plan
          (cover_steps-errors known steps start
            (finish-clean required (cover_steps known steps start) checked).0)
          (finish-IsCovered required (cover_steps known steps start) steps sound checked) in
      (steps, raw, e, listed, filled, met)
]
