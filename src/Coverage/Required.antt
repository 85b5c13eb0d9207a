-- ===== src/Coverage/Required.antt =====
-- supervisor/coverage.py: the requirements of a plan as they stand in its document.
use plan_auditor.Base.{
  ap, beq_refl, String, sym, ◌∙◌, ℕ, suc, Bool, true, false, not, some, List, [], ◌∷◌, ◌++◌, ◌≡◌,
  ◌⊎◌, refl, inl, inr, nat_eq, list_eq, ◌==◌, beq→eq, is_empty, is_empty-append, keep, mem, map,
  All, Bool-cases, Option-cases, and-true,
}
use mathlib.Core.Option.{some-injective}
use plan_auditor.Json.{
  Value, null, bool, int, float, str, arr, obj, Fields, get_or, as_object, as_text, as_list, codes,
}
use plan_auditor.Coverage.Requirements.{
  RequirementId, as_id, lower_code, Priority, must, should, may, read_priority, numbered_id,
  Requirement, Collected, CoverageError, failure_if, duplicate_requirement, not_requirement,
  requirement_without_id, requirement_without_description, priority_invalid, is_described,
  enter_requirement, read_requirement, read_requirements, requirements_of, is_required,
}

-- The priority reads "may", in letters of any case.
abbrev pub IsMay : Value → Type 0
IsMay v = (text : String) × (as_text v ≡ some text) × (map lower_code (codes text) ≡ codes "may")

must_is_no_may : (map lower_code (codes "must") == codes "may") ≡ false
unfolding codes
must_is_no_may = refl

must_be_covered : ¬ IsMay (str "must")
unfolding as_text
must_be_covered (text, e, h) =
    let same : text ≡ "must" = sym (some-injective "must" text e) in
    let read : map lower_code (codes "must") ≡ codes "may" = rw same at h in
    absurd (cc (must_is_no_may, ap (λ l. l == codes "may") read, beq_refl (codes "may")))

module _ (IsCovered : RequirementId → Type 0) where
  -- The requirement at a position of the list: a text is the requirement of the numbered id, and a dict has an id
  -- and is covered unless its priority reads "may".
  abbrev pub IsMet : ℕ → Value → Type 0
  IsMet index item =
      ((text : String) × (item ≡ str text) × IsCovered (numbered_id index))
      ⊎ ((fields : Fields) × (id : RequirementId) × (item ≡ obj fields)
          × (as_id (get_or "id" fields null) ≡ some id)
          × (IsMay (get_or "priority" fields (str "must")) ⊎ IsCovered id))

  unfoldable pub AreMet : ℕ → List Value → Type 0
  AreMet index [] = Unit {0}
  AreMet index (item ∷ rest) = IsMet index item × AreMet (suc index) rest

  -- A requirement that is kept is covered where it is required.
  abbrev IsKept : Requirement → Type 0
  IsKept r = is_required r ≡ true → IsCovered r.id

  kept_of_required :
      (rs : List Requirement)
      → All IsCovered (map (λ (r : Requirement). r.id) (keep is_required rs))
      → All IsKept rs
  kept_of_required [] h = tt
  kept_of_required (r ∷ rs) h = elim (Bool-cases (is_required r)) [
    | inl hit ↦ let both = rw hit at h in ((λ required. both.0), kept_of_required rs both.1)
    | inr miss ↦ ((λ required. absurd (cc)), kept_of_required rs (rw miss at h))
  ]

  All-back :
      (front : List Requirement) (r : Requirement)
      → All IsKept (front ++ r ∷ [])
      → All IsKept front × IsKept r
  All-back [] r h = (tt, h.0)
  All-back (x ∷ front) r h = let (before, last) = All-back front r h.1 in ((h.0, before), last)

  some_error :
      (errors more : List CoverageError) (e : CoverageError)
      → ¬ (is_empty (errors ++ e ∷ more) ≡ true)
  some_error [] more e h = cc h
  some_error (x ∷ errors) more e h = cc h

  -- A clean priority other than "may" is required.
  read_priority-cases :
      (v : Value) (p : Priority)
      → read_priority v ≡ some p
      → IsMay v
        ⊎ ((id : RequirementId) → is_required (record { id = id; priority = some p }) ≡ true)
  unfolding read_priority
  read_priority-cases v must h = inr (λ id. refl)
  read_priority-cases v should h = inr (λ id. refl)
  read_priority-cases v may h = elim (Option-cases (as_text v)) [
    | inl other ↦ absurd (cc (rw (read_priority, other) at h))
    | inr (text, e) ↦
        let lowered = map lower_code (codes text) in
        elim (Bool-cases (lowered == codes "must")) [
          | inl first ↦ absurd (cc (rw (read_priority, e, first) at h))
          | inr no_must ↦ elim (Bool-cases (lowered == codes "should")) [
            | inl second ↦ absurd (cc (rw (read_priority, e, no_must, second) at h))
            | inr no_should ↦ elim (Bool-cases (lowered == codes "may")) [
              | inl third ↦ inl (text, e, beq→eq lowered (codes "may") third)
              | inr no_may ↦ absurd (cc (rw (read_priority, e, no_must, no_should, no_may) at h))
            ]
          ]
        ]
  ]

  enter_requirement-IsKept :
      (id : RequirementId) (described : Bool) (v : Value) (found : Collected)
      → is_empty (enter_requirement id described v found).errors ≡ true
      → All IsKept (enter_requirement id described v found).result
      → (is_empty found.errors ≡ true) × All IsKept found.result × (IsMay v ⊎ IsCovered id)
  unfolding enter_requirement
  enter_requirement-IsKept id described v found h k =
      elim (Bool-cases (mem id (map (λ (r : Requirement). r.id) found.result))) [
        | inl again ↦ absurd (
            some_error found.errors [] (duplicate_requirement id)
              (rw (enter_requirement, again) at h))
        | inr new ↦ elim (Option-cases (read_priority v)) [
          | inl bad ↦ absurd (
              some_error
                (found.errors ++ failure_if (not described) (requirement_without_description id)) []
                (priority_invalid id v) (rw (enter_requirement, new, bad) at h))
          | inr (p, e) ↦
              let more = failure_if (not described) (requirement_without_description id) in
              let (both, _) = and-true (is_empty (found.errors ++ more)) true (
                sym (is_empty-append (found.errors ++ more) [])
                ∙ (rw (enter_requirement, new, e) at h)) in
              let (clean, _) =
                and-true (is_empty found.errors) (is_empty more)
                  (sym (is_empty-append found.errors more) ∙ both) in
              let (before, last) =
                All-back found.result (record { id = id; priority = some p })
                  (rw (enter_requirement, new, e) at k) in
              (
                clean,
                before,
                elim (read_priority-cases v p e) [
                  | inl optional ↦ inl optional
                  | inr required ↦ inr (last (required id))
                ],
              )
        ]
      ]

  read_requirement-IsMet :
      (index : ℕ) (item : Value) (found : Collected)
      → is_empty (read_requirement index item found).errors ≡ true
      → All IsKept (read_requirement index item found).result
      → (is_empty found.errors ≡ true) × All IsKept found.result × IsMet index item
  unfolding read_requirement as_object
  read_requirement-IsMet index (str text) found h k =
      let (clean, before, met) =
        enter_requirement-IsKept (numbered_id index) (is_described (str text)) (str "must") found h
          k in
      (
        clean,
        before,
        elim met [
          | inl optional ↦ absurd (must_be_covered optional)
          | inr covered ↦ inl (text, refl, covered)
        ],
      )
  read_requirement-IsMet index (obj fields) found h k =
      elim (Option-cases (as_id (get_or "id" fields null))) [
        | inl lost ↦ absurd (
            some_error found.errors [] (requirement_without_id index)
              (rw (read_requirement, lost) at h))
        | inr (id, e) ↦
            let (clean, before, met) =
              enter_requirement-IsKept id (is_described (get_or "description" fields null))
                (get_or "priority" fields (str "must")) found (rw (read_requirement, e) at h)
                (rw (read_requirement, e) at k) in
            (clean, before, inr (fields, id, refl, e, met))
      ]
  read_requirement-IsMet index null found h k =
      absurd (some_error found.errors [] (not_requirement index) h)
  read_requirement-IsMet index (bool b) found h k =
      absurd (some_error found.errors [] (not_requirement index) h)
  read_requirement-IsMet index (int n) found h k =
      absurd (some_error found.errors [] (not_requirement index) h)
  read_requirement-IsMet index (float q s) found h k =
      absurd (some_error found.errors [] (not_requirement index) h)
  read_requirement-IsMet index (arr vs) found h k =
      absurd (some_error found.errors [] (not_requirement index) h)

  read_requirements-AreMet :
      (index : ℕ) (items : List Value) (found : Collected)
      → is_empty (read_requirements index items found).errors ≡ true
      → All IsKept (read_requirements index items found).result
      → (is_empty found.errors ≡ true) × All IsKept found.result × AreMet index items
  unfolding read_requirements AreMet
  read_requirements-AreMet index [] found h k = (h, k, tt)
  read_requirements-AreMet index (item ∷ rest) found h k =
      let (clean, kept, later) =
        read_requirements-AreMet (suc index) rest (read_requirement index item found) h k in
      let (before_clean, before, here) = read_requirement-IsMet index item found clean kept in
      (before_clean, before, (here, later))

  -- Where the list of requirements is read without an error and the required ones are covered, all are met.
  pub requirements_of-AreMet :
      (plan : Fields)
      → is_empty (requirements_of plan).errors ≡ true
      → All IsCovered
          (map (λ (r : Requirement). r.id) (keep is_required (requirements_of plan).result))
      → (raw : List Value) × (as_list (get_or "requirements" plan null) ≡ some raw)
        × (is_empty raw ≡ false)
        × AreMet 1 raw
  unfolding requirements_of
  requirements_of-AreMet plan h k =
      elim (Option-cases (as_list (get_or "requirements" plan null))) [
        | inl other ↦ absurd (cc (rw (requirements_of, other) at h))
        | inr (raw, e) ↦ elim (Bool-cases (is_empty raw)) [
          | inl nothing ↦ absurd (cc (rw (requirements_of, e, nothing) at h))
          | inr some_there ↦
              let kept = kept_of_required (requirements_of plan).result k in
              let (_, _, met) =
                read_requirements-AreMet 1 raw (record { result = []; errors = [] })
                  (rw (requirements_of, e, some_there) at h)
                  (rw (requirements_of, e, some_there) at kept) in
              (raw, e, some_there, met)
        ]
      ]
