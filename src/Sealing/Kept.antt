-- ===== src/Sealing/Kept.antt =====
-- supervisor/sealing.py: what a plan keeps that `check_monotonic` lets pass.
use plan_auditor.Base.{
  true_of_not, ℕ, ◌≤◌, String, Bool, true, false, not, Option, none, some, List, [], ◌∷◌, ◌++◌, ◌≡◌,
  refl, ap, ◌∙◌, inl, inr, nat_eq, is_empty, Bool-cases, Option-cases, All,
}
use mathlib.Core.Option.{some-injective}
use plan_auditor.Json.{Value, null, Fields, get_or, py_eq}
use plan_auditor.PlanGraph.Steps.{plan_steps}
use plan_auditor.Sealing.Multisets.{multiset_contains, copies, multiset_contains_iff}
use plan_auditor.Sealing.Changes.{
  Violation, step_scope_changed, task_changed, step_removed, Improvement, MonotonicCheck, Changes,
  violation, join_changes, violation_if, judged,
}
use plan_auditor.Sealing.Steps.{listed, both, may_grow, compare_lists, checks, compare_step}
use plan_auditor.Sealing.Monotonic.{
  StepMap, find_step, step_map, compare_steps, compare_step_maps, same_ids, compare_scopes,
  compare_plans, check_monotonic,
}

-- A comparison that returns without a violation.
abbrev IsClean : Option Changes → Type 0
IsClean o = (c : Changes) × (o ≡ some c) × (c.violations ≡ [])

both_nil : {A : Type 0} (xs ys : List A) → xs ++ ys ≡ [] → (xs ≡ []) × (ys ≡ [])
both_nil [] ys h = (refl, h)
both_nil (x ∷ xs) ys h = absurd (cc h)

both-IsClean : (a b : Option Changes) → IsClean (both a b) → IsClean a × IsClean b
unfolding both join_changes
both-IsClean none b (c, e, n) = absurd (cc e)
both-IsClean (some a) none (c, e, n) = absurd (cc e)
both-IsClean (some a) (some b) (c, e, n) =
    let same = some-injective (join_changes a b) c e in
    let (m, k) = both_nil a.violations b.violations (ap (λ (d : Changes). d.violations) same ∙ n) in
    ((a, refl, m), (b, refl, k))

violation_if-IsClean : (b : Bool) (v : Violation) → IsClean (some (violation_if b v)) → b ≡ false
unfolding violation_if
violation_if-IsClean false v h = refl
violation_if-IsClean true v (c, e, n) =
    let same = some-injective (violation v) c e in
    absurd (cc (ap (λ (d : Changes). d.violations) same ∙ n))

violation-IsClean : (v : Violation) → IsClean (some (violation v)) → ⊥
violation-IsClean v (c, e, n) =
    let same = some-injective (violation v) c e in
    absurd (cc (ap (λ (d : Changes). d.violations) same ∙ n))

-- Both lists can be read, and no text has fewer copies in the second.
abbrev pub Contained : Option (List Value) → Option (List Value) → Type 0
Contained a b =
    (xs ys : List Value) × (a ≡ some xs)
    × (b ≡ some ys)
    × ((text : List ℕ) → copies text xs ≤ copies text ys)

may_grow-contains :
    (bad : Violation) (good : Improvement) (xs ys : List Value)
    → IsClean (some (may_grow bad good xs ys))
    → multiset_contains xs ys ≡ true
unfolding may_grow
may_grow-contains bad good xs ys (c, e, n) = elim (Bool-cases (multiset_contains xs ys)) [
  | inl kept ↦ kept
  | inr lost ↦
      let same = some-injective (may_grow bad good xs ys) c e in
      let none_there : (may_grow bad good xs ys).violations ≡ [] =
        ap (λ (d : Changes). d.violations) same ∙ n in
      absurd (cc (rw (lost, may_grow) at none_there))
]

compare_lists-Contained :
    (bad : Violation) (good : Improvement) (a b : Option (List Value))
    → IsClean (compare_lists (may_grow bad good) a b)
    → Contained a b
unfolding compare_lists
compare_lists-Contained bad good none b (c, e, n) = absurd (cc e)
compare_lists-Contained bad good (some xs) none (c, e, n) = absurd (cc e)
compare_lists-Contained bad good (some xs) (some ys) h =
    (xs, ys, refl, refl, (multiset_contains_iff xs ys).0 (may_grow-contains bad good xs ys h))

-- What a step keeps: its title, its checks, its dependencies and the outputs that it requires.
pub record KeepsStep (step current : Fields) : Type 0 where
  pub title : py_eq (get_or "title" step null) (get_or "title" current null) ≡ true
  pub verify : Contained (checks step) (checks current)
  pub depends_on : Contained (listed "depends_on" step) (listed "depends_on" current)
  pub requires_outputs :
      Contained (listed "requires_outputs" step) (listed "requires_outputs" current)

compare_step-KeepsStep :
    (sid : Value) (step current : Fields)
    → IsClean (compare_step sid step current)
    → KeepsStep step current
unfolding compare_step
compare_step-KeepsStep sid step current h =
    let (title, h₁) = both-IsClean _ _ h in
    let (verify, h₂) = both-IsClean _ _ h₁ in
    let (depends, h₃) = both-IsClean _ _ h₂ in
    let (requires, _) = both-IsClean _ _ h₃ in
    record {
      title = true_of_not _ (violation_if-IsClean _ _ title);
      verify = compare_lists-Contained _ _ _ _ verify;
      depends_on = compare_lists-Contained _ _ _ _ depends;
      requires_outputs = compare_lists-Contained _ _ _ _ requires;
    }

-- The step of the later plan that has the id, and what it keeps.
abbrev pub IsKept : StepMap → Value × Fields → Type 0
IsKept after (sid, step) =
    (current : Fields) × (find_step sid after ≡ some current) × KeepsStep step current

compare_steps-All :
    (before after : StepMap) → IsClean (compare_steps before after) → All (IsKept after) before
unfolding compare_steps
compare_steps-All [] after h = tt
compare_steps-All ((sid, step) ∷ before) after h = elim (Option-cases (find_step sid after)) [
  | inl removed ↦
      let (first, _) =
        both-IsClean (some (violation (step_removed sid))) (compare_steps before after)
          (rw (removed, compare_steps) at h) in
      absurd (violation-IsClean (step_removed sid) first)
  | inr (current, found) ↦
      let (first, rest) =
        both-IsClean (compare_step sid step current) (compare_steps before after)
          (rw (found, compare_steps) at h) in
      (
        (current, found, compare_step-KeepsStep sid step current first),
        compare_steps-All before after rest,
      )
]

-- What a plan keeps: every step of the dict of its steps, its task and its tools.
pub record KeepsPlan (before after : Fields) : Type 0 where
  pub before_map : StepMap
  pub after_map : StepMap
  pub before_steps : List Fields
  pub after_steps : List Fields
  pub reads_before : plan_steps before ≡ some before_steps
  pub reads_after : plan_steps after ≡ some after_steps
  pub maps_before : step_map [] before_steps ≡ some before_map
  pub maps_after : step_map [] after_steps ≡ some after_map
  pub steps : All (IsKept after_map) before_map
  pub task : py_eq (get_or "task" before null) (get_or "task" after null) ≡ true

compare_step_maps-All :
    (a b : Option StepMap)
    → IsClean (compare_step_maps a b)
    → (before after : StepMap) × (a ≡ some before) × (b ≡ some after) × All (IsKept after) before
unfolding compare_step_maps
compare_step_maps-All none b (c, e, n) = absurd (cc e)
compare_step_maps-All (some before) none (c, e, n) = absurd (cc e)
compare_step_maps-All (some before) (some after) h =
    (before, after, refl, refl, compare_steps-All before after h)

nil_of_is_empty : {A : Type 0} (xs : List A) → is_empty xs ≡ true → xs ≡ []
nil_of_is_empty [] h = refl
nil_of_is_empty (x ∷ xs) h = absurd (cc h)

module _ (normal_host : String → String) where
  compare_plans-KeepsPlan :
      (before after : Fields) (before_steps after_steps : List Fields)
      → plan_steps before ≡ some before_steps
      → plan_steps after ≡ some after_steps
      → IsClean (compare_plans normal_host before after before_steps after_steps)
      → KeepsPlan before after
  unfolding compare_plans
  compare_plans-KeepsPlan before after before_steps after_steps reads_before reads_after h =
      let same_task = py_eq (get_or "task" before null) (get_or "task" after null) in
      let maps_compared = compare_step_maps (step_map [] before_steps) (step_map [] after_steps) in
      let task_compared : Option Changes = some (violation_if (not same_task) task_changed) in
      let scopes = compare_scopes normal_host before after in
      let ids : Option Changes =
        some (violation_if (not (same_ids after_steps before_steps)) step_scope_changed) in
      let (_, h₁) = both-IsClean ids (both maps_compared (both task_compared scopes)) h in
      let (maps, h₂) = both-IsClean maps_compared (both task_compared scopes) h₁ in
      let (task, _) = both-IsClean task_compared scopes h₂ in
      let (before_map, after_map, m, k, all) =
        compare_step_maps-All (step_map [] before_steps) (step_map [] after_steps) maps in
      record {
        before_map = before_map;
        after_map = after_map;
        before_steps = before_steps;
        after_steps = after_steps;
        reads_before = reads_before;
        reads_after = reads_after;
        maps_before = m;
        maps_after = k;
        steps = all;
        task = true_of_not same_task (violation_if-IsClean (not same_task) task_changed task);
      }

  -- A plan that is checked against the sealed one and lets no violation show has, for every step of the
  -- sealed plan's dict, a step of the same id with the same title, in which no check, dependency or required
  -- output has fewer copies, and the task is the same.
  pub check_monotonic-KeepsPlan :
      (before after : Fields) (c : MonotonicCheck)
      → check_monotonic normal_host before after ≡ some c
      → c.ok ≡ true
      → KeepsPlan before after
  unfolding check_monotonic judged
  check_monotonic-KeepsPlan before after c h passed = elim (Option-cases (plan_steps before)) [
    | inl stuck ↦ absurd (cc (rw (stuck, check_monotonic) at h))
    | inr (before_steps, e) ↦ elim (Option-cases (plan_steps after)) [
      | inl stuck ↦ absurd (cc (rw (e, stuck, check_monotonic) at h))
      | inr (after_steps, f) ↦
          elim (Option-cases (compare_plans normal_host before after before_steps after_steps)) [
            | inl stuck ↦ absurd (cc (rw (e, f, stuck, check_monotonic) at h))
            | inr (changes, g) ↦
                let same = some-injective (judged changes) c (rw (e, f, g, check_monotonic) at h) in
                let clean : is_empty changes.violations ≡ true =
                  ap (λ (d : MonotonicCheck). d.ok) same ∙ passed in
                compare_plans-KeepsPlan before after before_steps after_steps e f
                  (changes, g, nil_of_is_empty changes.violations clean)
          ]
    ]
  ]
