-- ===== src/PlanGraph/Dependencies.antt =====
-- What `effective_dependencies` returns is a graph on the ids of the steps.
use plan_auditor.Base.{
  ℕ, true, false, not, List, [], ◌∷◌, ◌++◌, ◌≡◌, refl, sym, ◌∙◌, ap, inl, inr, nat_eq, mem, nodup,
  nodup-snoc, keep, is_empty, Dict, keys, put, keys-put, All, ok, ◌>>=◌, ◌>>◌, raise_if, >>=-eq-ok,
  >>-eq-ok, raise_if-eq-ok, Option-cases, arith, mem_of_is_empty, mem-keep, subst, append_assoc,
  append-nil,
}
use plan_auditor.Json.{Fields, as_list, get_or, arr, nil}
use plan_auditor.PlanGraph.Steps.{
  Graph, step_id, sid_of, step_ids, index_step, index_steps, step_index, positive_ids, check_ids,
  read_ids, step_dependencies, all_dependencies, effective_dependencies, duplicate_step_id,
}
use plan_auditor.PlanGraph.Graphs.{IsEntry, IsGraph}

index_step-keys :
    (result next : Dict ℕ Fields) (step : Fields)
    → index_step result step ≡ ok next
    → (keys next ≡ keys result ++ sid_of step ∷ []) × (mem (sid_of step) (keys result) ≡ false)
unfolding index_step sid_of
index_step-keys result next step h = elim (Option-cases (step_id step)) [
  | inl none_there ↦ absurd (cc (rw (none_there, index_step) at h))
  | inr (sid, found) ↦
      let run : (raise_if (mem sid (keys result)) (duplicate_step_id sid)
            >> ok (put sid step result))
          ≡ ok next =
        rw (found, index_step) at h in
      let (fresh, made) = >>-eq-ok _ _ run in
      let new = raise_if-eq-ok (mem sid (keys result)) (duplicate_step_id sid) fresh in
      let same : put sid step result ≡ next = cc in
      rw (found, sid_of)
        (
          ap (λ (d : Dict ℕ Fields). keys d) (sym same) ∙ keys-put sid step result ∙ rw new refl,
          new,
        )
]

-- The index has the ids of the steps, in order, each once.
index_steps-keys :
    (result final : Dict ℕ Fields) (steps : List Fields)
    → index_steps result steps ≡ ok final
    → nodup (keys result) ≡ true
    → (keys final ≡ keys result ++ step_ids steps) × (nodup (keys final) ≡ true)
unfolding index_steps step_ids
index_steps-keys result final [] h n =
    let same : result ≡ final = cc in
    (rw append-nil (ap (λ (d : Dict ℕ Fields). keys d) (sym same)), rw (← same) n)
index_steps-keys result final (step ∷ steps) h n =
    let (next, one, rest) = >>=-eq-ok (index_step result step) (λ d. index_steps d steps) h in
    let (grown, new) = index_step-keys result next step one in
    let (all, distinct) =
      index_steps-keys next final steps rest
        (rw grown (nodup-snoc (keys result) (sid_of step) n new)) in
    (
      all
          ∙ ap (λ (l : List ℕ). l ++ step_ids steps) grown
          ∙ append_assoc (keys result) (sid_of step ∷ []) (step_ids steps),
      distinct,
    )

pub step_index-keys :
    (steps : List Fields) (by_id : Dict ℕ Fields)
    → step_index steps ≡ ok by_id
    → (keys by_id ≡ step_ids steps) × (nodup (keys by_id) ≡ true)
unfolding step_index nodup
step_index-keys steps by_id h = index_steps-keys [] by_id steps h refl

check_ids-eq-ok :
    (known : List ℕ) (sid : ℕ) (current ids : List ℕ)
    → check_ids known sid current ≡ ok ids
    → (nodup current ≡ true)
      × (mem sid current ≡ false)
      × (is_empty (keep (λ dep. not (mem dep known)) current) ≡ true)
      × (current ≡ ids)
unfolding check_ids
check_ids-eq-ok known sid current ids h = ground arith

check_ids-IsEntry :
    (known : List ℕ) (sid : ℕ) (current ids : List ℕ)
    → check_ids known sid current ≡ ok ids
    → IsEntry known (sid, ids)
check_ids-IsEntry known sid current ids h =
    let (distinct, other, inside, same) = check_ids-eq-ok known sid current ids h in
    subst (λ l. IsEntry known (sid, l)) same
      (record {
        distinct = distinct;
        irreflexive = other;
        parents_known = λ p m. ground (
          arith,
          mem-keep (λ dep. not (mem dep known)) p current,
          mem_of_is_empty p (keep (λ dep. not (mem dep known)) current) inside,
          m,
        );
      })

step_dependencies-IsEntry :
    (known : List ℕ) (step : Fields) (ids : List ℕ)
    → step_dependencies known step ≡ ok ids
    → IsEntry known (sid_of step, ids)
unfolding step_dependencies read_ids
step_dependencies-IsEntry known step ids h =
    elim (Option-cases (as_list (get_or "depends_on" step (arr nil)))) [
      | inl no_list ↦ absurd (cc (rw (no_list, step_dependencies) at h))
      | inr (raw, listed) ↦
          let run : read_ids known (sid_of step) raw ≡ ok ids =
            rw (listed, step_dependencies) at h in
          elim (Option-cases (positive_ids raw)) [
            | inl bad ↦ absurd (cc (rw (bad, read_ids) at run))
            | inr (current, read) ↦
                check_ids-IsEntry known (sid_of step) current ids (rw (read, read_ids) at run)
          ]
    ]

all_dependencies-entries :
    (known : List ℕ) (steps : List Fields) (deps : Graph)
    → all_dependencies known steps ≡ ok deps
    → (keys deps ≡ step_ids steps) × All (IsEntry known) deps
unfolding all_dependencies step_ids
all_dependencies-entries known [] deps h = let same : [] ≡ deps = cc in rw (← same) (refl, tt)
all_dependencies-entries known (step ∷ steps) deps h =
    let (ids, one, h₁) =
      >>=-eq-ok (step_dependencies known step)
        (λ current. all_dependencies known steps >>= λ rest. ok ((sid_of step, current) ∷ rest))
        h in
    let (rest, later, h₂) =
      >>=-eq-ok (all_dependencies known steps) (λ rest. ok ((sid_of step, ids) ∷ rest)) h₁ in
    let same : (sid_of step, ids) ∷ rest ≡ deps = cc in
    let (named, entries) = all_dependencies-entries known steps rest later in
    rw (← same) (
      ap (λ (l : List ℕ). sid_of step ∷ l) named,
      (step_dependencies-IsEntry known step ids one, entries),
    )

-- Where it returns, `effective_dependencies` gives a graph on the ids of the steps, in plan order:
-- each step once, no repeated parent, no step its own parent, and every parent a step of the plan.
pub effective_dependencies-IsGraph :
    (steps : List Fields) (deps : Graph)
    → effective_dependencies steps ≡ ok deps
    → (keys deps ≡ step_ids steps) × IsGraph deps
unfolding effective_dependencies
effective_dependencies-IsGraph steps deps h =
    let (by_id, indexed, h₁) = >>=-eq-ok (step_index steps) _ h in
    let (declared, h₂) = >>-eq-ok _ _ h₁ in
    let (ids, distinct) = step_index-keys steps by_id indexed in
    let (named, entries) = all_dependencies-entries (keys by_id) steps deps h₂ in
    let same : keys by_id ≡ keys deps = ids ∙ sym named in
    (
      named,
      record {
        keys_distinct = rw (← same) distinct;
        entries = subst (λ l. All (IsEntry l) deps) same entries;
      },
    )
