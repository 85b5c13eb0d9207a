-- ===== src/FormalPlanning/Accepts.antt =====
-- What `_parse_contract` has checked when it returns a contract.
use plan_auditor.Base.{
  unique, String, Bool, true, false, not, ◌&&◌, none, some, List, [], ◌∷◌, ◌++◌, ◌≡◌, refl, sym,
  ◌∙◌, ap, map, inl, inr, nat_eq, string_eq, ◌==◌, if◌then◌else◌, mem, mem_of_is_empty, diff,
  mem_of_diff_empty, union, same_set, same_set_of_mem, is_empty_of_mem, mem-sort_with, sort_with,
  Bool_eq_of_iff, nodup, All, is_empty, length, Option-cases, and-true, arith, ok, err,
  Result-cases, subst,
}
use plan_auditor.Json.{
  Value, null, pos, sort_ints, int_leb, ℤ, int_eq, sort_texts, Fields, get_or, as_object, as_list,
}
use plan_auditor.PlanGraph.Steps.{Graph, effective_dependencies}
use plan_auditor.FormalPlanning.Model.{Facts, FormalContract}
use plan_auditor.FormalPlanning.Search.{all_adds}
use plan_auditor.FormalPlanning.Breadth.Future.{HasDistinctSteps}
use plan_auditor.FormalPlanning.Parse.{
  FormalError, error_if, Read, read_actions, plan_ids, id_errors, source_errors, graph_errors,
  finish_contract, parse_fields, parse_contract, goal_without_source, initial_label, goal_label,
  graph_invalid, not_one_action_per_step, fact_list,
}
use plan_auditor.FormalPlanning.Reads.{
  IsConsistent, IsRead, error_if-empty, parts_empty, read_actions-IsRead,
}

diff-mem :
    (x : ℤ) (xs ys : List ℤ)
    → is_empty (sort_ints (diff xs ys)) ≡ true
    → mem x xs ≡ true
    → mem x ys ≡ true
unfolding sort_ints
diff-mem x xs ys h = mem_of_diff_empty x xs ys (
    is_empty_of_mem (diff xs ys) λ z.
      sym (mem-sort_with int_leb z (diff xs ys))
      ∙ mem_of_is_empty z (sort_with int_leb (diff xs ys)) h)

-- The comparison finds an error where the lists differ.
wrong_ids :
    (ids seen : List ℤ) (same_length : Bool) (e1 e2 : FormalError)
    → is_empty (
        error_if (not (is_empty (sort_ints (diff ids seen)))) e1
        ++ error_if (not (is_empty (sort_ints (diff seen ids)))) e2
        ++ error_if
            (is_empty (sort_ints (diff ids seen))
              && is_empty (sort_ints (diff seen ids))
              && not same_length)
            not_one_action_per_step)
      ≡ true
    → (same_set seen ids && same_length) ≡ true
wrong_ids ids seen same_length e1 e2 h =
    let missing = is_empty (sort_ints (diff ids seen)) in
    let extra = is_empty (sort_ints (diff seen ids)) in
    let uneven = missing && extra && not same_length in
    let (front, at_count) =
      parts_empty (error_if (not missing) e1 ++ error_if (not extra) e2)
        (error_if uneven not_one_action_per_step) h in
    let (at_missing, at_extra) =
      parts_empty (error_if (not missing) e1) (error_if (not extra) e2) front in
    let none_missing = error_if-empty (not missing) e1 at_missing in
    let none_extra = error_if-empty (not extra) e2 at_extra in
    let counted = error_if-empty uneven not_one_action_per_step at_count in
    let agree = same_set_of_mem seen ids λ x.
      Bool_eq_of_iff (mem x seen) (mem x ids) (diff-mem x seen ids (ground (arith, none_extra)))
        (diff-mem x ids seen (ground (arith, none_missing))) in
    ground (arith, none_missing, none_extra, counted, agree)

-- The ids agree where their comparison finds no error.
agree_or :
    (b : Bool) (errors : List FormalError)
    → (is_empty errors ≡ true → b ≡ true)
    → is_empty (if b then [] else errors) ≡ true
    → b ≡ true
agree_or true errors f h = refl
agree_or false errors f h = f h

id_errors-empty :
    (ids : List ℤ) (r : Read)
    → is_empty (id_errors ids r) ≡ true
    → (same_set (map pos r.seen) ids && length r.actions == length ids) ≡ true
unfolding id_errors
id_errors-empty ids r =
    agree_or _ _ (wrong_ids ids (map pos r.seen) (length r.actions == length ids) _ _)

some_if :
    (b : Bool) (x y : FormalContract) → (if b then some x else none) ≡ some y → b ≡ true × x ≡ y
some_if true x y h = (refl, cc h)
some_if false x y h = absurd (cc h)

finish_contract-some :
    (contract c : FormalContract) (errors : List FormalError)
    → (finish_contract contract errors).contract ≡ some c
    → is_empty errors ≡ true × contract ≡ c
unfolding finish_contract
finish_contract-some contract c errors h = some_if (is_empty errors) contract c h

graph_errors-empty :
    (steps : List Fields)
    → is_empty (graph_errors steps) ≡ true
    → (deps : Graph) × (effective_dependencies steps ≡ ok deps)
unfolding graph_errors
graph_errors-empty steps h = elim (Result-cases (effective_dependencies steps)) [
  | inl (deps, e) ↦ (deps, e)
  | inr (x, e) ↦ absurd (
      cc (
        subst
          (λ r.
            is_empty {A = FormalError} (elim r [ ok deps ↦ [] | err e ↦ graph_invalid e ∷ [] ])
            ≡ true)
          e h))
]

-- What holds of a contract that `_parse_contract` returns for the steps of a plan.
pub record IsAccepted (steps : List Fields) (contract : FormalContract) : Type 0 where
  pub distinct : HasDistinctSteps contract
  pub consistent : All IsConsistent contract.actions
  pub covers : same_set (map pos (map (λ a. a.step_id) contract.actions)) (plan_ids steps) ≡ true
  pub one_each : (length contract.actions == length (plan_ids steps)) ≡ true
  pub reachable :
      (f : String)
      → mem f contract.goal_facts ≡ true
      → mem f (union contract.initial_facts (all_adds contract.actions)) ≡ true
  pub graph : (deps : Graph) × (effective_dependencies steps ≡ ok deps)

nothing-IsRead : IsRead (record { actions = []; seen = []; errors = [] })
unfolding nodup
nothing-IsRead = record { distinct = refl; same = refl; consistent = λ _. tt }

-- The last six checks found nothing.
checks_empty :
    (front read width ids sources goals graph : List FormalError)
    → is_empty (front ++ read ++ width ++ ids ++ sources ++ goals ++ graph) ≡ true
    → (is_empty read ≡ true)
      × (is_empty ids ≡ true)
      × (is_empty goals ≡ true)
      × (is_empty graph ≡ true)
checks_empty front read width ids sources goals graph h =
    let (to_goals, at_graph) =
      parts_empty (front ++ read ++ width ++ ids ++ sources ++ goals) graph h in
    let (to_sources, at_goals) =
      parts_empty (front ++ read ++ width ++ ids ++ sources) goals to_goals in
    let (to_ids, _) = parts_empty (front ++ read ++ width ++ ids) sources to_sources in
    let (to_width, at_ids) = parts_empty (front ++ read ++ width) ids to_ids in
    let (to_read, _) = parts_empty (front ++ read) width to_width in
    let (_, at_read) = parts_empty front read to_read in (at_read, at_ids, at_goals, at_graph)

accepted :
    (steps : List Fields) (initial goals : Facts) (r : Read)
    → IsRead r
    → is_empty r.errors ≡ true
    → is_empty (id_errors (plan_ids steps) r) ≡ true
    → is_empty (diff goals (union initial (all_adds r.actions))) ≡ true
    → is_empty (graph_errors steps) ≡ true
    → IsAccepted steps (record { initial_facts = initial; goal_facts = goals; actions = r.actions })
accepted steps initial goals r inv read ids lost graph =
    let (same, count) =
      and-true (same_set (map pos r.seen) (plan_ids steps))
        (length r.actions == length (plan_ids steps)) (id_errors-empty (plan_ids steps) r ids) in
    record {
      distinct = subst (λ l. nodup l ≡ true) (sym inv.same) inv.distinct;
      consistent = inv.consistent read;
      covers = subst (λ l. same_set (map pos l) (plan_ids steps) ≡ true) (sym inv.same) same;
      one_each = count;
      reachable = λ f m. mem_of_diff_empty f goals (union initial (all_adds r.actions)) lost m;
      graph = graph_errors-empty steps graph;
    }

finished :
    (steps : List Fields) (initial goals : Facts) (raws : List Value)
    → (front width : List FormalError) (c : FormalContract)
    → let r = read_actions 1 raws (record { actions = []; seen = []; errors = [] }) in
      let known = union initial (all_adds r.actions) in
      let lost = diff goals known in
      (finish_contract
          (record { initial_facts = initial; goal_facts = goals; actions = r.actions })
          (front
            ++ r.errors
            ++ width
            ++ id_errors (plan_ids steps) r
            ++ source_errors known r.actions
            ++ error_if (not (is_empty lost)) (goal_without_source (sort_texts (unique lost)))
            ++ graph_errors steps)).contract
        ≡ some c
      → IsAccepted steps c
finished steps initial goals raws front width c h =
    let r = read_actions 1 raws (record { actions = []; seen = []; errors = [] }) in
    let known = union initial (all_adds r.actions) in
    let lost = diff goals known in
    let lost_error =
      error_if (not (is_empty lost)) (goal_without_source (sort_texts (unique lost))) in
    let ids = id_errors (plan_ids steps) r in
    let sources = source_errors known r.actions in
    let (none_found, same) =
      finish_contract-some
        (record { initial_facts = initial; goal_facts = goals; actions = r.actions }) c
        (front ++ r.errors ++ width ++ ids ++ sources ++ lost_error ++ graph_errors steps) h in
    let (read, at_ids, at_lost, at_graph) =
      checks_empty front r.errors width ids sources lost_error (graph_errors steps) none_found in
    let none_lost = error_if-empty (not (is_empty lost)) _ at_lost in
    subst (IsAccepted steps) same (
      accepted steps initial goals r (read_actions-IsRead 1 raws _ nothing-IsRead) read at_ids
        (ground (arith, none_lost)) at_graph)

parse_fields-IsAccepted :
    (steps : List Fields) (raw : Fields) (c : FormalContract)
    → (parse_fields steps raw).contract ≡ some c
    → IsAccepted steps c
unfolding parse_fields
parse_fields-IsAccepted steps raw c =
    let raws : List Value = elim (as_list (get_or "actions" raw null)) [
      | none ↦ []
      | some vs ↦ vs
    ] in
    finished steps (fact_list (get_or "initial_facts" raw null) initial_label true).0
      (fact_list (get_or "goal_facts" raw null) goal_label false).0 raws _ _ c

none-parse_contract :
    (steps : List Fields) (raw : Value)
    → as_object raw ≡ none
    → (parse_contract steps raw).contract ≡ none
unfolding parse_contract
none-parse_contract steps raw e = rw (e, parse_contract) refl

some-parse_contract :
    (steps : List Fields) (raw : Value) (fields : Fields)
    → as_object raw ≡ some fields
    → (parse_contract steps raw) ≡ parse_fields steps fields
unfolding parse_contract
some-parse_contract steps raw fields e = rw (e, parse_contract) refl

-- A contract that `_parse_contract` returns has one action for each step of the plan and no other,
-- no action that deletes what it adds, only goals that the initial facts or some action give, and
-- the plan's dependencies are well formed.
pub parse_contract-IsAccepted :
    (steps : List Fields) (raw : Value) (c : FormalContract)
    → (parse_contract steps raw).contract ≡ some c
    → IsAccepted steps c
parse_contract-IsAccepted steps raw c h = elim (Option-cases (as_object raw)) [
  | inl other ↦ absurd (cc (h, none-parse_contract steps raw other))
  | inr (fields, e) ↦
      parse_fields-IsAccepted steps fields c
        (sym (ap (λ p. p.contract) (some-parse_contract steps raw fields e)) ∙ h)
]

none_if : (b : Bool) (x : FormalContract) → (if b then some x else none) ≡ none → b ≡ false
none_if true x h = absurd (cc h)
none_if false x h = refl

finish_contract-none :
    (contract : FormalContract) (errors : List FormalError)
    → (finish_contract contract errors).contract ≡ none
    → is_empty (finish_contract contract errors).errors ≡ false
unfolding finish_contract
finish_contract-none contract errors h = none_if (is_empty errors) contract h

parse_fields-none :
    (steps : List Fields) (raw : Fields)
    → (parse_fields steps raw).contract ≡ none
    → is_empty (parse_fields steps raw).errors ≡ false
unfolding parse_fields
parse_fields-none steps raw h = finish_contract-none _ _ h

refused_object :
    (steps : List Fields) (raw : Value)
    → as_object raw ≡ none
    → is_empty (parse_contract steps raw).errors ≡ false
unfolding parse_contract
refused_object steps raw e = rw (e, parse_contract) refl

-- Where `_parse_contract` returns no contract it returns an error.
pub parse_contract-none :
    (steps : List Fields) (raw : Value)
    → (parse_contract steps raw).contract ≡ none
    → is_empty (parse_contract steps raw).errors ≡ false
parse_contract-none steps raw h = elim (Option-cases (as_object raw)) [
  | inl other ↦ refused_object steps raw other
  | inr (fields, e) ↦
      let same = some-parse_contract steps raw fields e in
      subst (λ p. is_empty p.errors ≡ false) (sym same)
        (parse_fields-none steps fields (sym (ap (λ p. p.contract) same) ∙ h))
]
