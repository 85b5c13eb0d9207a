-- ===== src/FormalPlanning/Parse.antt =====
-- supervisor/formal_planning.py: `_parse_contract`. Errors are values, in the order
-- in which the source appends their messages.
mod FactLists
pub mod Valid
unfoldable pub use FactLists.*
use plan_auditor.Base.{
  unique, ℕ, zero, suc, ◌+◌, String, Bool, true, false, not, ◌&&◌, Option, none, some, List, [],
  ◌∷◌, ◌++◌, map, nat_eq, string_eq, ◌==◌, if◌then◌else◌, mem, diff, union, same_set, nodup, keep,
  all, length, is_empty, ltb, ok, err,
}
use plan_auditor.Json.{
  Value, null, bool, int, ℤ, pos, float, arr, nil, Fields, get_or, as_object, as_list, as_text,
  is_blank, codes, as_int, int_eq, sort_ints, field_names, sort_texts,
}
use plan_auditor.PlanGraph.Steps.{GraphError, effective_dependencies}
use plan_auditor.FormalPlanning.Model.{Facts, FormalAction, FormalContract}
use plan_auditor.FormalPlanning.Search.{all_adds}

-- `version != 1`. True and 1.0 equal 1.
unfoldable pub is_version_one : Value → Bool
is_version_one (bool true) = true
is_version_one (int (pos (suc zero))) = true
is_version_one (float (some (pos (suc zero))) _) = true
is_version_one _ = false

-- An id as an action names it: an int above 0 that is no bool.
unfoldable pub action_step : Value → Option ℕ
action_step (int (pos (suc n))) = some (suc n)
action_step _ = none

-- The lists read so far by the loop over the actions.
pub record Read : Type 0 where
  pub actions : List FormalAction
  pub seen : List ℕ
  pub errors : List FormalError

abbrev pub unknown_names : Fields → List String → List String
unknown_names fields allowed = sort_texts (diff (field_names fields) allowed)

-- The end of the loop's body, for a step that has not been seen.
unfoldable pub read_effects : ℕ → ℕ → Fields → FormalAction × List FormalError
unfolding fact_list
read_effects index sid raw =
    let (pre, pre_errors) =
      fact_list (get_or "preconditions" raw (arr nil)) (preconditions_label index) true in
    let (adds, add_errors) =
      fact_list (get_or "add_effects" raw (arr nil)) (add_label index) true in
    let (dels, del_errors) =
      fact_list (get_or "del_effects" raw (arr nil)) (del_label index) true in
    let overlap = keep (λ f. mem f dels) adds in
    (
      record { step_id = sid; preconditions = pre; add_effects = adds; del_effects = dels },
      pre_errors
          ++ add_errors
          ++ del_errors
          ++ error_if (not (is_empty overlap)) (adds_and_deletes sid (sort_texts (unique overlap))),
    )

unfoldable pub read_fields : ℕ → Fields → Read → Read
unfolding read_effects
read_fields index raw r =
    let unknown =
      unknown_names raw ("step" ∷ "preconditions" ∷ "add_effects" ∷ "del_effects" ∷ []) in
    let errors =
      r.errors ++ error_if (not (is_empty unknown)) (unknown_action_fields index unknown) in
    elim (action_step (get_or "step" raw null)) [
      | none ↦ record r { errors = errors ++ action_step_invalid index ∷ [] }
      | some sid ↦
          if mem sid r.seen
          then record r { errors = errors ++ action_step_repeated sid ∷ [] }
          else let (action, found) = read_effects index sid raw in
            record {
              actions = r.actions ++ action ∷ [];
              seen = r.seen ++ sid ∷ [];
              errors = errors ++ found;
            }
    ]

unfoldable pub read_action : ℕ → Value → Read → Read
unfolding read_fields
read_action index raw r = elim (as_object raw) [
  | none ↦ record r { errors = r.errors ++ action_not_object index ∷ [] }
  | some fields ↦ read_fields index fields r
]

unfoldable pub read_actions : ℕ → List Value → Read → Read
unfolding read_action
read_actions index [] r = r
read_actions index (raw ∷ rest) r = read_actions (index + 1) rest (read_action index raw r)

-- `plan_ids`: the ids of the steps that are ints, a bool and an int below 1 among them.
unfoldable pub plan_ids : List Fields → List ℤ
plan_ids [] = []
plan_ids (step ∷ steps) =
    let rest = plan_ids steps in
    elim (as_int (get_or "id" step null)) [ none ↦ rest | some sid ↦ sid ∷ rest ]

-- The comparison of the plan's ids with those of the actions.
unfoldable pub id_errors : List ℤ → Read → List FormalError
id_errors ids r =
    let seen = map pos r.seen in
    let missing = sort_ints (diff ids seen) in
    let extra = sort_ints (diff seen ids) in
    if same_set seen ids && length r.actions == length ids
    then []
    else error_if (not (is_empty missing)) (missing_actions (unique missing))
      ++ error_if (not (is_empty extra)) (unknown_steps (unique extra))
      ++ error_if (is_empty missing && is_empty extra && not (length r.actions == length ids))
          not_one_action_per_step

-- The facts of each action and of the goal must come from the initial facts or from some action.
unfoldable pub source_errors : Facts → List FormalAction → List FormalError
source_errors known [] = []
source_errors known (a ∷ actions) =
    let impossible = diff a.preconditions known in
    let meaningless = diff a.del_effects known in
    error_if (not (is_empty impossible))
      (precondition_without_source a.step_id (sort_texts (unique impossible)))
    ++ error_if (not (is_empty meaningless))
        (delete_without_source a.step_id (sort_texts (unique meaningless)))
    ++ source_errors known actions

unfoldable pub graph_errors : List Fields → List FormalError
graph_errors steps = elim (effective_dependencies steps) [
  | ok deps ↦ []
  | err e ↦ graph_invalid e ∷ []
]

pub record Parsed : Type 0 where
  pub contract : Option FormalContract
  pub errors : List FormalError
  pub effect_free : Bool

unfoldable pub finish_contract : FormalContract → List FormalError → Parsed
finish_contract contract errors = record {
  contract = if is_empty errors then some contract else none;
  errors = errors;
  effect_free =
      is_empty errors
      && all (λ a. is_empty a.add_effects && is_empty a.del_effects) contract.actions;
}

unfoldable pub parse_fields : List Fields → Fields → Parsed
unfolding fact_list read_actions plan_ids id_errors source_errors graph_errors finish_contract
    is_version_one
parse_fields steps raw =
    let unknown = unknown_names raw ("version" ∷ "initial_facts" ∷ "goal_facts" ∷ "actions" ∷ []) in
    let (initial, initial_errors) =
      fact_list (get_or "initial_facts" raw null) initial_label true in
    let (goals, goals_errors) = fact_list (get_or "goal_facts" raw null) goal_label false in
    let listed = as_list (get_or "actions" raw null) in
    let raw_actions : List Value = elim listed [ none ↦ [] | some vs ↦ vs ] in
    let list_errors : List FormalError = elim listed [
      | none ↦ actions_not_list ∷ []
      | some vs ↦ error_if (ltb max_actions (length vs)) too_many_actions
    ] in
    let r = read_actions 1 raw_actions (record { actions = []; seen = []; errors = [] }) in
    let ids = plan_ids steps in
    let known = union initial (all_adds r.actions) in
    let lost = diff goals known in
    finish_contract (record { initial_facts = initial; goal_facts = goals; actions = r.actions })
      (error_if (not (is_empty unknown)) (unknown_root_fields unknown)
        ++ error_if (not (is_version_one (get_or "version" raw null))) wrong_version
        ++ initial_errors
        ++ goals_errors
        ++ list_errors
        ++ r.errors
        ++ error_if (not (length ids == length steps)) step_without_id
        ++ id_errors ids r
        ++ source_errors known r.actions
        ++ error_if (not (is_empty lost)) (goal_without_source (sort_texts (unique lost)))
        ++ graph_errors steps)

unfoldable pub parse_contract : List Fields → Value → Parsed
unfolding parse_fields
parse_contract steps raw = elim (as_object raw) [
  | none ↦ record { contract = none; errors = contract_not_object ∷ []; effect_free = false }
  | some fields ↦ parse_fields steps fields
]
