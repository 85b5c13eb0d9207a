-- ===== src/FormalPlanning/Parse/FactLists.antt =====
-- supervisor/formal_planning.py: `_fact_list`, and the errors of `_parse_contract` as values.
use plan_auditor.Base.{
  ℕ, ◌+◌, String, Bool, true, false, not, ◌&&◌, none, some, List, [], ◌∷◌, ◌++◌, nat_eq, string_eq,
  if◌then◌else◌, nodup, length, is_empty, ltb,
}
use plan_auditor.Json.{Value, ℤ, as_list, as_text, is_blank, codes, int_eq}
use plan_auditor.PlanGraph.Steps.{GraphError}
use plan_auditor.FormalPlanning.Model.{Facts}

-- Which list a message is about; the number is the action's place, from 1.
pub data Label : Type 0 where
  initial_label goal_label : Label
  preconditions_label add_label del_label : ℕ → Label

pub data FormalError : Type 0 where
  contract_not_object : FormalError
  unknown_root_fields : List String → FormalError
  wrong_version : FormalError
  facts_not_list facts_empty facts_too_many facts_repeated : Label → FormalError
  fact_blank fact_too_long : Label → ℕ → FormalError
  actions_not_list too_many_actions : FormalError
  action_not_object : ℕ → FormalError
  unknown_action_fields : ℕ → List String → FormalError
  action_step_invalid : ℕ → FormalError
  action_step_repeated : ℕ → FormalError
  adds_and_deletes : ℕ → Facts → FormalError
  step_without_id : FormalError
  missing_actions : List ℤ → FormalError
  unknown_steps : List ℤ → FormalError
  not_one_action_per_step : FormalError
  precondition_without_source : ℕ → Facts → FormalError
  delete_without_source : ℕ → Facts → FormalError
  goal_without_source : Facts → FormalError
  graph_invalid : GraphError → FormalError

abbrev pub max_facts : ℕ
max_facts = 4096

abbrev pub max_actions : ℕ
max_actions = 2048

-- The loop of `_fact_list`: the values that are kept, and the errors, from the place `index` on.
unfoldable pub read_facts : Label → ℕ → List Value → Facts × List FormalError
read_facts label index [] = ([], [])
read_facts label index (item ∷ rest) =
    let (values, errors) = read_facts label (index + 1) rest in
    elim (as_text item) [
      | none ↦ (values, fact_blank label index ∷ errors)
      | some text ↦
          if is_blank text
          then (values, fact_blank label index ∷ errors)
          else if ltb 256 (length (codes text))
          then (values, fact_too_long label index ∷ errors)
          else (text ∷ values, errors)
    ]

-- `errors.append(e)` under a test
abbrev pub error_if : Bool → FormalError → List FormalError
error_if true e = e ∷ []
error_if false e = []

unfoldable pub fact_items : Label → List Value → Facts × List FormalError
unfolding read_facts
fact_items label raw =
    let (values, errors) = read_facts label 1 raw in
    (
      values,
      error_if (ltb max_facts (length raw)) (facts_too_many label)
          ++ errors
          ++ error_if (not (nodup values)) (facts_repeated label),
    )

unfoldable pub fact_list : Value → Label → Bool → Facts × List FormalError
unfolding fact_items
fact_list raw label allow_empty = elim (as_list raw) [
  | none ↦ ([], facts_not_list label ∷ [])
  | some values ↦
      if not allow_empty && is_empty values
      then ([], facts_empty label ∷ [])
      else fact_items label values
]
