-- ===== src/Tests/Contracts.antt =====
-- supervisor/formal_planning.py: contracts as documents, one that is accepted and four that are not.
use plan_auditor.Base.{unique, ℕ, List, [], ◌∷◌, some, ◌≡◌, refl}
use plan_auditor.Json.{Value, int, str, arr, obj, pos, Items, nil, cons, Fields, end, field}
use plan_auditor.Tests.Language.{language}
use plan_auditor.PlanGraph.Steps.{effective_dependencies, positive_ids, unknown_dependencies}
use plan_auditor.Tests.Graph.{plan_step}
use plan_auditor.FormalPlanning.Model.{Facts, FormalContract}
use plan_auditor.Base.{not, ◌||◌, false, true, is_empty}
use plan_auditor.FormalPlanning.Parse.Valid.{IsFactList, fact_list-IsFactList}
use plan_auditor.FormalPlanning.Parse.{fact_list}
use plan_auditor.FormalPlanning.Parse.{
  parse_contract, action_step, adds_and_deletes, missing_actions, graph_invalid,
  action_step_repeated, precondition_without_source, facts_empty, goal_label,
}
use plan_auditor.FormalPlanning.Search.{all_adds}
use plan_auditor.FormalPlanning.Accepts.{IsAccepted, parse_contract-IsAccepted}

abbrev pub texts : Facts → Items
texts [] = nil
texts (f ∷ fs) = cons (str f) (texts fs)

abbrev pub declared : ℕ → Facts → Facts → Facts → Value
declared sid pre add del = obj (
    field "step" (int (pos sid)) (
      field "preconditions" (arr (texts pre))
        (field "add_effects" (arr (texts add)) (field "del_effects" (arr (texts del)) end))))

abbrev pub listed : List Value → Items
listed [] = nil
listed (v ∷ vs) = cons v (listed vs)

abbrev pub document : Facts → List Value → Value
document goals actions = obj (
    field "version" (int (pos 1)) (
      field "initial_facts" (arr (texts ("source" ∷ [])))
        (field "goal_facts" (arr (texts goals)) (field "actions" (arr (listed actions)) end))))

abbrev pub plan : List Fields
plan = plan_step 1 (2 ∷ []) ∷ plan_step 2 [] ∷ []

abbrev pub ship : Value
ship = declared 1 ("binary" ∷ []) ("shipped" ∷ []) []

abbrev build : Value
build = declared 2 ("source" ∷ []) ("binary" ∷ []) []

abbrev pub good : Value
good = document ("shipped" ∷ []) (ship ∷ build ∷ [])

abbrev good_contract : FormalContract
good_contract = record {
  initial_facts = "source" ∷ [];
  goal_facts = "shipped" ∷ [];
  actions =
      record {
        step_id = 1;
        preconditions = "binary" ∷ [];
        add_effects = "shipped" ∷ [];
        del_effects = [];
      }
      ∷ record {
        step_id = 2;
        preconditions = "source" ∷ [];
        add_effects = "binary" ∷ [];
        del_effects = [];
      }
      ∷ [];
}

parse_contract-good : (parse_contract plan good).contract ≡ some good_contract
unfolding parse_contract action_step positive_ids all_adds effective_dependencies language
parse_contract-good = refl

parse_contract_missing :
    (parse_contract plan (document ("shipped" ∷ []) (ship ∷ ship ∷ []))).errors
    ≡ action_step_repeated 1
      ∷ missing_actions (pos 2 ∷ [])
      ∷ precondition_without_source 1 ("binary" ∷ [])
      ∷ []
unfolding parse_contract action_step positive_ids all_adds effective_dependencies language unique
parse_contract_missing = refl

parse_contract_overlap :
    (parse_contract plan
      (document ("binary" ∷ []) (ship ∷ declared 2 [] ("binary" ∷ []) ("binary" ∷ []) ∷ []))).errors
    ≡ adds_and_deletes 2 ("binary" ∷ []) ∷ []
unfolding parse_contract action_step positive_ids all_adds effective_dependencies language unique
parse_contract_overlap = refl

parse_contract_dangling :
    (parse_contract (plan_step 1 (7 ∷ []) ∷ plan_step 2 [] ∷ []) good).errors
    ≡ graph_invalid (unknown_dependencies 1 (7 ∷ [])) ∷ []
unfolding parse_contract action_step positive_ids all_adds effective_dependencies language
parse_contract_dangling = refl

parse_contract_no_goal :
    (parse_contract plan (document [] (ship ∷ build ∷ []))).errors ≡ facts_empty goal_label ∷ []
unfolding parse_contract action_step positive_ids all_adds effective_dependencies language
parse_contract_no_goal = refl

parse_contract-IsAccepted_example : IsAccepted plan good_contract
parse_contract-IsAccepted_example =
    parse_contract-IsAccepted plan good good_contract parse_contract-good

abbrev given : Value
given = arr (texts ("source" ∷ "binary" ∷ []))

fact_list-given : is_empty (fact_list given goal_label false).1 ≡ true
unfolding fact_list language
fact_list-given = refl

fact_list-IsFactList_example :
    IsFactList given (fact_list given goal_label false).0
    × ((false || not (is_empty (fact_list given goal_label false).0)) ≡ true)
fact_list-IsFactList_example = fact_list-IsFactList given goal_label false fact_list-given
