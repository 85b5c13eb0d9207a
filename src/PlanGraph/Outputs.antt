-- ===== src/PlanGraph/Outputs.antt =====
-- scripts/plan_graph.py: `output_index`, `required_outputs`, `validate_output_links`.
use plan_auditor.Base.{
  ℕ, String, Bool, false, not, Option, none, some, List, [], ◌∷◌, ◌++◌, map, nat_eq, string_eq,
  pair_eq, if◌then◌else◌, mem, keep, is_empty, Dict, keys, lookup_or, put, Result, ok, err, ◌>>=◌,
  ◌>>◌, raise_if,
}
use plan_auditor.Json.{
  Value, null, arr, nil, Fields, get_or, positive_int, as_object, as_list, as_text, is_blank,
}
use plan_auditor.PlanGraph.Steps.{
  GraphError, outputs_not_list, output_not_object, output_name_invalid, duplicate_output,
  output_without_checks, requires_not_list, required_not_object, required_source_invalid,
  required_name_invalid, required_repeated, Graph, step_index, effective_dependencies, sid_of,
}
use plan_auditor.PlanGraph.Order.{parents_of}
use plan_auditor.PlanGraph.Closure.{Closure, transitive_dependencies}

-- A text that `strip` leaves non-empty.
unfoldable pub as_name : Value → Option String
as_name v = elim (as_text v) [ none ↦ none | some s ↦ if is_blank s then none else some s ]

-- `isinstance(v, list) and v`
unfoldable pub has_checks : Value → Bool
has_checks v = elim (as_list v) [ none ↦ false | some checks ↦ not (is_empty checks) ]

-- `step.get(k, [])` where a null counts as the empty list. `none`: the value is no list.
unfoldable pub list_field : String → Fields → Option (List Value)
list_field k step = elim (get_or k step (arr nil)) [ null ↦ some [] | v ↦ as_list v ]

unfoldable pub index_output :
    Value → Dict String Fields → Value → Result GraphError (Dict String Fields)
index_output sid result item = elim (as_object item) [
  | none ↦ err (output_not_object sid)
  | some output ↦ elim (as_name (get_or "name" output null)) [
    | none ↦ err (output_name_invalid sid)
    | some name ↦ do
      raise_if (mem name (keys result)) (duplicate_output sid name)
      raise_if (not (has_checks (get_or "verify" output null))) (output_without_checks sid name)
      ok (put name output result)
  ]
]

unfoldable pub index_outputs :
    Value → Dict String Fields → List Value → Result GraphError (Dict String Fields)
unfolding index_output
index_outputs sid result [] = ok result
index_outputs sid result (item ∷ rest) = do
  result' ← index_output sid result item
  index_outputs sid result' rest

unfoldable pub output_index : Fields → Result GraphError (Dict String Fields)
unfolding index_outputs list_field
output_index step =
    let sid = get_or "id" step null in
    elim (list_field "outputs" step) [
      | none ↦ err (outputs_not_list sid)
      | some raw ↦ index_outputs sid [] raw
    ]

-- A required output: the step that declares it, and its name.
abbrev pub Ref : Type 0
Ref = ℕ × String

unfoldable pub read_required : Value → List Ref → Value → Result GraphError Ref
read_required sid seen item = elim (as_object item) [
  | none ↦ err (required_not_object sid)
  | some ref ↦ elim (positive_int (get_or "step" ref null)) [
    | none ↦ err (required_source_invalid sid)
    | some source ↦ elim (as_name (get_or "name" ref null)) [
      | none ↦ err (required_name_invalid sid)
      | some name ↦ do
        raise_if (mem (source, name) seen) (required_repeated sid source name)
        ok (source, name)
    ]
  ]
]

-- `result` and `seen` hold the same pairs.
unfoldable pub read_requireds : Value → List Ref → List Value → Result GraphError (List Ref)
unfolding read_required
read_requireds sid seen [] = ok seen
read_requireds sid seen (item ∷ rest) = do
  ref ← read_required sid seen item
  read_requireds sid (seen ++ ref ∷ []) rest

unfoldable pub required_outputs : Fields → Result GraphError (List Ref)
unfolding read_requireds list_field
required_outputs step =
    let sid = get_or "id" step null in
    elim (list_field "requires_outputs" step) [
      | none ↦ err (requires_not_list sid)
      | some raw ↦ read_requireds sid [] raw
    ]

-- The messages of `validate_output_links`.
pub data LinkError : Type 0 where
  graph : GraphError → LinkError
  edge_without_link : ℕ → ℕ → LinkError
  unknown_source : ℕ → ℕ → LinkError
  not_a_dependency : ℕ → ℕ → String → LinkError
  undeclared_output : ℕ → ℕ → String → LinkError

-- The first loop: the outputs of the steps whose outputs are well formed, and the other errors.
abbrev pub Outputs : Type 0
Outputs = Dict ℕ (Dict String Fields)

unfoldable pub collect_outputs : List Fields → Outputs × List LinkError
unfolding output_index
collect_outputs [] = ([], [])
collect_outputs (step ∷ steps) =
    let (outputs, errors) = collect_outputs steps in
    elim (output_index step) [
      | ok found ↦ ((sid_of step, found) ∷ outputs, errors)
      | err e ↦ (outputs, graph e ∷ errors)
    ]

-- The edges to a step that no required output backs.
unfoldable pub edge_errors : ℕ → List ℕ → List ℕ → List LinkError
edge_errors sid linked parents =
    map (λ parent. edge_without_link parent sid) (keep (λ parent. not (mem parent linked)) parents)

unfoldable pub ref_errors : List ℕ → List ℕ → Outputs → ℕ → Ref → List LinkError
ref_errors known closed outputs sid (source, name) =
    if not (mem source known)
    then unknown_source sid source ∷ []
    else if not (mem source closed)
    then not_a_dependency sid source name ∷ []
    else if not (mem name (keys (lookup_or source outputs [])))
    then undeclared_output sid source name ∷ []
    else []

unfoldable pub refs_errors : List ℕ → List ℕ → Outputs → ℕ → List Ref → List LinkError
unfolding ref_errors
refs_errors known closed outputs sid [] = []
refs_errors known closed outputs sid (ref ∷ refs) =
    ref_errors known closed outputs sid ref ++ refs_errors known closed outputs sid refs

-- The second loop.
module _ (known : List ℕ) (deps : Graph) (closure : Closure) (outputs : Outputs) where
  unfoldable pub step_link_errors : Fields → List LinkError
  unfolding required_outputs edge_errors refs_errors parents_of sid_of
  step_link_errors step =
      let sid = sid_of step in
      elim (required_outputs step) [
        | err e ↦ graph e ∷ []
        | ok required ↦
            edge_errors sid (map (λ ref. ref.0) required) (parents_of deps sid)
            ++ refs_errors known (closure sid) outputs sid required
      ]

  unfoldable pub link_errors : List Fields → List LinkError
  unfolding step_link_errors
  link_errors [] = []
  link_errors (step ∷ steps) = step_link_errors step ++ link_errors steps

-- The graph as the `try` block reads it.
unfoldable pub linked_graph : List Fields → Result GraphError (List ℕ × Graph × Closure)
unfolding step_index effective_dependencies transitive_dependencies
linked_graph steps = do
  by_id ← step_index steps
  deps ← effective_dependencies steps
  closure ← transitive_dependencies steps
  ok (keys by_id, deps, closure)

unfoldable pub validate_output_links : List Fields → List LinkError
unfolding linked_graph collect_outputs link_errors
validate_output_links steps = elim (linked_graph steps) [
  | err e ↦ graph e ∷ []
  | ok (known, deps, closure) ↦
      let (outputs, errors) = collect_outputs steps in
      errors ++ link_errors known deps closure outputs steps
]
