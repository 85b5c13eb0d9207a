-- ===== src/Tests/Graph.antt =====
-- scripts/plan_graph.py on a plan of three steps, and on a plan with a cycle.
use plan_auditor.Base.{ℕ, List, [], ◌∷◌, ◌≡◌, ◌⊎◌, refl, nat_eq, mem, keys, ok, err}
use plan_auditor.Json.{int, pos, arr, Items, nil, cons, Fields, end, field}
use plan_auditor.Tests.Language.{language}
use plan_auditor.PlanGraph.Steps.{
  Graph, step_ids, effective_dependencies, positive_ids, unknown_dependencies, dependency_cycle,
}
use plan_auditor.PlanGraph.Order.{topological_order}
use plan_auditor.PlanGraph.Closure.{Closure, close, transitive_dependencies}
use plan_auditor.PlanGraph.Graphs.{IsGraph, IsTopological}
use plan_auditor.PlanGraph.Dependencies.{effective_dependencies-IsGraph}
use plan_auditor.PlanGraph.Kahn.Decides.{topological_order-decides}
use plan_auditor.PlanGraph.Ancestors.{NamesAncestors, transitive_dependencies-NamesAncestors}

abbrev pub id_list : List ℕ → Items
id_list [] = nil
id_list (n ∷ ns) = cons (int (pos n)) (id_list ns)

abbrev pub plan_step : ℕ → List ℕ → Fields
plan_step sid deps = field "id" (int (pos sid)) (field "depends_on" (arr (id_list deps)) end)

-- Step 3 stands first and needs the other two.
abbrev sample : List Fields
sample = plan_step 3 (1 ∷ 2 ∷ []) ∷ plan_step 1 [] ∷ plan_step 2 (1 ∷ []) ∷ []

abbrev sample_graph : Graph
sample_graph = (3, 1 ∷ 2 ∷ []) ∷ (1, []) ∷ (2, 1 ∷ []) ∷ []

abbrev looped : List Fields
looped = plan_step 1 (2 ∷ []) ∷ plan_step 2 (1 ∷ []) ∷ []

effective_dependencies-sample : effective_dependencies sample ≡ ok sample_graph
unfolding effective_dependencies positive_ids language
effective_dependencies-sample = refl

effective_dependencies_dangling :
    effective_dependencies (plan_step 1 [] ∷ plan_step 2 (7 ∷ []) ∷ [])
    ≡ err (unknown_dependencies 2 (7 ∷ []))
unfolding effective_dependencies positive_ids language
effective_dependencies_dangling = refl

topological_order-sample : topological_order sample ≡ ok (1 ∷ 2 ∷ 3 ∷ [])
unfolding topological_order positive_ids language
topological_order-sample = refl

topological_order-looped : topological_order looped ≡ err (dependency_cycle (1 ∷ 2 ∷ []))
unfolding topological_order positive_ids language
topological_order-looped = refl

effective_dependencies-IsGraph_example :
    (keys sample_graph ≡ step_ids sample) × IsGraph sample_graph
effective_dependencies-IsGraph_example =
    effective_dependencies-IsGraph sample sample_graph effective_dependencies-sample

topological_order-decides_example :
    ((order : List ℕ) × (topological_order sample ≡ ok order) × IsTopological sample_graph order)
    ⊎ ((cycle : List ℕ) × (topological_order sample ≡ err (dependency_cycle cycle))
        × ((order : List ℕ) → ¬ IsTopological sample_graph order))
topological_order-decides_example =
    topological_order-decides sample sample_graph effective_dependencies-sample

abbrev sample_closure : Closure
sample_closure = close sample_graph (λ _. []) (1 ∷ 2 ∷ 3 ∷ [])

transitive_dependencies-sample : transitive_dependencies sample ≡ ok sample_closure
unfolding transitive_dependencies topological_order positive_ids language
transitive_dependencies-sample = refl

transitive_dependencies-NamesAncestors_example : NamesAncestors sample_graph sample_closure 3
unfolding mem
transitive_dependencies-NamesAncestors_example =
    transitive_dependencies-NamesAncestors sample sample_graph sample_closure
      effective_dependencies-sample transitive_dependencies-sample 3 refl
