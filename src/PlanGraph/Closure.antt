-- ===== src/PlanGraph/Closure.antt =====
-- scripts/plan_graph.py: `transitive_dependencies`.
use plan_auditor.Base.{ℕ, List, [], ◌∷◌, nat_eq, ◌==◌, if◌then◌else◌, union, add, Result, ok, ◌>>=◌}
use plan_auditor.Json.{Fields}
use plan_auditor.PlanGraph.Steps.{GraphError, Graph, effective_dependencies}
use plan_auditor.PlanGraph.Order.{parents_of, topological_order}

-- `closure`, a dict that holds every step. A key that it lacks would read as the empty set.
abbrev pub Closure : Type 0
Closure = ℕ → List ℕ

-- `closure[sid].add(parent); closure[sid].update(closure[parent])`
unfoldable pub absorb : ℕ → Closure → ℕ → Closure
unfolding add union
absorb sid closure parent c =
    if c == sid then union (add parent (closure sid)) (closure parent) else closure c

unfoldable pub absorb_all : ℕ → Closure → List ℕ → Closure
unfolding absorb
absorb_all sid closure [] = closure
absorb_all sid closure (parent ∷ parents) = absorb_all sid (absorb sid closure parent) parents

unfoldable pub close : Graph → Closure → List ℕ → Closure
unfolding absorb_all parents_of
close deps closure [] = closure
close deps closure (sid ∷ order) = close deps (absorb_all sid closure (parents_of deps sid)) order

unfoldable pub transitive_dependencies : List Fields → Result GraphError Closure
unfolding close
transitive_dependencies steps = do
  deps ← effective_dependencies steps
  order ← topological_order steps
  ok (close deps (λ _. []) order)
