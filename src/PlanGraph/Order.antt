-- ===== src/PlanGraph/Order.antt =====
-- scripts/plan_graph.py: `topological_order`, Kahn's algorithm with ties broken by plan order.
use plan_auditor.Base.{
  ℕ, zero, suc, ◌-◌, ◌+◌, not, List, [], ◌∷◌, ◌++◌, nat_eq, ◌==◌, if◌then◌else◌, add, sort_with,
  keep, length, leb, ltb, Dict, lookup_or, Result, ok, ◌>>=◌, ◌>>◌, raise_if,
}
use plan_auditor.Json.{Fields}
use plan_auditor.PlanGraph.Steps.{
  GraphError, dependency_cycle, Graph, step_ids, effective_dependencies,
}

-- `{sid: index for index, sid in enumerate(order_hint)}`
unfoldable pub enumerate : ℕ → List ℕ → Dict ℕ ℕ
enumerate n [] = []
enumerate n (sid ∷ sids) = (sid, n) ∷ enumerate (n + 1) sids

-- `sorted(xs, key=rank)`
unfoldable pub sort_by : (ℕ → ℕ) → List ℕ → List ℕ
unfolding sort_with
sort_by rank xs = sort_with (λ a b. leb (rank a) (rank b)) xs

-- `outgoing`: the steps that wait for a step. Every parent is a key, by `effective_dependencies`.
unfoldable pub link_parents : ℕ → List ℕ → (ℕ → List ℕ) → ℕ → List ℕ
unfolding add
link_parents sid [] out = out
link_parents sid (parent ∷ parents) out =
    link_parents sid parents (λ p. if p == parent then add sid (out p) else out p)

unfoldable pub outgoing : Graph → (ℕ → List ℕ) → ℕ → List ℕ
unfolding link_parents
outgoing [] out = out
outgoing ((sid, parents) ∷ deps) out = outgoing deps (link_parents sid parents out)

-- `parents` of a step in the graph, and `indegree` as it starts.
unfoldable pub parents_of : Graph → ℕ → List ℕ
parents_of deps sid = lookup_or sid deps []

unfoldable pub initial_indegree : Graph → ℕ → ℕ
unfolding parents_of
initial_indegree deps sid = length (parents_of deps sid)

pub record Kahn : Type 0 where
  pub indegree : ℕ → ℕ
  pub ready : List ℕ
  pub result : List ℕ

-- `indegree[child] -= 1; if indegree[child] == 0: ready.append(child)`. The count is above 0 here.
unfoldable pub release : Kahn → ℕ → Kahn
release s child =
    let left = s.indegree child - 1 in
    record s {
      indegree = λ c. if c == child then left else s.indegree c;
      ready = if left == 0 then s.ready ++ child ∷ [] else s.ready;
    }

unfoldable pub release_all : Kahn → List ℕ → Kahn
unfolding release
release_all s [] = s
release_all s (child ∷ children) = release_all (release s child) children

module _ (rank : ℕ → ℕ) (out : ℕ → List ℕ) where
  -- One round of the `while` loop, after `sid` left the head of `ready`.
  unfoldable pub visit : Kahn → ℕ → List ℕ → Kahn
  unfolding release_all sort_by
  visit s sid rest =
      release_all (record s { ready = rest; result = s.result ++ sid ∷ [] })
        (sort_by rank (out sid))

  -- The `while` loop. Each round places one more step, so there are at most as many as steps.
  unfoldable pub kahn : ℕ → Kahn → Kahn
  unfolding visit
  kahn zero s = s
  kahn (suc fuel) s = elim (sort_by rank s.ready) [
    | [] ↦ s
    | sid ∷ rest ↦ kahn fuel (visit s sid rest)
  ]

unfoldable pub kahn_start : List ℕ → Graph → Kahn
unfolding initial_indegree
kahn_start hint deps = record {
  indegree = initial_indegree deps;
  ready = keep (λ sid. initial_indegree deps sid == 0) hint;
  result = [];
}

-- The state at the end of the loop, of which `result` and `indegree` are read.
unfoldable pub kahn_end : List ℕ → Graph → Kahn
unfolding kahn kahn_start outgoing enumerate
kahn_end hint deps =
    kahn (λ sid. lookup_or sid (enumerate 0 hint) 0) (outgoing deps (λ _. [])) (length deps)
      (kahn_start hint deps)

unfoldable pub sort_graph : List ℕ → Graph → Result GraphError (List ℕ)
unfolding kahn_end
sort_graph hint deps =
    let final = kahn_end hint deps in
    do
      raise_if (not (length final.result == length deps))
          (dependency_cycle (keep (λ sid. ltb 0 (final.indegree sid)) hint))
      ok final.result

unfoldable pub topological_order : List Fields → Result GraphError (List ℕ)
unfolding sort_graph effective_dependencies step_ids
topological_order steps = do deps ← effective_dependencies steps; sort_graph (step_ids steps) deps
