-- ===== src/PlanGraph/Kahn/Decides.antt =====
-- `topological_order` sorts the graph of the plan, or reports a cycle where no order exists.
use plan_auditor.Base.{
  ℕ, ◌≤◌, true, false, List, [], ◌∷◌, ◌++◌, ◌≡◌, ◌⊎◌, refl, sym, ◌∙◌, ap, inl, inr, nat_eq, ◌==◌,
  mem, nodup, nodup_left, keys, Bool-cases, Bool_eq_of_iff, beq→eq, arith, missing_zero_of_mem,
  append-nil, length, length-map, length_le_of_subset, mem_of_length_le, lookup_or, keep, ltb, ok,
  err,
}
use plan_auditor.Json.{Fields}
use plan_auditor.PlanGraph.Steps.{dependency_cycle, Graph, effective_dependencies}
use plan_auditor.PlanGraph.Order.{
  Kahn, enumerate, parents_of, kahn_start, kahn_end, sort_graph, topological_order,
}
use plan_auditor.PlanGraph.Graphs.{IsGraph, Respects, IsTopological, parents_of-IsEntry}
use plan_auditor.PlanGraph.Dependencies.{effective_dependencies-IsGraph}
use plan_auditor.PlanGraph.Kahn.Rounds.{IsRound, kahn-IsRound, start-IsRound}

kahn_end-IsRound :
    (deps : Graph)
    → IsGraph deps
    → IsRound deps (kahn_end (keys deps) deps) × ((kahn_end (keys deps) deps).ready ≡ [])
unfolding kahn_end kahn_start
kahn_end-IsRound deps graph =
    let rank = λ (sid : ℕ). lookup_or sid (enumerate 0 (keys deps)) 0 in
    kahn-IsRound deps graph rank (length deps) (kahn_start (keys deps) deps)
      (start-IsRound deps graph rank) (omega (arith, length-map (λ (e : ℕ × List ℕ). e.0) deps))

module _ (deps : Graph) (graph : IsGraph deps) where
  abbrev final : Kahn
  final = kahn_end (keys deps) deps

  final-IsRound : IsRound deps final
  final-IsRound = (kahn_end-IsRound deps graph).0

  placed : final.result ++ final.ready ≡ final.result
  placed =
      ap (λ (l : List ℕ). final.result ++ l) ((kahn_end-IsRound deps graph).1)
      ∙ append-nil final.result

  result_distinct : nodup final.result ≡ true
  result_distinct = nodup_left final.result final.ready final-IsRound.counted.distinct

  result_known : (n : ℕ) → mem n final.result ≡ true → mem n (keys deps) ≡ true
  result_known n m = final-IsRound.counted.inside n (ap (mem n) placed ∙ m)

  -- Whatever order respects the graph, the algorithm has placed the steps of it.
  Respects-placed :
      (seen order : List ℕ)
      → ((p : ℕ) → mem p (keys deps) ≡ true → mem p seen ≡ true → mem p final.result ≡ true)
      → Respects deps seen order
      → (n : ℕ) → mem n (keys deps) ≡ true
      → mem n order ≡ true
      → mem n final.result ≡ true
  unfolding mem
  Respects-placed seen [] below r n known m = cc
  Respects-placed seen (x ∷ order) below r n known m =
      let here : mem x (keys deps) ≡ true → mem x final.result ≡ true = λ k.
        let none =
          missing_zero_of_mem final.result (parents_of deps x)
            (λ p q. below p (parent_known k p q) (r.0 p q)) in
        sym (ap (mem x) placed)
        ∙ ground (arith, final-IsRound.counted.level x k, final-IsRound.counted.count x k, none) in
      elim (Bool-cases (n == x)) [
        | inl hit ↦ rw (beq→eq n x hit) (here (rw (beq→eq n x hit) at known))
        | inr miss ↦
            Respects-placed (x ∷ seen) order
              (λ p k s. elim (Bool-cases (p == x)) [
                | inl same ↦ rw (beq→eq p x same) (here (rw (beq→eq p x same) at k))
                | inr other ↦ below p k (rw other at s)
              ])
              r.1 n known (rw miss at m)
      ]
    where
      parent_known :
          mem x (keys deps) ≡ true
          → (p : ℕ) → mem p (parents_of deps x) ≡ true
          → mem p (keys deps) ≡ true
      parent_known k = (parents_of-IsEntry (keys deps) deps x graph.entries k).parents_known

  sort_graph-decides :
      ((order : List ℕ) × (sort_graph (keys deps) deps ≡ ok order) × IsTopological deps order)
      ⊎ ((cycle : List ℕ) × (sort_graph (keys deps) deps ≡ err (dependency_cycle cycle))
          × ((order : List ℕ) → ¬ IsTopological deps order))
  unfolding sort_graph
  sort_graph-decides = elim (Bool-cases (length final.result == length deps)) [
    | inl full ↦ inl (
      final.result,
      rw full,
      record {
        once = result_distinct;
        all_steps = λ n. Bool_eq_of_iff (mem n final.result) (mem n (keys deps)) (result_known n) (
            mem_of_length_le final.result (keys deps) n result_distinct result_known
              (all_there full));
        respects = final-IsRound.ordered;
      },
    )
    | inr short ↦ inr (
      keep (λ sid. ltb 0 (final.indegree sid)) (keys deps),
      rw short,
      λ order t. too_short short order t,
    )
  ]
    where
      all_there :
          (length final.result == length deps) ≡ true → length (keys deps) ≤ length final.result
      all_there full = ground (arith, full, length-map (λ (e : ℕ × List ℕ). e.0) deps)

      too_short :
          (length final.result == length deps) ≡ false
          → (order : List ℕ) → ¬ IsTopological deps order
      too_short short order t =
          let up = length_le_of_subset (keys deps) final.result graph.keys_distinct (λ n k.
            Respects-placed [] order (λ p q s. absurd (cc (no_member p, s))) t.respects n k
              (t.all_steps n ∙ k)) in
          let down = length_le_of_subset final.result (keys deps) result_distinct result_known in
          ground (arith, short, up, down, length-map (λ (e : ℕ × List ℕ). e.0) deps)
        where
          no_member : (p : ℕ) → mem p [] ≡ false
          no_member p = unfold mem in refl

-- Where the dependencies of the plan are well formed, `topological_order` returns an order of all the
-- steps, each once and behind all of its prerequisites, or it raises the cycle error and no such order
-- exists.
pub topological_order-decides :
    (steps : List Fields) (deps : Graph)
    → effective_dependencies steps ≡ ok deps
    → ((order : List ℕ) × (topological_order steps ≡ ok order) × IsTopological deps order)
      ⊎ ((cycle : List ℕ) × (topological_order steps ≡ err (dependency_cycle cycle))
          × ((order : List ℕ) → ¬ IsTopological deps order))
unfolding topological_order
topological_order-decides steps deps read =
    let (named, graph) = effective_dependencies-IsGraph steps deps read in
    elim (sort_graph-decides deps graph) [
      | inl (order, sorted, t) ↦ inl (order, rw (read, ← named) sorted, t)
      | inr (cycle, raised, none) ↦ inr (cycle, rw (read, ← named) raised, none)
    ]
