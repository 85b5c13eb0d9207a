-- ===== src/FormalPlanning/Breadth/Decides.antt =====
-- The breadth-first search `_search_solve` decides whether a contract has a plan, unless it meets its
-- bound on states.
use plan_auditor.Base.{
  ℕ, zero, suc, ◌+◌, ◌≤◌, List, [], ◌∷◌, ◌≡◌, ◌⊎◌, refl, inl, inr, nat_eq, string_eq, ◌==◌, mem,
  length, keys, Bool-cases, subset, arith, All,
}
use plan_auditor.PlanGraph.Steps.{Graph}
use plan_auditor.FormalPlanning.Model.{FormalContract, remaining_ids, Solved, pass, reject, unknown}
use plan_auditor.FormalPlanning.Search.{
  Node, Key, Frontier, future_impossible, expand, exhausted, out_of_states, search_rounds,
  search_solve,
}
use plan_auditor.FormalPlanning.Spec.{IsPlan}
use plan_auditor.FormalPlanning.Reached.{acts, IsReached-start}
use plan_auditor.FormalPlanning.Breadth.Sound.{
  NodeIsReached, expand-IsReached, new_steps, search_sound,
}
use plan_auditor.FormalPlanning.Breadth.Future.{HasDistinctSteps}
use plan_auditor.FormalPlanning.Breadth.States.{moment_of, Has, expand-lem}
use plan_auditor.FormalPlanning.Breadth.Rounds.{
  none_viable, IsSearched, drop_failed, drop_hopeless, grow,
}

module _ (contract : FormalContract) (deps : Graph) (distinct : HasDistinctSteps contract) where
  -- Where the search rejects, no plan leads on from a state seen.
  search_complete :
      (plan : List ℕ)
      → IsPlan contract deps plan
      → (max_states left : ℕ) (queue : List Node) (seen : List Key) (explored : ℕ)
      → All (NodeIsReached contract deps) queue
      → IsSearched contract deps queue seen
      → Has (moment_of (contract.initial_facts, [])) seen
      → (search_rounds contract deps max_states left queue seen explored).verdict ≡ reject
      → ⊥
  unfolding search_rounds exhausted out_of_states mem
  search_complete plan p max_states left [] seen explored reached inv start h =
      none_viable contract deps seen
        (λ m k. elim (inv m k) [ inl waits ↦ absurd waits | inr e ↦ e ]) plan
        (moment_of (contract.initial_facts, [])) start p
  search_complete plan p max_states zero (node ∷ queue) seen explored reached inv start h = cc
  search_complete plan p max_states (suc left) (node ∷ queue) seen explored reached inv start h =
      elim (Bool-cases (length node.done == length (keys (acts contract deps)))) [
        | inl complete ↦ elim (Bool-cases (subset contract.goal_facts node.facts)) [
          | inl met ↦ let verdict : pass ≡ reject = rw (complete, met) at h in cc
          | inr unmet ↦
              search_complete plan p max_states left queue seen (explored + 1) reached.1
                (drop_failed contract deps node queue seen reached.0 inv complete unmet) start
                (rw (complete, unmet) at h)
        ]
        | inr incomplete ↦ elim (Bool-cases (future_impossible contract node.facts node.done)) [
          | inl hopeless ↦
              search_complete plan p max_states left queue seen (explored + 1) reached.1
                (drop_hopeless contract deps node queue seen reached.0 inv distinct hopeless) start
                (rw (incomplete, hopeless) at h)
          | inr hope ↦
              let sids = remaining_ids (acts contract deps) node.done in
              let s : Frontier = record { queue = queue; seen = seen } in
              let grown = expand contract deps node sids s in
              search_complete plan p max_states left grown.queue grown.seen (explored + 1)
                (expand-IsReached contract deps node sids s reached.0 (new_steps contract deps node)
                  reached.1)
                (grow contract deps node queue seen reached.0 inv incomplete)
                ((expand-lem contract deps node sids s (λ _. Unit {0})).0 _ start)
                (rw (incomplete, hope) at h)
        ]
      ]

-- What the loop returns: one of three verdicts, and how many states it has explored.
abbrev IsCounted : ℕ → Solved → Type 0
IsCounted max_states r =
    (r.verdict ≡ pass) × (r.explored ≤ max_states)
    ⊎ (r.verdict ≡ reject) × (r.explored ≤ max_states)
    ⊎ (r.verdict ≡ unknown) × (r.explored ≡ max_states + 1)

search_counts :
    (contract : FormalContract) (deps : Graph) (max_states left : ℕ) (queue : List Node)
    (seen : List Key) (explored : ℕ)
    → explored + left ≡ max_states
    → IsCounted max_states (search_rounds contract deps max_states left queue seen explored)
unfolding search_rounds exhausted out_of_states
search_counts contract deps max_states zero [] seen explored h = inr (inl (refl, omega arith))
search_counts contract deps max_states (suc left) [] seen explored h = inr (inl (refl, omega arith))
search_counts contract deps max_states zero (node ∷ queue) seen explored h =
    inr (inr (refl, omega arith))
search_counts contract deps max_states (suc left) (node ∷ queue) seen explored h =
    elim (Bool-cases (length node.done == length (keys (acts contract deps)))) [
      | inl complete ↦ elim (Bool-cases (subset contract.goal_facts node.facts)) [
        | inl met ↦ rw (complete, met) (inl (refl, omega arith))
        | inr unmet ↦
            rw (complete, unmet)
              (search_counts contract deps max_states left queue seen (explored + 1) (omega arith))
      ]
      | inr incomplete ↦ elim (Bool-cases (future_impossible contract node.facts node.done)) [
        | inl hopeless ↦
            rw (incomplete, hopeless)
              (search_counts contract deps max_states left queue seen (explored + 1) (omega arith))
        | inr hope ↦
            let grown =
              expand contract deps node (remaining_ids (acts contract deps) node.done)
                (record { queue = queue; seen = seen }) in
            rw (incomplete, hope)
              (search_counts contract deps max_states left grown.queue grown.seen (explored + 1)
                (omega arith))
      ]
    ]

-- For a contract whose actions name different steps, the search answers in one of three ways. The
-- verdict is PASS and the order that it returns is a plan; or it is REJECT and no order of the steps
-- is a plan; in both cases it has explored at most `max_states` states. Or the verdict is UNKNOWN and
-- it has explored `max_states + 1` states.
pub search_solve-decides :
    (contract : FormalContract) (deps : Graph) (max_states : ℕ)
    → HasDistinctSteps contract
    → let r = search_solve contract deps max_states in
      (r.verdict ≡ pass) × (r.explored ≤ max_states) × IsPlan contract deps r.order
      ⊎ (r.verdict ≡ reject)
        × (r.explored ≤ max_states)
        × ((plan : List ℕ) → ¬ IsPlan contract deps plan)
      ⊎ (r.verdict ≡ unknown) × (r.explored ≡ max_states + 1)
unfolding search_solve
search_solve-decides contract deps max_states distinct =
    let start : Node = record { facts = contract.initial_facts; done = []; order = [] } in
    elim (search_counts contract deps max_states max_states (start ∷ [])
      ((contract.initial_facts, []) ∷ []) 0 (omega arith)) [
        | inl (passed, few) ↦ inl (
          passed,
          few,
          search_sound contract deps max_states max_states (start ∷ [])
              ((contract.initial_facts, []) ∷ []) 0 (IsReached-start contract deps, tt) passed,
        )
        | inr (inl (rejected, few)) ↦ inr (
            inl (
              rejected,
              few,
              λ plan p.
                  search_complete contract deps distinct plan p max_states max_states (start ∷ [])
                    ((contract.initial_facts, []) ∷ []) 0 (IsReached-start contract deps, tt)
                    (λ m h. inl h) (inl refl) rejected,
            ))
        | inr (inr (limited, many)) ↦ inr (inr (limited, many))
      ]
