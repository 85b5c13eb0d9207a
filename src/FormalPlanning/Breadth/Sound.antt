-- ===== src/FormalPlanning/Breadth/Sound.antt =====
-- Every node of the search is reached by its order, so the order that the search returns is a plan.
use plan_auditor.Base.{
  ℕ, zero, suc, ◌+◌, true, false, some, List, [], ◌∷◌, ◌≡◌, inl, inr, nat_eq, string_eq, ◌==◌, mem,
  add, length, keys, lookup, Bool-cases, Option-cases, All, All-append, any, subset, subset-mem,
  arith, mem-cons_self, mem-cons_of_mem,
}
use plan_auditor.PlanGraph.Steps.{Graph}
use plan_auditor.FormalPlanning.Model.{
  FormalAction, FormalContract, applicable, apply, remaining_ids, pass,
}
use plan_auditor.FormalPlanning.Search.{
  Node, Key, Frontier, same_key, future_impossible, offer_action, offer, expand, exhausted,
  out_of_states, search_rounds,
}
use plan_auditor.FormalPlanning.Spec.{IsPlan}
use plan_auditor.FormalPlanning.Facts.{mem-remaining_ids}
use plan_auditor.FormalPlanning.Reached.{acts, IsReached, IsReached-step, IsReached-IsPlan}

module _ (contract : FormalContract) (deps : Graph) where
  abbrev pub NodeIsReached : Node → Type 0
  NodeIsReached n = IsReached contract deps n.facts n.done n.order

  offer-IsReached :
      (node : Node) (sid : ℕ) (s : Frontier)
      → NodeIsReached node
      → mem sid node.done ≡ false
      → All NodeIsReached s.queue
      → All NodeIsReached (offer contract deps node sid s).queue
  unfolding offer
  offer-IsReached node sid s reached new all =
      elim (Option-cases (lookup sid (acts contract deps))) [
        | inl missing ↦ rw (missing, offer) all
        | inr (a, found) ↦ rw (found, offer) (offered a found)
      ]
    where
      offered :
          (a : FormalAction)
          → lookup sid (acts contract deps) ≡ some a
          → All NodeIsReached (offer_action contract deps node sid a s).queue
      offered a found = elim (Bool-cases (applicable deps a node.facts node.done)) [
        | inr cannot ↦ rw cannot all
        | inl can ↦
            elim (Bool-cases (any (same_key (apply a node.facts, add sid node.done)) s.seen)) [
              | inl old ↦ rw (can, old) all
              | inr fresh ↦
                  rw (can, fresh)
                    (All-append NodeIsReached s.queue _ all (
                      IsReached-step contract deps node.facts node.done node.order sid a reached
                          found new can,
                      tt,
                    ))
            ]
      ]

  pub expand-IsReached :
      (node : Node) (sids : List ℕ) (s : Frontier)
      → NodeIsReached node
      → ((n : ℕ) → mem n sids ≡ true → mem n node.done ≡ false)
      → All NodeIsReached s.queue
      → All NodeIsReached (expand contract deps node sids s).queue
  unfolding expand
  expand-IsReached node [] s reached new all = all
  expand-IsReached node (sid ∷ sids) s reached new all =
      expand-IsReached node sids (offer contract deps node sid s) reached
        (λ n m. new n (mem-cons_of_mem n sid sids m))
        (offer-IsReached node sid s reached (new sid (mem-cons_self sid sids)) all)

  pub new_steps :
      (node : Node) (n : ℕ)
      → mem n (remaining_ids (acts contract deps) node.done) ≡ true
      → mem n node.done ≡ false
  new_steps node n m = ground (arith, mem-remaining_ids (acts contract deps) node.done n)

  pub search_sound :
      (max_states left : ℕ) (queue : List Node) (seen : List Key) (explored : ℕ)
      → All NodeIsReached queue
      → (search_rounds contract deps max_states left queue seen explored).verdict ≡ pass
      → IsPlan contract deps (search_rounds contract deps max_states left queue seen explored).order
  unfolding search_rounds exhausted out_of_states
  search_sound max_states zero [] seen explored all h = cc
  search_sound max_states (suc left) [] seen explored all h = cc
  search_sound max_states zero (node ∷ queue) seen explored all h = cc
  search_sound max_states (suc left) (node ∷ queue) seen explored all h =
      elim (Bool-cases (length node.done == length (keys (acts contract deps)))) [
        | inl complete ↦ elim (Bool-cases (subset contract.goal_facts node.facts)) [
          | inl met ↦
              rw (complete, met)
                (IsReached-IsPlan contract deps node.facts node.done node.order all.0
                  (ground (arith, complete)) (λ f. subset-mem f contract.goal_facts node.facts met))
          | inr unmet ↦
              rw (complete, unmet)
                (search_sound max_states left queue seen (explored + 1) all.1
                  (rw (complete, unmet) at h))
        ]
        | inr open_steps ↦ elim (Bool-cases (future_impossible contract node.facts node.done)) [
          | inl hopeless ↦
              rw (open_steps, hopeless)
                (search_sound max_states left queue seen (explored + 1) all.1
                  (rw (open_steps, hopeless) at h))
          | inr hope ↦
              let sids = remaining_ids (acts contract deps) node.done in
              let s : Frontier = record { queue = queue; seen = seen } in
              let grown = expand contract deps node sids s in
              rw (open_steps, hope)
                (search_sound max_states left grown.queue grown.seen (explored + 1)
                  (expand-IsReached node sids s all.0 (new_steps node) all.1)
                  (rw (open_steps, hope) at h))
        ]
      ]
