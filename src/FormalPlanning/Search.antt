-- ===== src/FormalPlanning/Search.antt =====
-- supervisor/formal_planning.py: `_future_impossible` and `_search_solve`, the breadth-first search.
use plan_auditor.Base.{
  ℕ, zero, suc, ◌+◌, Bool, not, ◌&&◌, ◌||◌, none, some, List, [], ◌∷◌, ◌++◌, nat_eq, string_eq,
  ◌==◌, if◌then◌else◌, mem, subset, diff, union, same_set, keep, any, length, keys, lookup, add,
}
use plan_auditor.PlanGraph.Steps.{Graph}
use plan_auditor.FormalPlanning.Model.{
  Facts, FormalAction, FormalContract, by_step, applicable, apply, remaining_ids, blocked_detail,
  pass, reject, unknown, reachable, state_limit, no_ordering, Solved,
}

-- `frozenset().union(*(action.add_effects for action in actions))`
unfoldable pub all_adds : List FormalAction → Facts
all_adds [] = []
all_adds (a ∷ actions) = union a.add_effects (all_adds actions)

unfoldable pub remaining_actions : FormalContract → List ℕ → List FormalAction
remaining_actions contract done = keep (λ a. not (mem a.step_id done)) contract.actions

-- What the other remaining actions add. With one action left there are no others.
unfoldable pub other_adds : List FormalAction → FormalAction → Facts
unfolding all_adds
other_adds remaining a = all_adds (keep (λ o. not (o.step_id == a.step_id)) remaining)

unfoldable pub future_impossible : FormalContract → Facts → List ℕ → Bool
unfolding remaining_actions all_adds other_adds
future_impossible contract facts done =
    let remaining = remaining_actions contract done in
    not (subset (diff contract.goal_facts facts) (all_adds remaining))
    || any (λ a. not (subset (diff a.preconditions facts) (other_adds remaining a))) remaining

-- A state of the search with the order that leads to it, and the key that `seen` holds of it.
abbrev pub Key : Type 0
Key = Facts × List ℕ

pub record Node : Type 0 where
  pub facts : Facts
  pub done : List ℕ
  pub order : List ℕ

unfoldable pub same_key : Key → Key → Bool
same_key (facts, done) (facts', done') = same_set facts facts' && same_set done done'

pub record Frontier : Type 0 where
  pub queue : List Node
  pub seen : List Key

module _ (contract : FormalContract) (deps : Graph) where
  -- The body of the `for` loop over the remaining steps, and the loop.
  unfoldable pub offer_action : Node → ℕ → FormalAction → Frontier → Frontier
  unfolding applicable apply add same_key
  offer_action node sid action s =
      let next_facts = apply action node.facts in
      let next_done = add sid node.done in
      if not (applicable deps action node.facts node.done)
      then s
      else if any (same_key (next_facts, next_done)) s.seen
      then s
      else record {
        queue =
            s.queue
            ++ record { facts = next_facts; done = next_done; order = node.order ++ sid ∷ [] } ∷ [];
        seen = (next_facts, next_done) ∷ s.seen;
      }

  unfoldable pub offer : Node → ℕ → Frontier → Frontier
  unfolding offer_action by_step
  offer node sid s = elim (lookup sid (by_step contract)) [
    | none ↦ s
    | some action ↦ offer_action node sid action s
  ]

  unfoldable pub expand : Node → List ℕ → Frontier → Frontier
  unfolding offer
  expand node [] s = s
  expand node (sid ∷ sids) s = expand node sids (offer node sid s)

  unfoldable pub out_of_states : ℕ → Node → ℕ → Solved
  out_of_states max_states node explored = record {
    verdict = unknown;
    order = node.order;
    explored = explored;
    reason = state_limit max_states;
  }

  unfoldable pub exhausted : ℕ → Solved
  unfolding blocked_detail by_step
  exhausted explored = record {
    verdict = reject;
    order = [];
    explored = explored;
    reason = no_ordering (blocked_detail (by_step contract) deps contract.initial_facts []);
  }

  -- The `while` loop. `left` is `max_states - explored` at the head of the loop, so the test
  -- `explored > max_states` of the popped state holds exactly when it is zero.
  unfoldable pub search_rounds : ℕ → ℕ → List Node → List Key → ℕ → Solved
  unfolding expand remaining_ids future_impossible exhausted out_of_states by_step
  search_rounds max_states left [] seen explored = exhausted explored
  search_rounds max_states zero (node ∷ queue) seen explored =
      out_of_states max_states node (explored + 1)
  search_rounds max_states (suc left) (node ∷ queue) seen explored =
      let acts = by_step contract in
      let skipped = search_rounds max_states left queue seen (explored + 1) in
      let grown =
        expand node (remaining_ids acts node.done) (record { queue = queue; seen = seen }) in
      let searched = search_rounds max_states left grown.queue grown.seen (explored + 1) in
      if length node.done == length (keys acts)
      then if subset contract.goal_facts node.facts
        then record {
          verdict = pass;
          order = node.order;
          explored = explored + 1;
          reason = reachable;
        }
        else skipped
      else if future_impossible contract node.facts node.done
      then skipped
      else searched

  unfoldable pub search_solve : ℕ → Solved
  unfolding search_rounds
  search_solve max_states =
      search_rounds max_states max_states
        (record { facts = contract.initial_facts; done = []; order = [] } ∷ [])
        ((contract.initial_facts, []) ∷ []) 0
