-- ===== src/FormalPlanning/Model.antt =====
-- supervisor/formal_planning.py: `FormalAction`, `FormalContract`, `_applicable`, `_apply`,
-- `_blocked_detail`, and the tuple that the planners return.
-- A set of facts is a list that is read by membership, and two sets are compared by inclusion.
use plan_auditor.Base.{
  ℕ, String, Bool, not, ◌&&◌, none, some, List, [], ◌∷◌, map, nat_eq, string_eq, subset, diff,
  union, any, is_empty, leb, Dict, keys, lookup, put, sort_with, take,
}
use plan_auditor.Json.{sort_texts}
use plan_auditor.PlanGraph.Steps.{Graph}
use plan_auditor.PlanGraph.Order.{parents_of}

abbrev pub Facts : Type 0
Facts = List String

pub record FormalAction : Type 0 where
  pub step_id : ℕ
  pub preconditions : Facts
  pub add_effects : Facts
  pub del_effects : Facts

pub record FormalContract : Type 0 where
  pub initial_facts : Facts
  pub goal_facts : Facts
  pub actions : List FormalAction

abbrev pub Actions : Type 0
Actions = Dict ℕ FormalAction

-- `{action.step_id: action for action in self.actions}`
unfoldable pub index_actions : Actions → List FormalAction → Actions
index_actions d [] = d
index_actions d (a ∷ actions) = index_actions (put a.step_id a d) actions

unfoldable pub by_step : FormalContract → Actions
unfolding index_actions
by_step contract = index_actions [] contract.actions

unfoldable pub monotonic : FormalContract → Bool
monotonic contract = not (any (λ a. not (is_empty a.del_effects)) contract.actions)

unfoldable pub applicable : Graph → FormalAction → Facts → List ℕ → Bool
unfolding parents_of
applicable deps action facts done =
    subset (parents_of deps action.step_id) done && subset action.preconditions facts

unfoldable pub apply : FormalAction → Facts → Facts
apply action facts = union (diff facts action.del_effects) action.add_effects

-- `sorted(set(by_step) - set(done))`
unfoldable pub remaining_ids : Actions → List ℕ → List ℕ
remaining_ids acts done = sort_with leb (diff (keys acts) done)

-- `by_step[sid]` for each id, in order. The ids are keys of the dict.
unfoldable pub actions_at : Actions → List ℕ → List FormalAction
actions_at acts [] = []
actions_at acts (sid ∷ sids) =
    let rest = actions_at acts sids in elim (lookup sid acts) [ none ↦ rest | some a ↦ a ∷ rest ]

-- One entry of `_blocked_detail`: a step, and the steps and facts that it lacks.
pub record Blocked : Type 0 where
  pub step : ℕ
  pub missing_deps : List ℕ
  pub missing_facts : Facts

unfoldable pub blocked_detail : Actions → Graph → Facts → List ℕ → List Blocked
unfolding remaining_ids actions_at parents_of
blocked_detail acts deps facts done =
    map
      (λ a. record {
        step = a.step_id;
        missing_deps = sort_with leb (diff (parents_of deps a.step_id) done);
        missing_facts = sort_texts (diff a.preconditions facts);
      })
      (actions_at acts (take 8 (remaining_ids acts done)))

pub data Verdict : Type 0 where
  pass reject unknown : Verdict

pub data Reason : Type 0 where
  reachable : Reason
  dead_end : List Blocked → Reason
  goals_false : Facts → Reason
  state_limit : ℕ → Reason
  no_ordering : List Blocked → Reason

-- The tuple (verdict, order, explored, reason) that both planners return.
pub record Solved : Type 0 where
  pub verdict : Verdict
  pub order : List ℕ
  pub explored : ℕ
  pub reason : Reason
