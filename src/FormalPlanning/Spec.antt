-- ===== src/FormalPlanning/Spec.antt =====
-- What a plan of a STRIPS contract is, with no algorithm: worlds as predicates on facts, and an
-- order of steps that runs each action where its prerequisites and preconditions hold.
use plan_auditor.Base.{
  ℕ, String, Bool, true, false, not, ◌&&◌, ◌||◌, none, some, List, [], ◌∷◌, ◌≡◌, nat_eq, string_eq,
  ◌==◌, mem, keys, lookup,
}
use plan_auditor.PlanGraph.Steps.{Graph}
use plan_auditor.PlanGraph.Order.{parents_of}
use plan_auditor.FormalPlanning.Model.{FormalAction, FormalContract, Actions, by_step}

abbrev pub World : Type 0
World = String → Bool

-- The steps that have run.
abbrev pub Done : Type 0
Done = ℕ → Bool

-- Deletes act before adds.
abbrev pub effect : FormalAction → World → World
effect a w f = w f && not (mem f a.del_effects) || mem f a.add_effects

abbrev pub mark : ℕ → Done → Done
mark sid d n = n == sid || d n

pub record IsReady (deps : Graph) (a : FormalAction) (w : World) (d : Done) : Type 0 where
  pub prerequisites : (n : ℕ) → mem n (parents_of deps a.step_id) ≡ true → d n ≡ true
  pub preconditions : (f : String) → mem f a.preconditions ≡ true → w f ≡ true

module _ (acts : Actions) where
  -- Each step of the order names an action, has not run before, and is ready when it runs.
  abbrev pub Executes : Graph → World → Done → List ℕ → Type 0
  Executes deps w d [] = Unit
  Executes deps w d (sid ∷ order) =
      (a : FormalAction) × (lookup sid acts ≡ some a)
      × (d sid ≡ false)
      × IsReady deps a w d
      × Executes deps (effect a w) (mark sid d) order

  -- The world that an order leaves behind.
  unfoldable pub after : World → List ℕ → World
  after w [] = w
  after w (sid ∷ order) = elim (lookup sid acts) [
    | none ↦ after w order
    | some a ↦ after (effect a w) order
  ]

-- From a world and the steps that have run, `order` runs all the other steps and ends in a world
-- where the goals hold.
pub record Completes (contract : FormalContract) (deps : Graph) (w : World) (d : Done)
    (order : List ℕ) : Type 0 where
  pub executes : Executes (by_step contract) deps w d order
  pub covers : (n : ℕ) → mem n (keys (by_step contract)) ≡ true → (d n || mem n order) ≡ true
  pub reaches :
      (f : String) → mem f contract.goal_facts ≡ true → after (by_step contract) w order f ≡ true

abbrev pub initial_world : FormalContract → World
initial_world contract f = mem f contract.initial_facts

abbrev pub nothing_done : Done
nothing_done n = false

abbrev pub IsPlan : FormalContract → Graph → List ℕ → Type 0
IsPlan contract deps = Completes contract deps (initial_world contract) nothing_done
