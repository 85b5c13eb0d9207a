-- ===== src/Tests/Planner.antt =====
-- supervisor/formal_planning.py on a contract of two actions, without deletes and with one.
use plan_auditor.Base.{ℕ, ◌+◌, ◌≤◌, true, List, [], ◌∷◌, ◌≡◌, ◌⊎◌, refl, nodup, nat_eq}
use plan_auditor.Tests.Language.{language}
use plan_auditor.PlanGraph.Steps.{Graph}
use plan_auditor.FormalPlanning.Model.{
  Facts, FormalAction, FormalContract, monotonic, pass, reject, unknown, reachable,
}
use plan_auditor.FormalPlanning.Monotonic.{monotonic_solve}
use plan_auditor.FormalPlanning.Search.{future_impossible, search_solve}
use plan_auditor.FormalPlanning.Spec.{Completes, IsPlan}
use plan_auditor.FormalPlanning.Facts.{facts_of, steps_of}
use plan_auditor.FormalPlanning.Forward.Decides.{monotonic_solve-decides}
use plan_auditor.FormalPlanning.Breadth.Future.{HasDistinctSteps, future_impossible_sound}
use plan_auditor.FormalPlanning.Breadth.Decides.{search_solve-decides}

abbrev action : ℕ → Facts → Facts → Facts → FormalAction
action sid pre add del = record {
  step_id = sid;
  preconditions = pre;
  add_effects = add;
  del_effects = del;
}

abbrev no_deps : Graph
no_deps = (1, []) ∷ (2, []) ∷ []

-- Step 2 builds what step 1 ships.
abbrev build_ship : FormalContract
build_ship = record {
  initial_facts = "source" ∷ [];
  goal_facts = "shipped" ∷ [];
  actions =
      action 1 ("binary" ∷ []) ("shipped" ∷ []) []
      ∷ action 2 ("source" ∷ []) ("binary" ∷ []) []
      ∷ [];
}

-- Each step eats the fact that the other needs.
abbrev rivals : FormalContract
rivals = record {
  initial_facts = "token" ∷ [];
  goal_facts = "left" ∷ "right" ∷ [];
  actions =
      action 1 ("token" ∷ []) ("left" ∷ []) ("token" ∷ [])
      ∷ action 2 ("token" ∷ []) ("right" ∷ []) ("token" ∷ [])
      ∷ [];
}

monotonic_solve-build_ship :
    monotonic_solve build_ship no_deps
    ≡ record { verdict = pass; order = 2 ∷ 1 ∷ []; explored = 3; reason = reachable }
unfolding monotonic_solve language
monotonic_solve-build_ship = refl

search_solve-build_ship :
    search_solve build_ship no_deps 100
    ≡ record { verdict = pass; order = 2 ∷ 1 ∷ []; explored = 3; reason = reachable }
unfolding search_solve language
search_solve-build_ship = refl

search_solve-rivals : (search_solve rivals no_deps 100).verdict ≡ reject
unfolding search_solve language
search_solve-rivals = refl

search_solve_limited : (search_solve build_ship no_deps 1).verdict ≡ unknown
unfolding search_solve language
search_solve_limited = refl

build_ship-HasDistinctSteps : HasDistinctSteps build_ship
unfolding nodup
build_ship-HasDistinctSteps = refl

rivals-HasDistinctSteps : HasDistinctSteps rivals
unfolding nodup
rivals-HasDistinctSteps = refl

monotonic_solve-decides_example :
    ((monotonic_solve build_ship no_deps).verdict ≡ pass)
      × IsPlan build_ship no_deps (monotonic_solve build_ship no_deps).order
    ⊎ ((monotonic_solve build_ship no_deps).verdict ≡ reject)
      × ((plan : List ℕ) → ¬ IsPlan build_ship no_deps plan)
unfolding monotonic
monotonic_solve-decides_example = monotonic_solve-decides build_ship no_deps refl

search_solve-decides_example :
    let r = search_solve rivals no_deps 100 in
    (r.verdict ≡ pass) × (r.explored ≤ 100) × IsPlan rivals no_deps r.order
    ⊎ (r.verdict ≡ reject) × (r.explored ≤ 100) × ((plan : List ℕ) → ¬ IsPlan rivals no_deps plan)
    ⊎ (r.verdict ≡ unknown) × (r.explored ≡ 100 + 1)
search_solve-decides_example = search_solve-decides rivals no_deps 100 rivals-HasDistinctSteps

-- After step 1 of the rivals the token is gone.
future_impossible-rivals : future_impossible rivals ("left" ∷ []) (1 ∷ []) ≡ true
unfolding future_impossible language
future_impossible-rivals = refl

future_impossible_sound_example :
    ¬ Completes rivals no_deps (facts_of ("left" ∷ [])) (steps_of (1 ∷ [])) (2 ∷ [])
future_impossible_sound_example =
    future_impossible_sound rivals no_deps ("left" ∷ []) (1 ∷ []) (2 ∷ []) rivals-HasDistinctSteps
      future_impossible-rivals
