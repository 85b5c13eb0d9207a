-- ===== src/FormalPlanning/Reached.antt =====
-- What both planners know of a state that they have built: the order that leads to it runs.
use plan_auditor.Base.{
  ℕ, ◌≤◌, String, true, false, ◌||◌, some, List, [], ◌∷◌, ◌++◌, ◌≡◌, refl, sym, ◌∙◌, ap, inl, inr,
  nat_eq, string_eq, ◌==◌, mem, mem-append, mem-add, add, length, nodup, nodup-add, keys, lookup,
  Bool-cases, mem-keys_of_lookup, mem_of_length_le, arith, beq→eq,
}
use plan_auditor.PlanGraph.Steps.{Graph}
use plan_auditor.FormalPlanning.Model.{
  Facts, FormalAction, FormalContract, Actions, by_step, applicable, apply,
}
use plan_auditor.FormalPlanning.Spec.{
  World, IsReady, Executes, after, initial_world, nothing_done, IsPlan,
}
use plan_auditor.FormalPlanning.Facts.{mem-apply, applicable-IsReady}
use plan_auditor.FormalPlanning.Execution.{Executes-snoc, after-snoc, Executes-known}

module _ (contract : FormalContract) (deps : Graph) where
  abbrev pub acts : Actions
  acts = by_step contract

  pub record IsReached (facts : Facts) (done order : List ℕ) : Type 0 where
    pub runs : Executes acts deps (initial_world contract) nothing_done order
    pub world : (f : String) → mem f facts ≡ after acts (initial_world contract) order f
    pub placed : (n : ℕ) → mem n done ≡ mem n order
    pub distinct : nodup done ≡ true
    pub inside : (n : ℕ) → mem n done ≡ true → mem n (keys acts) ≡ true

  pub IsReached-start : IsReached contract.initial_facts [] []
  unfolding mem nodup after
  IsReached-start = record {
    runs = tt;
    world = λ f. refl;
    placed = λ n. refl;
    distinct = refl;
    inside = λ n m. cc;
  }

  module _ (facts : Facts) (done order : List ℕ) (sid : ℕ) (a : FormalAction)
      (reached : IsReached facts done order) (found : lookup sid acts ≡ some a)
      (new : mem sid done ≡ false) (can : applicable deps a facts done ≡ true) where
    open reached use {runs, world, placed, distinct, inside}

    IsReady-here :
        IsReady deps a
          (after acts (initial_world contract) order)
          (λ n. nothing_done n || mem n order)
    IsReady-here =
        let r = applicable-IsReady deps a facts done can in
        record {
          prerequisites = λ n m. sym (placed n) ∙ r.prerequisites n m;
          preconditions = λ f m. sym (world f) ∙ r.preconditions f m;
        }

    pub IsReached-step : IsReached (apply a facts) (add sid done) (order ++ sid ∷ [])
    unfolding mem
    IsReached-step = record {
      runs =
          Executes-snoc acts deps (initial_world contract) nothing_done order sid a runs found
            (ground (arith, placed sid, new)) IsReady-here;
      world = λ f. ground (
        arith,
        mem-apply a facts f,
        world f,
        ap (λ (w : World). w f)
            (after-snoc acts deps (initial_world contract) order sid a
              (Executes-known acts deps (initial_world contract) nothing_done order runs) found),
      );
      placed = λ n. ground (arith, mem-add n sid done, mem-append n order (sid ∷ []), placed n);
      distinct = nodup-add sid done distinct;
      inside = λ n m. elim (Bool-cases (n == sid)) [
        | inl hit ↦ rw (beq→eq n sid hit) (mem-keys_of_lookup sid acts a found)
        | inr miss ↦ inside n (ground (arith, mem-add n sid done, miss, m))
      ];
    }

  -- A state that counts as many steps as there are has run them all.
  pub all_placed :
      (facts : Facts) (done order : List ℕ)
      → IsReached facts done order
      → length (keys acts) ≤ length done
      → (n : ℕ) → mem n (keys acts) ≡ true
      → mem n done ≡ true
  all_placed facts done order inv long n m =
      mem_of_length_le done (keys acts) n inv.distinct inv.inside long m

  -- Such a state with the goals among its facts ends a plan.
  pub IsReached-IsPlan :
      (facts : Facts) (done order : List ℕ)
      → IsReached facts done order
      → length (keys acts) ≤ length done
      → ((f : String) → mem f contract.goal_facts ≡ true → mem f facts ≡ true)
      → IsPlan contract deps order
  IsReached-IsPlan facts done order inv long met = record {
    executes = inv.runs;
    covers = λ n m. sym (inv.placed n) ∙ all_placed facts done order inv long n m;
    reaches = λ f m. sym (inv.world f) ∙ met f m;
  }
