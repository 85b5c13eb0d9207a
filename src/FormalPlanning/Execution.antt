-- ===== src/FormalPlanning/Execution.antt =====
-- Laws of the specification: how an execution grows by one step, and what its world holds.
use plan_auditor.Base.{
  ℕ, true, false, ◌||◌, some, List, [], ◌∷◌, ◌++◌, ◌≡◌, sym, ◌∙◌, ap, nat_eq, string_eq, ◌==◌, mem,
  mem-cons_self, mem-cons_of_mem, lookup, inl, inr, Bool-cases, arith, beq→eq,
}
use plan_auditor.PlanGraph.Steps.{Graph}
use plan_auditor.FormalPlanning.Model.{FormalAction, Actions}
use plan_auditor.FormalPlanning.Spec.{World, Done, effect, mark, IsReady, Executes, after}

IsReady-congr :
    (deps : Graph) (a : FormalAction) (w : World) (d e : Done)
    → ((n : ℕ) → d n ≡ true → e n ≡ true)
    → IsReady deps a w d
    → IsReady deps a w e
IsReady-congr deps a w d e h r = record {
  prerequisites = λ n m. h n (r.prerequisites n m);
  preconditions = r.preconditions;
}

module _ (acts : Actions) (deps : Graph) where
  pub after-cons :
      (w : World) (sid : ℕ) (order : List ℕ) {a : FormalAction}
      → lookup sid acts ≡ some a
      → after acts w (sid ∷ order) ≡ after acts (effect a w) order
  unfolding after
  after-cons w sid order h = rw (h, after)

  -- One more step at the end.
  pub Executes-snoc :
      (w : World) (d : Done) (order : List ℕ) (sid : ℕ) (a : FormalAction)
      → Executes acts deps w d order
      → lookup sid acts ≡ some a
      → (d sid || mem sid order) ≡ false
      → IsReady deps a (after acts w order) (λ n. d n || mem n order)
      → Executes acts deps w d (order ++ sid ∷ [])
  unfolding after mem
  Executes-snoc w d [] sid a run found fresh ready = (
    a,
    found,
    ground (arith, fresh),
    IsReady-congr deps a w (λ n. d n || false) d (λ n h. ground (arith, h)) ready,
    tt,
  )
  Executes-snoc w d (s ∷ order) sid a (b, named, new, ready_b, rest) found fresh ready = (
    b,
    named,
    new,
    ready_b,
    Executes-snoc (effect b w) (mark s d) order sid a rest found (ground (arith, fresh)) (
        IsReady-congr deps a (after acts (effect b w) order) (λ n. d n || (n == s || mem n order))
          (λ n. mark s d n || mem n order) (λ n h. ground (arith, h))
          (rw (after-cons w s order named) at ready)),
  )

  pub after-snoc :
      (w : World) (order : List ℕ) (sid : ℕ) (a : FormalAction)
      → ((n : ℕ) → mem n order ≡ true → (b : FormalAction) × (lookup n acts ≡ some b))
      → lookup sid acts ≡ some a
      → after acts w (order ++ sid ∷ []) ≡ effect a (after acts w order)
  unfolding after
  after-snoc w [] sid a known found = rw (found, after)
  after-snoc w (s ∷ order) sid a known found =
      let (b, named) = known s (mem-cons_self s order) in
      after-cons w s (order ++ sid ∷ []) named
      ∙ after-snoc (effect b w) order sid a (λ n m. known n (mem-cons_of_mem n s order m)) found
      ∙ ap (effect a) (sym (after-cons w s order named))

  pub Executes-known :
      (w : World) (d : Done) (order : List ℕ)
      → Executes acts deps w d order
      → (n : ℕ) → mem n order ≡ true
      → (b : FormalAction) × (lookup n acts ≡ some b)
  unfolding mem
  Executes-known w d [] run n m = cc
  Executes-known w d (s ∷ order) (b, named, new, ready, rest) n m = elim (Bool-cases (n == s)) [
    | inl hit ↦ (b, rw (beq→eq n s hit) named)
    | inr miss ↦ Executes-known (effect b w) (mark s d) order rest n (rw miss at m)
  ]
