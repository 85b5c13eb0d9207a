-- ===== src/FormalPlanning/Breadth/Adds.antt =====
-- Where the facts of an execution come from.
use plan_auditor.Base.{
  ℕ, String, Bool, true, false, not, some, List, [], ◌∷◌, ◌≡◌, ◌⊎◌, refl, inl, inr, nat_eq,
  string_eq, ◌==◌, mem, mem-cons, lookup, Bool-cases, arith, mem-cons_self, beq→eq, beq_refl,
}
use plan_auditor.PlanGraph.Steps.{Graph}
use plan_auditor.FormalPlanning.Model.{FormalAction, Actions}
use plan_auditor.FormalPlanning.Spec.{World, Done, effect, mark, Executes, after}
use plan_auditor.FormalPlanning.Execution.{after-cons}

module _ (acts : Actions) (deps : Graph) where
  -- Some step of the order adds the fact; `except` leaves one step out.
  abbrev pub Adds : List ℕ → (ℕ → Bool) → String → Type 0
  Adds order counts f =
      (n : ℕ) × (b : FormalAction) × (mem n order ≡ true)
      × (counts n ≡ true)
      × (lookup n acts ≡ some b)
      × (mem f b.add_effects ≡ true)

  Adds-cons :
      (s : ℕ) (order : List ℕ) (counts : ℕ → Bool) (f : String)
      → Adds order counts f
      → Adds (s ∷ order) counts f
  Adds-cons s order counts f (n, b, m, c, found, e) =
      (n, b, ground (arith, mem-cons n s order, m), c, found, e)

  -- A step of an execution had not run before it.
  pub Executes-fresh :
      (w : World) (d : Done) (order : List ℕ) (n : ℕ)
      → Executes acts deps w d order
      → mem n order ≡ true
      → d n ≡ false
  unfolding mem
  Executes-fresh w d [] n run m = cc
  Executes-fresh w d (s ∷ order) n (a, found, new, ready, rest) m = elim (Bool-cases (n == s)) [
    | inl hit ↦ rw (beq→eq n s hit) new
    | inr miss ↦
        let later = Executes-fresh (effect a w) (mark s d) order n rest (rw miss at m) in
        ground (arith, later, miss)
  ]

  -- What holds at the end held at the start or was added on the way.
  pub after_cases :
      (w : World) (d : Done) (order : List ℕ) (f : String)
      → Executes acts deps w d order
      → after acts w order f ≡ true
      → (w f ≡ true) ⊎ Adds order (λ _. true) f
  unfolding after
  after_cases w d [] f run h = inl h
  after_cases w d (s ∷ order) f (a, found, new, ready, rest) h =
      elim (after_cases (effect a w) (mark s d) order f rest
        (rw (after-cons acts deps w s order found) at h)) [
          | inr later ↦ inr (Adds-cons s order (λ _. true) f later)
          | inl now ↦ elim (Bool-cases (mem f a.add_effects)) [
            | inl added ↦ inr (s, a, mem-cons_self s order, refl, found, added)
            | inr other ↦ inl (ground (arith, now, other))
          ]
        ]

  -- A precondition of a step of an execution held at the start or is added by another of its steps.
  pub precondition_cases :
      (w : World) (d : Done) (order : List ℕ) (sid : ℕ) (a : FormalAction) (f : String)
      → Executes acts deps w d order
      → mem sid order ≡ true
      → lookup sid acts ≡ some a
      → mem f a.preconditions ≡ true
      → (w f ≡ true) ⊎ Adds order (λ n. not (n == sid)) f
  unfolding mem
  precondition_cases w d [] sid a f run m found p = absurd (cc m)
  precondition_cases w d (s ∷ order) sid a f (b, named, new, ready, rest) m found p =
      elim (Bool-cases (sid == s)) [
        | inl hit ↦
            let here : lookup s acts ≡ some a = rw (beq→eq sid s hit) at found in
            let same : b ≡ a = cc in inl (ready.preconditions f (rw same p))
        | inr miss ↦
            elim (precondition_cases (effect b w) (mark s d) order sid a f rest (rw miss at m) found
              p) [
                | inr later ↦ inr (Adds-cons s order (λ n. not (n == sid)) f later)
                | inl now ↦ elim (Bool-cases (mem f b.add_effects)) [
                  | inr other ↦ inl (ground (arith, now, other))
                  | inl added ↦ inr (s, b, mem-cons_self s order, other_step miss, named, added)
                ]
              ]
      ]
    where
      other_step : (sid == s) ≡ false → not (s == sid) ≡ true
      other_step miss = elim (Bool-cases (s == sid)) [
        | inl same ↦ cc (beq→eq s sid same, beq_refl s)
        | inr ne ↦ rw ne
      ]
