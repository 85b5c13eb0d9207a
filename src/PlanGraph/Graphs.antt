-- ===== src/PlanGraph/Graphs.antt =====
-- What a dependency graph is, and what an order of its steps has to respect.
use plan_auditor.Base.{
  ℕ, true, false, ◌||◌, List, [], ◌∷◌, ◌++◌, ◌≡◌, refl, inl, inr, nat_eq, ◌==◌, mem, mem-cons,
  nodup, keys, All, Bool-cases, beq→eq, arith, lookup_or,
}
use plan_auditor.PlanGraph.Steps.{Graph}
use plan_auditor.PlanGraph.Order.{parents_of}

-- The steps are named once each; no step repeats a parent or names itself; parents are steps.
pub record IsEntry (known : List ℕ) (entry : ℕ × List ℕ) : Type 0 where
  pub distinct : nodup entry.1 ≡ true
  pub irreflexive : mem entry.0 entry.1 ≡ false
  pub parents_known : (p : ℕ) → mem p entry.1 ≡ true → mem p known ≡ true

pub record IsGraph (deps : Graph) : Type 0 where
  pub keys_distinct : nodup (keys deps) ≡ true
  pub entries : All (IsEntry (keys deps)) deps

-- Each step of the order stands behind all of its parents.
abbrev pub Respects : Graph → List ℕ → List ℕ → Type 0
Respects deps seen [] = Unit
Respects deps seen (x ∷ xs) =
    ((p : ℕ) → mem p (parents_of deps x) ≡ true → mem p seen ≡ true) × Respects deps (x ∷ seen) xs

pub record IsTopological (deps : Graph) (order : List ℕ) : Type 0 where
  pub once : nodup order ≡ true
  pub all_steps : (n : ℕ) → mem n order ≡ mem n (keys deps)
  pub respects : Respects deps [] order

Respects-weaken :
    (deps : Graph) (seen more : List ℕ) (order : List ℕ)
    → ((n : ℕ) → mem n seen ≡ true → mem n more ≡ true)
    → Respects deps seen order
    → Respects deps more order
Respects-weaken deps seen more [] h r = tt
Respects-weaken deps seen more (x ∷ xs) h r = (
  λ p m. h p (r.0 p m),
  Respects-weaken deps (x ∷ seen) (x ∷ more) xs
      (λ n m. ground (arith, mem-cons n x seen, mem-cons n x more, h n, m)) r.1,
)

pub Respects-snoc :
    (deps : Graph) (seen order : List ℕ) (x : ℕ)
    → Respects deps seen order
    → ((p : ℕ) → mem p (parents_of deps x) ≡ true → (mem p seen || mem p order) ≡ true)
    → Respects deps seen (order ++ x ∷ [])
unfolding mem
Respects-snoc deps seen [] x r h = (λ p m. ground (arith, h p m), tt)
Respects-snoc deps seen (y ∷ order) x r h =
    (r.0, Respects-snoc deps (y ∷ seen) order x r.1 (λ p m. ground (arith, h p m)))

-- What holds of each entry holds of the parents of each step of the graph.
pub parents_of-IsEntry :
    (known : List ℕ) (deps : Graph) (sid : ℕ)
    → All (IsEntry known) deps
    → mem sid (keys deps) ≡ true
    → IsEntry known (sid, parents_of deps sid)
unfolding parents_of lookup_or mem
parents_of-IsEntry known [] sid all m = absurd (cc m)
parents_of-IsEntry known ((j, ps) ∷ deps) sid all m = elim (Bool-cases (sid == j)) [
  | inl hit ↦ let named = beq→eq sid j hit in rw hit (rw named all.0)
  | inr miss ↦ rw miss (parents_of-IsEntry known deps sid all.1 (rw miss at m))
]

-- A step that the graph lacks has no parents.
pub parents_of_unknown :
    (deps : Graph) (sid : ℕ) → mem sid (keys deps) ≡ false → parents_of deps sid ≡ []
unfolding parents_of lookup_or mem
parents_of_unknown [] sid m = refl
parents_of_unknown ((j, ps) ∷ deps) sid m = ground (arith, m, parents_of_unknown deps sid)
