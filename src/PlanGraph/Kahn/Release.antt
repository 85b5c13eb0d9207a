-- ===== src/PlanGraph/Kahn/Release.antt =====
-- The inner loop of Kahn's algorithm: the counts of the released steps, and which become ready.
use plan_auditor.Base.{
  ℕ, ◌+◌, ◌-◌, true, false, not, List, [], ◌∷◌, ◌++◌, ◌≡◌, refl, sym, ◌∙◌, ap, inl, inr, nat_eq,
  ◌==◌, mem, mem-append, mem-cons_self, mem-cons_of_mem, nodup, nodup-snoc, keys, Bool-cases,
  beq→eq, beq_refl, arith, missing, if◌then◌else◌, append_assoc, and-true,
}
use plan_auditor.PlanGraph.Steps.{Graph}
use plan_auditor.PlanGraph.Order.{Kahn, release, release_all, parents_of}

-- The loop has still to release `waiting`. A count is the number of parents that are not placed, and
-- one more while the step waits; the steps of count 0 are those that are placed or ready.
pub record IsCounted (deps : Graph) (waiting : List ℕ) (s : Kahn) : Type 0 where
  pub count :
      (c : ℕ)
      → mem c (keys deps) ≡ true
      → s.indegree c ≡ missing s.result (parents_of deps c) + (if mem c waiting then 1 else 0)
  pub level : (c : ℕ) → mem c (keys deps) ≡ true → mem c (s.result ++ s.ready) ≡ (s.indegree c == 0)
  pub distinct : nodup (s.result ++ s.ready) ≡ true
  pub inside : (c : ℕ) → mem c (s.result ++ s.ready) ≡ true → mem c (keys deps) ≡ true

module _ (deps : Graph) (child : ℕ) (waiting : List ℕ) (s : Kahn)
    (known : mem child (keys deps) ≡ true) (fresh : mem child waiting ≡ false)
    (inv : IsCounted deps (child ∷ waiting) s) where
  here : s.indegree child ≡ missing s.result (parents_of deps child) + 1
  unfolding mem
  here = ground (arith, inv.count child known, beq_refl child)

  -- The child is neither placed nor ready, since it still waits.
  unplaced : mem child (s.result ++ s.ready) ≡ false
  unplaced = ground (arith, inv.level child known, here)

  abbrev left : ℕ
  left = s.indegree child - 1

  release-list :
      (release s child).result ++ (release s child).ready
      ≡ (if left == 0 then (s.result ++ s.ready) ++ child ∷ [] else s.result ++ s.ready)
  unfolding release
  release-list = elim (Bool-cases (left == 0)) [
    | inl zero_left ↦ rw zero_left (sym (append_assoc s.result s.ready (child ∷ [])))
    | inr more ↦ rw more refl
  ]

  release-level :
      (c : ℕ)
      → mem c (keys deps) ≡ true
      → mem c ((release s child).result ++ (release s child).ready)
        ≡ ((release s child).indegree c == 0)
  unfolding release mem
  release-level c m = ap (mem c) release-list ∙ elim (Bool-cases (c == child)) [
    | inl hit ↦
        let named = beq→eq c child hit in
        ground (
          arith,
          hit,
          ap (λ x. mem x (s.result ++ s.ready)) named,
          unplaced,
          mem-append c (s.result ++ s.ready) (child ∷ []),
        )
    | inr miss ↦
        ground (arith, miss, inv.level c m, mem-append c (s.result ++ s.ready) (child ∷ []))
  ]

  pub release-IsCounted : IsCounted deps waiting (release s child)
  unfolding release mem
  release-IsCounted = record {
    count = λ c m. elim (Bool-cases (c == child)) [
      | inl hit ↦ rw (hit, beq→eq c child hit) (ground (arith, here, fresh))
      | inr miss ↦ rw miss (ground (arith, inv.count c m, miss))
    ];
    level = release-level;
    distinct = rw release-list (
        ground (arith, inv.distinct, nodup-snoc (s.result ++ s.ready) child inv.distinct unplaced));
    inside = λ c m.
        let split = sym (ap (mem c) release-list) ∙ m in
        elim (Bool-cases (c == child)) [
          | inl hit ↦ rw (beq→eq c child hit) known
          | inr miss ↦
              inv.inside c
                (ground (arith, split, miss, mem-append c (s.result ++ s.ready) (child ∷ [])))
        ];
  }

-- The whole inner loop.
pub release_all-IsCounted :
    (deps : Graph) (waiting : List ℕ) (s : Kahn)
    → nodup waiting ≡ true
    → ((c : ℕ) → mem c waiting ≡ true → mem c (keys deps) ≡ true)
    → IsCounted deps waiting s
    → IsCounted deps [] (release_all s waiting)
unfolding release_all nodup
release_all-IsCounted deps [] s n known inv = inv
release_all-IsCounted deps (child ∷ waiting) s n known inv =
    let (fresh, rest) = and-true (not (mem child waiting)) (nodup waiting) n in
    release_all-IsCounted deps waiting (release s child) rest
      (λ c m. known c (mem-cons_of_mem c child waiting m))
      (release-IsCounted deps child waiting s (known child (mem-cons_self child waiting))
        (ground (arith, fresh)) inv)

pub release_all-result : (s : Kahn) (waiting : List ℕ) → (release_all s waiting).result ≡ s.result
unfolding release_all
release_all-result s [] = refl
release_all-result s (child ∷ waiting) = release_all-result (release s child) waiting
