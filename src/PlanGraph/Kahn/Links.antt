-- ===== src/PlanGraph/Kahn/Links.antt =====
-- `outgoing` lists for each step the steps that name it as a parent, each once.
use plan_auditor.Base.{
  ℕ, true, ◌&&◌, ◌||◌, List, [], ◌∷◌, ◌≡◌, inl, inr, nat_eq, ◌==◌, mem, mem-add, add, nodup,
  nodup-add, keys, Bool-cases, beq→eq, arith, lookup_or, if◌then◌else◌,
}
use plan_auditor.PlanGraph.Steps.{Graph}
use plan_auditor.PlanGraph.Order.{link_parents, outgoing, parents_of}
use plan_auditor.PlanGraph.Graphs.{parents_of_unknown}

mem-link_parents :
    (sid : ℕ) (parents : List ℕ) (out : ℕ → List ℕ) (p c : ℕ)
    → mem c (link_parents sid parents out p) ≡ (mem c (out p) || (c == sid && mem p parents))
unfolding link_parents mem
mem-link_parents sid [] out p c = ground arith
mem-link_parents sid (q ∷ parents) out p c = ground (
  arith,
  mem-link_parents sid parents (λ x. if x == q then add sid (out x) else out x) p c,
  mem-add c sid (out p),
)

nodup-link_parents :
    (sid : ℕ) (parents : List ℕ) (out : ℕ → List ℕ)
    → ((p : ℕ) → nodup (out p) ≡ true)
    → (p : ℕ) → nodup (link_parents sid parents out p) ≡ true
unfolding link_parents
nodup-link_parents sid [] out h p = h p
nodup-link_parents sid (q ∷ parents) out h p =
    nodup-link_parents sid parents (λ x. if x == q then add sid (out x) else out x)
      (λ x. ground (arith, nodup-add sid (out x), h x)) p

pub nodup-outgoing :
    (deps : Graph) (out : ℕ → List ℕ)
    → ((p : ℕ) → nodup (out p) ≡ true)
    → (p : ℕ) → nodup (outgoing deps out p) ≡ true
unfolding outgoing
nodup-outgoing [] out h p = h p
nodup-outgoing ((sid, parents) ∷ deps) out h p =
    nodup-outgoing deps (link_parents sid parents out) (nodup-link_parents sid parents out h) p

pub mem-outgoing :
    (deps : Graph) (out : ℕ → List ℕ) (p c : ℕ)
    → nodup (keys deps) ≡ true
    → mem c (outgoing deps out p) ≡ (mem c (out p) || mem p (parents_of deps c))
unfolding outgoing parents_of lookup_or nodup mem
mem-outgoing [] out p c n = ground arith
mem-outgoing ((sid, parents) ∷ deps) out p c n = elim (Bool-cases (c == sid)) [
  | inl hit ↦
      let named = beq→eq c sid hit in
      ground (
        arith,
        hit,
        named,
        mem-outgoing deps (link_parents sid parents out) p c,
        mem-link_parents sid parents out p c,
        parents_of_unknown deps c,
      )
  | inr miss ↦ ground (
    arith,
    miss,
    mem-outgoing deps (link_parents sid parents out) p c,
    mem-link_parents sid parents out p c,
  )
]
