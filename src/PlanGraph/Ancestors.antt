-- ===== src/PlanGraph/Ancestors.antt =====
-- `transitive_dependencies` gives each step the set of its ancestors.
use plan_auditor.Base.{
  ℕ, Bool, true, false, ◌&&◌, ◌||◌, List, [], ◌∷◌, ◌≡◌, refl, sym, ◌∙◌, ap, inl, inr, nat_eq, ◌==◌,
  mem, mem-union, mem-add, add, any, nodup, keys, Bool-cases, or-true, and-true, not, beq→eq,
  beq_refl, arith, ok, ◌>>=◌, >>=-eq-ok, subst, mem-cons_self, mem-cons_of_mem,
}
use plan_auditor.Json.{Fields}
use plan_auditor.PlanGraph.Steps.{Graph, effective_dependencies}
use plan_auditor.PlanGraph.Order.{parents_of, topological_order}
use plan_auditor.PlanGraph.Closure.{Closure, absorb, absorb_all, close, transitive_dependencies}
use plan_auditor.PlanGraph.Graphs.{Respects, IsTopological, parents_of-IsEntry, parents_of_unknown}
use plan_auditor.PlanGraph.Dependencies.{effective_dependencies-IsGraph}
use plan_auditor.PlanGraph.Kahn.Decides.{topological_order-decides}

-- `a` is a parent of the step, or an ancestor of a parent.
pub data IsAncestor (deps : Graph) (a : ℕ) : ℕ → Type 0 where
  parent : {c : ℕ} → mem a (parents_of deps c) ≡ true → IsAncestor deps a c
  above : {c p : ℕ} → mem p (parents_of deps c) ≡ true → IsAncestor deps a p → IsAncestor deps a c

-- The set of a step names exactly its ancestors.
abbrev pub NamesAncestors : Graph → Closure → ℕ → Type 0
NamesAncestors deps closure c =
    (a : ℕ)
    → ((mem a (closure c) ≡ true) → IsAncestor deps a c)
      × (IsAncestor deps a c → mem a (closure c) ≡ true)

-- What one parent contributes.
abbrev brings : Closure → ℕ → ℕ → Bool
brings closure a p = a == p || mem a (closure p)

mem-absorb :
    (sid : ℕ) (closure : Closure) (p a c : ℕ)
    → mem a (absorb sid closure p c) ≡ (mem a (closure c) || c == sid && brings closure a p)
unfolding absorb
mem-absorb sid closure p a c = elim (Bool-cases (c == sid)) [
  | inr miss ↦ ground (arith, miss)
  | inl hit ↦ ground (
    arith,
    hit,
    ap (λ x. mem a (closure x)) (beq→eq c sid hit),
    mem-union a (add p (closure sid)) (closure p),
    mem-add a p (closure sid),
  )
]

any-brings-absorb :
    (sid : ℕ) (closure : Closure) (p a : ℕ) (qs : List ℕ)
    → mem sid qs ≡ false
    → any (brings (absorb sid closure p) a) qs ≡ any (brings closure a) qs
unfolding mem
any-brings-absorb sid closure p a [] out = refl
any-brings-absorb sid closure p a (q ∷ qs) out = elim (Bool-cases (q == sid)) [
  | inl same ↦ cc (out, beq→eq q sid same, beq_refl sid)
  | inr other ↦
      ground (arith, other, out, mem-absorb sid closure p a q, any-brings-absorb sid closure p a qs)
]

mem-absorb_all :
    (sid : ℕ) (closure : Closure) (ps : List ℕ) (a c : ℕ)
    → mem sid ps ≡ false
    → mem a (absorb_all sid closure ps c)
      ≡ (mem a (closure c) || c == sid && any (brings closure a) ps)
unfolding absorb_all mem
mem-absorb_all sid closure [] a c h = ground arith
mem-absorb_all sid closure (p ∷ ps) a c h = ground (
  arith,
  mem-absorb_all sid (absorb sid closure p) ps a c,
  mem-absorb sid closure p a c,
  any-brings-absorb sid closure p a ps,
  h,
)

any_of_mem :
    (test : ℕ → Bool) (xs : List ℕ) (x : ℕ) → mem x xs ≡ true → test x ≡ true → any test xs ≡ true
unfolding mem
any_of_mem test [] x m t = cc
any_of_mem test (y ∷ xs) x m t = elim (Bool-cases (x == y)) [
  | inl hit ↦ let here : test y ≡ true = rw (← beq→eq x y hit) t in rw here
  | inr miss ↦ ground (arith, any_of_mem test xs x (rw miss at m) t)
]

mem_of_any :
    (test : ℕ → Bool) (xs : List ℕ)
    → any test xs ≡ true
    → (x : ℕ) × (mem x xs ≡ true) × (test x ≡ true)
unfolding mem
mem_of_any test [] h = cc
mem_of_any test (y ∷ xs) h = elim (Bool-cases (test y)) [
  | inl here ↦ (y, mem-cons_self y xs, here)
  | inr not_here ↦
      let (x, m, t) = mem_of_any test xs (rw not_here at h) in (x, mem-cons_of_mem x y xs m, t)
]

module _ (deps : Graph) where
  -- What the loop knows: the steps of `seen` name their ancestors, the others nothing yet.
  record IsClosing (seen : List ℕ) (closure : Closure) : Type 0 where
    named : (c : ℕ) → mem c seen ≡ true → NamesAncestors deps closure c
    blank : (a c : ℕ) → mem c seen ≡ false → mem a (closure c) ≡ false

  module _ (seen : List ℕ) (closure : Closure) (sid : ℕ) (inv : IsClosing seen closure)
      (new : mem sid seen ≡ false) (loopless : mem sid (parents_of deps sid) ≡ false)
      (before : (p : ℕ) → mem p (parents_of deps sid) ≡ true → mem p seen ≡ true) where
    abbrev next : Closure
    next = absorb_all sid closure (parents_of deps sid)

    next_other : (a c : ℕ) → (c == sid) ≡ false → mem a (next c) ≡ mem a (closure c)
    next_other a c other =
        ground (arith, other, mem-absorb_all sid closure (parents_of deps sid) a c loopless)

    next_here : (a : ℕ) → mem a (next sid) ≡ any (brings closure a) (parents_of deps sid)
    next_here a = ground (
      arith,
      mem-absorb_all sid closure (parents_of deps sid) a sid loopless,
      inv.blank a sid new,
      beq_refl sid,
    )

    next_ancestors : NamesAncestors deps next sid
    next_ancestors a = (
      λ m.
          let (p, up, b) =
            mem_of_any (brings closure a) (parents_of deps sid) (sym (next_here a) ∙ m) in
          elim (or-true (a == p) (mem a (closure p)) b) [
            | inl same ↦
                parent (subst (λ x. mem x (parents_of deps sid) ≡ true) (sym (beq→eq a p same)) up)
            | inr far ↦ above up ((inv.named p (before p up) a).0 far)
          ],
      λ r. next_here a ∙ reach r,
    )
      where
        reach : IsAncestor deps a sid → any (brings closure a) (parents_of deps sid) ≡ true
        reach (parent m) = any_of_mem (brings closure a) (parents_of deps sid) a m (rw (beq_refl a))
        reach (above {p} up r) =
            any_of_mem (brings closure a) (parents_of deps sid) p up
              (ground (arith, (inv.named p (before p up) a).1 r))

    step-IsClosing : IsClosing (sid ∷ seen) next
    unfolding mem
    step-IsClosing = record {
      named = λ c m. elim (Bool-cases (c == sid)) [
        | inl hit ↦ subst (NamesAncestors deps next) (sym (beq→eq c sid hit)) next_ancestors
        | inr other ↦ λ a.
            let old = inv.named c (rw other at m) a in
            (λ k. old.0 (sym (next_other a c other) ∙ k), λ r. next_other a c other ∙ old.1 r)
      ];
      blank = λ a c m. next_other a c (ground (arith, m)) ∙ inv.blank a c (ground (arith, m));
    }

  close-IsClosing :
      (seen order : List ℕ) (closure : Closure)
      → ((c : ℕ) → mem c (parents_of deps c) ≡ false)
      → ((c : ℕ) → mem c order ≡ true → mem c seen ≡ false)
      → nodup order ≡ true
      → Respects deps seen order
      → IsClosing seen closure
      → (c : ℕ) → (mem c seen || mem c order) ≡ true
      → NamesAncestors deps (close deps closure order) c
  unfolding close mem nodup
  close-IsClosing seen [] closure loopless apart n r inv c m = inv.named c (ground (arith, m))
  close-IsClosing seen (sid ∷ order) closure loopless apart n r inv c m =
      let (fresh, rest) = and-true (not (mem sid order)) (nodup order) n in
      close-IsClosing (sid ∷ seen) order (absorb_all sid closure (parents_of deps sid)) loopless
        (λ x k. elim (Bool-cases (x == sid)) [
          | inl same ↦ absurd (cc (ap (λ y. mem y order) (beq→eq x sid same), k, fresh))
          | inr other ↦ ground (arith, other, apart x, k)
        ])
        rest r.1
        (step-IsClosing seen closure sid inv (apart sid (mem-cons_self sid order)) (loopless sid)
          r.0)
        c (ground (arith, m))

-- Where `transitive_dependencies` returns, the set of each step of the plan names exactly its ancestors
-- in the dependency graph.
pub transitive_dependencies-NamesAncestors :
    (steps : List Fields) (deps : Graph) (closure : Closure)
    → effective_dependencies steps ≡ ok deps
    → transitive_dependencies steps ≡ ok closure
    → (c : ℕ) → mem c (keys deps) ≡ true
    → NamesAncestors deps closure c
unfolding transitive_dependencies
transitive_dependencies-NamesAncestors steps deps closure read h c m =
    let run : (topological_order steps >>= λ order. ok (close deps (λ _. []) order)) ≡ ok closure =
      rw read at h in
    let (order, sorted, made) = >>=-eq-ok (topological_order steps) _ run in
    let t = order_of order sorted in
    let same : close deps (λ _. []) order ≡ closure = cc in
    subst (λ x. NamesAncestors deps x c) same
      (close-IsClosing deps [] order (λ _. []) loopless (λ x k. no_member x) t.once t.respects
        (record { named = λ x k. absurd (cc (no_member x, k)); blank = λ a x k. no_member a }) c
        (ground (arith, no_member c, t.all_steps c, m)))
  where
    no_member : (x : ℕ) → mem x [] ≡ false
    no_member x = unfold mem in refl

    order_of : (order : List ℕ) → topological_order steps ≡ ok order → IsTopological deps order
    order_of order sorted = elim (topological_order-decides steps deps read) [
      | inl (found, e, t) ↦ let same : found ≡ order = cc in subst (IsTopological deps) same t
      | inr (cycle, e, none) ↦ absurd (cc (e, sorted))
    ]

    loopless : (x : ℕ) → mem x (parents_of deps x) ≡ false
    loopless x = elim (Bool-cases (mem x (keys deps))) [
      | inl known ↦
          (parents_of-IsEntry (keys deps) deps x
            (effective_dependencies-IsGraph steps deps read).1.entries known).irreflexive
      | inr unknown ↦ rw (parents_of_unknown deps x unknown) (no_member x)
    ]
