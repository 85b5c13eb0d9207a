-- ===== src/PlanGraph/Kahn/Rounds.antt =====
-- The outer loop of Kahn's algorithm: one round places one step whose parents are all placed.
use plan_auditor.Base.{
  ℕ, zero, suc, ◌+◌, true, false, ◌||◌, List, [], ◌∷◌, ◌++◌, ◌≡◌, refl, sym, ◌∙◌, ap, inl, inr,
  nat_eq, ◌==◌, mem, mem-append, mem-cons_self, nodup, nodup-append, nodup_left, nodup_right,
  nodup_apart, keys, Bool-cases, arith, missing-snoc, missing-zero, missing-nil, append_assoc, leb,
  mem-sort_with, nodup-sort_with, length-sort_with, length, length-append, length_le_of_subset,
  mem-keep, List-cases, nodup-keep,
}
use plan_auditor.PlanGraph.Steps.{Graph}
use plan_auditor.PlanGraph.Order.{
  Kahn, sort_by, outgoing, parents_of, initial_indegree, visit, kahn, kahn_start,
}
use plan_auditor.PlanGraph.Graphs.{
  IsGraph, Respects, Respects-snoc, parents_of-IsEntry, parents_of_unknown,
}
use plan_auditor.PlanGraph.Kahn.Links.{mem-outgoing, nodup-outgoing}
use plan_auditor.PlanGraph.Kahn.Release.{IsCounted, release_all-IsCounted, release_all-result}

-- The state at the head of the loop.
pub record IsRound (deps : Graph) (s : Kahn) : Type 0 where
  pub counted : IsCounted deps [] s
  pub ordered : Respects deps [] s.result

length-sort_by : (rank : ℕ → ℕ) (xs : List ℕ) → length (sort_by rank xs) ≡ length xs
unfolding sort_by
length-sort_by rank xs = length-sort_with (λ a b. leb (rank a) (rank b)) xs

module _ (deps : Graph) (graph : IsGraph deps) (rank : ℕ → ℕ) where
  abbrev pub out : ℕ → List ℕ
  out = outgoing deps (λ _. [])

  mem-out : (p c : ℕ) → mem c (sort_by rank (out p)) ≡ mem p (parents_of deps c)
  unfolding sort_by mem
  mem-out p c =
      mem-sort_with (λ a b. leb (rank a) (rank b)) c (out p)
      ∙ mem-outgoing deps (λ _. []) p c graph.keys_distinct

  nodup-out : (p : ℕ) → nodup (sort_by rank (out p)) ≡ true
  unfolding sort_by nodup
  nodup-out p =
      nodup-sort_with (λ a b. leb (rank a) (rank b)) (out p)
        (nodup-outgoing deps (λ _. []) (λ _. refl) p)

  known-out : (p c : ℕ) → mem c (sort_by rank (out p)) ≡ true → mem c (keys deps) ≡ true
  unfolding mem
  known-out p c m = elim (Bool-cases (mem c (keys deps))) [
    | inl known ↦ known
    | inr unknown ↦
        let child = sym (mem-out p c) ∙ m in
        absurd (cc (rw (parents_of_unknown deps c unknown) at child))
  ]

  module _ (s : Kahn) (sid : ℕ) (rest : List ℕ) (popped : sort_by rank s.ready ≡ sid ∷ rest)
      (inv : IsRound deps s) where
    open inv use {counted, ordered}

    abbrev next : Kahn
    next = record s { ready = rest; result = s.result ++ sid ∷ [] }

    mem-ready : (c : ℕ) → mem c s.ready ≡ mem c (sid ∷ rest)
    unfolding sort_by
    mem-ready c = sym (mem-sort_with (λ a b. leb (rank a) (rank b)) c s.ready) ∙ ap (mem c) popped

    sid_ready : mem sid s.ready ≡ true
    sid_ready = mem-ready sid ∙ mem-cons_self sid rest

    sid_level : mem sid (s.result ++ s.ready) ≡ true
    sid_level = ground (arith, mem-append sid s.result s.ready, sid_ready)

    sid_known : mem sid (keys deps) ≡ true
    sid_known = counted.inside sid sid_level

    sid_new : mem sid s.result ≡ false
    sid_new = elim (Bool-cases (mem sid s.result)) [
      | inr new ↦ new
      | inl old ↦ cc (nodup_apart s.result s.ready sid counted.distinct old, sid_ready)
    ]

    nodup-popped : nodup (s.result ++ sid ∷ rest) ≡ true
    unfolding sort_by
    nodup-popped =
        let sorted =
          nodup-sort_with (λ a b. leb (rank a) (rank b)) s.ready
            (nodup_right s.result s.ready counted.distinct) in
        nodup-append s.result (sid ∷ rest) (nodup_left s.result s.ready counted.distinct)
          (rw popped at sorted)
          (λ x m. sym (mem-ready x) ∙ nodup_apart s.result s.ready x counted.distinct m)

    mem-placed : (c : ℕ) → mem c (next.result ++ next.ready) ≡ mem c (s.result ++ s.ready)
    mem-placed c =
        ap (mem c) (append_assoc s.result (sid ∷ []) rest)
        ∙ mem-append c s.result (sid ∷ rest)
        ∙ ap (λ b. mem c s.result || b) (sym (mem-ready c))
        ∙ sym (mem-append c s.result s.ready)

    next-IsCounted : IsCounted deps (sort_by rank (out sid)) next
    unfolding mem
    next-IsCounted = record {
      count = λ c m.
          let entry = parents_of-IsEntry (keys deps) deps c graph.entries m in
          ground (
            arith,
            counted.count c m,
            mem-out sid c,
            missing-snoc s.result (parents_of deps c) sid entry.distinct sid_new,
          );
      level = λ c m. mem-placed c ∙ counted.level c m;
      distinct = rw (append_assoc s.result (sid ∷ []) rest) nodup-popped;
      inside = λ c m. counted.inside c (sym (mem-placed c) ∙ m);
    }

    pub visit-IsRound : IsRound deps (visit rank out s sid rest)
    unfolding visit mem
    visit-IsRound = record {
      counted =
          release_all-IsCounted deps (sort_by rank (out sid)) next (nodup-out sid) (known-out sid)
            next-IsCounted;
      ordered = rw (release_all-result next (sort_by rank (out sid))) (
          Respects-snoc deps [] s.result sid ordered (λ p m.
            missing-zero s.result (parents_of deps sid) p
              (ground (arith, counted.count sid sid_known, counted.level sid sid_known, sid_level))
              m));
    }

    pub visit-length : length (visit rank out s sid rest).result ≡ length s.result + 1
    unfolding visit
    visit-length =
        rw (release_all-result next (sort_by rank (out sid))) (length-append s.result (sid ∷ []))

  ready_nil : (xs : List ℕ) → sort_by rank xs ≡ [] → xs ≡ []
  ready_nil [] e = refl
  ready_nil (x ∷ xs) e =
      absurd (omega (arith, length-sort_by rank (x ∷ xs), ap (λ (l : List ℕ). length l) e))

  -- As many rounds as there are steps left to place end the loop with nothing ready.
  pub kahn-IsRound :
      (fuel : ℕ) (s : Kahn)
      → IsRound deps s
      → length s.result + fuel ≡ length (keys deps)
      → IsRound deps (kahn rank out fuel s) × ((kahn rank out fuel s).ready ≡ [])
  unfolding kahn
  kahn-IsRound zero s inv size = (inv, none_ready)
    where
      none_ready : s.ready ≡ []
      none_ready = elim (List-cases s.ready) [
        | inl empty ↦ empty
        | inr (x, xs, e) ↦ absurd (
            omega (
              arith,
              length_le_of_subset (s.result ++ s.ready) (keys deps) inv.counted.distinct
                  inv.counted.inside,
              length-append s.result s.ready,
              ap (λ (l : List ℕ). length l) e,
              size,
            ))
      ]
  kahn-IsRound (suc fuel) s inv size = elim (List-cases (sort_by rank s.ready)) [
    | inl empty ↦ rw (empty, kahn) (inv, ready_nil s.ready empty)
    | inr (sid, rest, popped) ↦
        rw (popped, kahn)
          (kahn-IsRound fuel (visit rank out s sid rest) (visit-IsRound s sid rest popped inv)
            (omega (arith, visit-length s sid rest popped inv, size)))
  ]

  pub start-IsRound : IsRound deps (kahn_start (keys deps) deps)
  unfolding kahn_start mem initial_indegree
  start-IsRound = record {
    counted = record {
      count = λ c m. ground (arith, missing-nil (parents_of deps c));
      level =
          λ c m. mem-keep (λ x. length (parents_of deps x) == 0) c (keys deps) ∙ ground (arith, m);
      distinct = nodup-keep (λ x. length (parents_of deps x) == 0) (keys deps) graph.keys_distinct;
      inside =
          λ c m. ground (arith, mem-keep (λ x. length (parents_of deps x) == 0) c (keys deps), m);
    };
    ordered = tt;
  }
