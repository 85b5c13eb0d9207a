-- ===== src/Gate/Outcomes.antt =====
-- supervisor/gate.py: what the outcome of `evaluate` says, whichever notes are written on the way.
use plan_auditor.Base.{
  ℕ, Bool, true, false, not, ◌&&◌, ◌||◌, Option, none, some, List, [], ◌∷◌, ◌≡◌, ◌↔◌, inl, inr,
  refl, sym, ◌∙◌, ap, if◌then◌else◌, any, keep, subst, nat_eq, ◌==◌, is_empty, All, All-of_keep_nil,
  Bool-cases, arith,
}
use plan_auditor.Priority.{
  RuleResult, Outcome, passed, failed, undecided, PriorityVerdict, resolve_priority,
  requirement_coverage_level,
}
use plan_auditor.Priority.Rulings.{resolve_priority-IsResolved}
use plan_auditor.Sealing.Changes.{MonotonicCheck}
use plan_auditor.Gate.{
  Note, TrafficCheck, AdversarialFinding, Ruling, withhold, check_pending, check_proof,
  check_policy, check_seal, check_traffic, is_blocking, check_adversarial, evaluate_rules, failures,
  evaluate,
}

abbrev pub is_failed : Outcome → Bool
is_failed failed = true
is_failed _ = false

abbrev pub is_undecided : Outcome → Bool
is_undecided undecided = true
is_undecided _ = false

abbrev pub is_seal_broken : Option MonotonicCheck → Bool
is_seal_broken none = false
is_seal_broken (some c) = not c.ok

abbrev pub is_traffic_broken : Option TrafficCheck → Bool
is_traffic_broken none = false
is_traffic_broken (some t) = t.required && not t.ok

-- The outcome behind a check that fails, and behind one that can only withhold a PASS.
abbrev hard : Bool → Outcome → Outcome
hard b o = if b then failed else o

abbrev soft : Bool → Outcome → Outcome
soft b passed = if b then undecided else passed
soft b o = o

outcome-check_pending :
    (steps : List ℕ) (r : Ruling)
    → (check_pending steps r).outcome ≡ hard (not (is_empty steps)) r.outcome
unfolding check_pending
outcome-check_pending [] r = refl
outcome-check_pending (n ∷ steps) r = refl

outcome-check_proof : (b : Bool) (r : Ruling) → (check_proof b r).outcome ≡ hard (not b) r.outcome
unfolding check_proof
outcome-check_proof true r = refl
outcome-check_proof false r = refl

outcome-withhold :
    (note : Note) (o : Outcome) (notes : List Note)
    → (withhold note (record { outcome = o; notes = notes })).outcome ≡ soft true o
unfolding withhold
outcome-withhold note passed notes = refl
outcome-withhold note failed notes = refl
outcome-withhold note undecided notes = refl

soft-false : (o : Outcome) → soft false o ≡ o
soft-false passed = refl
soft-false failed = refl
soft-false undecided = refl

policy_outcome :
    (o : Outcome) (v : PriorityVerdict) (r : Ruling)
    → v.outcome ≡ o
    → (check_policy v r).outcome ≡ hard (is_failed o) (soft (is_undecided o) r.outcome)
unfolding check_policy
policy_outcome passed v r e = rw (e, check_policy) (sym (soft-false r.outcome))
policy_outcome failed v r e = rw (e, check_policy) refl
policy_outcome undecided v r e = rw (e, check_policy) (outcome-withhold _ r.outcome r.notes)

outcome-check_seal :
    (c : Option MonotonicCheck) (r : Ruling)
    → (check_seal c r).outcome ≡ hard (is_seal_broken c) r.outcome
unfolding check_seal
outcome-check_seal none r = refl
outcome-check_seal (some c) r = ground arith

outcome-check_traffic :
    (t : Option TrafficCheck) (r : Ruling)
    → (check_traffic t r).outcome ≡ hard (is_traffic_broken t) r.outcome
unfolding check_traffic
outcome-check_traffic none r = refl
outcome-check_traffic (some t) r = ground arith

outcome-check_adversarial :
    (findings : List AdversarialFinding) (r : Ruling)
    → (check_adversarial findings r).outcome ≡ soft (any is_blocking findings) r.outcome
unfolding check_adversarial
outcome-check_adversarial findings r = elim (Bool-cases (any is_blocking findings)) [
  | inl found ↦ rw found (outcome-withhold _ r.outcome r.notes)
  | inr nothing ↦ rw nothing (sym (soft-false r.outcome))
]

-- The checks in the order of the source have the same outcome as their disjunctions.
combine :
    (a b c d e f g : Bool)
    → soft g (hard f (hard e (hard c (soft d (hard b (hard a passed))))))
      ≡ (if a || b || c || e || f then failed else if d || g then undecided else passed)
combine a b c d e f g = ground arith

keep_idem : {A : Type 0} (test : A → Bool) (xs : List A) → keep test (keep test xs) ≡ keep test xs
keep_idem test [] = refl
keep_idem test (x ∷ xs) = elim (Bool-cases (test x)) [
  | inl hit ↦ rw (hit, hit) (ap (λ l. x ∷ l) (keep_idem test xs))
  | inr miss ↦ rw miss (keep_idem test xs)
]

not_silent :
    (b : Bool) (o : Outcome)
    → o ≡ (if b then undecided else failed)
    → ¬ ((is_failed o || is_undecided o) ≡ false)
not_silent true o e h = cc (subst (λ p. (is_failed p || is_undecided p) ≡ false) e h)
not_silent false o e h = cc (subst (λ p. (is_failed p || is_undecided p) ≡ false) e h)

only_pass :
    (empty proof fails hangs seal traffic review : Bool)
    → (if not empty || not proof || fails || seal || traffic
        then failed
        else if hangs || review
        then undecided
        else passed)
      ≡ passed
    → (empty ≡ true)
      × (proof ≡ true)
      × ((fails || hangs) ≡ false)
      × (seal ≡ false)
      × (traffic ≡ false)
      × (review ≡ false)
only_pass empty proof fails hangs seal traffic review h = ground arith

module _ {C : Type 0} (rules : List (C → RuleResult)) (context : C) where
  abbrev pub policy_verdict : PriorityVerdict
  policy_verdict = resolve_priority (failures rules context)

  -- What makes the outcome FAIL, in no order.
  abbrev pub is_failing : Bool → List ℕ → Option MonotonicCheck → Option TrafficCheck → Bool
  is_failing deterministic_passed pending_steps seal_check traffic_check =
      not (is_empty pending_steps)
      || not deterministic_passed
      || is_failed policy_verdict.outcome
      || is_seal_broken seal_check
      || is_traffic_broken traffic_check

  -- The outcome is FAIL if a step is pending, the deterministic proof is missing, the policy verdict is
  -- FAIL, the seal is broken or required traffic evidence is not ok; else it is UNKNOWN if the policy
  -- verdict is UNKNOWN or an adversarial finding is high or critical; else it is PASS.
  pub outcome-evaluate :
      (deterministic_passed : Bool) (pending_steps : List ℕ) (seal_check : Option MonotonicCheck)
      → (adversarial : List AdversarialFinding) (traffic_check : Option TrafficCheck)
      → (evaluate rules deterministic_passed pending_steps context seal_check adversarial
          traffic_check).outcome
        ≡ (if is_failing deterministic_passed pending_steps seal_check traffic_check
            then failed
            else if is_undecided policy_verdict.outcome || any is_blocking adversarial
            then undecided
            else passed)
  unfolding evaluate
  outcome-evaluate proof steps seal adversarial traffic =
      let v = policy_verdict in
      let start : Ruling = record { outcome = passed; notes = [] } in
      let r1 = check_pending steps start in
      let r2 = check_proof proof r1 in
      let r3 = check_policy v r2 in
      let r4 = check_seal seal r3 in
      let r5 = check_traffic traffic r4 in
      let e3 =
        policy_outcome v.outcome v r2 refl
        ∙ ap (λ o. hard (is_failed v.outcome) (soft (is_undecided v.outcome) o))
            (outcome-check_proof proof r1
              ∙ ap (hard (not proof)) (outcome-check_pending steps start)) in
      let e5 =
        outcome-check_traffic traffic r4
        ∙ ap (hard (is_traffic_broken traffic))
            (outcome-check_seal seal r3 ∙ ap (hard (is_seal_broken seal)) e3) in
      outcome-check_adversarial adversarial r5
      ∙ ap (soft (any is_blocking adversarial)) e5
      ∙ combine (not (is_empty steps)) (not proof) (is_failed v.outcome) (is_undecided v.outcome)
          (is_seal_broken seal) (is_traffic_broken traffic) (any is_blocking adversarial)

  -- The adversarial review can neither create a PASS nor cause or remove a FAIL.
  pub evaluate-adversarial :
      (deterministic_passed : Bool) (pending_steps : List ℕ) (seal_check : Option MonotonicCheck)
      → (adversarial : List AdversarialFinding) (traffic_check : Option TrafficCheck)
      → let judge : List AdversarialFinding → Outcome = λ review.
        (evaluate rules deterministic_passed pending_steps context seal_check review
          traffic_check).outcome in
        ((judge adversarial ≡ failed) ↔ (judge [] ≡ failed))
        × (judge adversarial ≡ passed → judge [] ≡ passed)
  evaluate-adversarial proof steps seal adversarial traffic =
      let with_review = outcome-evaluate proof steps seal adversarial traffic in
      let without = outcome-evaluate proof steps seal [] traffic in
      ground (arith, with_review, without)

  rules_silent :
      (is_failed policy_verdict.outcome || is_undecided policy_verdict.outcome) ≡ false
      → All (λ f. f.triggered ≡ false) (evaluate_rules rules context)
  unfolding failures
  rules_silent h =
      let found = failures rules context in
      elim (resolve_priority-IsResolved found) [
        | inl (nothing, _, _) ↦
            All-of_keep_nil (λ f. f.triggered) (evaluate_rules rules context)
              (sym (keep_idem (λ f. f.triggered) (evaluate_rules rules context)) ∙ nothing)
        | inr (worst, _, _, _, ruled) ↦
            absurd (
              not_silent (worst.level == requirement_coverage_level) policy_verdict.outcome ruled h)
      ]

  -- A PASS means that no step is pending, the deterministic proof is there, no policy rule is triggered,
  -- the seal and the traffic evidence are not broken and no adversarial finding is high or critical.
  pub evaluate-passed :
      (deterministic_passed : Bool) (pending_steps : List ℕ) (seal_check : Option MonotonicCheck)
      → (adversarial : List AdversarialFinding) (traffic_check : Option TrafficCheck)
      → (evaluate rules deterministic_passed pending_steps context seal_check adversarial
          traffic_check).outcome
        ≡ passed
      → (is_empty pending_steps ≡ true)
        × (deterministic_passed ≡ true)
        × All (λ f. f.triggered ≡ false) (evaluate_rules rules context)
        × (is_seal_broken seal_check ≡ false)
        × (is_traffic_broken traffic_check ≡ false)
        × (any is_blocking adversarial ≡ false)
  evaluate-passed proof steps seal adversarial traffic h =
      let (nothing, there, silent, kept, clean, calm) =
        only_pass (is_empty steps) proof (is_failed policy_verdict.outcome)
          (is_undecided policy_verdict.outcome) (is_seal_broken seal) (is_traffic_broken traffic)
          (any is_blocking adversarial)
          (sym (outcome-evaluate proof steps seal adversarial traffic) ∙ h) in
      (nothing, there, rules_silent silent, kept, clean, calm)
