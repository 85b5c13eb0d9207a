-- ===== src/Priority/Rulings.antt =====
-- supervisor/priority.py: which finding blocks, and what later findings can change.
use plan_auditor.Base.{
  ℕ, ◌≤◌, ◌<◌, Bool, true, none, some, List, [], ◌∷◌, ◌++◌, ◌≡◌, ◌⊎◌, inl, inr, refl, sym, ◌∙◌, ap,
  nat_eq, ◌==◌, if◌then◌else◌, leb, keep, All, All-map, All-keep, Bool-cases, List-cases, arith,
  subst,
}
use mathlib.Core.Option.{some-injective}
use plan_auditor.Priority.{
  RuleResult, security_policy_level, requirement_coverage_level, passed, failed, undecided,
  PriorityVerdict, least, outcome_of, resolve_triggered, triggered_of, resolve_priority,
}

-- `f` is in the list, no finding has a lower level, and none before it has the same.
pub record IsWorst (f : RuleResult) (findings : List RuleResult) : Type 0 where
  pub before : List RuleResult
  pub after : List RuleResult
  pub stands : findings ≡ before ++ f ∷ after
  pub above : All (λ g. f.level < g.level) before
  pub below : All (λ g. f.level ≤ g.level) after

IsWorst-cons :
    (g w : RuleResult) (fs : List RuleResult)
    → w.level < g.level
    → IsWorst w fs
    → IsWorst w (g ∷ fs)
IsWorst-cons g w fs lower r = record {
  before = g ∷ r.before;
  after = r.after;
  stands = ap (λ l. g ∷ l) r.stands;
  above = (lower, r.above);
  below = r.below;
}

IsWorst-head :
    (w : RuleResult) (fs : List RuleResult) → All (λ g. w.level ≤ g.level) fs → IsWorst w (w ∷ fs)
IsWorst-head w fs h = record { before = []; after = fs; stands = refl; above = tt; below = h }

-- Either the first finding stays the best or a later one is better.
least-cases :
    (best : RuleResult) (fs : List RuleResult)
    → (least best fs ≡ best) × All (λ g. best.level ≤ g.level) fs
      ⊎ ((least best fs).level < best.level) × IsWorst (least best fs) fs
unfolding least
least-cases best [] = inl (refl, tt)
least-cases best (f ∷ fs) = elim (Bool-cases (leb best.level f.level)) [
  | inl le ↦ rw le (elim (least-cases best fs) [
    | inl (same, all) ↦ inl (same, (ground (arith, le), all))
    | inr (lt, w) ↦ inr (lt, IsWorst-cons f (least best fs) fs (ground (arith, le, lt)) w)
  ])
  | inr gt ↦ rw gt (elim (least-cases f fs) [
    | inl (same, all) ↦ rw same (inr (ground (arith, gt), IsWorst-head f fs all))
    | inr (lt, w) ↦ inr (ground (arith, gt, lt), IsWorst-cons f (least f fs) fs lt w)
  ])
]

least-IsWorst : (best : RuleResult) (fs : List RuleResult) → IsWorst (least best fs) (best ∷ fs)
least-IsWorst best fs = elim (least-cases best fs) [
  | inl (same, all) ↦ rw same (IsWorst-head best fs all)
  | inr (lt, w) ↦ IsWorst-cons best (least best fs) fs lt w
]

least-append :
    (best : RuleResult) (fs gs : List RuleResult) → least best (fs ++ gs) ≡ least (least best fs) gs
unfolding least
least-append best [] gs = refl
least-append best (f ∷ fs) gs = ground (arith, least-append best fs gs, least-append f fs gs)

least-All :
    (best : RuleResult) (fs : List RuleResult)
    → All (λ g. best.level ≤ g.level) fs
    → least best fs ≡ best
unfolding least
least-All best [] h = refl
least-All best (f ∷ fs) (here, later) = ground (arith, here, least-All best fs later)

keep-append :
    (test : RuleResult → Bool) (fs gs : List RuleResult)
    → keep test (fs ++ gs) ≡ keep test fs ++ keep test gs
keep-append test [] gs = refl
keep-append test (f ∷ fs) gs = ground (arith, keep-append test fs gs)

-- What the verdict of the triggered findings says.
abbrev pub IsResolved : List RuleResult → PriorityVerdict → Type 0
IsResolved triggered v =
    (triggered ≡ []) × (v.outcome ≡ passed) × (v.blocking_level ≡ none)
    ⊎ ((worst : RuleResult) × IsWorst worst triggered
        × (v.blocking_level ≡ some worst.level)
        × (v.blocking_detail ≡ worst.detail)
        × (v.outcome ≡ (if worst.level == requirement_coverage_level then undecided else failed)))

outcome_of-lem :
    (worst : RuleResult)
    → outcome_of worst ≡ (if worst.level == requirement_coverage_level then undecided else failed)
unfolding outcome_of
outcome_of-lem worst = ground arith

-- With no triggered finding the verdict is PASS without a blocking level. Else the first of the
-- triggered findings with the least level blocks, with its level and detail, and the outcome is
-- UNKNOWN where that level is requirement coverage and FAIL everywhere else.
pub resolve_priority-IsResolved :
    (findings : List RuleResult) → IsResolved (triggered_of findings) (resolve_priority findings)
unfolding resolve_priority resolve_triggered
resolve_priority-IsResolved findings = elim (List-cases (triggered_of findings)) [
  | inl nothing ↦ rw nothing (inl (refl, refl, refl))
  | inr (f, fs, e) ↦
      rw e (inr (least f fs, least-IsWorst f fs, refl, refl, outcome_of-lem (least f fs)))
]

-- What a verdict says besides the findings that it lists.
abbrev pub IsSameRuling : PriorityVerdict → PriorityVerdict → Type 0
IsSameRuling v w =
    (v.outcome ≡ w.outcome)
    × (v.blocking_level ≡ w.blocking_level)
    × (v.blocking_detail ≡ w.blocking_detail)

resolve_triggered-append :
    (fs gs : List RuleResult) (n : ℕ)
    → (resolve_triggered fs).blocking_level ≡ some n
    → All (λ g. n ≤ g.level) gs
    → IsSameRuling (resolve_triggered (fs ++ gs)) (resolve_triggered fs)
unfolding resolve_triggered
resolve_triggered-append [] gs n h all = absurd (cc h)
resolve_triggered-append (f ∷ fs) gs n h all =
    let worst = least f fs in
    let level : n ≡ worst.level = sym (some-injective _ _ h) in
    let lower = subst (λ m. All (λ g. m ≤ g.level) gs) level all in
    let same : least f (fs ++ gs) ≡ worst = least-append f fs gs ∙ least-All worst gs lower in
    rw same (refl, refl, refl)

-- Findings that are appended and are not more authoritative than the blocking level, as far as they
-- are triggered, change neither the outcome nor the blocking level nor its detail.
pub resolve_priority-append :
    (findings others : List RuleResult) (n : ℕ)
    → (resolve_priority findings).blocking_level ≡ some n
    → All (λ g. g.triggered ≡ true → n ≤ g.level) others
    → IsSameRuling (resolve_priority (findings ++ others)) (resolve_priority findings)
unfolding resolve_priority
resolve_priority-append findings others n blocked lower =
    rw (keep-append (λ f. f.triggered) findings others) (
      resolve_triggered-append (triggered_of findings) (triggered_of others) n blocked (
        All-map _ _ (triggered_of others) (λ g both. both.0 both.1)
          (All-keep (λ g. g.triggered ≡ true → n ≤ g.level) (λ g. g.triggered) others lower)))

least-le : (best : RuleResult) (fs : List RuleResult) → (least best fs).level ≤ best.level
unfolding least
least-le best [] = omega arith
least-le best (f ∷ fs) = ground (arith, least-le best fs, least-le f fs)

least_level :
    (best : RuleResult) (fs : List RuleResult) (g : RuleResult) (gs : List RuleResult)
    → (least best (fs ++ g ∷ gs)).level ≤ g.level
unfolding least
least_level best [] g gs = ground (arith, least-le best gs, least-le g gs)
least_level best (f ∷ fs) g gs = ground (arith, least_level best fs g gs, least_level f fs g gs)

keep_first :
    (test : RuleResult → Bool) (f : RuleResult) (fs : List RuleResult)
    → test f ≡ true
    → keep test (f ∷ fs) ≡ f ∷ keep test fs
keep_first test f fs h = rw h refl

outcome_of-failed :
    (worst : RuleResult) → worst.level ≤ security_policy_level → outcome_of worst ≡ failed
unfolding outcome_of
outcome_of-failed worst h = ground arith

resolve_triggered-failed :
    (before : List RuleResult) (f : RuleResult) (after : List RuleResult)
    → f.level ≤ security_policy_level
    → (resolve_triggered (before ++ f ∷ after)).outcome ≡ failed
unfolding resolve_triggered
resolve_triggered-failed [] f after h =
    outcome_of-failed (least f after) (ground (arith, least-le f after, h))
resolve_triggered-failed (g ∷ before) f after h =
    outcome_of-failed (least g (before ++ f ∷ after))
      (ground (arith, least_level g before f after, h))

-- A triggered finding at the level of the security policy or a more authoritative one makes the
-- outcome FAIL, whatever findings stand before and behind it.
pub resolve_priority-failed :
    (before : List RuleResult) (f : RuleResult) (after : List RuleResult)
    → f.triggered ≡ true
    → f.level ≤ security_policy_level
    → (resolve_priority (before ++ f ∷ after)).outcome ≡ failed
unfolding resolve_priority
resolve_priority-failed before f after fires level =
    rw
      (
        keep-append (λ g. g.triggered) before (f ∷ after),
        keep_first (λ g. g.triggered) f after fires,
      )
      (resolve_triggered-failed (triggered_of before) f (triggered_of after) level)
