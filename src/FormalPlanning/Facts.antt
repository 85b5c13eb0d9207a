-- ===== src/FormalPlanning/Facts.antt =====
-- The operations of both planners on sets of facts and steps, read as the specification reads them.
use plan_auditor.Base.{
  ℕ, String, true, false, not, ◌&&◌, none, some, List, [], ◌∷◌, ◌≡◌, refl, sym, ◌∙◌, nat_eq,
  string_eq, ◌==◌, mem, mem-union, mem-diff, mem-cons_self, mem-cons_of_mem, subset-mem,
  subset_of_mem, keys, lookup, put, lookup-put, nodup, nodup-keys-put, All, mem-sort_with, and-true,
  beq→eq, inl, inr, Bool-cases, Option-cases, leb, diff, arith, subst,
}
use plan_auditor.PlanGraph.Steps.{Graph}
use plan_auditor.PlanGraph.Order.{parents_of}
use plan_auditor.FormalPlanning.Model.{
  Facts, FormalAction, FormalContract, Actions, by_step, index_actions, applicable, apply,
  remaining_ids, actions_at,
}
use plan_auditor.FormalPlanning.Spec.{World, Done, effect, IsReady}

abbrev pub facts_of : Facts → World
facts_of facts f = mem f facts

abbrev pub steps_of : List ℕ → Done
steps_of done n = mem n done

pub mem-apply :
    (a : FormalAction) (facts : Facts) (f : String)
    → mem f (apply a facts) ≡ effect a (facts_of facts) f
unfolding apply
mem-apply a facts f =
    ground
      (arith, mem-union f (diff facts a.del_effects) a.add_effects, mem-diff f facts a.del_effects)

module _ (deps : Graph) (a : FormalAction) (facts : Facts) (done : List ℕ) where
  pub applicable-IsReady :
      applicable deps a facts done ≡ true → IsReady deps a (facts_of facts) (steps_of done)
  unfolding applicable
  applicable-IsReady h =
      let (before, holds) = and-true _ _ h in
      record {
        prerequisites = λ n. subset-mem n (parents_of deps a.step_id) done before;
        preconditions = λ f. subset-mem f a.preconditions facts holds;
      }

  pub applicable_of_IsReady :
      IsReady deps a (facts_of facts) (steps_of done) → applicable deps a facts done ≡ true
  unfolding applicable
  applicable_of_IsReady r =
      rw (subset_of_mem _ done r.prerequisites) (subset_of_mem _ facts r.preconditions)

-- The dict of a contract files each action under its own step, and no step twice.
abbrev pub IsKeyed : Actions → Type 0
IsKeyed acts = (sid : ℕ) (a : FormalAction) → lookup sid acts ≡ some a → a.step_id ≡ sid

put-IsKeyed : (acts : Actions) (a : FormalAction) → IsKeyed acts → IsKeyed (put a.step_id a acts)
put-IsKeyed acts a keyed sid b found = elim (Bool-cases (sid == a.step_id)) [
  | inl hit ↦
      let here : some a ≡ some b = rw (lookup-put, hit) at found in
      cc (here, beq→eq sid a.step_id hit)
  | inr miss ↦ keyed sid b (rw (lookup-put, miss) at found)
]

index_actions-IsKeyed :
    (acts : Actions) (actions : List FormalAction)
    → IsKeyed acts
    → IsKeyed (index_actions acts actions)
unfolding index_actions
index_actions-IsKeyed acts [] keyed = keyed
index_actions-IsKeyed acts (a ∷ actions) keyed =
    index_actions-IsKeyed (put a.step_id a acts) actions (put-IsKeyed acts a keyed)

pub by_step-IsKeyed : (contract : FormalContract) → IsKeyed (by_step contract)
unfolding by_step lookup
by_step-IsKeyed contract = index_actions-IsKeyed [] contract.actions (λ sid a found. cc)

nodup-index_actions :
    (acts : Actions) (actions : List FormalAction)
    → nodup (keys acts) ≡ true
    → nodup (keys (index_actions acts actions)) ≡ true
unfolding index_actions
nodup-index_actions acts [] n = n
nodup-index_actions acts (a ∷ actions) n =
    nodup-index_actions (put a.step_id a acts) actions (nodup-keys-put a.step_id a acts n)

pub nodup-by_step : (contract : FormalContract) → nodup (keys (by_step contract)) ≡ true
unfolding by_step nodup
nodup-by_step contract = nodup-index_actions [] contract.actions refl

-- The steps that are left, and their actions.
pub mem-remaining_ids :
    (acts : Actions) (done : List ℕ) (sid : ℕ)
    → mem sid (remaining_ids acts done) ≡ (mem sid (keys acts) && not (mem sid done))
unfolding remaining_ids
mem-remaining_ids acts done sid =
    mem-sort_with leb sid (diff (keys acts) done) ∙ mem-diff sid (keys acts) done

abbrev pub IsLeft : Actions → List ℕ → FormalAction → Type 0
IsLeft acts done a = (lookup a.step_id acts ≡ some a) × (mem a.step_id done ≡ false)

module _ (acts : Actions) (sid : ℕ) (sids : List ℕ) where
  actions_at-none : lookup sid acts ≡ none → actions_at acts (sid ∷ sids) ≡ actions_at acts sids
  unfolding actions_at
  actions_at-none h = ground arith

  actions_at-some :
      {a : FormalAction}
      → lookup sid acts ≡ some a
      → actions_at acts (sid ∷ sids) ≡ a ∷ actions_at acts sids
  unfolding actions_at
  actions_at-some h = ground arith

All-actions_at :
    (acts : Actions) (done sids : List ℕ)
    → IsKeyed acts
    → ((n : ℕ) → mem n sids ≡ true → mem n done ≡ false)
    → All (IsLeft acts done) (actions_at acts sids)
unfolding actions_at
All-actions_at acts done [] keyed h = tt
All-actions_at acts done (sid ∷ sids) keyed h =
    let rest = All-actions_at acts done sids keyed (λ n m. h n (mem-cons_of_mem n sid sids m)) in
    elim (Option-cases (lookup sid acts)) [
      | inl missing ↦ rw (actions_at-none acts sid sids missing) rest
      | inr (a, found) ↦ rw (actions_at-some acts sid sids found) (
        subst (λ n. (lookup n acts ≡ some a) × (mem n done ≡ false)) (sym (keyed sid a found))
            (found, h sid (mem-cons_self sid sids)),
        rest,
      )
    ]

pub remaining-IsLeft :
    (acts : Actions) (done : List ℕ)
    → IsKeyed acts
    → All (IsLeft acts done) (actions_at acts (remaining_ids acts done))
remaining-IsLeft acts done keyed =
    All-actions_at acts done (remaining_ids acts done) keyed
      (λ n m. ground (arith, mem-remaining_ids acts done n))

-- What holds of every action left holds of the action of a step that is left.
pub at_step {ℓ} :
    (P : FormalAction → Type ℓ) (acts : Actions) (sids : List ℕ) (sid : ℕ) (a : FormalAction)
    → All P (actions_at acts sids)
    → mem sid sids ≡ true
    → lookup sid acts ≡ some a
    → P a
unfolding mem
at_step P acts [] sid a h m found = cc
at_step P acts (n ∷ sids) sid a h m found = elim (Bool-cases (sid == n)) [
  | inl hit ↦
      let here : lookup n acts ≡ some a = rw (beq→eq sid n hit) at found in
      (rw (actions_at-some acts n sids here) at h).0
  | inr miss ↦ elim (Option-cases (lookup n acts)) [
    | inl missing ↦
        at_step P acts sids sid a (rw (actions_at-none acts n sids missing) at h) (rw miss at m)
          found
    | inr (b, other) ↦
        at_step P acts sids sid a ((rw (actions_at-some acts n sids other) at h).1) (rw miss at m)
          found
  ]
]

-- What holds of every action of a contract holds of what its dict files.
index_actions-lift {ℓ} :
    (P : FormalAction → Type ℓ) (acts : Actions) (actions : List FormalAction)
    → ((sid : ℕ) (a : FormalAction) → lookup sid acts ≡ some a → P a)
    → All P actions
    → (sid : ℕ) (a : FormalAction) → lookup sid (index_actions acts actions) ≡ some a
    → P a
unfolding index_actions
index_actions-lift P acts [] h all sid a found = h sid a found
index_actions-lift P acts (b ∷ actions) h all sid a found =
    index_actions-lift P (put b.step_id b acts) actions
      (λ n c named. elim (Bool-cases (n == b.step_id)) [
        | inl hit ↦
            let here : some b ≡ some c = rw (lookup-put, hit) at named in
            let same : b ≡ c = cc in subst P same all.0
        | inr miss ↦ h n c (rw (lookup-put, miss) at named)
      ])
      all.1 sid a found

pub by_step-lift {ℓ} :
    (P : FormalAction → Type ℓ) (contract : FormalContract)
    → All P contract.actions
    → (sid : ℕ) (a : FormalAction) → lookup sid (by_step contract) ≡ some a
    → P a
unfolding by_step lookup
by_step-lift P contract all =
    index_actions-lift P [] contract.actions (λ sid a found. absurd (cc found)) all
