-- ===== src/FormalPlanning/Breadth/States.antt =====
-- The states of the search as the specification sees them, and what one expansion does to the set of
-- states seen and to the queue.
use plan_auditor.Base.{
  ℕ, true, some, List, [], ◌∷◌, ◌++◌, ◌≡◌, ◌⊎◌, refl, sym, inl, inr, nat_eq, string_eq, ◌==◌, mem,
  mem-add, add, lookup, Bool-cases, Option-cases, any, map, same_set, same_set-mem, and-true,
  beq→eq, subst,
}
use mathlib.Core.Path.{fun_ext}
use plan_auditor.PlanGraph.Steps.{Graph}
use plan_auditor.FormalPlanning.Model.{FormalAction, FormalContract, applicable, apply}
use plan_auditor.FormalPlanning.Search.{Node, Key, Frontier, same_key, offer_action, offer, expand}
use plan_auditor.FormalPlanning.Spec.{World, Done, effect, mark}
use plan_auditor.FormalPlanning.Facts.{facts_of, steps_of, mem-apply}
use plan_auditor.FormalPlanning.Reached.{acts}

abbrev pub Moment : Type 0
Moment = World × Done

abbrev pub moment_of : Key → Moment
moment_of (facts, done) = (facts_of facts, steps_of done)

abbrev pub key_of : Node → Key
key_of node = (node.facts, node.done)

abbrev pub keys_of : List Node → List Key
keys_of queue = map key_of queue

-- Some key of the list stands for the moment.
abbrev pub Has : Moment → List Key → Type 0
Has m [] = ⊥
Has m (k ∷ ks) = (moment_of k ≡ m) ⊎ Has m ks

pub Has-append : (m : Moment) (xs ys : List Key) → Has m ys → Has m (xs ++ ys)
Has-append m [] ys h = h
Has-append m (x ∷ xs) ys h = inr (Has-append m xs ys h)

pub Has-append_left : (m : Moment) (xs ys : List Key) → Has m xs → Has m (xs ++ ys)
Has-append_left m [] ys h = absurd h
Has-append_left m (x ∷ xs) ys (inl e) = inl e
Has-append_left m (x ∷ xs) ys (inr h) = inr (Has-append_left m xs ys h)

keys_of-append : (xs ys : List Node) → keys_of (xs ++ ys) ≡ keys_of xs ++ keys_of ys
keys_of-append [] ys = refl
keys_of-append (x ∷ xs) ys = λ i. key_of x ∷ keys_of-append xs ys i

same_key-moment : (k l : Key) → same_key k l ≡ true → moment_of k ≡ moment_of l
unfolding same_key
same_key-moment (facts, done) (facts', done') h =
    let (f, d) = and-true (same_set facts facts') (same_set done done') h in
    λ i. (fun_ext (same_set-mem facts facts' f) i, fun_ext (same_set-mem done done' d) i)

Has-of_any : (k : Key) (seen : List Key) → any (same_key k) seen ≡ true → Has (moment_of k) seen
Has-of_any k [] h = cc
Has-of_any k (l ∷ seen) h = elim (Bool-cases (same_key k l)) [
  | inl same ↦ inl (sym (same_key-moment k l same))
  | inr other ↦ inr (Has-of_any k seen (rw other at h))
]

-- The state behind an applicable action is the one that the specification gives.
pub moment-apply :
    (a : FormalAction) (sid : ℕ) (node : Node)
    → moment_of (apply a node.facts, add sid node.done)
      ≡ (effect a (facts_of node.facts), mark sid (steps_of node.done))
moment-apply a sid node =
    λ i. (fun_ext (λ f. mem-apply a node.facts f) i, fun_ext (λ n. mem-add n sid node.done) i)

-- Every state seen waits in the queue or satisfies `P`.
abbrev pub IsTracked : (Moment → Type 0) → Frontier → Type 0
IsTracked P s = (m : Moment) → Has m s.seen → Has m (keys_of s.queue) ⊎ P m

-- What an expansion does: nothing seen is forgotten.
abbrev pub Keeps : Frontier → Frontier → Type 0
Keeps s t = (m : Moment) → Has m s.seen → Has m t.seen

module _ (contract : FormalContract) (deps : Graph) (node : Node) where
  abbrev pub next_key : ℕ → FormalAction → Key
  next_key sid a = (apply a node.facts, add sid node.done)

  offer_action-lem :
      (sid : ℕ) (a : FormalAction) (s : Frontier) (P : Moment → Type 0)
      → Keeps s (offer_action contract deps node sid a s)
        × (IsTracked P s → IsTracked P (offer_action contract deps node sid a s))
        × (applicable deps a node.facts node.done ≡ true
            → Has (moment_of (next_key sid a)) (offer_action contract deps node sid a s).seen)
  unfolding offer_action
  offer_action-lem sid a s P = elim (Bool-cases (applicable deps a node.facts node.done)) [
    | inr cannot ↦ rw cannot (λ m h. h, λ t. t, λ can. absurd (cc can))
    | inl can ↦ elim (Bool-cases (any (same_key (next_key sid a)) s.seen)) [
      | inl old ↦ rw (can, old) (λ m h. h, λ t. t, λ _. Has-of_any (next_key sid a) s.seen old)
      | inr fresh ↦
          rw (can, fresh)
            (
              λ m h. inr h,
              λ t m h. rw (keys_of-append s.queue) (elim h [
                | inl new ↦ inl (Has-append m (keys_of s.queue) _ (inl new))
                | inr old ↦ elim (t m old) [
                  | inl waits ↦ inl (Has-append_left m (keys_of s.queue) _ waits)
                  | inr p ↦ inr p
                ]
              ]),
              λ _. inl refl,
            )
    ]
  ]

  offer-lem :
      (sid : ℕ) (s : Frontier) (P : Moment → Type 0)
      → Keeps s (offer contract deps node sid s)
        × (IsTracked P s → IsTracked P (offer contract deps node sid s))
        × ((a : FormalAction)
            → lookup sid (acts contract deps) ≡ some a
            → applicable deps a node.facts node.done ≡ true
            → Has (moment_of (next_key sid a)) (offer contract deps node sid s).seen)
  unfolding offer
  offer-lem sid s P = elim (Option-cases (lookup sid (acts contract deps))) [
    | inl missing ↦ rw (missing, offer) (λ m h. h, λ t. t, λ a found. absurd (cc (found)))
    | inr (b, named) ↦
        let (grows, tracks, reaches) = offer_action-lem sid b s P in
        rw (named, offer)
          (
            grows,
            tracks,
            λ a found can.
                let same : b ≡ a = cc in
                subst
                  (λ x.
                    applicable deps x node.facts node.done ≡ true
                    → Has (moment_of (next_key sid x))
                        (offer_action contract deps node sid b s).seen)
                  same reaches can,
          )
  ]

  -- The whole `for` loop: it keeps what was seen, queues what is new, and sees every state behind an
  -- applicable step.
  pub expand-lem :
      (sids : List ℕ) (s : Frontier) (P : Moment → Type 0)
      → Keeps s (expand contract deps node sids s)
        × (IsTracked P s → IsTracked P (expand contract deps node sids s))
        × ((sid : ℕ) (a : FormalAction)
            → mem sid sids ≡ true
            → lookup sid (acts contract deps) ≡ some a
            → applicable deps a node.facts node.done ≡ true
            → Has (moment_of (next_key sid a)) (expand contract deps node sids s).seen)
  unfolding expand mem
  expand-lem [] s P = (λ m h. h, λ t. t, λ sid a m. cc)
  expand-lem (n ∷ sids) s P =
      let (grows, tracks, here) = offer-lem n s P in
      let (grows', tracks', later) = expand-lem sids (offer contract deps node n s) P in
      (
        λ m h. grows' m (grows m h),
        λ t. tracks' (tracks t),
        λ sid a m found can. elim (Bool-cases (sid == n)) [
          | inr miss ↦ later sid a (rw miss at m) found can
          | inl hit ↦
              subst
                (λ k. Has (moment_of (next_key k a)) (expand contract deps node (n ∷ sids) s).seen)
                (sym (beq→eq sid n hit)) (grows' _ (here a (rw (beq→eq sid n hit) at found) can))
        ],
      )
