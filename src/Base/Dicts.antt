-- ===== src/Base/Dicts.antt =====
-- Python's dicts as association lists in insertion order.
use mathlib.Core.Path.{◌≡◌, refl, sym}
use mathlib.Core.Logic.{inl, inr}
use mathlib.Core.Bool.{true, false}
use mathlib.Core.Option.{Option, none, some}
use mathlib.Core.List.{List, [], ◌∷◌, ◌++◌, map}
use native.Mathlib.Omega.{arith}
use plan_auditor.Base.Tests.{Eq, ◌==◌, beq_refl, beq→eq, if◌then◌else◌, Bool-cases}
use plan_auditor.Base.Sets.{mem, nodup}
use plan_auditor.Base.Counting.{nodup-snoc}

abbrev pub Dict : Type 0 → Type 0 → Type 0
Dict K V = List (K × V)

module _ {K V : Type 0} where
  -- `d.keys()` and `d.values()`
  abbrev pub keys : Dict K V → List K
  keys d = map (λ e. e.0) d

abbrev value_or : {V : Type 0} → V → Option V → V
value_or w none = w
value_or w (some v) = v

module _ {K V : Type 0} ⦃e : Eq K⦄ where
  -- `d.get(k)`
  unfoldable pub lookup : K → Dict K V → Option V
  lookup k [] = none
  lookup k ((j, v) ∷ d) = if k == j then some v else lookup k d

  -- `d.get(k, default)`
  unfoldable pub lookup_or : K → Dict K V → V → V
  lookup_or k [] v = v
  lookup_or k ((j, w) ∷ d) v = if k == j then w else lookup_or k d v

  -- `d[k] = v`: the value is replaced in place, and a new key stands last.
  unfoldable pub put : K → V → Dict K V → Dict K V
  put k v [] = (k, v) ∷ []
  put k v ((j, w) ∷ d) = if k == j then (j, v) ∷ d else (j, w) ∷ put k v d

  pub lookup-put :
      (k j : K) (v : V) (d : Dict K V)
      → lookup j (put k v d) ≡ (if j == k then some v else lookup j d)
  unfolding lookup put
  lookup-put k j v [] = refl
  lookup-put k j v ((i, w) ∷ d) = elim (Bool-cases (k == i)) [
    | inl same ↦
        let eq = beq→eq k i same in
        elim (Bool-cases (j == k)) [
          | inl hit ↦ let hit' : (j == i) ≡ true = rw eq at hit in rw (same, hit, hit')
          | inr miss ↦ let miss' : (j == i) ≡ false = rw eq at miss in rw (same, miss, miss')
        ]
    | inr other ↦ elim (Bool-cases (j == i)) [
      | inl hit ↦ elim (Bool-cases (j == k)) [
        | inl both ↦ cc (other, sym (beq→eq j k both), sym (beq→eq j i hit), beq_refl k)
        | inr miss ↦ rw (other, hit, miss)
      ]
      | inr miss ↦ rw (other, miss) (lookup-put k j v d)
    ]
  ]

  lookup_or-value_or : (k : K) (d : Dict K V) (w : V) → lookup_or k d w ≡ value_or w (lookup k d)
  unfolding lookup lookup_or
  lookup_or-value_or k [] w = refl
  lookup_or-value_or k ((j, v) ∷ d) w = elim (Bool-cases (k == j)) [
    | inl same ↦ rw same refl
    | inr other ↦ rw other (lookup_or-value_or k d w)
  ]

  pub lookup_or-put :
      (k j : K) (v w : V) (d : Dict K V)
      → lookup_or j (put k v d) w ≡ (if j == k then v else lookup_or j d w)
  lookup_or-put k j v w d = elim (Bool-cases (j == k)) [
    | inl same ↦ rw (lookup_or-value_or j (put k v d) w, lookup-put k j v d, same) refl
    | inr other ↦
        rw (lookup_or-value_or j (put k v d) w, lookup-put k j v d, other)
          (sym (lookup_or-value_or j d w))
  ]

  pub lookup_or-lookup :
      (k : K) (d : Dict K V) (v w : V) → lookup k d ≡ some w → lookup_or k d v ≡ w
  unfolding lookup lookup_or
  lookup_or-lookup k [] v w h = cc
  lookup_or-lookup k ((j, u) ∷ d) v w h = ground (arith, lookup_or-lookup k d v w)

  pub mem-keys_of_lookup :
      (k : K) (d : Dict K V) (v : V) → lookup k d ≡ some v → mem k (keys d) ≡ true
  unfolding lookup mem
  mem-keys_of_lookup k [] v h = cc
  mem-keys_of_lookup k ((j, u) ∷ d) v h = ground (arith, mem-keys_of_lookup k d v)

  pub lookup_of_mem-keys :
      (k : K) (d : Dict K V) → mem k (keys d) ≡ true → (v : V) × (lookup k d ≡ some v)
  unfolding lookup mem
  lookup_of_mem-keys k [] h = cc
  lookup_of_mem-keys k ((j, u) ∷ d) h = elim (Bool-cases (k == j)) [
    | inl hit ↦ (u, rw hit)
    | inr miss ↦ let (v, found) = lookup_of_mem-keys k d (rw miss at h) in (v, rw miss found)
  ]

  pub keys-put :
      (k : K) (v : V) (d : Dict K V)
      → keys (put k v d) ≡ (if mem k (keys d) then keys d else keys d ++ k ∷ [])
  unfolding put mem
  keys-put k v [] = refl
  keys-put k v ((j, w) ∷ d) = ground (arith, keys-put k v d)

  pub nodup-keys-put :
      (k : K) (v : V) (d : Dict K V) → nodup (keys d) ≡ true → nodup (keys (put k v d)) ≡ true
  nodup-keys-put k v d n = elim (Bool-cases (mem k (keys d))) [
    | inl old ↦ rw (keys-put, old) n
    | inr new ↦ rw (keys-put, new) (nodup-snoc (keys d) k n new)
  ]
