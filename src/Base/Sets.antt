-- ===== src/Base/Sets.antt =====
-- Python's sets as lists that are read by `in` alone: the laws of membership.
use mathlib.Core.Path.{◌≡◌, refl, sym, ◌∙◌, ap}
use mathlib.Core.Logic.{inl, inr}
use mathlib.Core.Bool.{Bool, true, false, not, ◌&&◌, ◌||◌}
use mathlib.Core.List.{List, [], ◌∷◌, ◌++◌}
use native.Mathlib.Omega.{arith}
use plan_auditor.Base.Tests.{
  if◌then◌else◌, Eq, ◌==◌, beq_refl, beq→eq, Bool-cases, Bool_eq_of_iff, or-true, and-true,
}
use plan_auditor.Base.Lists.{keep, all, is_empty}

module _ {A : Type 0} ⦃e : Eq A⦄ where
  -- `x in xs`
  unfoldable pub mem : A → List A → Bool
  mem x [] = false
  mem x (y ∷ ys) = x == y || mem x ys

  -- `xs <= ys`, `xs.issubset(ys)`
  unfoldable pub subset : List A → List A → Bool
  unfolding mem
  subset xs ys = all (λ x. mem x ys) xs

  -- `xs - ys`
  unfoldable pub diff : List A → List A → List A
  unfolding mem
  diff xs ys = keep (λ x. not (mem x ys)) xs

  -- `xs | ys`
  unfoldable pub union : List A → List A → List A
  union xs ys = xs ++ ys

  -- `xs == ys` on sets
  unfoldable pub same_set : List A → List A → Bool
  unfolding subset
  same_set xs ys = subset xs ys && subset ys xs

  -- Each element once: the elements of `set(xs)`.
  unfoldable pub unique : List A → List A
  unfolding mem
  unique [] = []
  unique (x ∷ xs) = let rest = unique xs in if mem x xs then rest else x ∷ rest

  -- No element stands twice: `len(xs) == len(set(xs))`.
  unfoldable pub nodup : List A → Bool
  unfolding mem
  nodup [] = true
  nodup (x ∷ xs) = not (mem x xs) && nodup xs

  pub mem-cons_self : (x : A) (xs : List A) → mem x (x ∷ xs) ≡ true
  unfolding mem
  mem-cons_self x xs = rw (beq_refl x)

  pub mem-cons_of_mem : (x y : A) (xs : List A) → mem x xs ≡ true → mem x (y ∷ xs) ≡ true
  unfolding mem
  mem-cons_of_mem x y xs h = ground arith

  pub mem-cons : (x y : A) (xs : List A) → mem x (y ∷ xs) ≡ (x == y || mem x xs)
  unfolding mem
  mem-cons x y xs = refl

  pub mem-append : (x : A) (xs ys : List A) → mem x (xs ++ ys) ≡ (mem x xs || mem x ys)
  unfolding mem
  mem-append x [] ys = refl
  mem-append x (y ∷ xs) ys = ground (arith, mem-append x xs ys)

  pub mem-union : (x : A) (xs ys : List A) → mem x (union xs ys) ≡ (mem x xs || mem x ys)
  unfolding union
  mem-union = mem-append

  pub mem-keep :
      (test : A → Bool) (x : A) (xs : List A) → mem x (keep test xs) ≡ (mem x xs && test x)
  unfolding mem
  mem-keep test x [] = refl
  mem-keep test x (y ∷ ys) = elim (Bool-cases (x == y)) [
    | inl same ↦
        let eq = beq→eq x y same in ground (arith, eq, ap test eq, beq_refl y, mem-keep test x ys)
    | inr other ↦ ground (arith, other, mem-keep test x ys)
  ]

  pub mem-diff : (x : A) (xs ys : List A) → mem x (diff xs ys) ≡ (mem x xs && not (mem x ys))
  unfolding diff
  mem-diff x xs ys = mem-keep (λ z. not (mem z ys)) x xs

  pub subset-mem :
      (x : A) (xs ys : List A) → subset xs ys ≡ true → mem x xs ≡ true → mem x ys ≡ true
  unfolding subset mem
  subset-mem x [] ys h m = ground arith
  subset-mem x (z ∷ xs) ys h m = elim (or-true (x == z) (mem x xs) m) [
    | inl same ↦ rw (beq→eq x z same) ((and-true _ _ h).0)
    | inr later ↦ subset-mem x xs ys ((and-true _ _ h).1) later
  ]

  pub subset_of_mem :
      (xs ys : List A) → ((x : A) → mem x xs ≡ true → mem x ys ≡ true) → subset xs ys ≡ true
  unfolding subset
  subset_of_mem [] ys h = refl
  subset_of_mem (z ∷ xs) ys h =
      rw (h z (mem-cons_self z xs)) (subset_of_mem xs ys (λ x m. h x (mem-cons_of_mem x z xs m)))

  pub subset_refl : (xs : List A) → subset xs xs ≡ true
  subset_refl xs = subset_of_mem xs xs (λ x m. m)

  pub subset_trans :
      (xs ys zs : List A) → subset xs ys ≡ true → subset ys zs ≡ true → subset xs zs ≡ true
  subset_trans xs ys zs h k =
      subset_of_mem xs zs (λ x m. subset-mem x ys zs k (subset-mem x xs ys h m))

  pub same_set-mem : (xs ys : List A) → same_set xs ys ≡ true → (x : A) → mem x xs ≡ mem x ys
  unfolding same_set
  same_set-mem xs ys h x =
      let both = and-true (subset xs ys) (subset ys xs) h in
      Bool_eq_of_iff (mem x xs) (mem x ys) (subset-mem x xs ys both.0) (subset-mem x ys xs both.1)

  pub same_set_of_mem : (xs ys : List A) → ((x : A) → mem x xs ≡ mem x ys) → same_set xs ys ≡ true
  unfolding same_set
  same_set_of_mem xs ys h =
      rw (subset_of_mem xs ys (λ x m. sym (h x) ∙ m), subset_of_mem ys xs (λ x m. h x ∙ m))

  pub same_set_refl : (xs : List A) → same_set xs xs ≡ true
  same_set_refl xs = same_set_of_mem xs xs (λ x. refl)

  pub mem_of_is_empty : (x : A) (xs : List A) → is_empty xs ≡ true → mem x xs ≡ false
  unfolding mem
  mem_of_is_empty x [] h = refl
  mem_of_is_empty x (y ∷ ys) h = cc

  pub is_empty_of_mem : (xs : List A) → ((x : A) → mem x xs ≡ false) → is_empty xs ≡ true
  is_empty_of_mem [] h = refl
  is_empty_of_mem (y ∷ ys) h = cc (h y, mem-cons_self y ys)

  -- `not (xs - ys)` says that `ys` has all of `xs`.
  pub mem_of_diff_empty :
      (x : A) (xs ys : List A) → is_empty (diff xs ys) ≡ true → mem x xs ≡ true → mem x ys ≡ true
  mem_of_diff_empty x xs ys h m = ground (arith, mem-diff x xs ys, mem_of_is_empty x (diff xs ys))

  pub diff_empty_of_mem :
      (xs ys : List A)
      → ((x : A) → mem x xs ≡ true → mem x ys ≡ true)
      → is_empty (diff xs ys) ≡ true
  diff_empty_of_mem xs ys h =
      is_empty_of_mem (diff xs ys) (λ x. ground (arith, mem-diff x xs ys, h x))

  -- A test that holds of all elements holds of each.
  pub all-mem :
      (test : A → Bool) (xs : List A) (x : A) → all test xs ≡ true → mem x xs ≡ true → test x ≡ true
  unfolding mem
  all-mem test [] x h m = ground arith
  all-mem test (y ∷ xs) x h m = elim (or-true (x == y) (mem x xs) m) [
    | inl same ↦ rw (beq→eq x y same) ((and-true (test y) (all test xs) h).0)
    | inr later ↦ all-mem test xs x ((and-true (test y) (all test xs) h).1) later
  ]
