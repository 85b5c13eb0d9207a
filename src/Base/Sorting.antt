-- ===== src/Base/Sorting.antt =====
-- Python's `sorted`, as a stable insertion sort by a test, and the first entries of a list.
use Prim.Native.Nat.{ℕ, zero, suc}
use mathlib.Core.Logic.{inl, inr}
use mathlib.Core.Path.{◌≡◌, refl}
use mathlib.Core.Bool.{Bool, true, false, ◌||◌}
use mathlib.Core.List.{List, [], ◌∷◌}
use native.Mathlib.Omega.{arith}
use plan_auditor.Base.Tests.{beq→eq, beq_refl, Bool-cases, Eq, ◌==◌, if◌then◌else◌}
use plan_auditor.Base.Lists.{length}
use plan_auditor.Base.Sets.{mem, nodup}

module _ {A : Type 0} where
  unfoldable pub insert_with : (A → A → Bool) → A → List A → List A
  insert_with le x [] = x ∷ []
  insert_with le x (y ∷ ys) = if le x y then x ∷ y ∷ ys else y ∷ insert_with le x ys

  -- `sorted(xs)` by the order that `le` tests.
  unfoldable pub sort_with : (A → A → Bool) → List A → List A
  unfolding insert_with
  sort_with le [] = []
  sort_with le (x ∷ xs) = insert_with le x (sort_with le xs)

  unfoldable pub take : ℕ → List A → List A
  take zero xs = []
  take (suc n) [] = []
  take (suc n) (x ∷ xs) = x ∷ take n xs

  pub length-insert_with :
      (le : A → A → Bool) (x : A) (xs : List A) → length (insert_with le x xs) ≡ suc (length xs)
  unfolding insert_with
  length-insert_with le x [] = refl
  length-insert_with le x (y ∷ ys) = ground (arith, length-insert_with le x ys)

  pub length-sort_with : (le : A → A → Bool) (xs : List A) → length (sort_with le xs) ≡ length xs
  unfolding sort_with
  length-sort_with le [] = refl
  length-sort_with le (x ∷ xs) =
      ground (arith, length-insert_with le x (sort_with le xs), length-sort_with le xs)

module _ {A : Type 0} ⦃e : Eq A⦄ where
  pub mem-insert_with :
      (le : A → A → Bool) (z x : A) (xs : List A)
      → mem z (insert_with le x xs) ≡ (z == x || mem z xs)
  unfolding insert_with mem
  mem-insert_with le z x [] = refl
  mem-insert_with le z x (y ∷ ys) = ground (arith, mem-insert_with le z x ys)

  pub mem-sort_with : (le : A → A → Bool) (z : A) (xs : List A) → mem z (sort_with le xs) ≡ mem z xs
  unfolding sort_with mem
  mem-sort_with le z [] = refl
  mem-sort_with le z (x ∷ xs) =
      ground (arith, mem-insert_with le z x (sort_with le xs), mem-sort_with le z xs)

  pub nodup-insert_with :
      (le : A → A → Bool) (x : A) (xs : List A)
      → mem x xs ≡ false
      → nodup xs ≡ true
      → nodup (insert_with le x xs) ≡ true
  unfolding insert_with nodup mem
  nodup-insert_with le x [] f n = refl
  nodup-insert_with le x (y ∷ ys) f n = elim (Bool-cases (y == x)) [
    | inl same ↦ cc (beq→eq y x same, beq_refl x)
    | inr other ↦ ground (arith, other, mem-insert_with le y x ys, nodup-insert_with le x ys)
  ]

  pub nodup-sort_with :
      (le : A → A → Bool) (xs : List A) → nodup xs ≡ true → nodup (sort_with le xs) ≡ true
  unfolding sort_with nodup
  nodup-sort_with le [] n = refl
  nodup-sort_with le (x ∷ xs) n =
      nodup-insert_with le x (sort_with le xs) (ground (arith, mem-sort_with le x xs))
        (nodup-sort_with le xs (ground arith))
