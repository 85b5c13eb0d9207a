-- ===== src/Base/Counting.antt =====
-- How many elements a set without repetitions has: the pigeonhole facts that bound loops.
use Prim.Native.Nat.{suc, ◌≤◌, ◌<◌}
use mathlib.Core.Path.{◌≡◌, refl, ◌∙◌}
use mathlib.Core.Logic.{inl, inr}
use mathlib.Core.Bool.{Bool, true, false, not, ◌||◌}
use mathlib.Core.List.{List, [], ◌∷◌, ◌++◌}
use native.Mathlib.Omega.{arith}
use plan_auditor.Base.Tests.{
  Eq, ◌==◌, beq_refl, beq→eq, if◌then◌else◌, Bool-cases, or-true, and-true,
}
use plan_auditor.Base.Lists.{length, keep}
use plan_auditor.Base.Sets.{mem, nodup, mem-keep, mem-cons_self, mem-cons_of_mem, mem-append}

module _ {A : Type 0} ⦃e : Eq A⦄ where
  -- `s.add(x)`
  unfoldable pub add : A → List A → List A
  unfolding mem
  add x xs = if mem x xs then xs else x ∷ xs

  pub mem-add : (z x : A) (xs : List A) → mem z (add x xs) ≡ (z == x || mem z xs)
  unfolding add mem
  mem-add z x xs = elim (Bool-cases (mem x xs)) [
    | inl old ↦ elim (Bool-cases (z == x)) [
      | inl same ↦ let here : mem z xs ≡ true = rw (beq→eq z x same) old in rw (old, same, here)
      | inr other ↦ rw (old, other)
    ]
    | inr new ↦ rw new
  ]

  -- `xs` without `x`
  abbrev without : A → List A → List A
  without x xs = keep (λ y. not (y == x)) xs

  mem-without_ne : (z x : A) (xs : List A) → (z == x) ≡ false → mem z (without x xs) ≡ mem z xs
  mem-without_ne z x xs h = ground (arith, mem-keep (λ y. not (y == x)) z xs)

  length-without_of_not_mem :
      (x : A) (xs : List A) → mem x xs ≡ false → length (without x xs) ≡ length xs
  unfolding mem
  length-without_of_not_mem x [] h = refl
  length-without_of_not_mem x (y ∷ ys) h = elim (Bool-cases (y == x)) [
    | inl same ↦ cc (beq→eq y x same, beq_refl x)
    | inr other ↦ ground (arith, other, length-without_of_not_mem x ys)
  ]

  length-without-lt : (x : A) (xs : List A) → mem x xs ≡ true → length (without x xs) < length xs
  unfolding mem
  length-without-lt x [] h = cc
  length-without-lt x (y ∷ ys) h = elim (Bool-cases (y == x)) [
    | inl same ↦ rw same (length-without-le x ys)
    | inr other ↦ elim (or-true (x == y) (mem x ys) h) [
      | inl same ↦ cc (beq→eq x y same, beq_refl y)
      | inr later ↦ ground (arith, other, length-without-lt x ys later)
    ]
  ]
    where
      length-without-le : (z : A) (zs : List A) → length (without z zs) < suc (length zs)
      length-without-le z [] = omega arith
      length-without-le z (w ∷ ws) = ground (arith, length-without-le z ws)

  -- A set inside another has no more elements.
  pub length_le_of_subset :
      (xs ys : List A)
      → nodup xs ≡ true
      → ((x : A) → mem x xs ≡ true → mem x ys ≡ true)
      → length xs ≤ length ys
  unfolding nodup mem
  length_le_of_subset [] ys n h = omega arith
  length_le_of_subset (x ∷ xs) ys n h =
      let (fresh, rest) = and-true (not (mem x xs)) (nodup xs) n in
      let smaller = length-without-lt x ys (h x (mem-cons_self x xs)) in
      let bound = length_le_of_subset xs (without x ys) rest λ z m. elim (Bool-cases (z == x)) [
        | inl same ↦ cc (beq→eq z x same)
        | inr other ↦ mem-without_ne z x ys other ∙ h z (mem-cons_of_mem z x xs m)
      ] in
      omega arith

  -- A set as large as one that it lies in has all of its elements.
  pub mem_of_length_le :
      (xs ys : List A) (y : A)
      → nodup xs ≡ true
      → ((x : A) → mem x xs ≡ true → mem x ys ≡ true)
      → length ys ≤ length xs
      → mem y ys ≡ true
      → mem y xs ≡ true
  mem_of_length_le xs ys y n h long m = elim (Bool-cases (mem y xs)) [
    | inl old ↦ old
    | inr new ↦ absurd (
        omega (
          arith,
          length_le_of_subset xs (without y ys) n
              λ z mz. mem-without_ne z y ys (other z mz new) ∙ h z mz,
          length-without-lt y ys m,
        ))
  ]
    where
      other : (z : A) → mem z xs ≡ true → mem y xs ≡ false → (z == y) ≡ false
      other z mz new = elim (Bool-cases (z == y)) [ inl same ↦ cc (beq→eq z y same) | inr ne ↦ ne ]

  pub nodup-snoc :
      (xs : List A) (x : A) → nodup xs ≡ true → mem x xs ≡ false → nodup (xs ++ x ∷ []) ≡ true
  unfolding nodup mem
  nodup-snoc [] x n f = refl
  nodup-snoc (y ∷ ys) x n f = elim (Bool-cases (y == x)) [
    | inl same ↦ cc (beq→eq y x same, beq_refl x)
    | inr other ↦ ground (arith, other, mem-append y ys (x ∷ []), nodup-snoc ys x)
  ]

  pub length-add : (x : A) (xs : List A) → mem x xs ≡ false → length (add x xs) ≡ suc (length xs)
  unfolding add
  length-add x xs new = rw new

  pub nodup-add : (x : A) (xs : List A) → nodup xs ≡ true → nodup (add x xs) ≡ true
  unfolding add nodup
  nodup-add x xs n = ground (arith, n)

  -- The parts of a list without repetitions.
  pub nodup-append :
      (xs ys : List A)
      → nodup xs ≡ true
      → nodup ys ≡ true
      → ((x : A) → mem x xs ≡ true → mem x ys ≡ false)
      → nodup (xs ++ ys) ≡ true
  unfolding nodup
  nodup-append [] ys n m apart = m
  nodup-append (x ∷ xs) ys n m apart = ground (
    arith,
    mem-append x xs ys,
    apart x (mem-cons_self x xs),
    nodup-append xs ys (ground arith) m (λ z k. apart z (mem-cons_of_mem z x xs k)),
  )

  pub nodup_left : (xs ys : List A) → nodup (xs ++ ys) ≡ true → nodup xs ≡ true
  unfolding nodup
  nodup_left [] ys n = refl
  nodup_left (x ∷ xs) ys n = ground (arith, mem-append x xs ys, nodup_left xs ys)

  pub nodup_right : (xs ys : List A) → nodup (xs ++ ys) ≡ true → nodup ys ≡ true
  unfolding nodup
  nodup_right [] ys n = n
  nodup_right (x ∷ xs) ys n = nodup_right xs ys (ground arith)

  pub nodup_apart :
      (xs ys : List A) (z : A) → nodup (xs ++ ys) ≡ true → mem z xs ≡ true → mem z ys ≡ false
  unfolding nodup mem
  nodup_apart [] ys z n m = cc
  nodup_apart (x ∷ xs) ys z n m = elim (Bool-cases (z == x)) [
    | inl hit ↦ rw (beq→eq z x hit) (ground (arith, mem-append x xs ys, n))
    | inr miss ↦ nodup_apart xs ys z (ground arith) (rw miss at m)
  ]

  pub nodup-keep : (test : A → Bool) (xs : List A) → nodup xs ≡ true → nodup (keep test xs) ≡ true
  unfolding nodup
  nodup-keep test [] n = refl
  nodup-keep test (x ∷ xs) n = ground (arith, mem-keep test x xs, nodup-keep test xs)
