-- ===== src/Base/Missing.antt =====
-- How many elements of a list lie outside a set, and how the count falls as the set grows.
use Prim.Native.Nat.{ℕ, suc, ◌+◌}
use mathlib.Core.Path.{◌≡◌, refl, ap}
use mathlib.Core.Logic.{inl, inr}
use mathlib.Core.Bool.{Bool, true, false, not, ◌||◌}
use mathlib.Core.List.{List, [], ◌∷◌, ◌++◌}
use native.Mathlib.Omega.{arith}
use plan_auditor.Base.Tests.{Eq, ◌==◌, beq_refl, beq→eq, if◌then◌else◌, Bool-cases}
use plan_auditor.Base.Lists.{length, keep}
use plan_auditor.Base.Sets.{mem, nodup, mem-cons_self, mem-cons_of_mem, mem-append}

module _ {A : Type 0} ⦃e : Eq A⦄ where
  -- How many elements of `xs` lie outside `done`, and how it falls.
  abbrev pub missing : List A → List A → ℕ
  missing done xs = length (keep (λ x. not (mem x done)) xs)

  pub missing-zero :
      (done xs : List A) (z : A) → missing done xs ≡ 0 → mem z xs ≡ true → mem z done ≡ true
  unfolding mem
  missing-zero done [] z h m = cc
  missing-zero done (x ∷ xs) z h m = elim (Bool-cases (mem x done)) [
    | inr out ↦ absurd (omega (arith, (rw out at h)))
    | inl placed ↦ elim (Bool-cases (z == x)) [
      | inl hit ↦ rw (beq→eq z x hit) placed
      | inr miss ↦ missing-zero done xs z (rw placed at h) (rw miss at m)
    ]
  ]

  pub missing_zero_of_mem :
      (done xs : List A) → ((z : A) → mem z xs ≡ true → mem z done ≡ true) → missing done xs ≡ 0
  missing_zero_of_mem done [] h = refl
  missing_zero_of_mem done (x ∷ xs) h =
      rw (h x (mem-cons_self x xs))
        (missing_zero_of_mem done xs (λ z m. h z (mem-cons_of_mem z x xs m)))

  pub missing-nil : (xs : List A) → missing [] xs ≡ length xs
  unfolding mem
  missing-nil [] = refl
  missing-nil (x ∷ xs) = ap suc (missing-nil xs)

  pub missing_of_not_mem :
      (done xs : List A) (z : A) → mem z xs ≡ false → missing (done ++ z ∷ []) xs ≡ missing done xs
  unfolding mem
  missing_of_not_mem done [] z h = refl
  missing_of_not_mem done (x ∷ xs) z h = elim (Bool-cases (x == z)) [
    | inl hit ↦ cc (beq→eq x z hit, beq_refl z)
    | inr miss ↦ ground (arith, mem-append x done (z ∷ []), miss, missing_of_not_mem done xs z)
  ]

  -- Placing `z` takes it off the count, if it stands in `xs`.
  pub missing-snoc :
      (done xs : List A) (z : A)
      → nodup xs ≡ true
      → mem z done ≡ false
      → missing done xs ≡ missing (done ++ z ∷ []) xs + (if mem z xs then 1 else 0)
  unfolding mem nodup
  missing-snoc done [] z n f = refl
  missing-snoc done (x ∷ xs) z n f = elim (Bool-cases (z == x)) [
    | inl hit ↦
        let same = beq→eq z x hit in
        let out : mem x done ≡ false = rw same at f in
        let in_new : mem x (done ++ z ∷ []) ≡ true =
          rw (mem-append x done (z ∷ []), same, mem-cons_self x []) (or_true (mem x done)) in
        let skipped : missing (done ++ z ∷ []) xs ≡ missing done xs =
          missing_of_not_mem done xs z (rw same (ground arith)) in
        rw (hit, out, in_new) (omega (arith, skipped))
    | inr miss ↦
        let other : (x == z) ≡ false = elim (Bool-cases (x == z)) [
          | inl same ↦ cc (beq→eq x z same, beq_refl z)
          | inr ne ↦ ne
        ] in
        ground (arith, miss, other, mem-append x done (z ∷ []), missing-snoc done xs z)
  ]
    where
      or_true : (b : Bool) → (b || true) ≡ true
      or_true true = refl
      or_true false = refl
