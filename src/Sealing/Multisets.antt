-- ===== src/Sealing/Multisets.antt =====
-- supervisor/sealing.py: `_multiset_contains` and `_same_multiset`, which compare by canonical texts.
use plan_auditor.Base.{
  ℕ, ◌+◌, ◌≤◌, Bool, true, false, ◌&&◌, Option, none, some, List, [], ◌∷◌, ◌≡◌, ◌↔◌, refl, inl, inr,
  map, length, nat_eq, list_eq, ◌==◌, beq_refl, beq→eq, if◌then◌else◌, Bool-cases, Option-cases,
  arith, Eq,
}
use plan_auditor.Json.{Value}
use plan_auditor.Integrity.{canonical_json}

module _ {A : Type 0} ⦃e : Eq A⦄ where
  -- `remaining.remove(x)`; `none` is a ValueError.
  unfoldable pub remove : A → List A → Option (List A)
  remove x [] = none
  remove x (y ∷ ys) =
      let rest = remove x ys in
      if x == y then some ys else elim rest [ none ↦ none | some zs ↦ some (y ∷ zs) ]

  -- The loop over `before`.
  unfoldable pub takes_all : List A → List A → Bool
  unfolding remove
  takes_all remaining [] = true
  takes_all remaining (x ∷ xs) = elim (remove x remaining) [
    | none ↦ false
    | some rest ↦ takes_all rest xs
  ]

  -- How often an element is in a list.
  abbrev pub count : A → List A → ℕ
  count x [] = 0
  count x (y ∷ ys) = if x == y then count x ys + 1 else count x ys

  remove-none : (x : A) (ys : List A) → remove x ys ≡ none → count x ys ≡ 0
  unfolding remove
  remove-none x [] h = refl
  remove-none x (y ∷ ys) h = ground (arith, remove-none x ys)

  remove-count :
      (x z : A) (ys rest : List A)
      → remove x ys ≡ some rest
      → count z ys ≡ (if z == x then count z rest + 1 else count z rest)
  unfolding remove
  remove-count x z [] rest h = absurd (cc h)
  remove-count x z (y ∷ ys) rest h = elim (Bool-cases (x == y)) [
    | inl same ↦ let left : ys ≡ rest = cc (rw same at h) in rw (beq→eq x y same, left) refl
    | inr other ↦ elim (Option-cases (remove x ys)) [
      | inl stuck ↦ absurd (cc (rw (other, stuck) at h))
      | inr (zs, found) ↦
          let left : y ∷ zs ≡ rest = cc (rw (other, found) at h) in
          rw (← left) (ground (arith, remove-count x z ys zs found))
    ]
  ]

  takes_all_iff :
      (remaining xs : List A)
      → (takes_all remaining xs ≡ true) ↔ ((z : A) → count z xs ≤ count z remaining)
  unfolding takes_all
  takes_all_iff remaining [] = (λ h z. ground arith, λ h. refl)
  takes_all_iff remaining (x ∷ xs) = elim (Option-cases (remove x remaining)) [
    | inl stuck ↦ (
      λ h z. absurd (cc (rw (stuck, takes_all) at h)),
      λ h. absurd (ground (arith, h x, remove-none x remaining stuck, beq_refl x)),
    )
    | inr (rest, found) ↦ (
      λ h z.
          let later = (takes_all_iff rest xs).0 (rw (found, takes_all) at h) z in
          ground (arith, remove-count x z remaining rest found),
      λ h.
          rw (found, takes_all)
            ((takes_all_iff rest xs).1
              (λ z. ground (arith, h z, remove-count x z remaining rest found))),
    )
  ]

unfoldable pub multiset_contains : List Value → List Value → Bool
unfolding takes_all canonical_json
multiset_contains before after = takes_all (map canonical_json after) (map canonical_json before)

unfoldable pub same_multiset : List Value → List Value → Bool
unfolding multiset_contains
same_multiset left right = length left == length right && multiset_contains left right

-- How often the canonical text is that of an item of the list.
abbrev pub copies : List ℕ → List Value → ℕ
copies text xs = count text (map canonical_json xs)

-- Contained means: no canonical text has more copies among the items in front.
pub multiset_contains_iff :
    (before after : List Value)
    → (multiset_contains before after ≡ true)
      ↔ ((text : List ℕ) → copies text before ≤ copies text after)
unfolding multiset_contains
multiset_contains_iff before after =
    takes_all_iff (map canonical_json after) (map canonical_json before)
