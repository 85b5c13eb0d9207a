-- ===== src/Json/Updates.antt =====
-- Dicts after `d[name] = value` and without a key.
use plan_auditor.Base.{
  String, true, false, ◌≡◌, refl, sym, ap, ◌∙◌, inl, inr, string_eq, ◌==◌, beq_refl, beq→eq,
  if◌then◌else◌, Bool-cases, arith,
}
use plan_auditor.Json.Values.{Value, Fields, end, field, get_or, has_key, without, set_field}

pub get_or-set_field_other :
    (k name : String) (value d : Value) (fs : Fields)
    → (k == name) ≡ false
    → get_or k (set_field name value fs) d ≡ get_or k fs d
unfolding get_or set_field
get_or-set_field_other k name value d end h = rw h refl
get_or-set_field_other k name value d (field j v fs) h = elim (Bool-cases (name == j)) [
  | inl same ↦
      let other : (k == j) ≡ false = ap (λ n. k == n) (sym (beq→eq name j same)) ∙ h in
      rw (same, other) refl
  | inr apart ↦
      rw apart (ap (λ r. if k == j then v else r) (get_or-set_field_other k name value d fs h))
]

pub get_or-set_field_self :
    (name : String) (value d : Value) (fs : Fields)
    → get_or name (set_field name value fs) d ≡ value
unfolding get_or set_field
get_or-set_field_self name value d end = rw (beq_refl name) refl
get_or-set_field_self name value d (field j v fs) = elim (Bool-cases (name == j)) [
  | inl same ↦ rw (same, same) refl
  | inr apart ↦ rw (apart, apart) (get_or-set_field_self name value d fs)
]

pub has_key-set_field_other :
    (k name : String) (value : Value) (fs : Fields)
    → (k == name) ≡ false
    → has_key k (set_field name value fs) ≡ has_key k fs
unfolding has_key set_field
has_key-set_field_other k name value end h = rw h refl
has_key-set_field_other k name value (field j v fs) h = elim (Bool-cases (name == j)) [
  | inl same ↦ rw same refl
  | inr apart ↦
      rw apart (ap (λ r. if k == j then true else r) (has_key-set_field_other k name value fs h))
]

pub without-set_field :
    (name : String) (value : Value) (fs : Fields)
    → without name (set_field name value fs) ≡ without name fs
unfolding without set_field
without-set_field name value end = rw (beq_refl name) refl
without-set_field name value (field j v fs) = elim (Bool-cases (name == j)) [
  | inl same ↦ rw (same, same) refl
  | inr apart ↦ rw (apart, apart) (ap (field j v) (without-set_field name value fs))
]

pub without_comm :
    (a b : String) (fs : Fields) → without a (without b fs) ≡ without b (without a fs)
unfolding without
without_comm a b end = refl
without_comm a b (field j v fs) = ground (arith, without_comm a b fs)

-- A key that is not there is removed without effect.
pub without_absent : (name : String) (fs : Fields) → has_key name fs ≡ false → without name fs ≡ fs
unfolding without has_key
without_absent name end h = refl
without_absent name (field j v fs) h = ground (arith, without_absent name fs)

pub without-set_field_other :
    (a b : String) (value : Value) (fs : Fields)
    → (a == b) ≡ false
    → without a (set_field b value fs) ≡ set_field b value (without a fs)
unfolding without set_field
without-set_field_other a b value end h = rw h refl
without-set_field_other a b value (field k v fs) h = elim (Bool-cases (b == k)) [
  | inl same ↦
      let apart : (a == k) ≡ false = ap (λ n. a == n) (sym (beq→eq b k same)) ∙ h in
      rw (same, apart) (rw same refl)
  | inr other ↦ elim (Bool-cases (a == k)) [
    | inl gone ↦ rw (other, gone) (without-set_field_other a b value fs h)
    | inr stays ↦
        rw (other, stays) (rw other (ap (field k v) (without-set_field_other a b value fs h)))
  ]
]

pub without_idempotent : (a : String) (fs : Fields) → without a (without a fs) ≡ without a fs
unfolding without
without_idempotent a end = refl
without_idempotent a (field k v fs) = ground (arith, without_idempotent a fs)

pub get_or-without :
    (k a : String) (d : Value) (fs : Fields)
    → (k == a) ≡ false
    → get_or k (without a fs) d ≡ get_or k fs d
unfolding get_or without
get_or-without k a d end h = refl
get_or-without k a d (field j v fs) h = elim (Bool-cases (a == j)) [
  | inl same ↦
      let other : (k == j) ≡ false = ap (λ n. k == n) (sym (beq→eq a j same)) ∙ h in
      rw (same, other) (get_or-without k a d fs h)
  | inr apart ↦ rw apart (ap (λ r. if k == j then v else r) (get_or-without k a d fs h))
]
