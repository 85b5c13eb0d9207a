-- ===== src/Json/Documents.antt =====
-- Documents as Python holds them: no dict has a key twice. Such a document equals itself.
use plan_auditor.Base.{
  String, true, false, none, some, List, [], ◌∷◌, ◌≡◌, refl, inl, inr, nat_eq, string_eq, ◌==◌,
  beq_refl, beq→eq, Bool-cases, All, map, length, arith,
}
use plan_auditor.Json.Text.{characters}
use plan_auditor.Json.Int.{int_eq}
use plan_auditor.Json.Values.{
  Value, null, bool, int, float, str, arr, obj, Fields, end, field, Items, nil, cons, items,
  field_names, get, get_or, has_key, as_object, as_list, iterate, set_field,
}
use plan_auditor.Json.Equal.{number_eq, repr_eq, py_eq, items_eq, fields_in}

unfoldable mutual
  pub IsDocument : Value → Type 0
  IsDocument (arr xs) = AreDocuments xs
  IsDocument (obj fs) = IsDict fs
  IsDocument _ = Unit {0}

  pub IsDict : Fields → Type 0
  IsDict end = Unit {0}
  IsDict (field k v fs) = (has_key k fs ≡ false) × IsDocument v × IsDict fs

  pub AreDocuments : Items → Type 0
  AreDocuments nil = Unit {0}
  AreDocuments (cons x xs) = IsDocument x × AreDocuments xs

has_key-get : (k : String) (fs : Fields) (v : Value) → get k fs ≡ some v → has_key k fs ≡ true
unfolding has_key get
has_key-get k end v h = cc
has_key-get k (field j w fs) v h = ground (arith, has_key-get k fs v)

-- The first entry of a dict hides none of the others.
get-field_apart :
    (k j : String) (v w : Value) (fs : Fields)
    → has_key j fs ≡ false
    → get k fs ≡ some v
    → get k (field j w fs) ≡ some v
unfolding get
get-field_apart k j v w fs fresh h = elim (Bool-cases (k == j)) [
  | inl same ↦ cc (fresh, has_key-get k fs v h, beq→eq k j same)
  | inr apart ↦ rw apart h
]

mutual
  unfolding IsDocument IsDict AreDocuments py_eq number_eq repr_eq items_eq fields_in get

  pub py_eq_refl : (v : Value) → IsDocument v → py_eq v v ≡ true
  py_eq_refl null d = refl
  py_eq_refl (bool true) d = refl
  py_eq_refl (bool false) d = refl
  py_eq_refl (int n) d = beq_refl n
  py_eq_refl (float none r) d = beq_refl r
  py_eq_refl (float (some n) r) d = beq_refl n
  py_eq_refl (str s) d = beq_refl s
  py_eq_refl (arr xs) d = items_eq_refl xs d
  py_eq_refl (obj fs) d =
      rw (beq_refl (length (field_names fs))) (fields_in_self fs fs d (λ k v h. h))

  items_eq_refl : (xs : Items) → AreDocuments xs → items_eq xs xs ≡ true
  items_eq_refl nil d = refl
  items_eq_refl (cons x xs) d = rw (py_eq_refl x d.0) (items_eq_refl xs d.1)

  fields_in_self :
      (fs gs : Fields)
      → IsDict fs
      → ((k : String) (v : Value) → get k fs ≡ some v → get k gs ≡ some v)
      → fields_in fs gs ≡ true
  fields_in_self end gs d h = refl
  fields_in_self (field k v fs) gs (fresh, dv, ds) h = rw (h k v (rw (beq_refl k) refl)) (
      rw (py_eq_refl v dv)
        (fields_in_self fs gs ds (λ j w e. h j w (get-field_apart j k w v fs fresh e))))

pub get-IsDocument :
    (k : String) (fs : Fields) (v : Value) → IsDict fs → get k fs ≡ some v → IsDocument v
unfolding IsDict get
get-IsDocument k end v d h = cc
get-IsDocument k (field j w fs) v (fresh, dw, ds) h = elim (Bool-cases (k == j)) [
  | inl same ↦ let e : some w ≡ some v = rw same at h in let e' : w ≡ v = cc in rw (← e') dw
  | inr apart ↦ get-IsDocument k fs v ds (rw apart at h)
]

pub get_or-IsDocument :
    (k : String) (fs : Fields) (v : Value) → IsDict fs → IsDocument v → IsDocument (get_or k fs v)
unfolding IsDict get_or
get_or-IsDocument k end v d dv = dv
get_or-IsDocument k (field j w fs) v (fresh, dw, ds) dv = elim (Bool-cases (k == j)) [
  | inl same ↦ rw same dw
  | inr apart ↦ rw apart (get_or-IsDocument k fs v ds dv)
]

has_key-set_field :
    (k j : String) (v : Value) (fs : Fields)
    → has_key k fs ≡ false
    → (k == j) ≡ false
    → has_key k (set_field j v fs) ≡ false
unfolding has_key set_field
has_key-set_field k j v end h apart = rw apart refl
has_key-set_field k j v (field i w fs) h apart = ground (arith, has_key-set_field k j v fs)

pub set_field-IsDict :
    (k : String) (v : Value) (fs : Fields) → IsDict fs → IsDocument v → IsDict (set_field k v fs)
unfolding IsDict set_field has_key
set_field-IsDict k v end d dv = (refl, dv, tt)
set_field-IsDict k v (field j w fs) (fresh, dw, ds) dv = elim (Bool-cases (k == j)) [
  | inl same ↦ rw same (fresh, dv, ds)
  | inr apart ↦
      rw apart (has_key-set_field j k v fs fresh (flip apart), dw, set_field-IsDict k v fs ds dv)
]
  where
    flip : (k == j) ≡ false → (j == k) ≡ false
    flip apart = elim (Bool-cases (j == k)) [
      | inl same ↦ cc (apart, beq_refl k, beq→eq j k same)
      | inr other ↦ other
    ]

items-AreDocuments : (xs : Items) → AreDocuments xs → All IsDocument (items xs)
unfolding AreDocuments items
items-AreDocuments nil d = tt
items-AreDocuments (cons x xs) d = (d.0, items-AreDocuments xs d.1)

texts-IsDocument : (ts : List String) → All IsDocument (map str ts)
unfolding IsDocument
texts-IsDocument [] = tt
texts-IsDocument (t ∷ ts) = (tt, texts-IsDocument ts)

pub iterate-IsDocument :
    (v : Value) (vs : List Value) → IsDocument v → iterate v ≡ some vs → All IsDocument vs
unfolding iterate IsDocument
iterate-IsDocument (arr xs) vs d h =
    let e : items xs ≡ vs = cc in rw (← e) (items-AreDocuments xs d)
iterate-IsDocument (obj fs) vs d h =
    let e : map str (field_names fs) ≡ vs = cc in rw (← e) (texts-IsDocument (field_names fs))
iterate-IsDocument (str s) vs d h =
    let e : map str (characters s) ≡ vs = cc in rw (← e) (texts-IsDocument (characters s))
iterate-IsDocument null vs d h = cc
iterate-IsDocument (bool b) vs d h = cc
iterate-IsDocument (int n) vs d h = cc
iterate-IsDocument (float n r) vs d h = cc

pub as_object-IsDict : (v : Value) (fs : Fields) → IsDocument v → as_object v ≡ some fs → IsDict fs
unfolding as_object IsDocument
as_object-IsDict (obj gs) fs d h = let e : gs ≡ fs = cc in rw (← e) d
as_object-IsDict (arr xs) fs d h = cc
as_object-IsDict null fs d h = cc
as_object-IsDict (bool b) fs d h = cc
as_object-IsDict (int n) fs d h = cc
as_object-IsDict (float n r) fs d h = cc
as_object-IsDict (str s) fs d h = cc

pub as_list-IsDocument :
    (v : Value) (vs : List Value) → IsDocument v → as_list v ≡ some vs → All IsDocument vs
unfolding as_list IsDocument
as_list-IsDocument (arr xs) vs d h =
    let e : items xs ≡ vs = cc in rw (← e) (items-AreDocuments xs d)
as_list-IsDocument (obj fs) vs d h = cc
as_list-IsDocument null vs d h = cc
as_list-IsDocument (bool b) vs d h = cc
as_list-IsDocument (int n) vs d h = cc
as_list-IsDocument (float n r) vs d h = cc
as_list-IsDocument (str s) vs d h = cc
