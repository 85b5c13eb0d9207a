-- ===== src/Json/Equal.antt =====
-- Python's `==` on documents: True, 1 and 1.0 are equal, and the order of a dict's keys is not read.
use plan_auditor.Base.{String, Bool, true, false, ◌&&◌, none, some, length, nat_eq, string_eq, ◌==◌}
use plan_auditor.Json.Int.{ℤ, pos, int_eq}
use plan_auditor.Json.Values.{
  Value, null, bool, int, float, str, arr, obj, Fields, end, field, Items, nil, cons, field_names,
  get,
}

unfoldable pub number_eq : ℤ → Value → Bool
number_eq n (bool true) = n == pos 1
number_eq n (bool false) = n == pos 0
number_eq n (int m) = n == m
number_eq n (float (some m) _) = n == m
number_eq n _ = false

unfoldable pub repr_eq : String → Value → Bool
repr_eq r (float none s) = r == s
repr_eq r _ = false

unfoldable mutual
  unfolding number_eq repr_eq get field_names

  pub py_eq : Value → Value → Bool
  py_eq null null = true
  py_eq (bool true) w = number_eq (pos 1) w
  py_eq (bool false) w = number_eq (pos 0) w
  py_eq (int n) w = number_eq n w
  py_eq (float (some n) _) w = number_eq n w
  py_eq (float none r) w = repr_eq r w
  py_eq (str s) (str t) = s == t
  py_eq (arr xs) (arr ys) = items_eq xs ys
  py_eq (obj fs) (obj gs) = length (field_names fs) == length (field_names gs) && fields_in fs gs
  py_eq _ _ = false

  pub items_eq : Items → Items → Bool
  items_eq nil nil = true
  items_eq (cons x xs) (cons y ys) = py_eq x y && items_eq xs ys
  items_eq _ _ = false

  -- Each entry is an entry of the other dict.
  pub fields_in : Fields → Fields → Bool
  fields_in end gs = true
  fields_in (field k v fs) gs =
      (elim (get k gs) [ none ↦ false | some w ↦ py_eq v w ]) && fields_in fs gs
