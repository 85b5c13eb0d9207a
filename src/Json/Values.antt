-- ===== src/Json/Values.antt =====
-- JSON documents as Python holds them after `json.loads`, and the operations of the language on
-- them that the program uses: `isinstance`, `get`, `in`, iteration, truth and `str.strip`.
-- An object is a dict: its keys are read by the first match. A float is the integer that it equals,
-- where there is one, with the text that `repr` prints; a NaN is not modelled.
use plan_auditor.Json.Text.{characters}
use plan_auditor.Json.Int.{ℤ, pos}
use plan_auditor.Base.{
  ℕ, zero, suc, String, Bool, true, false, not, Option, none, some, List, [], ◌∷◌, map, ◌==◌,
  string_eq, if◌then◌else◌,
}

mutual
  pub data Value : Type 0 where
    null : Value
    bool : Bool → Value
    int : ℤ → Value
    float : Option ℤ → String → Value
    str : String → Value
    arr : Items → Value
    obj : Fields → Value

  pub data Fields : Type 0 where
    end : Fields
    field : String → Value → Fields → Fields

  pub data Items : Type 0 where
    nil : Items
    cons : Value → Items → Items

unfoldable pub items : Items → List Value
items nil = []
items (cons x xs) = x ∷ items xs

unfoldable pub field_names : Fields → List String
field_names end = []
field_names (field k v fs) = k ∷ field_names fs

-- `d.get(k)` where the absent key is told from a null.
unfoldable pub get : String → Fields → Option Value
get k end = none
get k (field j v fs) = if k == j then some v else get k fs

-- `d.get(k, default)`
unfoldable pub get_or : String → Fields → Value → Value
get_or k end d = d
get_or k (field j v fs) d = if k == j then v else get_or k fs d

-- `k in d`
unfoldable pub has_key : String → Fields → Bool
has_key k end = false
has_key k (field j v fs) = if k == j then true else has_key k fs

-- `isinstance(v, int) and v >= 1`, with the number. A Python bool is an int, and True is 1.
unfoldable pub positive_int : Value → Option ℕ
positive_int (bool true) = some 1
positive_int (int (pos (suc n))) = some (suc n)
positive_int _ = none

-- `isinstance(v, int)`, with the number.
unfoldable pub as_int : Value → Option ℤ
as_int (bool true) = some (pos 1)
as_int (bool false) = some (pos 0)
as_int (int n) = some n
as_int _ = none

-- `isinstance(v, dict)`, `isinstance(v, list)`, `isinstance(v, str)`
unfoldable pub as_object : Value → Option Fields
as_object (obj fs) = some fs
as_object _ = none

unfoldable pub as_list : Value → Option (List Value)
as_list (arr xs) = some (items xs)
as_list _ = none

unfoldable pub as_text : Value → Option String
as_text (str s) = some s
as_text _ = none

-- What `for x in v` runs over. `none`: a TypeError, since the value cannot be iterated.
unfoldable pub iterate : Value → Option (List Value)
unfolding items field_names
iterate (arr xs) = some (items xs)
iterate (obj fs) = some (map str (field_names fs))
iterate (str s) = some (map str (characters s))
iterate _ = none

-- `[x for x in xs if isinstance(x, dict)]`
unfoldable pub objects : List Value → List Fields
objects [] = []
objects (obj fs ∷ xs) = fs ∷ objects xs
objects (_ ∷ xs) = objects xs

-- `bool(v)`
unfoldable pub truthy : Value → Bool
truthy null = false
truthy (bool b) = b
truthy (int (pos zero)) = false
truthy (float (some (pos zero)) s) = false
truthy (str s) = not (s == "")
truthy (arr nil) = false
truthy (obj end) = false
truthy _ = true

-- `isinstance(v, str) and v == text`
unfoldable pub is_text : String → Value → Bool
is_text text v = elim (as_text v) [ none ↦ false | some t ↦ t == text ]

-- `{k: v for k, v in fields.items() if k != name}`
unfoldable pub without : String → Fields → Fields
without name end = end
without name (field k v fs) =
    let rest = without name fs in if name == k then rest else field k v rest

-- `rec[name] = value`
unfoldable pub set_field : String → Value → Fields → Fields
set_field name value end = field name value end
set_field name value (field k v fs) =
    let rest = set_field name value fs in if name == k then field k value fs else field k v rest
