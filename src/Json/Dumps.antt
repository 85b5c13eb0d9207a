-- ===== src/Json/Dumps.antt =====
-- `json.dumps` with sorted keys and `ensure_ascii=False`, as code points, and the UTF-8 bytes of a text.
use plan_auditor.Base.{
  ℕ, zero, suc, ◌+◌, ◌/◌, ◌%◌, String, Bool, true, false, List, [], ◌∷◌, ◌++◌, nat_eq, ◌==◌,
  if◌then◌else◌, ltb, sort_with,
}
use plan_auditor.Json.Text.{codes}
use plan_auditor.Json.Order.{text_le}
use plan_auditor.Json.Int.{ℤ, pos, negsuc}
use plan_auditor.Json.Values.{
  Value, null, bool, int, float, str, arr, obj, Fields, end, field, Items, nil, cons,
}

unfoldable pub hex_digit : ℕ → ℕ
hex_digit d = if ltb d 10 then 48 + d else 87 + d

unfoldable pub escape_code : ℕ → List ℕ
unfolding hex_digit
escape_code c =
    if c == 34
    then 92 ∷ 34 ∷ []
    else if c == 92
    then 92 ∷ 92 ∷ []
    else if c == 10
    then 92 ∷ 110 ∷ []
    else if c == 13
    then 92 ∷ 114 ∷ []
    else if c == 9
    then 92 ∷ 116 ∷ []
    else if c == 8
    then 92 ∷ 98 ∷ []
    else if c == 12
    then 92 ∷ 102 ∷ []
    else if ltb c 32
    then 92 ∷ 117 ∷ 48 ∷ 48 ∷ hex_digit (c / 16) ∷ hex_digit (c % 16) ∷ []
    else c ∷ []

unfoldable pub escape : List ℕ → List ℕ
unfolding escape_code
escape [] = []
escape (c ∷ cs) = escape_code c ++ escape cs

unfoldable pub quote : String → List ℕ
unfolding escape codes
quote s = 34 ∷ (escape (codes s) ++ 34 ∷ [])

-- The decimal digits of a number in front of `acc`. Each round drops a digit, so n + 1 rounds do.
unfoldable pub digits : ℕ → ℕ → List ℕ → List ℕ
digits zero n acc = acc
digits (suc fuel) n acc =
    let rest = digits fuel (n / 10) ((48 + n % 10) ∷ acc) in
    if ltb n 10 then (48 + n) ∷ acc else rest

unfoldable pub decimal : ℤ → List ℕ
unfolding digits
decimal (pos n) = digits (suc n) n []
decimal (negsuc n) = 45 ∷ digits (suc (suc n)) (suc n) []

-- `sep.join(texts)`
unfoldable pub join : List ℕ → List (List ℕ) → List ℕ
join sep [] = []
join sep (t ∷ []) = t
join sep (t ∷ u ∷ ts) = t ++ sep ++ join sep (u ∷ ts)

-- The order in which `sort_keys` puts the entries of an object.
abbrev pub entry_le : String × List ℕ → String × List ℕ → Bool
entry_le a b = text_le a.0 b.0

unfoldable pub entry_texts : List ℕ → List (String × List ℕ) → List (List ℕ)
unfolding quote
entry_texts key_sep [] = []
entry_texts key_sep ((k, t) ∷ es) = (quote k ++ key_sep ++ t) ∷ entry_texts key_sep es

module _ (item_sep key_sep : List ℕ) where
  unfoldable pub object_text : List (String × List ℕ) → List ℕ
  unfolding join entry_texts text_le sort_with
  object_text entries =
      123 ∷ (join item_sep (entry_texts key_sep (sort_with entry_le entries)) ++ 125 ∷ [])

  unfoldable mutual
    unfolding quote decimal join object_text codes

    pub dumps : Value → List ℕ
    dumps null = codes "null"
    dumps (bool true) = codes "true"
    dumps (bool false) = codes "false"
    dumps (int n) = decimal n
    dumps (float n repr) = codes repr
    dumps (str s) = quote s
    dumps (arr xs) = 91 ∷ (join item_sep (item_texts xs) ++ 93 ∷ [])
    dumps (obj fs) = object_text (rendered fs)

    pub item_texts : Items → List (List ℕ)
    item_texts nil = []
    item_texts (cons x xs) = dumps x ∷ item_texts xs

    pub rendered : Fields → List (String × List ℕ)
    rendered end = []
    rendered (field k v fs) = (k, dumps v) ∷ rendered fs

unfoldable pub utf8_code : ℕ → List ℕ
utf8_code c =
    if ltb c 128
    then c ∷ []
    else if ltb c 2048
    then (192 + c / 64) ∷ (128 + c % 64) ∷ []
    else if ltb c 65536
    then (224 + c / 4096) ∷ (128 + c / 64 % 64) ∷ (128 + c % 64) ∷ []
    else (240 + c / 262144) ∷ (128 + c / 4096 % 64) ∷ (128 + c / 64 % 64) ∷ (128 + c % 64) ∷ []

-- `text.encode("utf-8")`
unfoldable pub utf8 : List ℕ → List ℕ
unfolding utf8_code
utf8 [] = []
utf8 (c ∷ cs) = utf8_code c ++ utf8 cs
