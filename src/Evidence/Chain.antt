-- ===== src/Evidence/Chain.antt =====
-- supervisor/evidence.py: `verify_jsonl_chain` and the functions that read one file. A file is its lines
-- with what `json.loads` makes of them; `none` stands for a file that cannot be read.
use plan_auditor.Base.{
  ℕ, ◌+◌, String, Bool, true, false, not, ◌||◌, Option, none, some, List, [], ◌∷◌, string_eq,
  nat_eq, ◌==◌, if◌then◌else◌,
}
use plan_auditor.Json.{
  Value, null, obj, Fields, get_or, has_key, as_object, as_text, is_text, without, dumps, utf8,
}
use plan_auditor.Integrity.{KeyMaterial, verify_auth}

pub data Line : Type 0 where
  blank not_json : Line
  json : Value → Line

abbrev pub File : Type 0
File = Option (List Line)

abbrev pub genesis : String
genesis = "GENESIS"

abbrev pub record_domain : String
record_domain = "plan-auditor:evidence-record:v1"

-- The texts of the third result; a number is that of a line.
pub data ChainProblem : Type 0 where
  no_problem lacks_prev_chain unreadable : ChainProblem
  line_not_json line_not_object prev_chain_broken hash_mismatch authentication_failed key_required :
      ℕ → ChainProblem

-- `None` stands for a legacy file without a chain.
pub record ChainResult : Type 0 where
  pub valid : Option Bool
  pub count : ℕ
  pub problem : ChainProblem

pub record Mode : Type 0 where
  pub key : Option KeyMaterial
  pub require_auth : Bool
  pub ignore_auth : Bool

unfoldable pub is_null : Value → Bool
is_null null = true
is_null _ = false

-- The separators ", " and ": ".
unfoldable pub evidence_json : Value → List ℕ
unfolding dumps
evidence_json v = dumps (44 ∷ 32 ∷ []) (58 ∷ 32 ∷ []) v

unfoldable pub hash_payload : Fields → Fields
unfolding without
hash_payload rec = without "auth" (without "hash" rec)

abbrev pub failed_chain : ℕ → ChainProblem → ChainResult
failed_chain count problem = record { valid = some false; count = count; problem = problem }

unfoldable pub end_of_chain : ℕ → Bool → ChainResult
end_of_chain count saw_missing =
    if count == 0
    then record { valid = some true; count = 0; problem = no_problem }
    else if saw_missing
    then record { valid = none; count = count; problem = lacks_prev_chain }
    else record { valid = some true; count = count; problem = no_problem }

-- What the loop does with one record: it returns, or goes on with `prev` and `saw_missing_prev`.
pub data Visit : Type 0 where
  stop : ChainProblem → Visit
  go : String → Bool → Visit

module _ (sha256 : List ℕ → String) where
  unfoldable pub record_hash : Fields → String
  unfolding hash_payload evidence_json utf8
  record_hash rec = sha256 (utf8 (evidence_json (obj (hash_payload rec))))

unfoldable pub is_unsigned : Value → Bool
unfolding as_object is_text get_or
is_unsigned auth = elim (as_object auth) [
  | none ↦ false
  | some fields ↦ is_text "none" (get_or "alg" fields null)
]

abbrev pub has_no_key : Option KeyMaterial → Bool
has_no_key none = true
has_no_key (some key) = false

module _ (hmac : List ℕ → List ℕ → String) where
  unfoldable pub is_authentic : Option KeyMaterial → Fields → Bool
  is_authentic none rec = false
  is_authentic (some key) rec =
      verify_auth hmac key record_domain (obj (without "auth" rec)) (get_or "auth" rec null)

  unfoldable pub auth_problem : Mode → ℕ → Fields → Option ChainProblem
  unfolding is_authentic is_unsigned is_null
  auth_problem mode line_no rec =
      let auth = get_or "auth" rec null in
      if mode.ignore_auth
      then none
      else if mode.require_auth
      then (if is_authentic mode.key rec then none else some (authentication_failed line_no))
      else if is_unsigned auth || is_null auth
      then none
      else if has_no_key mode.key
      then some (key_required line_no)
      else if is_authentic mode.key rec
      then none
      else some (authentication_failed line_no)

module _ (sha256 : List ℕ → String) (hmac : List ℕ → List ℕ → String) where
  unfoldable pub visit_record : Mode → ℕ → String → Bool → Fields → Visit
  unfolding is_text record_hash auth_problem
  visit_record mode line_no prev saw_missing rec =
      if not (has_key "prev" rec)
      then go prev true
      else if saw_missing
      then go prev saw_missing
      else if not (is_text prev (get_or "prev" rec null))
      then stop (prev_chain_broken line_no)
      else if not (is_text (record_hash sha256 rec) (get_or "hash" rec null))
      then stop (hash_mismatch line_no)
      else elim (auth_problem hmac mode line_no rec) [
        | none ↦ go (record_hash sha256 rec) saw_missing
        | some problem ↦ stop problem
      ]

  unfoldable pub visit_line : Mode → ℕ → String → Bool → Value → Visit
  unfolding visit_record
  visit_line mode line_no prev saw_missing v = elim (as_object v) [
    | none ↦ stop (line_not_object line_no)
    | some rec ↦ visit_record mode line_no prev saw_missing rec
  ]

  -- The loop. `count` is the number of records in front.
  unfoldable pub verify_lines : Mode → ℕ → String → ℕ → Bool → List Line → ChainResult
  unfolding visit_line end_of_chain
  verify_lines mode line_no prev count saw_missing [] = end_of_chain count saw_missing
  verify_lines mode line_no prev count saw_missing (blank ∷ lines) =
      verify_lines mode (line_no + 1) prev count saw_missing lines
  verify_lines mode line_no prev count saw_missing (not_json ∷ lines) =
      failed_chain count (line_not_json line_no)
  verify_lines mode line_no prev count saw_missing (json v ∷ lines) =
      elim (visit_line mode line_no prev saw_missing v) [
        | stop problem ↦ failed_chain count problem
        | go prev' saw' ↦ verify_lines mode (line_no + 1) prev' (count + 1) saw' lines
      ]

  unfoldable pub verify_jsonl_chain : Mode → String → File → ChainResult
  unfolding verify_lines
  verify_jsonl_chain mode initial_prev none = failed_chain 0 unreadable
  verify_jsonl_chain mode initial_prev (some lines) = verify_lines mode 1 initial_prev 0 false lines

unfoldable pub count_lines : List Line → ℕ
count_lines [] = 0
count_lines (blank ∷ lines) = count_lines lines
count_lines (_ ∷ lines) = count_lines lines + 1

-- `_record_count`
unfoldable pub record_count : File → ℕ
unfolding count_lines
record_count none = 0
record_count (some lines) = count_lines lines

-- The last value of a field that holds a text or nothing in every record; `none` where some line is
-- no such record.
unfoldable pub last_text : String → Option String → List Line → Option String
unfolding as_object is_null as_text get_or
last_text name last [] = last
last_text name last (blank ∷ lines) = last_text name last lines
last_text name last (not_json ∷ lines) = none
last_text name last (json v ∷ lines) =
    let next = λ (text : Option String). last_text name text lines in
    elim (as_object v) [
      | none ↦ none
      | some rec ↦
          let candidate = get_or name rec null in
          if is_null candidate
          then next none
          else elim (as_text candidate) [ none ↦ none | some text ↦ next (some text) ]
    ]

unfoldable pub tail_hash : File → Option String
unfolding last_text
tail_hash none = none
tail_hash (some lines) = last_text "hash" none lines

-- `_read_stored_link`
unfoldable pub read_stored_link : File → Option String
unfolding last_text
read_stored_link none = none
read_stored_link (some lines) = last_text "previous_archive_hash" none lines

-- `_first_prev`, where a null stands for `None`.
unfoldable pub first_prev : File → Value
unfolding as_object get_or
first_prev none = null
first_prev (some []) = null
first_prev (some (blank ∷ lines)) = first_prev (some lines)
first_prev (some (not_json ∷ lines)) = null
first_prev (some (json v ∷ lines)) = elim (as_object v) [
  | none ↦ null
  | some rec ↦ get_or "prev" rec null
]
