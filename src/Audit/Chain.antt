-- ===== src/Audit/Chain.antt =====
-- scripts/audit_check.py: `_write_evidence_record`, `verify_chain` and `evidence_is_authenticated`. A file is
-- its lines with what `_strict_external_json` makes of them; whether the head is verified is an argument.
use plan_auditor.Base.{
  ℕ, ◌+◌, String, Bool, true, false, not, ◌||◌, Option, none, some, List, [], ◌∷◌, string_eq,
  nat_eq, ◌==◌, if◌then◌else◌, Result, ok, err,
}
use plan_auditor.Json.{
  Value, null, str, obj, Fields, end, field, get_or, as_object, is_text, without, set_field,
}
use plan_auditor.Integrity.{KeyMaterial, KeyError, make_auth, verify_auth}
use plan_auditor.Evidence.Chain.{
  Line, blank, not_json, json, File, record_domain, record_hash, is_unsigned, is_null,
}

-- What `json.loads` makes of a line, and whether the hooks let its text pass: no object repeats a key, every number
-- is finite, and every text can be encoded.
pub record LineReader : Type 0 where
  pub loads : String → Line
  pub is_strict : String → Bool

-- `_strict_external_json` on a line, where an empty one is left out.
unfoldable pub strict_line : LineReader → String → Line
strict_line reader text = elim (reader.loads text) [
  | blank ↦ blank
  | not_json ↦ not_json
  | json v ↦ if reader.is_strict text then json v else not_json
]

-- What `verify_chain` says of a line that it refuses.
pub data Break : Type 0 where
  not_strict_json not_an_object prev_broken hash_mismatch hmac_failed key_required : ℕ → Break

-- The loop ends with the number of records and the hash of the last, or at a line.
pub data ChainScan : Type 0 where
  broken : ℕ → Break → ChainScan
  scanned : ℕ → String → ChainScan

abbrev pub unsigned_auth : Fields
unsigned_auth = field "alg" (str "none") end

module _ (sha256 : List ℕ → String) (hmac : List ℕ → List ℕ → String) where
  -- `rec["auth"]`, on the record with its hash.
  unfoldable pub auth_value : Option KeyMaterial → Fields → Value
  unfolding make_auth without
  auth_value none rec = obj unsigned_auth
  auth_value (some key) rec = obj (make_auth hmac key record_domain (obj (without "auth" rec)))

  unfoldable pub linked_record : String → Fields → Fields
  unfolding set_field
  linked_record previous rec = set_field "prev" (str previous) rec

  unfoldable pub written_hash : String → Fields → String
  unfolding linked_record record_hash
  written_hash previous rec = record_hash sha256 (linked_record previous rec)

  unfoldable pub hashed_record : String → Fields → Fields
  unfolding linked_record written_hash set_field
  hashed_record previous rec =
      set_field "hash" (str (written_hash previous rec)) (linked_record previous rec)

  -- The record that `_write_evidence_record` appends behind the record whose hash is `previous`.
  unfoldable pub write_record : Option KeyMaterial → String → Fields → Fields
  unfolding hashed_record auth_value set_field
  write_record key previous rec =
      let hashed = hashed_record previous rec in set_field "auth" (auth_value key hashed) hashed

  -- The records that one call appends, each behind the one before, where the checkpoint follows the log: `previous` is
  -- the hash that `choose_previous` gives for the first.
  unfoldable pub write_records : Option KeyMaterial → String → List Fields → List Fields
  unfolding write_record written_hash
  write_records key previous [] = []
  write_records key previous (rec ∷ recs) =
      write_record key previous rec ∷ write_records key (written_hash previous rec) recs

  -- A key must verify every record; without one a record is unsigned.
  unfoldable pub auth_break : Option KeyMaterial → ℕ → Fields → Option Break
  unfolding verify_auth is_unsigned is_null without get_or
  auth_break (some key) line_no rec =
      if verify_auth hmac key record_domain (obj (without "auth" rec)) (get_or "auth" rec null)
      then none
      else some (hmac_failed line_no)
  auth_break none line_no rec =
      let auth = get_or "auth" rec null in
      if is_unsigned auth || is_null auth then none else some (key_required line_no)

  unfoldable pub record_break : Option KeyMaterial → ℕ → String → Fields → Option Break
  unfolding is_text get_or record_hash auth_break
  record_break key line_no prev rec =
      if not (is_text prev (get_or "prev" rec null))
      then some (prev_broken line_no)
      else if not (is_text (record_hash sha256 rec) (get_or "hash" rec null))
      then some (hash_mismatch line_no)
      else auth_break key line_no rec

  unfoldable pub scan_lines : Option KeyMaterial → ℕ → String → ℕ → List Line → ChainScan
  unfolding record_break record_hash as_object
  scan_lines key line_no prev count [] = scanned count prev
  scan_lines key line_no prev count (blank ∷ lines) = scan_lines key (line_no + 1) prev count lines
  scan_lines key line_no prev count (not_json ∷ lines) = broken count (not_strict_json line_no)
  scan_lines key line_no prev count (json v ∷ lines) = elim (as_object v) [
    | none ↦ broken count (not_an_object line_no)
    | some rec ↦ elim (record_break key line_no prev rec) [
      | some problem ↦ broken count problem
      | none ↦ scan_lines key (line_no + 1) (record_hash sha256 rec) (count + 1) lines
    ]
  ]

-- What `verify_chain` returns: whether the chain is valid, the number of records and the problem.
pub data ChainVerdict : Type 0 where
  intact : ℕ → ChainVerdict
  broken_at : ℕ → Break → ChainVerdict
  bad_head : ℕ → String → ChainVerdict
  head_needs_key : ℕ → ChainVerdict
  bad_key : KeyError → ChainVerdict

-- The head at one moment: whether its file is there, and what `_verify_evidence_head` says of it.
pub record HeadState : Type 0 where
  pub present : Bool
  pub verified : KeyMaterial → Option String

-- The tests of the head behind the records. `none` is no problem.
unfoldable pub judge_head : Option KeyMaterial → HeadState → ℕ → ChainVerdict
judge_head (some key) head count = elim (head.verified key) [
  | none ↦ intact count
  | some problem ↦ bad_head count problem
]
judge_head none head count = if head.present then head_needs_key count else intact count

unfoldable pub judge_chain : Option KeyMaterial → HeadState → ChainScan → ChainVerdict
unfolding judge_head
judge_chain key head (broken count problem) = broken_at count problem
judge_chain key head (scanned count tail) = judge_head key head count

module _ (sha256 : List ℕ → String) (hmac : List ℕ → List ℕ → String) where
  -- `first` is the tail of the last archive, or GENESIS.
  unfoldable pub verify_chain :
      Result KeyError (Option KeyMaterial) → HeadState → String → File → ChainVerdict
  unfolding judge_head judge_chain scan_lines
  verify_chain (err e) head first file = bad_key e
  verify_chain (ok key) head first none = judge_head key head 0
  verify_chain (ok key) head first (some lines) =
      judge_chain key head (scan_lines sha256 hmac key 1 first 0 lines)

abbrev pub is_intact : ChainVerdict → Bool
is_intact (intact count) = true
is_intact _ = false

-- What `evidence_is_authenticated` returns: True, or the reason.
pub data Authenticity : Type 0 where
  authenticated unusable no_chain no_records : Authenticity
  line_not_strict line_not_dict line_unrecognised unsigned_records : ℕ → Authenticity

unfoldable pub count_unsigned : ℕ → ℕ → List Line → Authenticity
unfolding as_object is_unsigned is_null get_or
count_unsigned line_no unsigned [] = if unsigned == 0 then no_records else unsigned_records unsigned
count_unsigned line_no unsigned (blank ∷ lines) = count_unsigned (line_no + 1) unsigned lines
count_unsigned line_no unsigned (not_json ∷ lines) = line_not_strict line_no
count_unsigned line_no unsigned (json v ∷ lines) = elim (as_object v) [
  | none ↦ line_not_dict line_no
  | some rec ↦
      let auth = get_or "auth" rec null in
      let rest = count_unsigned (line_no + 1) (unsigned + 1) lines in
      if is_unsigned auth || is_null auth then rest else line_unrecognised line_no
]

unfoldable pub evidence_is_authenticated :
    Result KeyError (Option KeyMaterial) → File → Authenticity
unfolding count_unsigned
evidence_is_authenticated (err e) file = unusable
evidence_is_authenticated (ok (some key)) file = authenticated
evidence_is_authenticated (ok none) none = no_chain
evidence_is_authenticated (ok none) (some lines) = count_unsigned 1 0 lines
