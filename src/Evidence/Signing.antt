-- ===== src/Evidence/Signing.antt =====
-- supervisor/evidence.py: `_sign_jsonl`, the head checkpoint and `initialize_evidence_auth`.
use plan_auditor.Base.{
  ℕ, suc, String, Bool, true, false, not, ◌&&◌, Option, none, some, List, [], ◌∷◌, string_eq, ◌==◌,
  if◌then◌else◌, Result, ok, err,
}
use plan_auditor.Json.{
  Value, null, str, int, obj, pos, Fields, end, field, get_or, as_object, is_text, without,
  set_field, py_eq,
}
use plan_auditor.Integrity.{KeyMaterial, make_auth, verify_auth}
use plan_auditor.Evidence.Chain.{
  Line, blank, not_json, json, File, genesis, record_domain, ChainProblem, line_not_json,
  line_not_object, ChainResult, Mode, verify_jsonl_chain, first_prev, record_count, tail_hash,
}
use plan_auditor.Evidence.Archives.{is_false, next_prev}

pub data SignError : Type 0 where
  invalid_evidence : ChainProblem → SignError
  legacy_evidence : SignError

module _ (hmac : List ℕ → List ℕ → String) where
  unfoldable pub sign_record : KeyMaterial → Fields → Fields
  unfolding set_field
  sign_record key rec =
      set_field "auth" (obj (make_auth hmac key record_domain (obj (without "auth" rec)))) rec

  -- The second loop of `_sign_jsonl`: the lines that it writes.
  unfoldable pub sign_lines : KeyMaterial → ℕ → List Line → Result SignError (List Line)
  unfolding sign_record
  sign_lines key line_no [] = ok []
  sign_lines key line_no (blank ∷ lines) = sign_lines key (suc line_no) lines
  sign_lines key line_no (not_json ∷ lines) = err (invalid_evidence (line_not_json line_no))
  sign_lines key line_no (json v ∷ lines) =
      let rest = sign_lines key (suc line_no) lines in
      elim (as_object v) [
        | none ↦ err (invalid_evidence (line_not_object line_no))
        | some rec ↦ elim rest [
          | err e ↦ err e
          | ok signed ↦ ok (json (obj (sign_record key rec)) ∷ signed)
        ]
      ]

-- The tests behind that check, and what follows them.
unfoldable pub sign_if :
    Option Bool → ChainProblem → Result SignError (List Line) → Result SignError (List Line)
sign_if none p signed = err legacy_evidence
sign_if (some false) p signed = err (invalid_evidence p)
sign_if (some true) p signed = signed

unfoldable pub signing_mode : KeyMaterial → Mode
signing_mode key = record { key = some key; require_auth = false; ignore_auth = true }

module _ (sha256 : List ℕ → String) (hmac : List ℕ → List ℕ → String) where
  -- The check in front of the signing, from the given hash on or else from GENESIS on.
  unfoldable pub chain_to_sign : KeyMaterial → String → List Line → ChainResult
  unfolding signing_mode first_prev is_text
  chain_to_sign key initial_prev lines =
      let here = verify_jsonl_chain sha256 hmac (signing_mode key) initial_prev (some lines) in
      let legacy = verify_jsonl_chain sha256 hmac (signing_mode key) genesis (some lines) in
      if is_false here.valid
        && not (initial_prev == genesis)
        && is_text genesis (first_prev (some lines))
      then legacy
      else here

  -- The new lines of a file that exists.
  unfoldable pub sign_jsonl : KeyMaterial → String → List Line → Result SignError (List Line)
  unfolding sign_if
  sign_jsonl key initial_prev lines =
      let checked = chain_to_sign key initial_prev lines in
      sign_if checked.valid checked.problem (sign_lines hmac key 1 lines)

  -- The archives, each from the last hash of those in front on, and that hash behind them all.
  unfoldable pub sign_archives :
      KeyMaterial → String → List (List Line) → Result SignError (List (List Line) × String)
  unfolding sign_jsonl next_prev tail_hash
  sign_archives key expected [] = ok ([], expected)
  sign_archives key expected (lines ∷ files) = elim (sign_jsonl key expected lines) [
    | err e ↦ err e
    | ok signed ↦ elim (sign_archives key (next_prev (tail_hash (some signed)) expected) files) [
      | err e ↦ err e
      | ok (others, last) ↦ ok (signed ∷ others, last)
    ]
  ]

abbrev pub head_domain : String
head_domain = "plan-auditor:evidence-head:v1"

unfoldable pub text_or_null : Option String → Value
text_or_null none = null
text_or_null (some s) = str s

-- `tail or "GENESIS"`
unfoldable pub tail_or_genesis : Option String → String
tail_or_genesis none = genesis
tail_or_genesis (some s) = if s == "" then genesis else s

-- The tail of the last archive, if there is an archive.
unfoldable pub last_tail : Option File → Value
unfolding text_or_null tail_hash
last_tail none = null
last_tail (some f) = text_or_null (tail_hash f)

-- `last` is the file of the last archive, if there is an archive.
unfoldable pub head_payload : KeyMaterial → File → Option File → Fields
unfolding record_count tail_hash last_tail tail_or_genesis
head_payload key active last = field "format_version" (int (pos 2)) (
    field "key_id" (str key.key_id) (
      field "active_count" (int (pos (record_count active))) (
        field "active_tail" (str (tail_or_genesis (tail_hash active)))
          (field "archive_tail" (last_tail last) end))))

pub data HeadProblem : Type 0 where
  head_missing head_not_object head_mismatch head_unauthenticated : HeadProblem

module _ (hmac : List ℕ → List ℕ → String) where
  -- The document that `write_evidence_head` writes.
  unfoldable pub write_evidence_head : KeyMaterial → File → Option File → Value
  unfolding set_field
  write_evidence_head key active last =
      let payload = head_payload key active last in
      obj (set_field "auth" (obj (make_auth hmac key head_domain (obj payload))) payload)

  -- `none`: there is no head or it is no JSON. The result is `none` where there is no problem.
  unfoldable pub verify_evidence_head :
      Option Value → KeyMaterial → File → Option File → Option HeadProblem
  verify_evidence_head none key active last = some head_missing
  verify_evidence_head (some value) key active last = elim (as_object value) [
    | none ↦ some head_not_object
    | some fields ↦
        let payload = obj (without "auth" fields) in
        if not (py_eq payload (obj (head_payload key active last)))
        then some head_mismatch
        else if not (verify_auth hmac key head_domain payload (get_or "auth" fields null))
        then some head_unauthenticated
        else none
  ]

-- `archives[-1]`, if there is an archive.
unfoldable pub last_archive : List (List Line) → Option File
last_archive [] = none
last_archive (lines ∷ []) = some (some lines)
last_archive (lines ∷ more ∷ files) = last_archive (more ∷ files)

module _ (sha256 : List ℕ → String) (hmac : List ℕ → List ℕ → String) where
  -- The signed archives, the signed evidence (`none` where there is no such file) and the head. Of an error
  -- the files that were replaced in front of it are not part of the result.
  unfoldable pub initialize_evidence_auth :
      KeyMaterial → List (List Line) → File → Result SignError (List (List Line) × File × Value)
  unfolding sign_archives sign_jsonl write_evidence_head last_archive
  initialize_evidence_auth key archives active =
      elim (sign_archives sha256 hmac key genesis archives) [
        | err e ↦ err e
        | ok (signed, last) ↦ elim active [
          | none ↦ ok (signed, none, write_evidence_head hmac key none (last_archive signed))
          | some lines ↦ elim (sign_jsonl sha256 hmac key last lines) [
            | err e ↦ err e
            | ok lines' ↦ ok (
              signed,
              some lines',
              write_evidence_head hmac key (some lines') (last_archive signed),
            )
          ]
        ]
      ]
