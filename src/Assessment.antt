-- ===== src/Assessment.antt =====
-- supervisor/assessment.py: the verdict that is written for other processes and how it is read. A file is
-- its size in bytes and the dict that `_parse_assessment` gives for its text; what `runtime_key` gives and
-- the text of the reason are arguments.
pub mod Bodies
pub mod Proven
use plan_auditor.Base.{
  ltb, ◌*◌, ℕ, String, Bool, true, false, not, ◌&&◌, Option, none, some, List, [], ◌∷◌, string_eq,
  ◌==◌, if◌then◌else◌, Result, ok, err,
}
use plan_auditor.Json.{
  Value, null, int, str, obj, pos, int_eq, Fields, end, field, get_or, as_object, as_text, without,
  set_field, py_eq,
}
use plan_auditor.Integrity.{KeyMaterial, KeyError, make_auth, verify_auth}
use plan_auditor.Evidence.Chain.{File, record_count, tail_hash}
use plan_auditor.Evidence.Signing.{text_or_null, last_tail}

abbrev pub assessment_domain : String
assessment_domain = "plan-auditor:supervisor-assessment:v1"

abbrev pub unknown_outcome : String
unknown_outcome = "UNKNOWN"

-- The evidence at one moment: the active file, and the last archive if there is one.
pub record EvidenceState : Type 0 where
  pub active : File
  pub last_archive : Option File

unfoldable pub evidence_binding : EvidenceState → KeyMaterial → Fields
unfolding record_count tail_hash text_or_null last_tail
evidence_binding e key = field "key_id" (str key.key_id) (
    field "active_records" (int (pos (record_count e.active))) (
      field "active_tail" (text_or_null (tail_hash e.active))
        (field "archive_tail" (last_tail e.last_archive) end)))

-- The body of `sign_assessment` in front of the authentication.
unfoldable pub assessment_body : Fields → Fields → Fields
unfolding set_field without
assessment_body payload binding =
    set_field "evidence_binding" (obj binding)
      (set_field "format_version" (int (pos 1)) (without "format_version" (without "auth" payload)))

-- A field of the payload that is a text and not empty.
unfoldable pub copy_text : Fields → String → Fields → Fields
unfolding get_or as_text set_field
copy_text payload name body = elim (as_text (get_or name payload null)) [
  | none ↦ body
  | some text ↦ if text == "" then body else set_field name (str text) body
]

unfoldable pub copy_texts : Fields → List String → Fields → Fields
unfolding copy_text
copy_texts payload [] body = body
copy_texts payload (name ∷ names) body = copy_texts payload names (copy_text payload name body)

abbrev pub unsigned_passthrough : List String
unsigned_passthrough = "workspace" ∷ "profile" ∷ "mode" ∷ "error" ∷ []

unfoldable pub unsigned_form : Fields → String → Fields
unfolding copy_texts set_field
unsigned_form payload reason = set_field "unsigned_reason" (str reason) (
    copy_texts payload unsigned_passthrough
      (field "format_version" (int (pos 1)) (field "outcome" (str unknown_outcome) end)))

-- A file that can be opened. `none` is a text that is refused, or no dict.
pub record AssessmentFile : Type 0 where
  pub size : ℕ
  pub document : Option Fields

abbrev pub max_assessment_bytes : ℕ
max_assessment_bytes = 1024 * 1024

-- `none` is a file that cannot be opened.
unfoldable pub read_assessment : Option AssessmentFile → Option Fields
read_assessment none = none
read_assessment (some file) = if ltb max_assessment_bytes file.size then none else file.document

-- The reasons of `_rejection`.
pub data Rejection : Type 0 where
  missing no_key bad_signature bad_version unbound stale : Rejection
  key_problem : KeyError → Rejection

-- `type(v) is int and v == 1`
unfoldable pub is_current_version : Value → Bool
is_current_version (int n) = n == pos 1
is_current_version _ = false

-- The outcome that a verified assessment names.
unfoldable pub named_outcome : Fields → String
unfolding get_or as_text
named_outcome assessment = elim (as_text (get_or "outcome" assessment null)) [
  | none ↦ unknown_outcome
  | some text ↦ if text == "" then unknown_outcome else text
]

unfoldable pub outcome_read : Result Rejection Fields → String
unfolding named_outcome
outcome_read (err e) = unknown_outcome
outcome_read (ok assessment) = named_outcome assessment

module _ (hmac : List ℕ → List ℕ → String) where
  unfoldable pub sign_assessment : Fields → KeyMaterial → Fields → Fields
  sign_assessment payload key binding =
      let body = assessment_body payload binding in
      set_field "auth" (obj (make_auth hmac key assessment_domain (obj body))) body

  -- The document that `write_assessment` stores and returns.
  unfoldable pub write_assessment :
      (Option KeyError → String)
      → Result KeyError (Option KeyMaterial)
      → EvidenceState
      → Fields
      → Fields
  write_assessment reason (err e) evidence payload = unsigned_form payload (reason (some e))
  write_assessment reason (ok none) evidence payload = unsigned_form payload (reason none)
  write_assessment reason (ok (some key)) evidence payload =
      sign_assessment payload key (evidence_binding evidence key)

  -- The tests of `read_assessment_verified` behind the key, on the assessment without its authentication.
  unfoldable pub judge_assessment :
      KeyMaterial → EvidenceState → Fields → Value → Result Rejection Fields
  judge_assessment key evidence body auth =
      if not (verify_auth hmac key assessment_domain (obj body) auth)
      then err bad_signature
      else if not (is_current_version (get_or "format_version" body null))
      then err bad_version
      else elim (as_object (get_or "evidence_binding" body null)) [
        | none ↦ err unbound
        | some binding ↦
            if not (py_eq (obj binding) (obj (evidence_binding evidence key)))
            then err stale
            else ok body
      ]

  -- The tests of a document that was read.
  unfoldable pub judge_document :
      Result KeyError (Option KeyMaterial) → EvidenceState → Option Fields → Result Rejection Fields
  judge_document key evidence none = err missing
  judge_document (err e) evidence (some document) = err (key_problem e)
  judge_document (ok none) evidence (some document) = err no_key
  judge_document (ok (some key)) evidence (some document) =
      judge_assessment key evidence (without "auth" document) (get_or "auth" document null)

  unfoldable pub read_assessment_verified :
      Result KeyError (Option KeyMaterial)
      → EvidenceState
      → Option AssessmentFile
      → Result Rejection Fields
  unfolding judge_document read_assessment
  read_assessment_verified key evidence file = judge_document key evidence (read_assessment file)

  unfoldable pub verified_outcome :
      Result KeyError (Option KeyMaterial) → EvidenceState → Option AssessmentFile → String
  unfolding outcome_read read_assessment_verified
  verified_outcome key evidence file = outcome_read (read_assessment_verified key evidence file)
