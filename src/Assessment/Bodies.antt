-- ===== src/Assessment/Bodies.antt =====
-- supervisor/assessment.py: the fields of the documents that are written.
use plan_auditor.Base.{
  String, nat_eq, mem, Bool, true, false, ◌&&◌, Option, none, some, List, [], ◌∷◌, ◌≡◌, refl, ◌∙◌,
  inl, inr, string_eq, ◌==◌, beq_refl, Bool-cases, Option-cases, arith,
}
use plan_auditor.Json.{
  null, int, str, obj, pos, int_eq, Fields, end, field, field_names, get, get_or, as_text, without,
  set_field, py_eq, get_or-set_field_other, get_or-set_field_self, without-set_field_other,
  without_comm, without_idempotent, get_or-without,
}
use plan_auditor.Integrity.{KeyMaterial}
use plan_auditor.Evidence.Chain.{File, record_count, tail_hash}
use plan_auditor.Evidence.Signing.{text_or_null, last_tail}
use plan_auditor.Assessment.{
  unknown_outcome, EvidenceState, evidence_binding, assessment_body, copy_text, copy_texts,
  unsigned_passthrough, unsigned_form, named_outcome,
}

py_eq-text_or_null : (t : Option String) → py_eq (text_or_null t) (text_or_null t) ≡ true
unfolding py_eq text_or_null
py_eq-text_or_null none = refl
py_eq-text_or_null (some s) = beq_refl s

py_eq-last_tail : (f : Option File) → py_eq (last_tail f) (last_tail f) ≡ true
unfolding last_tail py_eq
py_eq-last_tail none = refl
py_eq-last_tail (some f) = py_eq-text_or_null (tail_hash f)

all_four :
    (a b c d : Bool)
    → a ≡ true
    → b ≡ true
    → c ≡ true
    → d ≡ true
    → (a && (b && (c && (d && true)))) ≡ true
all_four a b c d ha hb hc hd = ground arith

pub py_eq-evidence_binding :
    (e : EvidenceState) (key : KeyMaterial)
    → py_eq (obj (evidence_binding e key)) (obj (evidence_binding e key)) ≡ true
unfolding py_eq evidence_binding get field_names
py_eq-evidence_binding e key =
    all_four _ _ _ _ (beq_refl key.key_id) (beq_refl (record_count e.active))
      (py_eq-text_or_null (tail_hash e.active)) (py_eq-last_tail e.last_archive)

pub without-assessment_body :
    (payload binding : Fields)
    → without "auth" (assessment_body payload binding) ≡ assessment_body payload binding
unfolding assessment_body
without-assessment_body payload binding =
    rw
      (
        without-set_field_other "auth" "evidence_binding" (obj binding)
            (set_field "format_version" (int (pos 1))
              (without "format_version" (without "auth" payload)))
            refl,
        without-set_field_other "auth" "format_version" (int (pos 1))
            (without "format_version" (without "auth" payload)) refl,
        without_comm "auth" "format_version" (without "auth" payload),
        without_idempotent "auth" payload,
      )
      refl

pub version-assessment_body :
    (payload binding : Fields)
    → get_or "format_version" (assessment_body payload binding) null ≡ int (pos 1)
unfolding assessment_body
version-assessment_body payload binding =
    get_or-set_field_other "format_version" "evidence_binding" (obj binding) null _ refl
    ∙ get_or-set_field_self "format_version" (int (pos 1)) null
        (without "format_version" (without "auth" payload))

pub binding-assessment_body :
    (payload binding : Fields)
    → get_or "evidence_binding" (assessment_body payload binding) null ≡ obj binding
unfolding assessment_body
binding-assessment_body payload binding =
    get_or-set_field_self "evidence_binding" (obj binding) null
      (set_field "format_version" (int (pos 1)) (without "format_version" (without "auth" payload)))

named-assessment_body :
    (payload binding : Fields)
    → get_or "outcome" (assessment_body payload binding) null ≡ get_or "outcome" payload null
unfolding assessment_body
named-assessment_body payload binding =
    let signless = without "auth" payload in
    let unversioned = without "format_version" signless in
    get_or-set_field_other "outcome" "evidence_binding" (obj binding) null
      (set_field "format_version" (int (pos 1)) unversioned) refl
    ∙ get_or-set_field_other "outcome" "format_version" (int (pos 1)) null unversioned refl
    ∙ get_or-without "outcome" "format_version" null signless refl
    ∙ get_or-without "outcome" "auth" null payload refl

pub outcome-assessment_body :
    (payload binding : Fields)
    → named_outcome (assessment_body payload binding) ≡ named_outcome payload
unfolding named_outcome
outcome-assessment_body payload binding =
    rw (named-assessment_body payload binding, named_outcome) refl

abbrev unsigned_front : Fields
unsigned_front = field "format_version" (int (pos 1)) (field "outcome" (str unknown_outcome) end)

get_or-copy_text :
    (k name : String) (payload body : Fields)
    → (k == name) ≡ false
    → get_or k (copy_text payload name body) null ≡ get_or k body null
unfolding copy_text
get_or-copy_text k name payload body h = elim (Option-cases (as_text (get_or name payload null))) [
  | inl other ↦ rw (other, copy_text) refl
  | inr (text, e) ↦ elim (Bool-cases (text == "")) [
    | inl empty ↦ rw (e, copy_text) (rw empty refl)
    | inr full ↦ rw (e, copy_text) (rw full (get_or-set_field_other k name (str text) null body h))
  ]
]

get_or-copy_texts :
    (k : String) (payload : Fields) (names : List String) (body : Fields)
    → mem k names ≡ false
    → get_or k (copy_texts payload names body) null ≡ get_or k body null
unfolding copy_texts mem
get_or-copy_texts k payload [] body h = refl
get_or-copy_texts k payload (name ∷ names) body h = elim (Bool-cases (k == name)) [
  | inl same ↦ absurd (cc (rw same at h))
  | inr other ↦
      get_or-copy_texts k payload names (copy_text payload name body) (rw other at h)
      ∙ get_or-copy_text k name payload body other
]

-- The fields that are not copied.
pub kept-unsigned_form :
    (k : String) (payload : Fields) (reason : String)
    → (k == "unsigned_reason") ≡ false
    → mem k unsigned_passthrough ≡ false
    → get_or k (unsigned_form payload reason) null ≡ get_or k unsigned_front null
unfolding unsigned_form
kept-unsigned_form k payload reason h m =
    get_or-set_field_other k "unsigned_reason" (str reason) null
      (copy_texts payload unsigned_passthrough unsigned_front) h
    ∙ get_or-copy_texts k payload unsigned_passthrough unsigned_front m
