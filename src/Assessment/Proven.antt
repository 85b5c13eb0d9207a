-- ===== src/Assessment/Proven.antt =====
-- supervisor/assessment.py: which outcomes are read back, and from which files.
use plan_auditor.Base.{
  ltb, if◌then◌else◌, ◌≤◌, arith, ℕ, String, nat_eq, mem, Result-cases, true, false, Option, none,
  some, List, ◌≡◌, refl, sym, ap, ◌∙◌, inl, inr, string_eq, Bool-cases, Option-cases, Result, ok,
  err,
}
use mathlib.Core.Logic.{◌≢◌}
use plan_auditor.Json.{
  Value, null, int, obj, pos, int_eq, Fields, get_or, as_object, as_text, without, py_eq,
  get_or-set_field_self, without-set_field,
}
use plan_auditor.Integrity.{KeyMaterial, KeyError, make_auth, verify_auth}
use plan_auditor.Integrity.Authentic.{verify_auth-make_auth}
use plan_auditor.Assessment.{
  assessment_domain, unknown_outcome, EvidenceState, evidence_binding, assessment_body,
  unsigned_form, is_current_version, sign_assessment, write_assessment, judge_assessment,
  AssessmentFile, max_assessment_bytes, read_assessment, judge_document, read_assessment_verified,
  named_outcome, outcome_read, verified_outcome,
}
use plan_auditor.Assessment.Bodies.{
  py_eq-evidence_binding, without-assessment_body, version-assessment_body, binding-assessment_body,
  outcome-assessment_body, kept-unsigned_form,
}

module _ (hmac : List ℕ → List ℕ → String) where
  judge_assessment-ok :
      (key : KeyMaterial) (evidence : EvidenceState) (body : Fields) (auth : Value)
      → verify_auth hmac key assessment_domain (obj body) auth ≡ true
      → get_or "format_version" body null ≡ int (pos 1)
      → get_or "evidence_binding" body null ≡ obj (evidence_binding evidence key)
      → judge_assessment hmac key evidence body auth ≡ ok body
  unfolding judge_assessment is_current_version as_object
  judge_assessment-ok key evidence body auth signed version bound =
      rw signed (rw (version, bound) (rw (py_eq-evidence_binding evidence key) refl))

  -- What is signed is read, as long as the evidence stays.
  read-sign_assessment :
      (key : KeyMaterial) (evidence : EvidenceState) (payload : Fields)
      → judge_document hmac
          (ok (some key))
          evidence
          (some (sign_assessment hmac payload key (evidence_binding evidence key)))
        ≡ ok (assessment_body payload (evidence_binding evidence key))
  unfolding judge_document sign_assessment
  read-sign_assessment key evidence payload =
      let binding = evidence_binding evidence key in
      let body = assessment_body payload binding in
      let auth = obj (make_auth hmac key assessment_domain (obj body)) in
      rw
        (
          without-set_field "auth" auth body,
          without-assessment_body payload binding,
          get_or-set_field_self "auth" auth null body,
        )
        (judge_assessment-ok key evidence body auth
          (verify_auth-make_auth hmac key assessment_domain (obj body))
          (version-assessment_body payload binding) (binding-assessment_body payload binding))

  -- The outcome that is written with a key is the one that is read with the same key, as long as the evidence
  -- stays as it is and the file is no larger than 1 MiB; of a larger file the outcome is UNKNOWN.
  pub verified_outcome-write_assessment :
      (reason : Option KeyError → String) (key : KeyMaterial) (evidence : EvidenceState)
      (payload : Fields) (size : ℕ)
      → verified_outcome hmac (ok (some key)) evidence (
          some (record {
            size = size;
            document = some (write_assessment hmac reason (ok (some key)) evidence payload);
          }))
        ≡ (if ltb max_assessment_bytes size then unknown_outcome else named_outcome payload)
  unfolding verified_outcome read_assessment_verified read_assessment write_assessment outcome_read
      judge_document
  verified_outcome-write_assessment reason key evidence payload size =
      elim (Bool-cases (ltb max_assessment_bytes size)) [
        | inl large ↦ rw large refl
        | inr fits ↦ rw fits (
            ap outcome_read (read-sign_assessment key evidence payload)
            ∙ outcome-assessment_body payload (evidence_binding evidence key))
      ]

  judge_assessment-eq-ok :
      (key : KeyMaterial) (evidence : EvidenceState) (body : Fields) (auth : Value) (out : Fields)
      → judge_assessment hmac key evidence body auth ≡ ok out
      → (verify_auth hmac key assessment_domain (obj body) auth ≡ true)
        × ((binding : Fields) × (as_object (get_or "evidence_binding" body null) ≡ some binding)
            × (py_eq (obj binding) (obj (evidence_binding evidence key)) ≡ true))
        × (body ≡ out)
  unfolding judge_assessment
  judge_assessment-eq-ok key evidence body auth out h =
      elim (Bool-cases (verify_auth hmac key assessment_domain (obj body) auth)) [
        | inr forged ↦ absurd (cc (rw (forged, judge_assessment) at h))
        | inl signed ↦ elim (Bool-cases (is_current_version (get_or "format_version" body null))) [
          | inr old ↦ absurd (cc (rw (signed, old, judge_assessment) at h))
          | inl current ↦ elim (Option-cases (as_object (get_or "evidence_binding" body null))) [
            | inl free ↦ absurd (cc (rw (signed, current, free, judge_assessment) at h))
            | inr (binding, named) ↦
                elim (Bool-cases (py_eq (obj binding) (obj (evidence_binding evidence key)))) [
                  | inr replayed ↦
                      absurd (cc (rw (signed, current, named, replayed, judge_assessment) at h))
                  | inl bound ↦ (
                    signed,
                    (binding, named, bound),
                    cc (rw (signed, current, named, bound, judge_assessment) at h),
                  )
                ]
          ]
        ]
      ]

  verify_auth-null :
      (key : KeyMaterial) (payload : Value)
      → verify_auth hmac key assessment_domain payload null ≡ false
  unfolding verify_auth as_object
  verify_auth-null key payload = refl

  -- A document without an authentication is no proof.
  judge_document-unsigned :
      (found : Result KeyError (Option KeyMaterial)) (evidence : EvidenceState) (document : Fields)
      → get_or "auth" document null ≡ null
      → outcome_read (judge_document hmac found evidence (some document)) ≡ unknown_outcome
  unfolding judge_document judge_assessment outcome_read
  judge_document-unsigned (err e) evidence document h = refl
  judge_document-unsigned (ok none) evidence document h = refl
  judge_document-unsigned (ok (some key)) evidence document h =
      rw h (rw (verify_auth-null key (obj (without "auth" document))) refl)

  verified_outcome-unsigned :
      (found : Result KeyError (Option KeyMaterial)) (evidence : EvidenceState) (document : Fields)
      (size : ℕ)
      → get_or "auth" document null ≡ null
      → verified_outcome hmac found evidence
          (some (record { size = size; document = some document }))
        ≡ unknown_outcome
  unfolding verified_outcome read_assessment_verified read_assessment
  verified_outcome-unsigned found evidence document size h =
      elim (Bool-cases (ltb max_assessment_bytes size)) [
        | inl large ↦ rw large (unfold judge_document outcome_read in refl)
        | inr fits ↦ rw fits (judge_document-unsigned found evidence document h)
      ]

  unsigned_form-unknown :
      (found : Result KeyError (Option KeyMaterial)) (evidence : EvidenceState) (payload : Fields)
      (reason : String) (size : ℕ)
      → (named_outcome (unsigned_form payload reason) ≡ unknown_outcome)
        × (verified_outcome hmac found evidence
              (some (record { size = size; document = some (unsigned_form payload reason) }))
            ≡ unknown_outcome)
  unfolding named_outcome as_text mem
  unsigned_form-unknown found evidence payload reason size = (
    rw (kept-unsigned_form "outcome" payload reason refl refl, named_outcome) refl,
    verified_outcome-unsigned found evidence (unsigned_form payload reason) size
        (kept-unsigned_form "auth" payload reason refl refl),
  )

  judge_document-proven :
      (found : Result KeyError (Option KeyMaterial)) (evidence : EvidenceState)
      (read : Option Fields)
      → outcome_read (judge_document hmac found evidence read) ≢ unknown_outcome
      → (key : KeyMaterial) × (document : Fields) × (found ≡ ok (some key))
        × (read ≡ some document)
        × (verify_auth hmac key assessment_domain
              (obj (without "auth" document))
              (get_or "auth" document null)
            ≡ true)
        × ((binding : Fields) × (as_object
                (get_or "evidence_binding" (without "auth" document) null)
              ≡ some binding)
            × (py_eq (obj binding) (obj (evidence_binding evidence key)) ≡ true))
        × (outcome_read (judge_document hmac found evidence read)
            ≡ named_outcome (without "auth" document))
  unfolding outcome_read judge_document
  judge_document-proven found evidence none h = absurd (h refl)
  judge_document-proven (err e) evidence (some document) h = absurd (h refl)
  judge_document-proven (ok none) evidence (some document) h = absurd (h refl)
  judge_document-proven (ok (some key)) evidence (some document) h =
      elim (Result-cases (
        judge_assessment hmac key evidence (without "auth" document)
          (get_or "auth" document null))) [
            | inr (e, refused) ↦ absurd (h (ap outcome_read refused))
            | inl (body, accepted) ↦
                let (signed, bound, same) =
                  judge_assessment-eq-ok key evidence (without "auth" document)
                    (get_or "auth" document null) body accepted in
                (
                  key,
                  document,
                  refl,
                  refl,
                  signed,
                  bound,
                  ap outcome_read accepted ∙ ap named_outcome (sym same),
                )
          ]

  -- A file that is read is no larger than 1 MiB and holds the document.
  read_assessment-some :
      (file : Option AssessmentFile) (document : Fields)
      → read_assessment file ≡ some document
      → (f : AssessmentFile) × (file ≡ some f)
        × (f.size ≤ max_assessment_bytes)
        × (f.document ≡ some document)
  unfolding read_assessment
  read_assessment-some none document h = absurd (cc h)
  read_assessment-some (some f) document h = elim (Bool-cases (ltb max_assessment_bytes f.size)) [
    | inl large ↦ absurd (cc (rw (large, read_assessment) at h))
    | inr fits ↦ (f, refl, ground arith, rw (fits, read_assessment) at h)
  ]

  -- An outcome other than UNKNOWN is read only with a key, from a file of at most 1 MiB whose authentication is
  -- verified with it and whose binding is that of the present evidence, and it is the outcome that the file names.
  pub verified_outcome-proven :
      (found : Result KeyError (Option KeyMaterial)) (evidence : EvidenceState)
      (file : Option AssessmentFile)
      → verified_outcome hmac found evidence file ≢ unknown_outcome
      → (key : KeyMaterial) × (document : Fields) × (found ≡ ok (some key))
        × ((f : AssessmentFile) × (file ≡ some f)
            × (f.size ≤ max_assessment_bytes)
            × (f.document ≡ some document))
        × (verify_auth hmac key assessment_domain
              (obj (without "auth" document))
              (get_or "auth" document null)
            ≡ true)
        × ((binding : Fields) × (as_object
                (get_or "evidence_binding" (without "auth" document) null)
              ≡ some binding)
            × (py_eq (obj binding) (obj (evidence_binding evidence key)) ≡ true))
        × (verified_outcome hmac found evidence file ≡ named_outcome (without "auth" document))
  unfolding verified_outcome read_assessment_verified
  verified_outcome-proven found evidence file h =
      let (key, document, there, read, signed, bound, named) =
        judge_document-proven found evidence (read_assessment file) h in
      (key, document, there, read_assessment-some file document read, signed, bound, named)

  -- What is written without a key names the outcome UNKNOWN and is never read as another one.
  pub write_assessment-unsigned :
      (reason : Option KeyError → String) (found found' : Result KeyError (Option KeyMaterial))
      (evidence evidence' : EvidenceState) (payload : Fields) (size : ℕ)
      → ((key : KeyMaterial) → found ≢ ok (some key))
      → (named_outcome (write_assessment hmac reason found evidence payload) ≡ unknown_outcome)
        × (verified_outcome hmac found' evidence' (
              some (record {
                size = size;
                document = some (write_assessment hmac reason found evidence payload);
              }))
            ≡ unknown_outcome)
  unfolding write_assessment
  write_assessment-unsigned reason (err e) found' evidence evidence' payload size h =
      unsigned_form-unknown found' evidence' payload (reason (some e)) size
  write_assessment-unsigned reason (ok none) found' evidence evidence' payload size h =
      unsigned_form-unknown found' evidence' payload (reason none) size
  write_assessment-unsigned reason (ok (some key)) found' evidence evidence' payload size h =
      absurd (h key refl)
