-- ===== src/Audit/Attempts.antt =====
-- scripts/audit_check.py: what `failed_attempt_counts` holds for a step.
use plan_auditor.Base.{
  beq-pair, and-false, ℕ, ◌+◌, String, Bool, ◌&&◌, false, Option, none, some, List, [], ◌∷◌, ◌++◌,
  ◌≡◌, refl, sym, ap, ◌∙◌, inl, inr, arith, nat_eq, string_eq, pair_eq, ◌==◌, beq→eq, if◌then◌else◌,
  Bool-cases, Option-cases, lookup_or, lookup_or-put,
}
use mathlib.Core.Option.{some-injective}
use plan_auditor.Json.{
  Value, null, bool, float, arr, obj, int, str, ℤ, int_eq, Fields, get_or, as_object, as_text,
  is_text,
}
use plan_auditor.Evidence.Chain.{Line, blank, not_json, json, File}
use plan_auditor.Audit.Counts.{
  AttemptCounts, count_attempt, plain_int, failed_attempt, count_record, count_file, count_files,
  failed_attempt_counts, count_failed_attempts,
}
use plan_auditor.Audit.Proof.{file_records, iter_evidence_records}

-- Whether a record's plan is the text.
abbrev pub names_plan : String → Value → Bool
names_plan plan v = elim (as_text v) [ none ↦ false | some text ↦ plan == text ]

-- Whether a record's step is the number.
abbrev pub names_step : ℤ → Value → Bool
names_step sid (int n) = sid == n
names_step sid _ = false

-- Whether a record names the mode, says "failed" and names the step and its plan.
abbrev pub is_attempt : String → String × ℤ → Fields → Bool
is_attempt mode key rec =
    is_text mode (get_or "mode" rec null)
    && is_text "failed" (get_or "status" rec null)
    && names_plan key.0 (get_or "plan" rec (str "default"))
    && names_step key.1 (get_or "step" rec null)

-- The number of the failed attempts among records.
unfoldable pub attempts : String → String × ℤ → List Fields → ℕ
attempts mode key [] = 0
attempts mode key (rec ∷ recs) =
    let rest = attempts mode key recs in if is_attempt mode key rec then rest + 1 else rest

attempts-append :
    (mode : String) (key : String × ℤ) (front back : List Fields)
    → attempts mode key (front ++ back) ≡ attempts mode key front + attempts mode key back
unfolding attempts
attempts-append mode key [] back = omega arith
attempts-append mode key (rec ∷ front) back = elim (Bool-cases (is_attempt mode key rec)) [
  | inl hit ↦ rw (attempts, hit) (omega (arith, attempts-append mode key front back))
  | inr miss ↦ rw (attempts, miss) (attempts-append mode key front back)
]

names_key : String × ℤ → Option (String × ℤ) → Bool
names_key key none = false
names_key key (some k) = key == k

read_names :
    (plan : String) (sid : ℤ) (p s : Value)
    → names_key
        (plan, sid)
        (elim (plain_int s) [
          | none ↦ none
          | some step ↦ elim (as_text p) [ none ↦ none | some text ↦ some (text, step) ]
        ])
      ≡ (names_plan plan p && names_step sid s)
unfolding plain_int names_key
read_names plan sid p (int n) = elim (Option-cases (as_text p)) [
  | inl other ↦ rw (names_plan, other) refl
  | inr (text, e) ↦ rw (names_plan, e) (beq-pair plan text sid n)
]
read_names plan sid p null = sym (and-false (names_plan plan p))
read_names plan sid p (bool b) = sym (and-false (names_plan plan p))
read_names plan sid p (float q s) = sym (and-false (names_plan plan p))
read_names plan sid p (str text) = sym (and-false (names_plan plan p))
read_names plan sid p (arr vs) = sym (and-false (names_plan plan p))
read_names plan sid p (obj fs) = sym (and-false (names_plan plan p))

-- What `failed_attempt` reads is the step that the record names.
failed_attempt-is_attempt :
    (mode : String) (key : String × ℤ) (rec : Fields)
    → names_key key (failed_attempt mode rec) ≡ is_attempt mode key rec
unfolding failed_attempt names_key
failed_attempt-is_attempt mode (plan, sid) rec =
    elim (Bool-cases (is_text mode (get_or "mode" rec null))) [
      | inr other ↦ rw (failed_attempt, other) refl
      | inl same ↦ elim (Bool-cases (is_text "failed" (get_or "status" rec null))) [
        | inr fine ↦ rw (failed_attempt, same, fine) refl
        | inl failed ↦
            rw (failed_attempt, same, failed)
              (read_names plan sid (get_or "plan" rec (str "default")) (get_or "step" rec null))
      ]
    ]

-- The count of a key after one record.
count_attempt-key :
    (key k : String × ℤ) (counts : AttemptCounts)
    → lookup_or key (count_attempt k counts) 0
      ≡ lookup_or key counts 0 + (if key == k then 1 else 0)
unfolding count_attempt
count_attempt-key key k counts = elim (Bool-cases (key == k)) [
  | inl hit ↦
      lookup_or-put k key (lookup_or k counts 0 + 1) 0 counts
      ∙ rw hit (ap (λ j. lookup_or j counts 0 + 1) (sym (beq→eq key k hit)))
  | inr miss ↦ lookup_or-put k key (lookup_or k counts 0 + 1) 0 counts ∙ rw miss (omega arith)
]

count_record-key :
    (mode : String) (key : String × ℤ) (rec : Fields) (counts : AttemptCounts)
    → lookup_or key (count_record mode rec counts) 0
      ≡ lookup_or key counts 0 + (if is_attempt mode key rec then 1 else 0)
unfolding count_record names_key
count_record-key mode key rec counts = elim (Option-cases (failed_attempt mode rec)) [
  | inl other ↦
      let counted = failed_attempt-is_attempt mode key rec in
      rw (count_record, other, ← counted, other) (omega arith)
  | inr (k, e) ↦
      let counted = failed_attempt-is_attempt mode key rec in
      rw (count_record, e, ← counted, e) (count_attempt-key key k counts)
]

attempts-cons :
    (mode : String) (key : String × ℤ) (rec : Fields) (recs : List Fields)
    → attempts mode key (rec ∷ recs)
      ≡ (if is_attempt mode key rec then 1 else 0) + attempts mode key recs
unfolding attempts
attempts-cons mode key rec recs = elim (Bool-cases (is_attempt mode key rec)) [
  | inl hit ↦ rw (attempts, hit) (omega arith)
  | inr miss ↦ rw (attempts, miss) (omega arith)
]

count_file-attempts :
    (mode : String) (key : String × ℤ) (lines : List Line) (counts out : AttemptCounts)
    → count_file mode lines counts ≡ some out
    → lookup_or key out 0 ≡ lookup_or key counts 0 + attempts mode key (file_records lines)
unfolding count_file file_records attempts
count_file-attempts mode key [] counts out h =
    ap (λ c. lookup_or key c 0) (sym (some-injective counts out h)) ∙ omega arith
count_file-attempts mode key (blank ∷ lines) counts out h =
    count_file-attempts mode key lines counts out h
count_file-attempts mode key (not_json ∷ lines) counts out h = cc h
count_file-attempts mode key (json v ∷ lines) counts out h = elim (Option-cases (as_object v)) [
  | inl other ↦ absurd (cc (rw (count_file, other) at h))
  | inr (rec, o) ↦
      count_file-attempts mode key lines (count_record mode rec counts) out
        (rw (count_file, o) at h)
      ∙ (rw (file_records, o)
          (omega (
            arith,
            count_record-key mode key rec counts,
            attempts-cons mode key rec (file_records lines),
          )))
]

count_files-attempts :
    (mode : String) (key : String × ℤ) (files : List File) (counts out : AttemptCounts)
    → count_files mode files counts ≡ some out
    → lookup_or key out 0 ≡ lookup_or key counts 0 + attempts mode key (iter_evidence_records files)
unfolding count_files iter_evidence_records attempts
count_files-attempts mode key [] counts out h =
    ap (λ c. lookup_or key c 0) (sym (some-injective counts out h)) ∙ omega arith
count_files-attempts mode key (none ∷ files) counts out h =
    count_files-attempts mode key files counts out h
count_files-attempts mode key (some lines ∷ files) counts out h =
    elim (Option-cases (count_file mode lines counts)) [
      | inl bad ↦ absurd (cc (rw (count_files, bad) at h))
      | inr (mid, e) ↦
          count_files-attempts mode key files mid out (rw (count_files, e) at h)
          ∙ omega (
            arith,
            count_file-attempts mode key lines counts mid e,
            attempts-append mode key (file_records lines) (iter_evidence_records files),
          )
    ]

-- Where the evidence can be read, the failed attempts of a step are the records of the mode that say "failed"
-- and name the step and its plan, in all the files.
pub count_failed_attempts-attempts :
    (files : List File) (sid : ℤ) (plan mode : String) (n : ℕ)
    → count_failed_attempts files sid plan mode ≡ some n
    → n ≡ attempts mode (plan, sid) (iter_evidence_records files)
unfolding count_failed_attempts failed_attempt_counts
count_failed_attempts-attempts files sid plan mode n h =
    elim (Option-cases (count_files mode files [])) [
      | inl bad ↦ absurd (cc (rw (count_failed_attempts, failed_attempt_counts, bad) at h))
      | inr (counts, e) ↦
          sym (some-injective _ _ (rw (count_failed_attempts, failed_attempt_counts, e) at h))
          ∙ count_files-attempts mode (plan, sid) files [] counts e
          ∙ unfold lookup_or in omega arith
    ]
