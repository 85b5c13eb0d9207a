-- ===== src/Audit/Grown.antt =====
-- The records that `_write_evidence_record` appends and the pass of `verify_chain` over them.
use plan_auditor.Base.{
  ℕ, ◌+◌, String, true, false, Option, none, some, List, [], ◌∷◌, ◌++◌, map, ◌≡◌, refl, ap, ◌∙◌,
  inl, inr, arith, string_eq, nat_eq, ◌==◌, beq_refl, Option-cases, length,
}
use plan_auditor.Json.{
  Value, null, str, obj, Fields, get_or, as_object, as_text, is_text, without,
  get_or-set_field_other, get_or-set_field_self, without-set_field, without_comm,
}
use plan_auditor.Integrity.{KeyMaterial}
use plan_auditor.Integrity.Authentic.{verify_auth-make_auth}
use plan_auditor.Evidence.Chain.{
  Line, blank, not_json, json, record_domain, hash_payload, record_hash, is_unsigned,
}
use plan_auditor.Audit.Chain.{
  scanned, auth_value, linked_record, written_hash, hashed_record, write_record, write_records,
  auth_break, record_break, scan_lines,
}

abbrev pub json_line : Fields → Line
json_line rec = json (obj rec)

pub is_text_self : (s : String) → is_text s (str s) ≡ true
unfolding is_text as_text
is_text_self s = beq_refl s

module _ (sha256 : List ℕ → String) (hmac : List ℕ → List ℕ → String)
    (key : Option KeyMaterial) where
  -- The chain adds `prev`, `hash` and `auth` and leaves the other fields.
  pub get_or-write_record :
      (k previous : String) (d : Value) (rec : Fields)
      → (k == "auth") ≡ false
      → (k == "hash") ≡ false
      → (k == "prev") ≡ false
      → get_or k (write_record sha256 hmac key previous rec) d ≡ get_or k rec d
  unfolding write_record hashed_record linked_record
  get_or-write_record k previous d rec no_auth no_hash no_prev =
      get_or-set_field_other k "auth"
        (auth_value sha256 hmac key (hashed_record sha256 hmac previous rec)) d
        (hashed_record sha256 hmac previous rec) no_auth
      ∙ get_or-set_field_other k "hash" (str (written_hash sha256 hmac previous rec)) d
          (linked_record sha256 hmac previous rec) no_hash
      ∙ get_or-set_field_other k "prev" (str previous) d rec no_prev

  module _ (previous : String) (rec : Fields) where
    abbrev written : Fields
    written = write_record sha256 hmac key previous rec

    without_auth : without "auth" written ≡ without "auth" (hashed_record sha256 hmac previous rec)
    unfolding write_record
    without_auth =
        without-set_field "auth"
          (auth_value sha256 hmac key (hashed_record sha256 hmac previous rec))
          (hashed_record sha256 hmac previous rec)

    hash_payload-written :
        hash_payload written ≡ hash_payload (linked_record sha256 hmac previous rec)
    unfolding hash_payload hashed_record
    hash_payload-written =
        let linked = linked_record sha256 hmac previous rec in
        let hash = str (written_hash sha256 hmac previous rec) in
        without_comm "auth" "hash" written
        ∙ ap (without "hash") without_auth
        ∙ without_comm "hash" "auth" (hashed_record sha256 hmac previous rec)
        ∙ ap (without "auth") (without-set_field "hash" hash linked)

    record_hash-written : record_hash sha256 written ≡ written_hash sha256 hmac previous rec
    unfolding record_hash written_hash
    record_hash-written = rw hash_payload-written refl

    pub prev-written : get_or "prev" written null ≡ str previous
    unfolding write_record hashed_record linked_record
    prev-written =
        let linked = linked_record sha256 hmac previous rec in
        let hashed = hashed_record sha256 hmac previous rec in
        get_or-set_field_other "prev" "auth" (auth_value sha256 hmac key hashed) null hashed refl
        ∙ get_or-set_field_other "prev" "hash" (str (written_hash sha256 hmac previous rec)) null
            linked refl
        ∙ get_or-set_field_self "prev" (str previous) null rec

    hash-written : get_or "hash" written null ≡ str (written_hash sha256 hmac previous rec)
    unfolding write_record hashed_record
    hash-written =
        let linked = linked_record sha256 hmac previous rec in
        let hashed = hashed_record sha256 hmac previous rec in
        get_or-set_field_other "hash" "auth" (auth_value sha256 hmac key hashed) null hashed refl
        ∙ get_or-set_field_self "hash" (str (written_hash sha256 hmac previous rec)) null linked

    auth-written :
        get_or "auth" written null
        ≡ auth_value sha256 hmac key (hashed_record sha256 hmac previous rec)
    unfolding write_record
    auth-written =
        get_or-set_field_self "auth"
          (auth_value sha256 hmac key (hashed_record sha256 hmac previous rec)) null
          (hashed_record sha256 hmac previous rec)

module _ (sha256 : List ℕ → String) (hmac : List ℕ → List ℕ → String) where
  auth_break-written :
      (key : Option KeyMaterial) (line_no : ℕ) (previous : String) (rec : Fields)
      → auth_break sha256 hmac key line_no (write_record sha256 hmac key previous rec) ≡ none
  unfolding auth_break auth_value is_unsigned as_object is_text get_or as_text
  auth_break-written none line_no previous rec =
      rw (auth_break, auth-written sha256 hmac none previous rec) refl
  auth_break-written (some key) line_no previous rec =
      let hashed = hashed_record sha256 hmac previous rec in
      rw
        (
          auth_break,
          auth-written sha256 hmac (some key) previous rec,
          without_auth sha256 hmac (some key) previous rec,
          verify_auth-make_auth hmac key record_domain (obj (without "auth" hashed)),
        )
        refl

  record_break-written :
      (key : Option KeyMaterial) (line_no : ℕ) (previous : String) (rec : Fields)
      → record_break sha256 hmac key line_no previous (write_record sha256 hmac key previous rec)
        ≡ none
  unfolding record_break
  record_break-written key line_no previous rec =
      rw
        (
          record_break,
          prev-written sha256 hmac key previous rec,
          is_text_self previous,
          record_hash-written sha256 hmac key previous rec,
          hash-written sha256 hmac key previous rec,
          is_text_self (written_hash sha256 hmac previous rec),
        )
        (auth_break-written key line_no previous rec)

  scan_lines-json_line :
      (key : Option KeyMaterial) (line_no count : ℕ) (prev : String) (rec : Fields)
      (lines : List Line)
      → record_break sha256 hmac key line_no prev rec ≡ none
      → scan_lines sha256 hmac key line_no prev count (json_line rec ∷ lines)
        ≡ scan_lines sha256 hmac key (line_no + 1) (record_hash sha256 rec) (count + 1) lines
  unfolding scan_lines as_object
  scan_lines-json_line key line_no count prev rec lines h = rw (scan_lines, h) refl

  -- The hash of the last record that is appended.
  unfoldable pub last_written : String → List Fields → String
  last_written previous [] = previous
  last_written previous (rec ∷ recs) = last_written (written_hash sha256 hmac previous rec) recs

  -- Appended records are scanned to their end.
  pub scan_lines-written :
      (key : Option KeyMaterial) (line_no count : ℕ) (previous : String) (recs : List Fields)
      → scan_lines sha256 hmac key line_no previous count
          (map json_line (write_records sha256 hmac key previous recs))
        ≡ scanned (count + length recs) (last_written previous recs)
  unfolding write_records last_written
  scan_lines-written key line_no count previous [] =
      unfold scan_lines in ap (λ n. scanned n previous) (omega arith)
  scan_lines-written key line_no count previous (rec ∷ recs) =
      let hash = written_hash sha256 hmac previous rec in
      let back = map json_line (write_records sha256 hmac key hash recs) in
      scan_lines-json_line key line_no count previous (write_record sha256 hmac key previous rec)
        back (record_break-written key line_no previous rec)
      ∙ ap (λ h. scan_lines sha256 hmac key (line_no + 1) h (count + 1) back)
          (record_hash-written sha256 hmac key previous rec)
      ∙ scan_lines-written key (line_no + 1) (count + 1) hash recs
      ∙ ap (λ n. scanned n (last_written hash recs)) (omega arith)

  pub scan_lines-append :
      (key : Option KeyMaterial) (front back : List Line) (line_no count n : ℕ) (prev tail : String)
      → scan_lines sha256 hmac key line_no prev count front ≡ scanned n tail
      → (line_no' : ℕ) × (scan_lines sha256 hmac key line_no prev count (front ++ back)
          ≡ scan_lines sha256 hmac key line_no' tail n back)
  unfolding scan_lines
  scan_lines-append key [] back line_no count n prev tail h =
      let same : count ≡ n = cc in let last : prev ≡ tail = cc in (line_no, rw (same, last) refl)
  scan_lines-append key (blank ∷ front) back line_no count n prev tail h =
      scan_lines-append key front back (line_no + 1) count n prev tail h
  scan_lines-append key (not_json ∷ front) back line_no count n prev tail h = cc
  scan_lines-append key (json v ∷ front) back line_no count n prev tail h =
      elim (Option-cases (as_object v)) [
        | inl other ↦ absurd (cc (rw (scan_lines, other) at h))
        | inr (rec, e) ↦ elim (Option-cases (record_break sha256 hmac key line_no prev rec)) [
          | inr (problem, bad) ↦ absurd (cc (rw (scan_lines, e, bad) at h))
          | inl fine ↦
              let (m, rest) =
                scan_lines-append key front back (line_no + 1) (count + 1) n
                  (record_hash sha256 rec) tail (rw (scan_lines, e, fine) at h) in
              (m, rw (scan_lines, e, fine) rest)
        ]
      ]
