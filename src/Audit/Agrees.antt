-- ===== src/Audit/Agrees.antt =====
-- `verify_chain` of scripts/audit_check.py and `verify_jsonl_chain` of supervisor/evidence.py: the two readers
-- of the evidence side by side.
use plan_auditor.Base.{
  All, map, sym, subst, ℕ, ◌+◌, String, true, false, Option, none, some, List, [], ◌∷◌, ◌≡◌, ◌↔◌,
  ◌⊎◌, refl, inl, inr, arith, nat_eq, string_eq, ◌==◌, Bool-cases, Option-cases, ok,
}
use plan_auditor.Json.{null, Fields, get_or, has_key, as_object, is_text, as_text, field, end}
use plan_auditor.Integrity.{KeyMaterial}
use plan_auditor.Evidence.Chain.{
  Line, blank, not_json, json, Mode, record_hash, is_authentic, auth_problem, verify_jsonl_chain,
}
use plan_auditor.Evidence.Linked.{IsLinked, verify_jsonl_chain_iff}
use plan_auditor.Evidence.Archives.{is_some}
use plan_auditor.Audit.Refused.{IsReadAlike, read_alike, same_lines, scan_lines-IsRead}
use plan_auditor.Audit.Chain.{
  LineReader, strict_line, ChainScan, scanned, broken, Break, auth_break, record_break, scan_lines,
  HeadState, is_intact, judge_head, judge_chain, verify_chain,
}

-- A key must verify each record, as `verify_chain` asks.
abbrev pub mode_of : Option KeyMaterial → Mode
mode_of key = record { key = key; require_auth = is_some key; ignore_auth = false }

has_key_of_get_or :
    (k s : String) (rec : Fields) → is_text s (get_or k rec null) ≡ true → has_key k rec ≡ true
unfolding has_key get_or is_text as_text
has_key_of_get_or k s end h = cc
has_key_of_get_or k s (field j v rec) h = elim (Bool-cases (k == j)) [
  | inl hit ↦ rw hit refl
  | inr miss ↦ rw miss (has_key_of_get_or k s rec (rw miss at h))
]

ChainScan-cases :
    (s : ChainScan)
    → ((m : ℕ) × (problem : Break) × (s ≡ broken m problem))
      ⊎ ((m : ℕ) × (tail : String) × (s ≡ scanned m tail))
ChainScan-cases (broken m problem) = inl (m, problem, refl)
ChainScan-cases (scanned m tail) = inr (m, tail, refl)

module _ (sha256 : List ℕ → String) (hmac : List ℕ → List ℕ → String)
    (key : Option KeyMaterial) where
  auth_problem-auth_break :
      (line_no : ℕ) (rec : Fields)
      → (auth_problem hmac (mode_of key) line_no rec ≡ none)
        ↔ (auth_break sha256 hmac key line_no rec ≡ none)
  auth_problem-auth_break line_no rec = agree key
    where
      agree :
          (key : Option KeyMaterial)
          → (auth_problem hmac (mode_of key) line_no rec ≡ none)
            ↔ (auth_break sha256 hmac key line_no rec ≡ none)
      agree none = unfold auth_problem auth_break in (λ h. ground arith, λ h. ground arith)
      agree (some k) =
          unfold auth_problem auth_break is_authentic in (λ h. ground arith, λ h. ground arith)

  -- What a record that does not break the chain holds.
  record_break-none :
      (line_no : ℕ) (prev : String) (rec : Fields)
      → record_break sha256 hmac key line_no prev rec ≡ none
      → (is_text prev (get_or "prev" rec null) ≡ true)
        × (is_text (record_hash sha256 rec) (get_or "hash" rec null) ≡ true)
        × (auth_break sha256 hmac key line_no rec ≡ none)
  unfolding record_break
  record_break-none line_no prev rec h = elim (Bool-cases (is_text prev (get_or "prev" rec null))) [
    | inr gap ↦ absurd (cc (rw (record_break, gap) at h))
    | inl named ↦ elim (Bool-cases (is_text (record_hash sha256 rec) (get_or "hash" rec null))) [
      | inr changed ↦ absurd (cc (rw (record_break, named, changed) at h))
      | inl hashed ↦ (named, hashed, rw (record_break, named, hashed) at h)
    ]
  ]

  IsLinked-scan_lines :
      (n count m : ℕ) (prev tail : String) (lines : List Line)
      → scan_lines sha256 hmac key n prev count lines ≡ scanned m tail
      → IsLinked sha256 hmac (mode_of key) n prev lines
  unfolding scan_lines
  IsLinked-scan_lines n count m prev tail [] h = tt
  IsLinked-scan_lines n count m prev tail (blank ∷ lines) h =
      IsLinked-scan_lines (n + 1) count m prev tail lines h
  IsLinked-scan_lines n count m prev tail (not_json ∷ lines) h = cc h
  IsLinked-scan_lines n count m prev tail (json v ∷ lines) h = elim (Option-cases (as_object v)) [
    | inl other ↦ absurd (cc (rw (scan_lines, other) at h))
    | inr (rec, o) ↦ elim (Option-cases (record_break sha256 hmac key n prev rec)) [
      | inr (problem, bad) ↦ absurd (cc (rw (scan_lines, o, bad) at h))
      | inl fine ↦
          let (named, hashed, authentic) = record_break-none n prev rec fine in
          (
            rec,
            record {
              object = o;
              has_prev = has_key_of_get_or "prev" prev rec named;
              names_prev = named;
              names_hash = hashed;
              accepted = (auth_problem-auth_break n rec).1 authentic;
            },
            IsLinked-scan_lines (n + 1) (count + 1) m (record_hash sha256 rec) tail lines
                (rw (scan_lines, o, fine) at h),
          )
    ]
  ]

  scan_lines-IsLinked :
      (n count : ℕ) (prev : String) (lines : List Line)
      → IsLinked sha256 hmac (mode_of key) n prev lines
      → (m : ℕ) × (tail : String) × (scan_lines sha256 hmac key n prev count lines ≡ scanned m tail)
  unfolding scan_lines record_break
  scan_lines-IsLinked n count prev [] i = (count, prev, refl)
  scan_lines-IsLinked n count prev (blank ∷ lines) i =
      scan_lines-IsLinked (n + 1) count prev lines i
  scan_lines-IsLinked n count prev (not_json ∷ lines) i = absurd i
  scan_lines-IsLinked n count prev (json v ∷ lines) (rec, f, rest) =
      let (m, tail, found) =
        scan_lines-IsLinked (n + 1) (count + 1) (record_hash sha256 rec) lines rest in
      (m, tail, rw (scan_lines, f.object, fine) found)
    where
      fine : record_break sha256 hmac key n prev rec ≡ none
      fine =
          rw (record_break, f.names_prev, f.names_hash)
            ((auth_problem-auth_break n rec).0 f.accepted)

  is_intact-judge_head :
      (head : HeadState) (m n : ℕ)
      → is_intact (judge_head key head m) ≡ true
      → is_intact (judge_head key head n) ≡ true
  is_intact-judge_head head m n h = same key h
    where
      same :
          (key : Option KeyMaterial)
          → is_intact (judge_head key head m) ≡ true
          → is_intact (judge_head key head n) ≡ true
      same none e = unfold judge_head in ground arith
      same (some k) e = unfold judge_head in ground arith

  -- Of the same lines the two readers accept the same.
  accepts_lines :
      (head : HeadState) (first : String) (lines : List Line)
      → (is_intact (verify_chain sha256 hmac (ok key) head first (some lines)) ≡ true) ↔ (
          ((verify_jsonl_chain sha256 hmac (mode_of key) first (some lines)).valid ≡ some true)
          × (is_intact (judge_head key head 0) ≡ true))
  unfolding verify_chain judge_chain
  accepts_lines head first lines = (forward, backward)
    where
      forward :
          is_intact (verify_chain sha256 hmac (ok key) head first (some lines)) ≡ true
          → ((verify_jsonl_chain sha256 hmac (mode_of key) first (some lines)).valid ≡ some true)
            × (is_intact (judge_head key head 0) ≡ true)
      forward h = elim (ChainScan-cases (scan_lines sha256 hmac key 1 first 0 lines)) [
        | inl (m, problem, bad) ↦ absurd (cc (rw (verify_chain, judge_chain, bad) at h))
        | inr (m, tail, e) ↦ (
          (verify_jsonl_chain_iff sha256 hmac (mode_of key) first lines).1
              (IsLinked-scan_lines 1 0 m first tail lines e),
          is_intact-judge_head head m 0 (rw (verify_chain, judge_chain, e) at h),
        )
      ]

      backward :
          ((verify_jsonl_chain sha256 hmac (mode_of key) first (some lines)).valid ≡ some true)
            × (is_intact (judge_head key head 0) ≡ true)
          → is_intact (verify_chain sha256 hmac (ok key) head first (some lines)) ≡ true
      backward (valid, head_ok) =
          let (m, tail, e) =
            scan_lines-IsLinked 1 0 first lines
              ((verify_jsonl_chain_iff sha256 hmac (mode_of key) first lines).0 valid) in
          rw (verify_chain, judge_chain, e) (is_intact-judge_head head 0 m head_ok)

  -- `verify_chain` accepts a file exactly where `verify_jsonl_chain` accepts it, with the key required where
  -- there is one, the strict parser refuses no line that `json.loads` reads, and the head is accepted.
  pub verify_chain-verify_jsonl_chain :
      (reader : LineReader) (head : HeadState) (first : String) (texts : List String)
      → (is_intact
            (verify_chain sha256 hmac (ok key) head first (some (map (strict_line reader) texts)))
          ≡ true)
        ↔ (((verify_jsonl_chain sha256 hmac
                (mode_of key)
                first
                (some (map reader.loads texts))).valid
              ≡ some true)
            × All (IsReadAlike reader) texts
            × (is_intact (judge_head key head 0) ≡ true))
  unfolding verify_chain judge_chain
  verify_chain-verify_jsonl_chain reader head first texts = (forward, backward)
    where
      strict : List Line
      strict = map (strict_line reader) texts

      read : List Line
      read = map reader.loads texts

      forward :
          is_intact (verify_chain sha256 hmac (ok key) head first (some strict)) ≡ true
          → ((verify_jsonl_chain sha256 hmac (mode_of key) first (some read)).valid ≡ some true)
            × All (IsReadAlike reader) texts
            × (is_intact (judge_head key head 0) ≡ true)
      forward h = elim (ChainScan-cases (scan_lines sha256 hmac key 1 first 0 strict)) [
        | inl (m, problem, bad) ↦ absurd (cc (rw (verify_chain, judge_chain, bad) at h))
        | inr (m, tail, e) ↦
            let alike =
              read_alike reader texts
                (scan_lines-IsRead sha256 hmac key 1 0 m first tail strict e) in
            let (valid, head_ok) = (accepts_lines head first strict).0 h in
            (
              subst
                  (λ lines.
                    (verify_jsonl_chain sha256 hmac (mode_of key) first (some lines)).valid
                    ≡ some true)
                  (same_lines reader texts alike) valid,
              alike,
              head_ok,
            )
      ]

      backward :
          ((verify_jsonl_chain sha256 hmac (mode_of key) first (some read)).valid ≡ some true)
            × All (IsReadAlike reader) texts
            × (is_intact (judge_head key head 0) ≡ true)
          → is_intact (verify_chain sha256 hmac (ok key) head first (some strict)) ≡ true
      backward (valid, alike, head_ok) = (accepts_lines head first strict).1 (
        subst
            (λ lines.
              (verify_jsonl_chain sha256 hmac (mode_of key) first (some lines)).valid ≡ some true)
            (sym (same_lines reader texts alike)) valid,
        head_ok,
      )
