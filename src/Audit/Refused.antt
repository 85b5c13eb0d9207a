-- ===== src/Audit/Refused.antt =====
-- scripts/audit_check.py: the lines that `_strict_external_json` refuses, and the pass of `verify_chain` over them.
use plan_auditor.Base.{
  All, map, subst, ℕ, ◌+◌, String, Option, List, [], ◌∷◌, ◌≡◌, ◌⊎◌, refl, inl, inr, nat_eq,
  string_eq, Bool-cases, Option-cases,
}
use plan_auditor.Json.{Value, as_object}
use plan_auditor.Integrity.{KeyMaterial}
use plan_auditor.Evidence.Chain.{Line, blank, not_json, json, record_hash}
use plan_auditor.Audit.Chain.{LineReader, strict_line, scanned, record_break, scan_lines}

-- The strict parser makes of the line what `json.loads` makes of it.
abbrev pub IsReadAlike : LineReader → String → Type 0
IsReadAlike reader text = strict_line reader text ≡ reader.loads text

abbrev pub IsRead : Line → Type 0
IsRead not_json = ⊥
IsRead _ = Unit {0}

strict_line-cases :
    (reader : LineReader) (text : String)
    → (strict_line reader text ≡ not_json) ⊎ IsReadAlike reader text
unfolding strict_line
strict_line-cases reader text = elim (Line-cases (reader.loads text)) [
  | inl e ↦ inr (rw (strict_line, e) refl)
  | inr (inl e) ↦ inl (rw (strict_line, e) refl)
  | inr (inr (v, e)) ↦ elim (Bool-cases (reader.is_strict text)) [
    | inl strict ↦ inr (rw (strict_line, e, strict) refl)
    | inr loose ↦ inl (rw (strict_line, e, loose) refl)
  ]
]
  where
    Line-cases : (l : Line) → (l ≡ blank) ⊎ ((l ≡ not_json) ⊎ ((v : Value) × (l ≡ json v)))
    Line-cases blank = inl refl
    Line-cases not_json = inr (inl refl)
    Line-cases (json v) = inr (inr (v, refl))

pub read_alike :
    (reader : LineReader) (texts : List String)
    → All IsRead (map (strict_line reader) texts)
    → All (IsReadAlike reader) texts
read_alike reader [] h = tt
read_alike reader (text ∷ texts) (here, there) = elim (strict_line-cases reader text) [
  | inl refused ↦ absurd (subst IsRead refused here)
  | inr alike ↦ (alike, read_alike reader texts there)
]

pub same_lines :
    (reader : LineReader) (texts : List String)
    → All (IsReadAlike reader) texts
    → map (strict_line reader) texts ≡ map reader.loads texts
same_lines reader [] h = refl
same_lines reader (text ∷ texts) (here, there) = cc (here, same_lines reader texts there)

module _ (sha256 : List ℕ → String) (hmac : List ℕ → List ℕ → String)
    (key : Option KeyMaterial) where
  -- A line that is scanned to its end is no refused text.
  pub scan_lines-IsRead :
      (line_no count n : ℕ) (prev tail : String) (lines : List Line)
      → scan_lines sha256 hmac key line_no prev count lines ≡ scanned n tail
      → All IsRead lines
  unfolding scan_lines
  scan_lines-IsRead line_no count n prev tail [] h = tt
  scan_lines-IsRead line_no count n prev tail (blank ∷ lines) h =
      (tt, scan_lines-IsRead (line_no + 1) count n prev tail lines h)
  scan_lines-IsRead line_no count n prev tail (not_json ∷ lines) h = absurd (cc h)
  scan_lines-IsRead line_no count n prev tail (json v ∷ lines) h =
      elim (Option-cases (as_object v)) [
        | inl other ↦ absurd (cc (rw (scan_lines, other) at h))
        | inr (rec, e) ↦ elim (Option-cases (record_break sha256 hmac key line_no prev rec)) [
          | inr (problem, bad) ↦ absurd (cc (rw (scan_lines, e, bad) at h))
          | inl fine ↦ (
            tt,
            scan_lines-IsRead (line_no + 1) (count + 1) n (record_hash sha256 rec) tail lines
                (rw (scan_lines, e, fine) at h),
          )
        ]
      ]
