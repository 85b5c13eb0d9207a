-- ===== src/Audit/Continued.antt =====
-- scripts/audit_check.py: what `verify_chain` says of the evidence behind one more record.
use plan_auditor.Base.{
  subst, and-false, ℕ, ◌+◌, ◌<◌, String, Bool, true, false, not, ◌||◌, Option, none, some, List, [],
  ◌∷◌, ◌≡◌, ◌≢◌, refl, sym, ap, ◌∙◌, inl, inr, arith, nat_eq, string_eq, ◌==◌, beq→eq, beq_refl,
  Bool-cases, Option-cases, if◌then◌else◌, ltb, ok,
}
use plan_auditor.Json.{Value, null, obj, Fields, get_or, as_object, as_text, is_text}
use plan_auditor.Integrity.{KeyMaterial}
use plan_auditor.Evidence.Chain.{
  Line, blank, not_json, json, genesis, record_hash, record_count, count_lines,
}
use plan_auditor.Audit.Chain.{
  scanned, broken, record_break, scan_lines, HeadState, broken_at, prev_broken, judge_head,
  judge_chain, verify_chain, write_record, write_records,
}
use plan_auditor.Audit.Append.{
  line_hash, last_hash, last_record_hash, Checkpoint, first_hash, previous_of_log,
  previous_of_checkpoint, choose_previous, append_line,
}
use plan_auditor.Audit.Grown.{scan_lines-append, scan_lines-written, prev-written, last_written}

-- A log goes on behind its last record where there is no checkpoint of records, where the checkpoint names that record,
-- or where the log is one record ahead.
abbrev pub goes_on : Option Checkpoint → ℕ → String → Bool
goes_on none n tail = true
goes_on (some head) n tail =
    not (ltb 0 head.active_count) || tail == head.active_tail || n == head.active_count + 1

-- A digest is not the empty text.
abbrev pub IsDigest : (List ℕ → String) → Type 0
IsDigest sha256 = (bytes : List ℕ) → sha256 bytes ≢ ""

last_hash-any :
    (a b : String) (lines : List Line)
    → 0 < count_lines lines
    → last_hash a lines ≡ last_hash b lines
unfolding last_hash count_lines
last_hash-any a b [] h = absurd (omega (arith, h))
last_hash-any a b (blank ∷ lines) h = last_hash-any a b lines h
last_hash-any a b (not_json ∷ lines) h = refl
last_hash-any a b (json v ∷ lines) h = refl

module _ (sha256 : List ℕ → String) (hmac : List ℕ → List ℕ → String) (digest : IsDigest sha256)
    (key : Option KeyMaterial) where
  record_break-hash :
      (line_no : ℕ) (prev : String) (rec : Fields)
      → record_break sha256 hmac key line_no prev rec ≡ none
      → is_text (record_hash sha256 rec) (get_or "hash" rec null) ≡ true
  unfolding record_break
  record_break-hash line_no prev rec h = elim (Bool-cases (is_text prev (get_or "prev" rec null))) [
    | inr cut ↦ absurd (cc (rw (record_break, cut) at h))
    | inl linked ↦ elim (Bool-cases (is_text (record_hash sha256 rec) (get_or "hash" rec null))) [
      | inl same ↦ same
      | inr changed ↦ absurd (cc (rw (record_break, linked, changed) at h))
    ]
  ]

  digest-empty : (rec : Fields) → (record_hash sha256 rec == "") ≡ false
  unfolding record_hash
  digest-empty rec = elim (Bool-cases (record_hash sha256 rec == "")) [
    | inl blank_hash ↦ absurd (digest _ (beq→eq (record_hash sha256 rec) "" blank_hash))
    | inr full ↦ full
  ]

  line_hash-scanned :
      (line_no : ℕ) (prev : String) (v : Value) (rec : Fields)
      → as_object v ≡ some rec
      → record_break sha256 hmac key line_no prev rec ≡ none
      → line_hash (json v) ≡ record_hash sha256 rec
  unfolding line_hash is_text
  line_hash-scanned line_no prev v rec e fine =
      elim (Option-cases (as_text (get_or "hash" rec null))) [
        | inl other ↦ absurd (cc (rw (is_text, other) at (record_break-hash line_no prev rec fine)))
        | inr (text, f) ↦
            let same =
              beq→eq text (record_hash sha256 rec)
                (rw (is_text, f) at (record_break-hash line_no prev rec fine)) in
            rw (line_hash, e, f, same, digest-empty rec) refl
      ]

  -- What is scanned to its end has the last hash of the file and as many records as lines.
  scan_lines-last_hash :
      (line_no count n : ℕ) (prev tail : String) (lines : List Line)
      → scan_lines sha256 hmac key line_no prev count lines ≡ scanned n tail
      → (last_hash prev lines ≡ tail) × (count + count_lines lines ≡ n)
  unfolding scan_lines last_hash count_lines
  scan_lines-last_hash line_no count n prev tail [] h =
      let same : count ≡ n = cc in let last : prev ≡ tail = cc in (last, omega (arith, same))
  scan_lines-last_hash line_no count n prev tail (blank ∷ lines) h =
      scan_lines-last_hash (line_no + 1) count n prev tail lines h
  scan_lines-last_hash line_no count n prev tail (not_json ∷ lines) h = absurd (cc h)
  scan_lines-last_hash line_no count n prev tail (json v ∷ lines) h =
      elim (Option-cases (as_object v)) [
        | inl other ↦ absurd (cc (rw (scan_lines, other) at h))
        | inr (rec, e) ↦ elim (Option-cases (record_break sha256 hmac key line_no prev rec)) [
          | inr (problem, bad) ↦ absurd (cc (rw (scan_lines, e, bad) at h))
          | inl fine ↦
              let (last, total) =
                scan_lines-last_hash (line_no + 1) (count + 1) n (record_hash sha256 rec) tail lines
                  (rw (scan_lines, e, fine) at h) in
              (
                ap (λ hash. last_hash hash lines) (line_hash-scanned line_no prev v rec e fine)
                    ∙ last,
                omega (arith, total),
              )
        ]
      ]

  module _ (archive : Option String) (n : ℕ) (tail : String) (lines : List Line)
      (last : last_record_hash (some lines) ≡ tail) (total : record_count (some lines) ≡ n) where
    previous_of_log-tail : 0 < n → previous_of_log archive (some lines) ≡ tail
    unfolding previous_of_log
    previous_of_log-tail there =
        let filled : ltb 0 n ≡ true = ground (arith, there) in
        rw (previous_of_log, total, filled) last

    -- The hash that is chosen behind a log that goes on.
    choose_previous-goes_on :
        (head : Option Checkpoint)
        → 0 < n
        → tail ≢ genesis
        → goes_on head n tail ≡ true
        → choose_previous head archive (some lines) ≡ tail
    unfolding choose_previous previous_of_checkpoint
    choose_previous-goes_on none there real h = previous_of_log-tail there
    choose_previous-goes_on (some head) there real h = elim (Bool-cases (ltb 0 head.active_count)) [
      | inr unset ↦ rw (choose_previous, unset) (previous_of_log-tail there)
      | inl set ↦ elim (Bool-cases (tail == head.active_tail)) [
        | inl agrees ↦ rw (choose_previous, set, previous_of_checkpoint, last, agrees) refl
        | inr differs ↦ elim (Bool-cases (tail == genesis)) [
          | inl empty ↦ absurd (real (beq→eq tail genesis empty))
          | inr full ↦
              let ahead : (n == head.active_count + 1) ≡ true = rw (goes_on, set, differs) at h in
              rw (choose_previous, set, previous_of_checkpoint, last, differs, full, total, ahead)
                refl
        ]
      ]
    ]

    -- Of any other log the hash of the checkpoint is chosen.
    choose_previous-cut :
        (head : Option Checkpoint)
        → goes_on head n tail ≡ false
        → (choose_previous head archive (some lines) == tail) ≡ false
    unfolding choose_previous previous_of_checkpoint
    choose_previous-cut none h = absurd (cc h)
    choose_previous-cut (some head) h = elim (Bool-cases (ltb 0 head.active_count)) [
      | inr unset ↦ absurd (cc (rw (goes_on, unset) at h))
      | inl set ↦ elim (Bool-cases (tail == head.active_tail)) [
        | inl agrees ↦ absurd (cc (rw (goes_on, set, agrees) at h))
        | inr differs ↦
            let behind : (n == head.active_count + 1) ≡ false = rw (goes_on, set, differs) at h in
            rw
              (
                choose_previous,
                set,
                previous_of_checkpoint,
                last,
                differs,
                total,
                behind,
                and-false (not (tail == genesis)),
              )
              (elim (Bool-cases (head.active_tail == tail)) [
                | inl same ↦ absurd (cc (differs, beq_refl tail, beq→eq head.active_tail tail same))
                | inr other ↦ other
              ])
      ]
    ]

  -- A record that names the last hash is counted.
  scan_lines-one :
      (line_no count : ℕ) (tail previous : String) (rec : Fields)
      → previous ≡ tail
      → (hash : String) × (scan_lines sha256 hmac key line_no tail count
            (json (obj (write_record sha256 hmac key previous rec)) ∷ [])
          ≡ scanned (count + 1) hash)
  unfolding write_records
  scan_lines-one line_no count tail previous rec same = (
    last_written sha256 hmac tail (rec ∷ []),
    subst
        (λ p.
          scan_lines sha256 hmac key line_no tail count
            (json (obj (write_record sha256 hmac key p rec)) ∷ [])
          ≡ scanned (count + 1) (last_written sha256 hmac tail (rec ∷ [])))
        (sym same) (scan_lines-written sha256 hmac key line_no count tail (rec ∷ [])),
  )

  -- A record that names another hash breaks the chain.
  scan_lines-cut :
      (line_no count : ℕ) (tail previous : String) (rec : Fields)
      → (previous == tail) ≡ false
      → scan_lines sha256 hmac key line_no tail count
          (json (obj (write_record sha256 hmac key previous rec)) ∷ [])
        ≡ broken count (prev_broken line_no)
  unfolding scan_lines record_break as_object is_text as_text
  scan_lines-cut line_no count tail previous rec other =
      rw (scan_lines, record_break, prev-written sha256 hmac key previous rec, is_text, other) refl

  -- Where the log has records and is unbroken, `verify_chain` counts one more record where the log goes on, and else
  -- the new record breaks the chain.
  pub verify_chain-append_line :
      (head : Option Checkpoint) (archive : Option String) (state : HeadState) (lines : List Line)
      (n : ℕ) (tail : String) (rec : Fields)
      → scan_lines sha256 hmac key 1 (first_hash archive) 0 lines ≡ scanned n tail
      → 0 < n
      → tail ≢ genesis
      → (line_no : ℕ) × (verify_chain sha256 hmac
            (ok key)
            state
            (first_hash archive)
            (some (append_line sha256 hmac key head archive lines rec))
          ≡ (if goes_on head n tail
              then judge_head key state (n + 1)
              else broken_at n (prev_broken line_no)))
  unfolding verify_chain judge_chain append_line
  verify_chain-append_line head archive state lines n tail rec h there real =
      let previous = choose_previous head archive (some lines) in
      let new = json (obj (write_record sha256 hmac key previous rec)) ∷ [] in
      let (start, total) = scan_lines-last_hash 1 0 n (first_hash archive) tail lines h in
      let (line_no, joined) =
        scan_lines-append sha256 hmac key lines new 1 0 n (first_hash archive) tail h in
      let last : last_record_hash (some lines) ≡ tail =
        unfold last_record_hash in
        last_hash-any genesis (first_hash archive) lines (omega (arith, total, there)) ∙ start in
      let counted : record_count (some lines) ≡ n = unfold record_count in omega (arith, total) in
      (
        line_no,
        elim (Bool-cases (goes_on head n tail)) [
          | inl on ↦
              let same =
                choose_previous-goes_on archive n tail lines last counted head there real on in
              let (hash, one) = scan_lines-one line_no n tail previous rec same in
              ap (judge_chain key state) (joined ∙ one) ∙ rw on refl
          | inr cut ↦
              let other = choose_previous-cut archive n tail lines last counted head cut in
              ap (judge_chain key state) (joined ∙ scan_lines-cut line_no n tail previous rec other)
              ∙ rw cut refl
        ],
      )
