-- ===== src/Audit/Sound.antt =====
-- supervisor/orchestrator.py: which records the pass over the evidence holds.
use plan_auditor.Base.{
  beq→eq, Option-cases, ℕ, String, true, some, List, [], ◌∷◌, ◌++◌, ◌≡◌, inl, inr, nat_eq,
  string_eq, Bool-cases, All, All-append, length, ltb, keep, append-nil, append_assoc, refl, sym,
  ap, ◌∙◌, ◌&&◌, Bool, false, if◌then◌else◌,
}
use mathlib.Core.Option.{some-injective}
use plan_auditor.Json.{Value, null, str, Fields, get_or, is_text, as_text}
use plan_auditor.Audit.Fresh.{drop_first, push_bounded, Scan, scan_record, scan_records, empty_scan}

-- Whether a record is of the plan, in the mode.
abbrev pub is_of : String → String → Fields → Bool
is_of name mode rec =
    is_text name (get_or "plan" rec (str "default")) && is_text mode (get_or "mode" rec null)

-- The list is the end of the other list.
abbrev pub IsEnd : List Fields → List Fields → Type 0
IsEnd end all = (older : List Fields) × (all ≡ older ++ end)

-- The marker is the last record of a full audit of the plan in the evidence, and the candidate is the end of the
-- audit records of the plan in front of it.
pub record IsLast (name : String) (evidence : List Fields) (marker : Fields)
    (candidate : List Fields) : Type 0 where
  pub front : List Fields
  pub back : List Fields
  pub found : evidence ≡ front ++ marker ∷ back
  pub of_mode : is_of name "audit_complete" marker ≡ true
  pub none_behind : All (λ rec. is_of name "audit_complete" rec ≡ false) back
  pub in_front : IsEnd candidate (keep (is_of name "audit") front)

-- What the pass holds behind the records that it has seen.
pub record IsScan (name : String) (seen : List Fields) (s : Scan) : Type 0 where
  pub pending_of : IsEnd s.pending (keep (is_of name "audit") seen)
  pub marker_of : (marker : Fields) → s.marker ≡ some marker → IsLast name seen marker s.candidate

pub empty_scan-IsScan : (name : String) → IsScan name [] empty_scan
unfolding empty_scan
empty_scan-IsScan name = record { pending_of = ([], refl); marker_of = λ marker e. cc e }

push_bounded-IsEnd :
    (n : ℕ) (x : Fields) (pending all : List Fields)
    → IsEnd pending all
    → IsEnd (push_bounded n x pending) (all ++ x ∷ [])
unfolding push_bounded drop_first
push_bounded-IsEnd n x [] all (older, e) = elim (Bool-cases (ltb n 1)) [
  | inl over ↦ rw over (all ++ x ∷ [], sym (append-nil (all ++ x ∷ [])))
  | inr fits ↦ rw fits (all, refl)
]
push_bounded-IsEnd n x (y ∷ pending) all (older, e) =
    elim (Bool-cases (ltb n (length ((y ∷ pending) ++ x ∷ [])))) [
      | inl over ↦ rw over (
        older ++ y ∷ [],
        ap (λ l. l ++ x ∷ []) e
            ∙ append_assoc older (y ∷ pending) (x ∷ [])
            ∙ sym (append_assoc older (y ∷ []) (pending ++ x ∷ [])),
      )
      | inr fits ↦
          rw fits (older, ap (λ l. l ++ x ∷ []) e ∙ append_assoc older (y ∷ pending) (x ∷ []))
    ]

-- A record that is no last record of a full audit leaves the marker the last one.
IsLast-snoc :
    (name : String) (seen candidate : List Fields) (marker rec : Fields)
    → is_of name "audit_complete" rec ≡ false
    → IsLast name seen marker candidate
    → IsLast name (seen ++ rec ∷ []) marker candidate
IsLast-snoc name seen candidate marker rec other i = record {
  front = i.front;
  back = i.back ++ rec ∷ [];
  found = ap (λ l. l ++ rec ∷ []) i.found ∙ append_assoc i.front (marker ∷ i.back) (rec ∷ []);
  of_mode = i.of_mode;
  none_behind =
      All-append (λ r. is_of name "audit_complete" r ≡ false) i.back (rec ∷ []) i.none_behind
        (other, tt);
  in_front = i.in_front;
}

keep-snoc :
    (p : Fields → Bool) (xs : List Fields) (x : Fields)
    → keep p (xs ++ x ∷ []) ≡ (if p x then keep p xs ++ x ∷ [] else keep p xs)
keep-snoc p [] x = refl
keep-snoc p (y ∷ xs) x = elim (Bool-cases (p y)) [
  | inl hit ↦ elim (Bool-cases (p x)) [
    | inl kept ↦ rw (hit, keep-snoc p xs x, kept) refl
    | inr out ↦ rw (hit, keep-snoc p xs x, out) refl
  ]
  | inr miss ↦ rw (miss, keep-snoc p xs x) refl
]

-- A mode is one text.
one_mode : (v : Value) → is_text "audit_complete" v ≡ true → is_text "audit" v ≡ false
unfolding is_text
one_mode v h = elim (Option-cases (as_text v)) [
  | inl other ↦ rw (is_text, other) refl
  | inr (text, e) ↦ rw (is_text, e, beq→eq text "audit_complete" (rw (is_text, e) at h)) refl
]

kept_out :
    (name : String) (seen : List Fields) (rec : Fields)
    → is_of name "audit" rec ≡ false
    → keep (is_of name "audit") (seen ++ rec ∷ []) ≡ keep (is_of name "audit") seen
kept_out name seen rec out = keep-snoc (is_of name "audit") seen rec ∙ rw out refl

-- A record that is no audit record and no last record changes nothing.
skipped-IsScan :
    (name : String) (seen : List Fields) (s : Scan) (rec : Fields)
    → is_of name "audit_complete" rec ≡ false
    → is_of name "audit" rec ≡ false
    → IsScan name seen s
    → IsScan name (seen ++ rec ∷ []) s
skipped-IsScan name seen s rec going out i = record {
  pending_of = (i.pending_of.0, kept_out name seen rec out ∙ i.pending_of.1);
  marker_of = λ marker e. IsLast-snoc name seen s.candidate marker rec going (i.marker_of marker e);
}

scan_record-IsScan :
    (n : ℕ) (name : String) (seen : List Fields) (s : Scan) (rec : Fields)
    → IsScan name seen s
    → IsScan name (seen ++ rec ∷ []) (scan_record n name s rec)
unfolding scan_record
scan_record-IsScan n name seen s rec i =
    elim (Bool-cases (is_text name (get_or "plan" rec (str "default")))) [
      | inr other ↦
          rw (scan_record, other)
            (skipped-IsScan name seen s rec (rw (is_of, other) refl) (rw (is_of, other) refl) i)
      | inl same ↦ elim (Bool-cases (is_text "audit_complete" (get_or "mode" rec null))) [
        | inl complete ↦
            let out = one_mode (get_or "mode" rec null) complete in
            rw (scan_record, same, complete)
              (record {
                pending_of = (
                  i.pending_of.0,
                  kept_out name seen rec (rw (is_of, same, out) refl) ∙ i.pending_of.1,
                );
                marker_of = λ marker e. rw (← some-injective rec marker e) (record {
                  front = seen;
                  back = [];
                  found = refl;
                  of_mode = rw (is_of, same, complete) refl;
                  none_behind = tt;
                  in_front = i.pending_of;
                });
              })
        | inr going ↦ elim (Bool-cases (is_text "audit" (get_or "mode" rec null))) [
          | inr neither ↦
              rw (scan_record, same, going, neither)
                (skipped-IsScan name seen s rec (rw (is_of, same, going) refl)
                  (rw (is_of, same, neither) refl) i)
          | inl audit ↦
              let hit : is_of name "audit" rec ≡ true = rw (is_of, same, audit) refl in
              rw (scan_record, same, going, audit)
                (record {
                  pending_of =
                      rw (keep-snoc (is_of name "audit") seen rec, hit)
                        (push_bounded-IsEnd n rec s.pending (keep (is_of name "audit") seen)
                          i.pending_of);
                  marker_of = λ marker e.
                      IsLast-snoc name seen s.candidate marker rec (rw (is_of, same, going) refl)
                        (i.marker_of marker e);
                })
        ]
      ]
    ]

pub scan_records-IsScan :
    (n : ℕ) (name : String) (seen : List Fields) (s : Scan) (recs : List Fields)
    → IsScan name seen s
    → IsScan name (seen ++ recs) (scan_records n name s recs)
unfolding scan_records
scan_records-IsScan n name seen s [] i = rw (append-nil seen) i
scan_records-IsScan n name seen s (rec ∷ recs) i = rw (← append_assoc seen (rec ∷ []) recs) (
    scan_records-IsScan n name (seen ++ rec ∷ []) (scan_record n name s rec) recs
      (scan_record-IsScan n name seen s rec i))
