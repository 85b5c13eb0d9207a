-- ===== src/Audit/Scans.antt =====
-- supervisor/orchestrator.py: what the pass over the evidence holds behind the records of a full audit.
use plan_auditor.Base.{
  ℕ, suc, ◌+◌, ◌≤◌, String, not, Option, some, List, [], ◌∷◌, ◌++◌, ◌≡◌, refl, sym, ap, ◌∙◌, inl,
  inr, arith, subst, string_eq, nat_eq, beq_refl, Bool-cases, length, length-append, ltb,
  append_assoc, append-nil, Dict,
}
use plan_auditor.Json.{null, str, Fields, get_or, is_text, as_text}
use plan_auditor.PlanGraph.Steps.{Graph}
use plan_auditor.Audit.Verified.{IsStepRecord}
use plan_auditor.Audit.Fresh.{drop_first, push_bounded, Scan, scan_record, scan_records}

drop_first-append :
    (n : ℕ) (x : Fields) (q done : List Fields)
    → length (q ++ done) ≤ n
    → suc (length done) ≤ n
    → (q' : List Fields) × (push_bounded n x (q ++ done) ≡ q' ++ (done ++ x ∷ []))
      × (length (q' ++ (done ++ x ∷ [])) ≤ n)
unfolding push_bounded drop_first
drop_first-append n x [] done room next_room =
    let long = length-append done (x ∷ []) in ([], ground (arith, long), ground (arith, long))
drop_first-append n x (y ∷ q) done room next_room =
    let long = length-append (q ++ done) (x ∷ []) in
    let same = append_assoc q done (x ∷ []) in
    elim (Bool-cases (ltb n (length ((y ∷ q ++ done) ++ x ∷ [])))) [
      | inl over ↦ (q, rw over same, subst (λ l. length l ≤ n) same (ground (arith, long)))
      | inr fits ↦ (
        y ∷ q,
        rw fits (ap (λ l. y ∷ l) same),
        subst (λ l. length (y ∷ l) ≤ n) same (ground (arith, long)),
      )
    ]

push_bounded-le :
    (n : ℕ) (x : Fields) (p : List Fields) → length p ≤ n → length (push_bounded n x p) ≤ n
unfolding push_bounded drop_first
push_bounded-le n x [] room = ground arith
push_bounded-le n x (y ∷ p) room = ground (arith, length-append p (x ∷ []))

-- The records that prove the steps, in order.
unfoldable pub AreStepRecords :
    (String → Option (List String))
    → String
    → String
    → Dict ℕ Fields
    → Graph
    → List ℕ
    → List Fields
    → Type 0
AreStepRecords split python key by_id deps [] [] = Unit {0}
AreStepRecords split python key by_id deps (sid ∷ sids) (rec ∷ recs) =
    IsStepRecord split python key by_id deps sid rec
    × AreStepRecords split python key by_id deps sids recs
AreStepRecords split python key by_id deps _ _ = ⊥

module _ (split : String → Option (List String)) (python plan_name : String) (by_id : Dict ℕ Fields)
    (deps : Graph) where
  AreStepRecords-length :
      (sids : List ℕ) (recs : List Fields)
      → AreStepRecords split python plan_name by_id deps sids recs
      → length recs ≡ length sids
  unfolding AreStepRecords
  AreStepRecords-length [] [] p = refl
  AreStepRecords-length (sid ∷ sids) (rec ∷ recs) p = ap suc (AreStepRecords-length sids recs p.1)
  AreStepRecords-length [] (rec ∷ recs) p = absurd p
  AreStepRecords-length (sid ∷ sids) [] p = absurd p

  scan_record-audit :
      (n : ℕ) (s : Scan) (rec : Fields) (sid : ℕ)
      → IsStepRecord split python plan_name by_id deps sid rec
      → scan_record n plan_name s rec ≡ record s { pending = push_bounded n rec s.pending }
  unfolding scan_record is_text as_text
  scan_record-audit n s rec sid p = rw (p.of_plan, beq_refl plan_name, p.of_audit) refl

  -- A list of as many records as the deque holds fills it.
  scan_records-audit :
      (n : ℕ) (s : Scan) (q done recs : List Fields) (sids : List ℕ)
      → AreStepRecords split python plan_name by_id deps sids recs
      → s.pending ≡ q ++ done
      → length (q ++ done) ≤ n
      → length done + length recs ≡ n
      → scan_records n plan_name s recs ≡ record s { pending = done ++ recs }
  unfolding AreStepRecords scan_records
  scan_records-audit n s [] done [] sids p here room full =
      ap (λ l. record s { pending = l }) (here ∙ sym (append-nil done))
  scan_records-audit n s (y ∷ q) done [] sids p here room full =
      absurd (omega (arith, room, full, length-append q done))
  scan_records-audit n s q done (rec ∷ recs) [] p here room full = absurd p
  scan_records-audit n s q done (rec ∷ recs) (sid ∷ sids) p here room full =
      let (q', pushed, room') = drop_first-append n rec q done room (omega (arith, full)) in
      let s' = record s { pending = push_bounded n rec s.pending } in
      ap (λ t. scan_records n plan_name t recs) (scan_record-audit n s rec sid p.0)
      ∙ scan_records-audit n s' q' (done ++ rec ∷ []) recs sids p.1
          (ap (push_bounded n rec) here ∙ pushed) room'
          (omega (arith, full, length-append done (rec ∷ [])))
      ∙ ap (λ l. record s { pending = l }) (append_assoc done (rec ∷ []) recs)

  scan_record-le :
      (n : ℕ) (s : Scan) (rec : Fields)
      → length s.pending ≤ n
      → length (scan_record n plan_name s rec).pending ≤ n
  unfolding scan_record
  scan_record-le n s rec room =
      elim (Bool-cases (not (is_text plan_name (get_or "plan" rec (str "default"))))) [
        | inl other ↦ rw (scan_record, other) room
        | inr same ↦ elim (Bool-cases (is_text "audit_complete" (get_or "mode" rec null))) [
          | inl complete ↦ rw (scan_record, same, complete) room
          | inr going ↦ elim (Bool-cases (is_text "audit" (get_or "mode" rec null))) [
            | inl audit ↦
                rw (scan_record, same, going, audit) (push_bounded-le n rec s.pending room)
            | inr neither ↦ rw (scan_record, same, going, neither) room
          ]
        ]
      ]

  scan_records-le :
      (n : ℕ) (s : Scan) (recs : List Fields)
      → length s.pending ≤ n
      → length (scan_records n plan_name s recs).pending ≤ n
  unfolding scan_records
  scan_records-le n s [] room = room
  scan_records-le n s (rec ∷ recs) room =
      scan_records-le n (scan_record n plan_name s rec) recs (scan_record-le n s rec room)

  scan_records-append :
      (n : ℕ) (s : Scan) (front back : List Fields)
      → scan_records n plan_name s (front ++ back)
        ≡ scan_records n plan_name (scan_records n plan_name s front) back
  unfolding scan_records
  scan_records-append n s [] back = refl
  scan_records-append n s (rec ∷ front) back =
      scan_records-append n (scan_record n plan_name s rec) front back

  scan_record_complete :
      (n : ℕ) (s : Scan) (last : Fields)
      → get_or "plan" last (str "default") ≡ str plan_name
      → get_or "mode" last null ≡ str "audit_complete"
      → scan_record n plan_name s last ≡ record s { marker = some last; candidate = s.pending }
  unfolding scan_record is_text as_text
  scan_record_complete n s last of_plan of_mode = rw (of_plan, beq_refl plan_name, of_mode) refl

  -- Behind the records of a full audit and its last record, whatever stood in front, these are the candidate
  -- and the marker.
  pub scan_records_complete :
      (s : Scan) (before recs : List Fields) (sids : List ℕ) (last : Fields)
      → length s.pending ≤ length sids
      → AreStepRecords split python plan_name by_id deps sids recs
      → get_or "plan" last (str "default") ≡ str plan_name
      → get_or "mode" last null ≡ str "audit_complete"
      → (t : Scan) × (scan_records (length sids) plan_name s (before ++ (recs ++ last ∷ [])) ≡ t)
        × (t.candidate ≡ recs)
        × (t.marker ≡ some last)
  scan_records_complete s before recs sids last room p of_plan of_mode =
      let n = length sids in
      let mid = scan_records n plan_name s before in
      let full = record mid { pending = recs } in
      let shape = append-nil mid.pending in
      let filled =
        scan_records-audit n mid mid.pending [] recs sids p (sym shape)
          (subst (λ l. length l ≤ n) (sym shape) (scan_records-le n s before room))
          (omega (arith, AreStepRecords-length sids recs p)) in
      (
        record full { marker = some last; candidate = recs },
        scan_records-append n s before (recs ++ last ∷ [])
            ∙ scan_records-append n mid recs (last ∷ [])
            ∙ ap (λ t. scan_records n plan_name t (last ∷ [])) filled
            ∙ finished n full,
        refl,
        refl,
      )
    where
      finished :
          (n : ℕ) (t : Scan)
          → scan_records n plan_name t (last ∷ [])
            ≡ record t { marker = some last; candidate = t.pending }
      finished n t = unfold scan_records in scan_record_complete n t last of_plan of_mode
