-- ===== src/Audit/Complete.antt =====
-- The marker and the records of a full audit before the tests of `fresh_full_audit_proof`.
use plan_auditor.Base.{
  ℕ, suc, String, true, false, Option, none, some, List, [], ◌∷◌, ◌++◌, ◌≡◌, refl, ap, arith,
  string_eq, nat_eq, beq_refl, Dict, is_empty, length, ltb,
}
use plan_auditor.Json.{null, str, arr, Fields, get_or, is_text, as_text, py_eq}
use plan_auditor.PlanGraph.Steps.{Graph}
use plan_auditor.Audit.Records.{id_items, plan_contract_fingerprint}
use plan_auditor.Audit.Counts.{index_all}
use plan_auditor.Audit.Proof.{iter_evidence_records}
use plan_auditor.Audit.Fresh.{
  valid, Scan, empty_scan, names_steps, Workspace, marker_problem, step_proven, first_unproven,
  judge_candidate, judge_scan, prove_graph,
}
use plan_auditor.Audit.Verified.{items_eq-id_items}
use plan_auditor.Audit.Scans.{AreStepRecords, scan_records_complete}

-- The last record of a full audit that succeeded, as the proof reads it.
pub record IsMarker (sha256 : List ℕ → String) (key : String) (plan : Fields) (steps : List Fields)
    (order : List ℕ) (print : String) (marker : Fields) : Type 0 where
  pub of_plan : get_or "plan" marker (str "default") ≡ str key
  pub of_mode : get_or "mode" marker null ≡ str "audit_complete"
  pub is_verified : get_or "status" marker null ≡ str "verified"
  pub of_order : get_or "topological_order" marker null ≡ arr (id_items order)
  pub of_contract :
      get_or "plan_fingerprint" marker null ≡ str (plan_contract_fingerprint sha256 plan steps)
  pub of_workspace : get_or "workspace_fingerprint" marker null ≡ str print

module _ (sha256 : List ℕ → String) (split : String → Option (List String)) (python : String) where
  marker_problem-IsMarker :
      (key print : String) (plan marker : Fields) (steps : List Fields) (order : List ℕ)
      → IsMarker sha256 key plan steps order print marker
      → marker_problem sha256 split python plan steps order print marker ≡ none
  unfolding marker_problem is_text as_text py_eq
  marker_problem-IsMarker key print plan marker steps order m =
      rw
        (
          m.is_verified,
          m.of_order,
          items_eq-id_items order,
          m.of_contract,
          beq_refl (plan_contract_fingerprint sha256 plan steps),
          m.of_workspace,
          beq_refl print,
        )
        refl

  module _ (key : String) (by_id : Dict ℕ Fields) (deps : Graph) where
    names_steps-AreStepRecords :
        (sids : List ℕ) (recs : List Fields)
        → AreStepRecords split python key by_id deps sids recs
        → (names_steps recs sids ≡ true) × (length recs ≡ length sids)
    unfolding AreStepRecords names_steps py_eq
    names_steps-AreStepRecords [] [] p = (refl, refl)
    names_steps-AreStepRecords (sid ∷ sids) (rec ∷ recs) p =
        let (named, long) = names_steps-AreStepRecords sids recs p.1 in
        (rw (p.0.of_step, beq_refl sid) named, ap suc long)
    names_steps-AreStepRecords [] (rec ∷ recs) p = absurd p
    names_steps-AreStepRecords (sid ∷ sids) [] p = absurd p

    first_unproven-AreStepRecords :
        (sids : List ℕ) (recs : List Fields)
        → AreStepRecords split python key by_id deps sids recs
        → first_unproven sha256 split python by_id deps sids recs ≡ some none
    unfolding AreStepRecords first_unproven step_proven is_text as_text
    first_unproven-AreStepRecords [] [] p = refl
    first_unproven-AreStepRecords (sid ∷ sids) (rec ∷ recs) p =
        rw (first_unproven, step_proven, p.0.is_verified, p.0.matches)
          (first_unproven-AreStepRecords sids recs p.1)
    first_unproven-AreStepRecords [] (rec ∷ recs) p = absurd p
    first_unproven-AreStepRecords (sid ∷ sids) [] p = absurd p

    judge_candidate-AreStepRecords :
        (order : List ℕ) (recs : List Fields) (marker : Fields)
        → AreStepRecords split python key by_id deps order recs
        → judge_candidate sha256 split python by_id deps order recs marker
          ≡ some (valid (get_or "ts" marker null) (length order))
    unfolding judge_candidate
    judge_candidate-AreStepRecords order recs marker p =
        let (named, long) = names_steps-AreStepRecords order recs p in
        let enough : ltb (length recs) (length order) ≡ false = ground (arith, long) in
        rw (judge_candidate, enough, named, first_unproven-AreStepRecords order recs p) refl

  judge_scan_complete :
      (key print : String) (plan marker : Fields) (steps recs : List Fields) (t : Scan)
      (order : List ℕ) (deps : Graph)
      → t.candidate ≡ recs
      → t.marker ≡ some marker
      → AreStepRecords split python key (index_all steps) deps order recs
      → IsMarker sha256 key plan steps order print marker
      → judge_scan sha256 split python plan steps order deps print t
        ≡ some (valid (get_or "ts" marker null) (length order))
  unfolding judge_scan
  judge_scan_complete key print plan marker steps recs t order deps taken marked p m =
      rw (judge_scan, marked, marker_problem-IsMarker key print plan marker steps order m, taken)
        (judge_candidate-AreStepRecords key (index_all steps) deps order recs marker p)

  -- Evidence that ends with the records of such an audit proves the plan.
  pub prove_graph_complete :
      (key : String) (plan marker : Fields) (steps before recs : List Fields) (ws : Workspace)
      (order : List ℕ) (deps : Graph)
      → is_empty order ≡ false
      → length (index_all steps) ≡ length order
      → iter_evidence_records ws.files ≡ before ++ (recs ++ marker ∷ [])
      → AreStepRecords split python key (index_all steps) deps order recs
      → IsMarker sha256 key plan steps order ws.print marker
      → prove_graph sha256 split python plan steps key ws order deps
        ≡ some (valid (get_or "ts" marker null) (length order))
  unfolding prove_graph
  prove_graph_complete key plan marker steps before recs ws order deps some_step full stored p m =
      let (t, scanned, taken, marked) =
        scan_records_complete split python key (index_all steps) deps empty_scan before recs order
          marker (unfold empty_scan in omega arith) p m.of_plan m.of_mode in
      rw (prove_graph, some_step, full, beq_refl (length order), stored, scanned)
        (judge_scan_complete key ws.print plan marker steps recs t order deps taken marked p m)
