-- ===== src/Audit/Valid.antt =====
-- supervisor/orchestrator.py: what stands in the evidence where `fresh_full_audit_proof` is valid.
use plan_auditor.Base.{
  ℕ, String, true, false, not, ◌||◌, Option, none, some, List, [], ◌∷◌, ◌≡◌, inl, inr, nat_eq,
  string_eq, ◌==◌, Bool-cases, Option-cases, Result-cases, and-true, is_empty, length, ltb, Dict,
  lookup_or, ok,
}
use mathlib.Core.Option.{some-injective}
use plan_auditor.Json.{Value, null, arr, Fields, end, get_or, is_text, py_eq}
use plan_auditor.PlanGraph.Steps.{Graph, effective_dependencies}
use plan_auditor.PlanGraph.Order.{topological_order}
use plan_auditor.Evidence.Archives.{verify_anchor_chain}
use plan_auditor.Audit.Records.{nat, id_items, plan_contract_fingerprint}
use plan_auditor.Audit.Counts.{index_all}
use plan_auditor.Audit.Proof.{iter_evidence_records, checks_match}
use plan_auditor.Audit.Fresh.{
  valid, Scan, scan_records, empty_scan, names_steps, Workspace, marker_problem, step_proven,
  first_unproven, judge_candidate, judge_scan, prove_graph, fresh_full_audit_proof,
}
use plan_auditor.Audit.Sound.{IsLast, empty_scan-IsScan, scan_records-IsScan}

module _ (split : String → Option (List String)) (python : String) (by_id : Dict ℕ Fields)
    (deps : Graph) where
  -- Each step has a record that names it, is verified and matches its contract and its dependencies.
  unfoldable pub AreProofs : List ℕ → List Fields → Type 0
  AreProofs [] [] = Unit {0}
  AreProofs (sid ∷ sids) (rec ∷ recs) =
      (py_eq (get_or "step" rec null) (nat sid) ≡ true)
      × (is_text "verified" (get_or "status" rec null) ≡ true)
      × (checks_match split python by_id (lookup_or sid by_id end) rec (lookup_or sid deps [])
          ≡ some true)
      × AreProofs sids recs
  AreProofs _ _ = ⊥

module _ (sha256 : List ℕ → String) (split : String → Option (List String)) (python : String) where
  step_proven-true :
      (by_id : Dict ℕ Fields) (deps : Graph) (sid : ℕ) (rec : Fields)
      → step_proven sha256 split python by_id deps sid rec ≡ some true
      → (is_text "verified" (get_or "status" rec null) ≡ true)
        × (checks_match split python by_id (lookup_or sid by_id end) rec (lookup_or sid deps [])
            ≡ some true)
  unfolding step_proven
  step_proven-true by_id deps sid rec h =
      elim (Bool-cases (is_text "verified" (get_or "status" rec null))) [
        | inl verified ↦ (verified, rw (step_proven, verified) at h)
        | inr failed ↦ absurd (cc (rw (step_proven, failed) at h))
      ]

  first_unproven-none :
      (by_id : Dict ℕ Fields) (deps : Graph) (sids : List ℕ) (recs : List Fields)
      → names_steps recs sids ≡ true
      → first_unproven sha256 split python by_id deps sids recs ≡ some none
      → AreProofs split python by_id deps sids recs
  unfolding names_steps AreProofs first_unproven
  first_unproven-none by_id deps [] [] named h = tt
  first_unproven-none by_id deps (sid ∷ sids) (rec ∷ recs) named h =
      let (here, there) =
        and-true (py_eq (get_or "step" rec null) (nat sid)) (names_steps recs sids) named in
      elim (Option-cases (step_proven sha256 split python by_id deps sid rec)) [
        | inl stuck ↦ absurd (cc (rw (first_unproven, stuck) at h))
        | inr (false, bad) ↦ absurd (cc (rw (first_unproven, bad) at h))
        | inr (true, good) ↦
            let (verified, matched) = step_proven-true by_id deps sid rec good in
            (
              here,
              verified,
              matched,
              first_unproven-none by_id deps sids recs there (rw (first_unproven, good) at h),
            )
      ]
  first_unproven-none by_id deps [] (rec ∷ recs) named h = absurd (cc named)
  first_unproven-none by_id deps (sid ∷ sids) [] named h = absurd (cc named)

  judge_candidate-valid :
      (by_id : Dict ℕ Fields) (deps : Graph) (order : List ℕ) (recs : List Fields) (marker : Fields)
      (ts : Value) (n : ℕ)
      → judge_candidate sha256 split python by_id deps order recs marker ≡ some (valid ts n)
      → AreProofs split python by_id deps order recs
        × (n ≡ length order)
        × (get_or "ts" marker null ≡ ts)
  unfolding judge_candidate
  judge_candidate-valid by_id deps order recs marker ts n h =
      elim (Bool-cases (ltb (length recs) (length order))) [
        | inl short ↦ absurd (cc (rw (judge_candidate, short) at h))
        | inr enough ↦ elim (Bool-cases (names_steps recs order)) [
          | inr others ↦ absurd (cc (rw (judge_candidate, enough, others) at h))
          | inl named ↦
              elim (Option-cases (first_unproven sha256 split python by_id deps order recs)) [
                | inl stuck ↦ absurd (cc (rw (judge_candidate, enough, named, stuck) at h))
                | inr (some sid, bad) ↦ absurd (cc (rw (judge_candidate, enough, named, bad) at h))
                | inr (none, all) ↦
                    let made = some-injective _ _ (rw (judge_candidate, enough, named, all) at h) in
                    (first_unproven-none by_id deps order recs named all, cc made, cc made)
              ]
        ]
      ]

  -- The marker of a proof: it is verified, and it names the order, the contract and the files of now.
  pub record IsCurrent (plan : Fields) (steps : List Fields) (order : List ℕ) (print : String)
      (marker : Fields) : Type 0 where
    pub is_verified : is_text "verified" (get_or "status" marker null) ≡ true
    pub of_order : py_eq (get_or "topological_order" marker null) (arr (id_items order)) ≡ true
    pub of_contract :
        is_text
          (plan_contract_fingerprint sha256 plan steps)
          (get_or "plan_fingerprint" marker null)
        ≡ true
    pub of_workspace : is_text print (get_or "workspace_fingerprint" marker null) ≡ true

  marker_problem-none :
      (plan : Fields) (steps : List Fields) (order : List ℕ) (print : String) (marker : Fields)
      → marker_problem sha256 split python plan steps order print marker ≡ none
      → IsCurrent plan steps order print marker
  unfolding marker_problem
  marker_problem-none plan steps order print marker h =
      elim (Bool-cases (is_text "verified" (get_or "status" marker null))) [
        | inr failed ↦ absurd (cc (rw (marker_problem, failed) at h))
        | inl verified ↦
            elim (Bool-cases
              (py_eq (get_or "topological_order" marker null) (arr (id_items order)))) [
                | inr moved ↦ absurd (cc (rw (marker_problem, verified, moved) at h))
                | inl ordered ↦
                    elim (Bool-cases (
                      is_text (plan_contract_fingerprint sha256 plan steps)
                        (get_or "plan_fingerprint" marker null))) [
                          | inr new ↦ absurd (cc (rw (marker_problem, verified, ordered, new) at h))
                          | inl bound ↦
                              elim (Bool-cases
                                (is_text print (get_or "workspace_fingerprint" marker null))) [
                                  | inr changed ↦ absurd (
                                      cc (
                                        rw (marker_problem, verified, ordered, bound, changed) at
                                          h))
                                  | inl still ↦ record {
                                    is_verified = verified;
                                    of_order = ordered;
                                    of_contract = bound;
                                    of_workspace = still;
                                  }
                                ]
                        ]
              ]
      ]

  judge_scan-valid :
      (plan : Fields) (steps : List Fields) (order : List ℕ) (deps : Graph) (print : String)
      (s : Scan) (ts : Value) (n : ℕ)
      → judge_scan sha256 split python plan steps order deps print s ≡ some (valid ts n)
      → (marker : Fields) × (s.marker ≡ some marker)
        × IsCurrent plan steps order print marker
        × AreProofs split python (index_all steps) deps order s.candidate
        × (n ≡ length order)
        × (get_or "ts" marker null ≡ ts)
  unfolding judge_scan
  judge_scan-valid plan steps order deps print s ts n h = elim (Option-cases s.marker) [
    | inl nothing ↦ absurd (cc (rw (judge_scan, nothing) at h))
    | inr (marker, found) ↦
        elim (Option-cases (marker_problem sha256 split python plan steps order print marker)) [
          | inr (reason, bad) ↦ absurd (cc (rw (judge_scan, found, bad) at h))
          | inl fine ↦
              let (proofs, count, time) =
                judge_candidate-valid (index_all steps) deps order s.candidate marker ts n
                  (rw (judge_scan, found, fine) at h) in
              (
                marker,
                found,
                marker_problem-none plan steps order print marker fine,
                proofs,
                count,
                time,
              )
        ]
  ]

  prove_graph-valid :
      (plan : Fields) (steps : List Fields) (name : String) (ws : Workspace) (order : List ℕ)
      (deps : Graph) (ts : Value) (n : ℕ)
      → prove_graph sha256 split python plan steps name ws order deps ≡ some (valid ts n)
      → (marker : Fields) × (recs : List Fields) × IsLast name
          (iter_evidence_records ws.files)
          marker
          recs
        × IsCurrent plan steps order ws.print marker
        × AreProofs split python (index_all steps) deps order recs
        × (n ≡ length order)
  unfolding prove_graph
  prove_graph-valid plan steps name ws order deps ts n h =
      elim (Bool-cases (is_empty order || not (length (index_all steps) == length order))) [
        | inl nothing ↦ absurd (cc (rw (prove_graph, nothing) at h))
        | inr full ↦
            let s = scan_records (length order) name empty_scan (iter_evidence_records ws.files) in
            let (marker, found, current, proofs, count, _) =
              judge_scan-valid plan steps order deps ws.print s ts n
                (rw (prove_graph, full) at h) in
            let i =
              scan_records-IsScan (length order) name [] empty_scan (iter_evidence_records ws.files)
                (empty_scan-IsScan name) in
            (marker, s.candidate, i.marker_of marker found, current, proofs, count)
      ]

  -- A plan is proved complete only in a workspace whose chain and archives hold and by a graph of the plan. The
  -- last record of a full audit of this plan in the evidence is verified and names the order, the contract and the
  -- files as they are now; and the last audit records of this plan in front of it are one verified record for
  -- each step in that order, which names the step and whose results match the step's checks, outputs, required
  -- outputs and dependencies and all passed.
  pub fresh_full_audit_proof-valid :
      (plan : Fields) (steps : List Fields) (name : String) (ws : Workspace) (ts : Value) (n : ℕ)
      → fresh_full_audit_proof sha256 split python plan steps name ws ≡ some (valid ts n)
      → (order : List ℕ) × (deps : Graph) × (marker : Fields) × (recs : List Fields) × (ws.chain_ok
          ≡ true)
        × ((verify_anchor_chain ws.archives).is_anchored ≡ true)
        × (topological_order steps ≡ ok order)
        × (effective_dependencies steps ≡ ok deps)
        × (n ≡ length order)
        × IsLast name (iter_evidence_records ws.files) marker recs
        × IsCurrent plan steps order ws.print marker
        × AreProofs split python (index_all steps) deps order recs
  unfolding fresh_full_audit_proof
  fresh_full_audit_proof-valid plan steps name ws ts n h = elim (Bool-cases ws.chain_ok) [
    | inr broken ↦ absurd (cc (rw (fresh_full_audit_proof, broken) at h))
    | inl chain ↦ elim (Bool-cases (verify_anchor_chain ws.archives).is_anchored) [
      | inr loose ↦ absurd (cc (rw (fresh_full_audit_proof, chain, loose) at h))
      | inl archives ↦ elim (Result-cases (topological_order steps)) [
        | inr (e, bad) ↦ absurd (cc (rw (fresh_full_audit_proof, chain, archives, bad) at h))
        | inl (order, sorted) ↦ elim (Result-cases (effective_dependencies steps)) [
          | inr (e, bad) ↦
              absurd (cc (rw (fresh_full_audit_proof, chain, archives, sorted, bad) at h))
          | inl (deps, read) ↦
              let (marker, recs, last, current, proofs, count) =
                prove_graph-valid plan steps name ws order deps ts n
                  (rw (fresh_full_audit_proof, chain, archives, sorted, read) at h) in
              (
                order, deps, marker, recs, chain, archives, sorted, read, count, last, current,
                proofs,
              )
        ]
      ]
    ]
  ]
