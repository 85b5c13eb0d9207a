-- ===== src/Audit/Accepted.antt =====
-- From the end of `audit_steps` to what `fresh_full_audit_proof` returns.
use plan_auditor.Base.{
  ℕ, String, Bool, true, false, Option, some, List, [], ◌∷◌, ◌++◌, ◌≡◌, refl, sym, ap, ◌∙◌, subst,
  arith, All, is_empty, length, ok,
}
use plan_auditor.Json.{Value, null, Fields, get_or, objects, IsDict}
use plan_auditor.PlanGraph.Steps.{Graph, effective_dependencies}
use plan_auditor.PlanGraph.Order.{topological_order}
use plan_auditor.Integrity.{KeyMaterial}
use plan_auditor.Evidence.Chain.{File}
use plan_auditor.Evidence.Archives.{verify_anchor_chain}
use plan_auditor.Audit.Checks.{System}
use plan_auditor.Audit.Records.{audit_mode}
use plan_auditor.Audit.Run.{Run}
use plan_auditor.Audit.Full.{returned, audit_steps}
use plan_auditor.Audit.Counts.{index_all}
use plan_auditor.Audit.Proof.{iter_evidence_records}
use plan_auditor.Audit.Fresh.{
  FreshAuditProof, valid, Workspace, prove_graph, fresh_full_audit_proof,
}
use plan_auditor.Audit.Chain.{write_record, write_records}
use plan_auditor.Audit.Written.{AreStepRecords-write_records}
use plan_auditor.Audit.Visited.{index_all-IsDict}
use plan_auditor.Audit.Complete.{IsMarker, prove_graph_complete}
use plan_auditor.Audit.Proves.{
  read_graph-some, order-length, write_records-snoc, IsMarker-write_record,
}
use plan_auditor.Audit.Ended.{run_job-passed, audit_steps-passed}

is_empty_of_length :
    (steps : List Fields) (order : List ℕ)
    → length steps ≡ length order
    → is_empty steps ≡ false
    → is_empty order ≡ false
is_empty_of_length steps (sid ∷ order) long h = refl
is_empty_of_length [] [] long h = cc
is_empty_of_length (step ∷ steps) [] long h = absurd (omega (arith, long))

-- The proof is looked for in a workspace whose chain and archives hold and whose evidence ends with the
-- records of the call, as they were written to the chain, and whose files are those at its end.
pub record IsAfter (sha256 : List ℕ → String) (hmac : List ℕ → List ℕ → String) {W : Type 0}
    (sys : System W) (r : Run W) (ws : Workspace) : Type 0 where
  pub chain_holds : ws.chain_ok ≡ true
  pub archives_hold : (verify_anchor_chain ws.archives).is_anchored ≡ true
  pub key : Option KeyMaterial
  pub before : List Fields
  pub previous : String
  pub stored :
      iter_evidence_records ws.files ≡ before ++ write_records sha256 hmac key previous r.log
  pub unchanged : ws.print ≡ sys.fingerprint r.world

module _ (sha256 : List ℕ → String) (hmac : List ℕ → List ℕ → String) {W : Type 0}
    (sys : System W) where
  fresh_full_audit_proof-graph :
      (name : String) (plan : Fields) (steps : List Fields) (ws : Workspace) (order : List ℕ)
      (deps : Graph) (out : Option FreshAuditProof)
      → ws.chain_ok ≡ true
      → (verify_anchor_chain ws.archives).is_anchored ≡ true
      → topological_order steps ≡ ok order
      → effective_dependencies steps ≡ ok deps
      → prove_graph sha256 sys.split sys.python plan steps name ws order deps ≡ out
      → fresh_full_audit_proof sha256 sys.split sys.python plan steps name ws ≡ out
  unfolding fresh_full_audit_proof
  fresh_full_audit_proof-graph name plan steps ws order deps out chain archives sorted read h =
      rw (fresh_full_audit_proof, chain, archives, sorted, read) h

  -- A full audit of a plan with steps that returns True leaves evidence that proves the plan complete: as long
  -- as the plan and the files stay as they are, `fresh_full_audit_proof` is valid, with all the steps.
  pub fresh_full_audit_proof-audit_steps :
      (ids : Option (List ℕ)) (name : String) (force : Bool) (n : ℕ) (plan : Fields)
      (raw : List Value) (files : List File) (w : W) (r : Run W) (ws : Workspace)
      → All IsDict (objects raw)
      → is_empty (objects raw) ≡ false
      → audit_steps sha256 sys
          (record { mode = audit_mode; ids = ids; key = name; force = force })
          (some n)
          plan
          raw
          files
          w
        ≡ returned true r
      → IsAfter sha256 hmac sys r ws
      → (ts : Value) × (fresh_full_audit_proof sha256 sys.split sys.python plan
            (objects raw)
            name
            ws
          ≡ some (valid ts (length (objects raw))))
  fresh_full_audit_proof-audit_steps ids name force n plan raw files w r ws docs some_steps h
        after =
      let steps = objects raw in
      let (order, deps, graph, ran) =
        audit_steps-passed sha256 sys ids name force n plan raw files w r h in
      let (sorted, read) = read_graph-some steps order deps graph in
      let (indexed, long) = order-length steps order deps sorted read in
      let (recs, marker, logged, proofs, marks) =
        run_job-passed sha256 sys _ plan steps (length raw) order w r refl refl
          (index_all-IsDict steps docs) ran in
      let (tail, written) = write_records-snoc sha256 hmac after.key after.previous recs marker in
      let last = write_record sha256 hmac after.key tail marker in
      let stored : iter_evidence_records ws.files
          ≡ after.before ++ (write_records sha256 hmac after.key after.previous recs ++ last ∷ []) =
        after.stored
        ∙ ap (λ l. after.before ++ write_records sha256 hmac after.key after.previous l) logged
        ∙ ap (λ l. after.before ++ l) written in
      let marked =
        subst (λ print. IsMarker sha256 name plan steps order print last) (sym after.unchanged)
          (IsMarker-write_record sha256 hmac after.key name (sys.fingerprint r.world) tail plan
            marker steps order marks) in
      let found =
        prove_graph_complete sha256 sys.split sys.python name plan last steps after.before
          (write_records sha256 hmac after.key after.previous recs) ws order deps
          (is_empty_of_length steps order long some_steps) indexed stored
          (AreStepRecords-write_records sha256 hmac after.key sys.split sys.python name
            (index_all steps) deps after.previous order recs proofs)
          marked in
      (
        get_or "ts" last null,
        fresh_full_audit_proof-graph name plan steps ws order deps _ after.chain_holds
            after.archives_hold sorted read
            (found ∙ ap (λ k. some (valid (get_or "ts" last null) k)) (sym long)),
      )
