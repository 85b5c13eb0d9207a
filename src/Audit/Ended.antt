-- ===== src/Audit/Ended.antt =====
-- scripts/audit_check.py: what a full audit has written where it returns True.
use plan_auditor.Base.{
  ℕ, String, Bool, true, false, Option, none, some, List, [], ◌∷◌, ◌++◌, ◌≡◌, refl, sym, ap, ◌∙◌,
  inl, inr, subst, string_eq, nat_eq, ◌==◌, if◌then◌else◌, Bool-cases, Option-cases, All, keys, mem,
  keep, is_empty, length, diff,
}
use plan_auditor.Json.{Value, Fields, get_or, objects, IsDict}
use plan_auditor.PlanGraph.Steps.{Graph}
use plan_auditor.Evidence.Chain.{File}
use plan_auditor.Audit.Checks.{System}
use plan_auditor.Audit.Records.{
  audit_mode, is_audit, base_record, complete_record, plan_contract_fingerprint,
}
use plan_auditor.Audit.Run.{Job, Run}
use plan_auditor.Audit.Visit.{append_record, visit_steps}
use plan_auditor.Audit.Full.{
  returned, selection, asks_nothing, start, guard_audit, complete_audit, close_audit, finish_audit,
  run_job, audit_steps, attempts_for,
}
use plan_auditor.Audit.Counts.{read_graph, index_all}
use plan_auditor.Audit.Scans.{AreStepRecords}
use plan_auditor.Audit.Visited.{visit_steps-AreStepRecords, keep_self}
use plan_auditor.Audit.Complete.{IsMarker}

selection-audit :
    (ids : Option (List ℕ)) (key : String) (force : Bool) (order : List ℕ)
    → selection (record { mode = audit_mode; ids = ids; key = key; force = force }) order ≡ order
unfolding selection
selection-audit none key force order = refl
selection-audit (some chosen) key force order = refl

asks_nothing-audit :
    (ids : Option (List ℕ)) (key : String) (force : Bool)
    → asks_nothing (record { mode = audit_mode; ids = ids; key = key; force = force }) ≡ false
unfolding asks_nothing
asks_nothing-audit none key force = refl
asks_nothing-audit (some chosen) key force = refl

module _ (sha256 : List ℕ → String) {W : Type 0} (sys : System W) where
  guard_audit-passed :
      (job : Job) (final : String) (r : Run W)
      → (guard_audit sha256 sys job final r).all_ok ≡ true
      → guard_audit sha256 sys job final r ≡ r
  unfolding guard_audit append_record
  guard_audit-passed job final r h = elim (Bool-cases (final == job.baseline)) [
    | inr changed ↦ absurd (cc (rw (guard_audit, changed) at h))
    | inl same ↦ rw (guard_audit, same) refl
  ]

  complete_record-IsMarker :
      (ts key print : String) (plan : Fields) (steps : List Fields) (count : ℕ) (order : List ℕ)
      → IsMarker sha256 key plan steps order print (
          complete_record ts key true count order
            (plan_contract_fingerprint sha256 plan steps)
            print)
  unfolding complete_record base_record get_or
  complete_record-IsMarker ts key print plan steps count order = record {
    of_plan = refl;
    of_mode = refl;
    is_verified = refl;
    of_order = refl;
    of_contract = refl;
    of_workspace = refl;
  }

  -- A full audit that ends well has written its last record.
  close_audit-passed :
      (job : Job) (plan : Fields) (steps : List Fields) (count : ℕ) (order : List ℕ) (r : Run W)
      → (close_audit sha256 sys job plan steps count order r).all_ok ≡ true
      → (marker : Fields) × IsMarker sha256 job.key plan steps order
          (sys.fingerprint r.world)
          marker
        × ((close_audit sha256 sys job plan steps count order r).log ≡ r.log ++ marker ∷ [])
        × ((close_audit sha256 sys job plan steps count order r).world ≡ r.world)
        × (r.all_ok ≡ true)
  unfolding close_audit complete_audit append_record
  close_audit-passed job plan steps count order r h =
      let final = sys.fingerprint r.world in
      let same = guard_audit-passed job final r h in
      let passed : r.all_ok ≡ true = ap (λ (q : Run W). q.all_ok) (sym same) ∙ h in
      let ts = sys.now (length r.log) in
      let print = plan_contract_fingerprint sha256 plan steps in
      (
        complete_record ts job.key true count order print final,
        complete_record-IsMarker ts job.key final plan steps count order,
        ap (λ q. (complete_audit sha256 sys job plan steps count order final q).log) same
            ∙ ap (λ b. r.log ++ complete_record ts job.key b count order print final ∷ []) passed,
        ap (λ (q : Run W). q.world) same,
        passed,
      )

  returned-injective : (b c : Bool) (q r : Run W) → returned b q ≡ returned c r → (b ≡ c) × (q ≡ r)
  returned-injective b c q r h = (cc, cc)

  finish_audit-passed :
      (job : Job) (plan : Fields) (steps : List Fields) (count : ℕ) (order : List ℕ) (q r : Run W)
      → job.mode ≡ audit_mode
      → finish_audit sha256 sys job plan steps count order q ≡ returned true r
      → ((close_audit sha256 sys job plan steps count order q).all_ok ≡ true)
        × (close_audit sha256 sys job plan steps count order q ≡ r)
  unfolding finish_audit
  finish_audit-passed job plan steps count order q r audit h =
      let closed = close_audit sha256 sys job plan steps count order q in
      let final = if is_audit job.mode then closed else q in
      let (ended, last) = returned-injective final.all_ok true final r h in
      let same : final ≡ closed = ap (λ m. if is_audit m then closed else q) audit in
      (ap (λ (t : Run W). t.all_ok) (sym same) ∙ ended, sym same ∙ last)

  visited :
      (job : Job) (order : List ℕ) (w : W) (q : Run W)
      → job.selected ≡ order
      → visit_steps sys job (keep (λ sid. mem sid job.selected) order) (start w) ≡ some q
      → visit_steps sys job order (start w) ≡ some q
  visited job order w q all_steps h =
      ap (λ l. visit_steps sys job l (start w))
        (sym (keep_self order) ∙ ap (λ l. keep (λ sid. mem sid l) order) (sym all_steps))
      ∙ h

  pub run_job-passed :
      (job : Job) (plan : Fields) (steps : List Fields) (count : ℕ) (order : List ℕ) (w : W)
      (r : Run W)
      → job.mode ≡ audit_mode
      → job.selected ≡ order
      → All (λ e. IsDict e.1) job.by_id
      → run_job sha256 sys job plan steps count order w ≡ returned true r
      → (recs : List Fields) × (marker : Fields) × (r.log ≡ recs ++ marker ∷ [])
        × AreStepRecords sys.split sys.python job.key job.by_id job.deps order recs
        × IsMarker sha256 job.key plan steps order (sys.fingerprint r.world) marker
  unfolding run_job
  run_job-passed job plan steps count order w r audit all_steps docs h =
      elim (Option-cases
        (visit_steps sys job (keep (λ sid. mem sid job.selected) order) (start w))) [
          | inl stuck ↦ absurd (cc (rw (run_job, stuck) at h))
          | inr (q, ran) ↦
              let (closed, last) =
                finish_audit-passed job plan steps count order q r audit (rw (run_job, ran) at h) in
              let (marker, marks, grown, still, passed) =
                close_audit-passed job plan steps count order q closed in
              let (recs, logged, proofs, _) =
                visit_steps-AreStepRecords sys job order (start w) q audit docs
                  (visited job order w q all_steps ran) passed in
              (
                recs,
                marker,
                ap (λ (t : Run W). t.log) (sym last)
                    ∙ grown
                    ∙ ap (λ l. l ++ marker ∷ []) (logged ∙ unfold start in refl),
                proofs,
                subst (λ t. IsMarker sha256 job.key plan steps order (sys.fingerprint t) marker)
                    (sym still ∙ ap (λ (t : Run W). t.world) last) marks,
              )
        ]

  -- `audit_steps` in audit mode, as far as the loop.
  pub audit_steps-passed :
      (ids : Option (List ℕ)) (key : String) (force : Bool) (n : ℕ) (plan : Fields)
      (raw : List Value) (files : List File) (w : W) (r : Run W)
      → audit_steps sha256 sys
          (record { mode = audit_mode; ids = ids; key = key; force = force })
          (some n)
          plan
          raw
          files
          w
        ≡ returned true r
      → (order : List ℕ) × (deps : Graph) × (read_graph (objects raw) ≡ some (order, deps))
        × (run_job sha256 sys
              (record {
                mode = audit_mode;
                key = key;
                by_id = index_all (objects raw);
                deps = deps;
                selected = order;
                max_attempts = n;
                force = force;
                failed_attempts = [];
                baseline = sys.fingerprint w;
              })
              plan
              (objects raw)
              (length raw)
              order
              w
            ≡ returned true r)
  unfolding audit_steps attempts_for
  audit_steps-passed ids key force n plan raw files w r h =
      elim (Option-cases (read_graph (objects raw))) [
        | inl bad ↦ absurd (cc (rw (audit_steps, bad) at h))
        | inr ((order, deps), read) ↦
            let known = is_empty (diff order (keys (index_all (objects raw)))) in
            elim (Bool-cases known) [
              | inr unknown ↦
                  absurd
                    (cc (rw (audit_steps, read, selection-audit ids key force order, unknown) at h))
              | inl all_known ↦ (
                order,
                deps,
                read,
                rw
                    (
                      audit_steps,
                      read,
                      selection-audit ids key force order,
                      all_known,
                      asks_nothing-audit ids key force,
                      attempts_for,
                    )
                    at h,
              )
            ]
      ]
