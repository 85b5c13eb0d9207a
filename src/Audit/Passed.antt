-- ===== src/Audit/Passed.antt =====
-- One step that a full audit visits, and the record that it appends.
use plan_auditor.Base.{
  and-false, ℕ, String, true, false, not, ◌&&◌, some, List, [], ◌∷◌, ◌++◌, ◌≡◌, refl, sym, ap, ◌∙◌,
  inl, inr, string_eq, nat_eq, ◌==◌, beq→eq, Bool-cases, Option-cases, All, and-true, lookup_or,
  put, length, subst,
}
use plan_auditor.Json.{arr, Fields, IsDict}
use plan_auditor.PlanGraph.Declared.{output_index-IsDeclared}
use plan_auditor.PlanContract.{object_items}
use plan_auditor.Audit.Checks.{System, CheckRun, run_check_list}
use plan_auditor.Audit.Records.{audit_mode, is_audit, Prerequisites, step_record}
use plan_auditor.Audit.Run.{Job, Run, next, step_of, dependencies_ok, GateResult}
use plan_auditor.Audit.Visit.{
  prerequisite_gate, append_record, note_passed, set_status, block_step, attempt_of, skips,
  declared_outputs, is_pure, check_purity, finish_step, attempt_step, visit_step,
}
use plan_auditor.Audit.Proof.{contract_matches, outputs_value_match, requireds_value_match}
use plan_auditor.Audit.Matches.{contract_matches-run_check_list}
use plan_auditor.Audit.Verified.{
  IsStepRecord, declared_outputs-passed, prerequisite_gate-passed, step_record-IsStepRecord,
  outputs_value_match-run_outputs, requireds_value_match-run_required,
}

module _ {W : Type 0} (sys : System W) where
  -- What a step adds to the run when it passes.
  abbrev pub Proven : Job → ℕ → Run W → Run W → Type 0
  Proven job sid r r' =
      (rec : Fields) × (r'.log ≡ r.log ++ rec ∷ [])
      × (r.all_ok ≡ true)
      × (sys.fingerprint r'.world ≡ job.baseline)
      × (dependencies_ok job r (lookup_or sid job.deps []) ≡ true)
      × (r'.passed ≡ (note_passed sys job sid true r).passed)
      × IsStepRecord sys.split sys.python job.key job.by_id job.deps sid rec

  check_purity-passed :
      (job : Job) (before : String) (c : CheckRun W)
      → job.mode ≡ audit_mode
      → (check_purity sys job before c).ok_all ≡ true
      → (check_purity sys job before c ≡ c)
        × (c.ok_all ≡ true)
        × (sys.fingerprint c.world ≡ job.baseline)
  unfolding check_purity is_pure
  check_purity-passed job before c audit passed =
      elim (Bool-cases (is_pure sys job before c.world)) [
        | inr impure ↦ absurd (cc (rw (check_purity, impure) at passed))
        | inl pure ↦
            let both : ((sys.fingerprint c.world == before)
                  && (sys.fingerprint c.world == job.baseline))
                ≡ true =
              rw (is_pure, audit) at pure in
            (
              rw (check_purity, pure) refl,
              rw (check_purity, pure) at passed,
              beq→eq _ _ ((and-true _ _ both).1),
            )
      ]

  next-injective : (r r' : Run W) → next r ≡ next r' → r ≡ r'
  next-injective r r' h = cc

  finish_step-all_ok :
      (job : Job) (sid : ℕ) (g : Prerequisites) (c : CheckRun W) (outs : List Fields) (r : Run W)
      → (finish_step sys job sid g c outs r).all_ok ≡ true
      → (r.all_ok ≡ true) × (c.ok_all ≡ true)
  unfolding finish_step append_record note_passed set_status
  finish_step-all_ok job sid g c outs r h = and-true r.all_ok c.ok_all h

  attempt_step-passed :
      (job : Job) (sid : ℕ) (g : GateResult W) (r r' : Run W)
      → job.mode ≡ audit_mode
      → attempt_step sys job sid g r ≡ next r'
      → r'.all_ok ≡ true
      → (c d : CheckRun W) × (outs : List Fields) × (run_check_list sys (step_of job sid) g.world
          ≡ some c)
        × (declared_outputs sys job (step_of job sid) c ≡ some (d, outs))
        × (finish_step sys job sid g.prerequisites
              (check_purity sys job (sys.fingerprint g.world) d)
              outs
              r
            ≡ r')
  unfolding skips attempt_step
  attempt_step-passed job sid g r r' audit h passed =
      elim (Option-cases (run_check_list sys (step_of job sid) g.world)) [
        | inl stuck ↦ absurd (cc (rw (attempt_step, in_turn, stuck) at h))
        | inr (c, ran) ↦ elim (Option-cases (declared_outputs sys job (step_of job sid) c)) [
          | inl stuck ↦ absurd (cc (rw (attempt_step, in_turn, ran, stuck) at h))
          | inr ((d, outs), more) ↦ (
            c,
            d,
            outs,
            ran,
            more,
            next-injective _ _ (rw (attempt_step, in_turn, ran, more) at h),
          )
        ]
      ]
    where
      in_turn : skips sys job sid ≡ false
      in_turn = rw (skips, audit) refl

  finish_step-Proven :
      (job : Job) (sid : ℕ) (g : Prerequisites) (c : CheckRun W) (outs : List Fields) (r : Run W)
      → job.mode ≡ audit_mode
      → r.all_ok ≡ true
      → c.ok_all ≡ true
      → sys.fingerprint c.world ≡ job.baseline
      → dependencies_ok job r (lookup_or sid job.deps []) ≡ true
      → ((ts : String) (attempt : ℕ)
          → IsStepRecord sys.split sys.python job.key job.by_id job.deps sid
              (step_record ts audit_mode job.key sid g outs c.results true attempt))
      → Proven job sid r (finish_step sys job sid g c outs r)
  unfolding finish_step append_record note_passed set_status
  finish_step-Proven job sid g c outs r audit old clean calm met proof =
      let ts = sys.now (length r.log) in
      let n = attempt_of sys job sid in
      (
        step_record ts job.mode job.key sid g outs c.results c.ok_all n,
        refl,
        old,
        calm,
        met,
        ap (λ b. put sid b r.passed) clean,
        subst
            (λ m.
              IsStepRecord sys.split sys.python job.key job.by_id job.deps sid
                (step_record ts m job.key sid g outs c.results c.ok_all n))
            (sym audit)
            (subst
              (λ b.
                IsStepRecord sys.split sys.python job.key job.by_id job.deps sid
                  (step_record ts audit_mode job.key sid g outs c.results b n))
              (sym clean) (proof ts n)),
      )

  attempt_step-Proven :
      (job : Job) (sid : ℕ) (g : GateResult W) (r r' : Run W)
      → job.mode ≡ audit_mode
      → All (λ e. IsDict e.1) job.by_id
      → IsDict (step_of job sid)
      → prerequisite_gate sys job sid r ≡ some g
      → g.ok_all ≡ true
      → attempt_step sys job sid g r ≡ next r'
      → r'.all_ok ≡ true
      → Proven job sid r r'
  attempt_step-Proven job sid g r r' audit docs doc gated opened h passed =
      let (c, d, outs, ran, more, made) = attempt_step-passed job sid g r r' audit h passed in
      let before = sys.fingerprint g.world in
      let (old, clean) =
        finish_step-all_ok job sid g.prerequisites (check_purity sys job before d) outs r
          (ap (λ (q : Run W). q.all_ok) made ∙ passed) in
      let (same, d_ok, calm) = check_purity-passed job before d audit clean in
      let (outputs, o, declared, ran_o, c_ok, o_ok, results, out_results) =
        declared_outputs-passed sys job (step_of job sid) c d outs more d_ok in
      let (refs, q, met, read, ran_q, q_ok, deps, required, _) =
        prerequisite_gate-passed sys job sid r g gated opened in
      let outs_ok : outputs_value_match sys.split sys.python outputs (arr (object_items outs))
          ≡ some true =
        subst
          (λ l. outputs_value_match sys.split sys.python outputs (arr (object_items l)) ≡ some true)
          out_results
          (outputs_value_match-run_outputs sys outputs c.world o
            (output_index-IsDeclared (step_of job sid) outputs doc declared) ran_o o_ok) in
      let required_ok : requireds_value_match sys.split sys.python job.by_id refs
            (arr (object_items g.prerequisites.required))
          ≡ some true =
        subst
          (λ l.
            requireds_value_match sys.split sys.python job.by_id refs (arr (object_items l))
            ≡ some true)
          (sym required)
          (requireds_value_match-run_required sys job refs r.world q docs ran_q q_ok) in
      let fits : contract_matches sys.split sys.python (step_of job sid)
            (arr (object_items d.results))
          ≡ some true =
        subst
          (λ l.
            contract_matches sys.split sys.python (step_of job sid) (arr (object_items l))
            ≡ some true)
          results (contract_matches-run_check_list sys (step_of job sid) g.world c doc ran c_ok) in
      subst (Proven job sid r)
        (ap (λ k. finish_step sys job sid g.prerequisites k outs r) (sym same) ∙ made)
        (finish_step-Proven job sid g.prerequisites d outs r audit old d_ok calm met (λ ts attempt.
          step_record-IsStepRecord sys job sid attempt ts g.prerequisites d.results outs outputs
            refs fits deps declared read outs_ok required_ok))

  -- A step that a full audit visits and passes: nothing failed before, its dependencies passed, the files are
  -- as at the start, and its record proves it.
  pub visit_step-Proven :
      (job : Job) (sid : ℕ) (r r' : Run W)
      → job.mode ≡ audit_mode
      → All (λ e. IsDict e.1) job.by_id
      → IsDict (step_of job sid)
      → visit_step sys job sid r ≡ next r'
      → r'.all_ok ≡ true
      → Proven job sid r r'
  unfolding visit_step
  visit_step-Proven job sid r r' audit docs doc h passed =
      elim (Bool-cases (is_audit job.mode && not (sys.fingerprint r.world == job.baseline))) [
        | inl changed ↦ absurd (cc (rw (visit_step, changed) at h))
        | inr calm ↦ elim (Option-cases (prerequisite_gate sys job sid r)) [
          | inl stuck ↦ absurd (cc (rw (visit_step, calm, stuck) at h))
          | inr (g, gated) ↦ elim (Bool-cases g.ok_all) [
            | inr shut ↦
                let run = next-injective _ _ (rw (visit_step, calm, gated, shut) at h) in
                absurd (cc (blocked g.prerequisites (record r { world = g.world }), run, passed))
            | inl open_gate ↦
                attempt_step-Proven job sid g r r' audit docs doc gated open_gate
                  (rw (visit_step, calm, gated, open_gate) at h) passed
          ]
        ]
      ]
    where
      blocked : (p : Prerequisites) (q : Run W) → (block_step sys job sid p q).all_ok ≡ false
      blocked p q = unfold block_step append_record note_passed set_status in and-false q.all_ok
