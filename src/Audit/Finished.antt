-- ===== src/Audit/Finished.antt =====
-- scripts/audit_check.py: the statuses of the steps that a call visits, and what it returns.
use plan_auditor.Base.{
  ℕ, String, true, false, not, ◌&&◌, some, List, [], ◌∷◌, ◌≡◌, refl, sym, ap, ◌∙◌, inl, inr, nat_eq,
  string_eq, ◌==◌, Bool-cases, Option-cases, All, All-map, and-true, and-false, lookup, put,
  lookup-put, subst, beq_refl, keep, mem, keys, diff, is_empty, length,
}
use mathlib.Core.Option.{some-injective}
use plan_auditor.Json.{Value, Fields, objects}
use plan_auditor.PlanGraph.Steps.{Graph}
use plan_auditor.Evidence.Chain.{File}
use plan_auditor.Audit.Counts.{index_all, read_graph}
use plan_auditor.Audit.Checks.{System, CheckRun, run_check_list}
use plan_auditor.Audit.Records.{is_audit}
use plan_auditor.Audit.Run.{Job, Run, Round, next, leave, raised, GateResult, step_of}
use plan_auditor.Audit.Visit.{
  prerequisite_gate, append_record, note_passed, set_status, guard_step, block_step, skips,
  declared_outputs, check_purity, finish_step, attempt_step, visit_step, visit_steps,
}
use plan_auditor.Audit.Visited.{Round-cases}
use plan_auditor.Audit.Full.{
  returned, start, close_audit, guard_audit, complete_audit, finish_audit, run_job, AuditRequest,
  selection, asks_nothing, attempts_for, audit_steps,
}

module _ {W : Type 0} (sys : System W) (job : Job) where
  -- The step has the status "verified".
  abbrev pub IsVerified : Run W → ℕ → Type 0
  IsVerified r sid = lookup sid r.statuses ≡ some "verified"

  -- What a round has done where the call may still return True.
  abbrev IsKept : ℕ → Run W → Round W → Type 0
  IsKept sid r (next r') =
      r'.all_ok ≡ true → (r.all_ok ≡ true) × (r'.statuses ≡ put sid "verified" r.statuses)
  IsKept sid r (leave r') = r'.all_ok ≡ false
  IsKept sid r raised = Unit {0}

  not_passed : (sid : ℕ) (r r' : Run W) → r'.all_ok ≡ false → IsKept sid r (next r')
  not_passed sid r r' failed h = absurd (cc (failed, h))

  finish_step-IsKept :
      (sid : ℕ) (g : GateResult W) (c : CheckRun W) (outputs : List Fields) (r : Run W)
      → IsKept sid r (next (finish_step sys job sid g.prerequisites c outputs r))
  unfolding finish_step append_record note_passed set_status
  finish_step-IsKept sid g c outputs r h =
      let (before, passed) = and-true r.all_ok c.ok_all h in (before, rw passed refl)

  attempt_step-IsKept :
      (sid : ℕ) (g : GateResult W) (r : Run W) → IsKept sid r (attempt_step sys job sid g r)
  unfolding attempt_step
  attempt_step-IsKept sid g r = elim (Bool-cases (skips sys job sid)) [
    | inl tired ↦
        rw (attempt_step, tired)
          (not_passed sid r (note_passed sys job sid false (record r { world = g.world }))
            (unfold note_passed in and-false r.all_ok))
    | inr fresh ↦ elim (Option-cases (run_check_list sys (step_of job sid) g.world)) [
      | inl stuck ↦ rw (attempt_step, fresh, stuck) tt
      | inr (c, ran) ↦ elim (Option-cases (declared_outputs sys job (step_of job sid) c)) [
        | inl stuck ↦ rw (attempt_step, fresh, ran, stuck) tt
        | inr ((d, outputs), e) ↦
            rw (attempt_step, fresh, ran, e)
              (finish_step-IsKept sid g (check_purity sys job (sys.fingerprint g.world) d) outputs
                r)
      ]
    ]
  ]

  visit_step-IsKept : (sid : ℕ) (r : Run W) → IsKept sid r (visit_step sys job sid r)
  unfolding visit_step
  visit_step-IsKept sid r =
      elim (Bool-cases (is_audit job.mode && not (sys.fingerprint r.world == job.baseline))) [
        | inl changed ↦
            rw (visit_step, changed)
              (unfold guard_step append_record note_passed set_status in and-false r.all_ok)
        | inr still ↦ elim (Option-cases (prerequisite_gate sys job sid r)) [
          | inl stuck ↦ rw (visit_step, still, stuck) tt
          | inr (g, e) ↦ elim (Bool-cases g.ok_all) [
            | inl passed ↦ rw (visit_step, still, e, passed) (attempt_step-IsKept sid g r)
            | inr shut ↦
                rw (visit_step, still, e, shut)
                  (not_passed sid r
                    (block_step sys job sid g.prerequisites (record r { world = g.world }))
                    (unfold block_step append_record note_passed set_status in and-false r.all_ok))
          ]
        ]
      ]

  put-IsVerified :
      (sid other : ℕ) (r r' : Run W)
      → r'.statuses ≡ put sid "verified" r.statuses
      → IsVerified r other
      → IsVerified r' other
  put-IsVerified sid other r r' e h = elim (Bool-cases (other == sid)) [
    | inl same ↦ rw (e, lookup-put sid other "verified" r.statuses, same) refl
    | inr apart ↦ rw (e, lookup-put sid other "verified" r.statuses, apart) h
  ]

  here-IsVerified :
      (sid : ℕ) (r r' : Run W) → r'.statuses ≡ put sid "verified" r.statuses → IsVerified r' sid
  here-IsVerified sid r r' e = rw (e, lookup-put sid sid "verified" r.statuses, beq_refl sid) refl

  -- A loop at whose end the call may still return True has verified all its steps, and keeps those that were.
  visit_steps-IsVerified :
      (sids : List ℕ) (r out : Run W)
      → visit_steps sys job sids r ≡ some out
      → out.all_ok ≡ true
      → (r.all_ok ≡ true)
        × All (IsVerified out) sids
        × ((sid : ℕ) → IsVerified r sid → IsVerified out sid)
  unfolding visit_steps
  visit_steps-IsVerified [] r out h passed =
      let same = some-injective r out h in
      (ap (λ q. q.all_ok) same ∙ passed, tt, λ sid v. rw same at v)
  visit_steps-IsVerified (sid ∷ sids) r out h passed =
      elim (Round-cases (visit_step sys job sid r)) [
        | inl (q, went) ↦
            let kept : IsKept sid r (next q) = rw went at (visit_step-IsKept sid r) in
            let (q_ok, rest, keeps) =
              visit_steps-IsVerified sids q out (rw (visit_steps, went) at h) passed in
            let (r_ok, e) = kept q_ok in
            (
              r_ok,
              (keeps sid (here-IsVerified sid r q e), rest),
              λ other v. keeps other (put-IsVerified sid other r q e v),
            )
        | inr (inl (q, went)) ↦
            let kept : IsKept sid r (leave q) = rw went at (visit_step-IsKept sid r) in
            let same : q ≡ out = some-injective q out (rw (visit_steps, went) at h) in
            absurd (cc (kept, ap (λ x. x.all_ok) same, passed))
        | inr (inr went) ↦ absurd (cc (rw (visit_steps, went) at h))
      ]

  module _ (sha256 : List ℕ → String) where
    close_audit-kept :
        (plan : Fields) (steps : List Fields) (count : ℕ) (order : List ℕ) (r : Run W)
        → ((close_audit sha256 sys job plan steps count order r).statuses ≡ r.statuses)
          × ((close_audit sha256 sys job plan steps count order r).all_ok ≡ true → r.all_ok ≡ true)
    unfolding close_audit guard_audit complete_audit append_record
    close_audit-kept plan steps count order r =
        elim (Bool-cases (sys.fingerprint r.world == job.baseline)) [
          | inl still ↦ rw still (refl, λ h. h)
          | inr changed ↦ rw changed (refl, λ h. absurd (cc h))
        ]

    finish_audit-kept :
        (plan : Fields) (steps : List Fields) (count : ℕ) (order : List ℕ) (r out : Run W)
        → finish_audit sha256 sys job plan steps count order r ≡ returned true out
        → (r.statuses ≡ out.statuses) × (r.all_ok ≡ true)
    unfolding finish_audit
    finish_audit-kept plan steps count order r out h = elim (Bool-cases (is_audit job.mode)) [
      | inl audit ↦
          let (statuses, all_ok) = close_audit-kept plan steps count order r in
          let closed : returned (close_audit sha256 sys job plan steps count order r).all_ok
                (close_audit sha256 sys job plan steps count order r)
              ≡ returned true out =
            rw (finish_audit, audit) at h in
          let same : close_audit sha256 sys job plan steps count order r ≡ out = cc closed in
          (sym statuses ∙ ap (λ q. q.statuses) same, all_ok (cc closed))
      | inr run ↦
          let closed : returned r.all_ok r ≡ returned true out = rw (finish_audit, run) at h in
          let same : r ≡ out = cc closed in (ap (λ q. q.statuses) same, cc closed)
    ]

    run_job-IsVerified :
        (plan : Fields) (steps : List Fields) (count : ℕ) (order : List ℕ) (w : W) (out : Run W)
        → run_job sha256 sys job plan steps count order w ≡ returned true out
        → All (IsVerified out) (keep (λ sid. mem sid job.selected) order)
    unfolding run_job finish_audit
    run_job-IsVerified plan steps count order w out h =
        let target = keep (λ sid. mem sid job.selected) order in
        elim (Option-cases (visit_steps sys job target (start w))) [
          | inl stuck ↦ absurd (cc (rw (run_job, stuck) at h))
          | inr (r, e) ↦
              let (same, passed) =
                finish_audit-kept plan steps count order r out (rw (run_job, e) at h) in
              let (_, verified, _) = visit_steps-IsVerified target (start w) r e passed in
              subst (λ d. All (λ sid. lookup sid d ≡ some "verified") target) same verified
        ]

nothing_kept : (sids : List ℕ) → All (λ (sid : ℕ). ⊥) (keep (λ sid. mem sid []) sids)
unfolding mem
nothing_kept [] = tt
nothing_kept (sid ∷ sids) = nothing_kept sids

empty_list : (ids : List ℕ) → is_empty ids ≡ true → ids ≡ []
empty_list [] h = refl
empty_list (sid ∷ ids) h = absurd (cc h)

selection-nothing :
    (req : AuditRequest) (order : List ℕ) → asks_nothing req ≡ true → selection req order ≡ []
unfolding asks_nothing selection
selection-nothing req order h = elim (Option-cases req.ids) [
  | inl all ↦ absurd (cc (rw (asks_nothing, all) at h))
  | inr (ids, e) ↦
      let (run, empty) =
        and-true (not (is_audit req.mode)) (is_empty ids) (rw (asks_nothing, e) at h) in
      elim (Bool-cases (is_audit req.mode)) [
        | inl audit ↦ absurd (cc (rw audit at run))
        | inr other ↦ rw (selection, e, other) (empty_list ids empty)
      ]
]

-- A call that returns True, in either mode, has given the status "verified" to every step of the plan's order that it
-- was asked for: none of them is blocked, skipped, failed or left out.
pub audit_steps-IsVerified :
    (sha256 : List ℕ → String) {W : Type 0} (sys : System W) (req : AuditRequest) (max_attempts : ℕ)
    (plan : Fields) (raw : List Value) (files : List File) (w : W) (order : List ℕ) (deps : Graph)
    (out : Run W)
    → read_graph (objects raw) ≡ some (order, deps)
    → audit_steps sha256 sys req (some max_attempts) plan raw files w ≡ returned true out
    → All
        (λ sid. lookup sid out.statuses ≡ some "verified")
        (keep (λ sid. mem sid (selection req order)) order)
unfolding audit_steps
audit_steps-IsVerified sha256 sys req max_attempts plan raw files w order deps out graph h =
    let selected = selection req order in
    elim (Bool-cases (not (is_empty (diff selected (keys (index_all (objects raw))))))) [
      | inl unknown ↦ absurd (cc (rw (audit_steps, graph, unknown) at h))
      | inr known ↦ elim (Bool-cases (asks_nothing req)) [
        | inl nothing ↦ rw (selection-nothing req order nothing) (
            All-map (λ (sid : ℕ). ⊥) (λ sid. lookup sid out.statuses ≡ some "verified")
              (keep (λ sid. mem sid []) order) (λ sid impossible. absurd impossible)
              (nothing_kept order))
        | inr something ↦ elim (Option-cases (attempts_for req.mode files)) [
          | inl stuck ↦ absurd (cc (rw (audit_steps, graph, known, something, stuck) at h))
          | inr (counts, e) ↦
              run_job-IsVerified sys
                (record {
                  mode = req.mode;
                  key = req.key;
                  by_id = index_all (objects raw);
                  deps = deps;
                  selected = selected;
                  max_attempts = max_attempts;
                  force = req.force;
                  failed_attempts = counts;
                  baseline = sys.fingerprint w;
                })
                sha256 plan (objects raw) (length raw) order w out
                (rw (audit_steps, graph, known, something, e) at h)
        ]
      ]
    ]
