-- ===== src/Audit/Visited.antt =====
-- scripts/audit_check.py: the records of the steps that a full audit visits, and the index of a plan.
use plan_auditor.Base.{
  and-false, ℕ, true, false, not, ◌&&◌, some, List, [], ◌∷◌, ◌++◌, ◌≡◌, ◌⊎◌, refl, sym, ap, ◌∙◌,
  inl, inr, string_eq, nat_eq, ◌==◌, Bool-cases, Option-cases, All, Dict, keys, mem, keep,
  mem-cons_self, mem-cons_of_mem, put, lookup_or, append-nil, append_assoc, Result, ok, >>=-eq-ok,
  >>-eq-ok, raise_if,
}
use mathlib.Core.Option.{some-injective}
use plan_auditor.Json.{Fields, end, IsDict}
use plan_auditor.PlanGraph.Steps.{
  GraphError, duplicate_step_id, step_id, sid_of, index_step, index_steps, step_index,
}
use plan_auditor.PlanGraph.Declared.{All-put}
use plan_auditor.Audit.Checks.{System, run_check_list}
use plan_auditor.Audit.Records.{audit_mode, is_audit}
use plan_auditor.Audit.Run.{Job, Run, Round, next, leave, raised, step_of, GateResult}
use plan_auditor.Audit.Visit.{
  prerequisite_gate, attempt_step, skips, visit_step, visit_steps, guard_step, append_record,
  note_passed, set_status, declared_outputs,
}
use plan_auditor.Audit.Counts.{index_into, index_all}
use plan_auditor.Audit.Passed.{visit_step-Proven}
use plan_auditor.Audit.Scans.{AreStepRecords}

pub Round-cases :
    {W : Type 0} (x : Round W)
    → ((r : Run W) × (x ≡ next r)) ⊎ (((r : Run W) × (x ≡ leave r)) ⊎ (x ≡ raised))
Round-cases (next r) = inl (r, refl)
Round-cases (leave r) = inr (inl (r, refl))
Round-cases raised = inr (inr refl)

lookup_or-IsDict :
    (sid : ℕ) (d : Dict ℕ Fields) → All (λ e. IsDict e.1) d → IsDict (lookup_or sid d end)
unfolding lookup_or IsDict
lookup_or-IsDict sid [] docs = tt
lookup_or-IsDict sid ((j, step) ∷ d) (doc, docs) = elim (Bool-cases (sid == j)) [
  | inl hit ↦ rw hit doc
  | inr miss ↦ rw miss (lookup_or-IsDict sid d docs)
]

pub step_of-IsDict :
    (job : Job) (sid : ℕ) → All (λ e. IsDict e.1) job.by_id → IsDict (step_of job sid)
unfolding step_of
step_of-IsDict job sid docs = lookup_or-IsDict sid job.by_id docs

module _ {W : Type 0} (sys : System W) (job : Job) where
  -- The loop is left only behind a step that failed.
  visit_step-leave :
      (sid : ℕ) (r r' : Run W) → visit_step sys job sid r ≡ leave r' → r'.all_ok ≡ false
  unfolding visit_step attempt_step
  visit_step-leave sid r r' h =
      elim (Bool-cases (is_audit job.mode && not (sys.fingerprint r.world == job.baseline))) [
        | inl changed ↦
            let left : leave (guard_step sys job sid r) ≡ leave r' =
              rw (visit_step, changed) at h in
            let same : guard_step sys job sid r ≡ r' = cc in
            ap (λ (q : Run W). q.all_ok) (sym same) ∙ failed
        | inr calm ↦ elim (Option-cases (prerequisite_gate sys job sid r)) [
          | inl stuck ↦ absurd (cc (rw (visit_step, calm, stuck) at h))
          | inr (g, gated) ↦ elim (Bool-cases g.ok_all) [
            | inr shut ↦ absurd (cc (rw (visit_step, calm, gated, shut) at h))
            | inl opened ↦ absurd (stays g (rw (visit_step, calm, gated, opened) at h))
          ]
        ]
      ]
    where
      failed : (guard_step sys job sid r).all_ok ≡ false
      failed = unfold guard_step append_record note_passed set_status in and-false r.all_ok

      stays : (g : GateResult W) → ¬ (attempt_step sys job sid g r ≡ leave r')
      stays g e = elim (Bool-cases (skips sys job sid)) [
        | inl skipped ↦ cc (rw (attempt_step, skipped) at e)
        | inr in_turn ↦ elim (Option-cases (run_check_list sys (step_of job sid) g.world)) [
          | inl stuck ↦ cc (rw (attempt_step, in_turn, stuck) at e)
          | inr (c, ran) ↦ elim (Option-cases (declared_outputs sys job (step_of job sid) c)) [
            | inl stuck ↦ cc (rw (attempt_step, in_turn, ran, stuck) at e)
            | inr (d, more) ↦ cc (rw (attempt_step, in_turn, ran, more) at e)
          ]
        ]
      ]

  pub visit_steps-AreStepRecords :
      (sids : List ℕ) (r r' : Run W)
      → job.mode ≡ audit_mode
      → All (λ e. IsDict e.1) job.by_id
      → visit_steps sys job sids r ≡ some r'
      → r'.all_ok ≡ true
      → (recs : List Fields) × (r'.log ≡ r.log ++ recs)
        × AreStepRecords sys.split sys.python job.key job.by_id job.deps sids recs
        × (r.all_ok ≡ true)
  unfolding visit_steps AreStepRecords
  visit_steps-AreStepRecords [] r r' audit docs h passed =
      let same : r ≡ r' = cc in
      ([], ap (λ (q : Run W). q.log) (sym same) ∙ sym (append-nil r.log), tt, rw same passed)
  visit_steps-AreStepRecords (sid ∷ sids) r r' audit docs h passed =
      elim (Round-cases (visit_step sys job sid r)) [
        | inl (q, went) ↦
            let (later, grown, proofs, q_ok) =
              visit_steps-AreStepRecords sids q r' audit docs (rw (visit_steps, went) at h)
                passed in
            let (rec, one, old, _, _, _, proof) =
              visit_step-Proven sys job sid r q audit docs (step_of-IsDict job sid docs) went
                q_ok in
            (
              rec ∷ later,
              grown ∙ ap (λ l. l ++ later) one ∙ append_assoc r.log (rec ∷ []) later,
              (proof, proofs),
              old,
            )
        | inr (inl (q, left)) ↦
            let same : q ≡ r' = some-injective _ _ (rw (visit_steps, left) at h) in
            absurd (cc (visit_step-leave sid r q left, ap (λ (t : Run W). t.all_ok) same, passed))
        | inr (inr stuck) ↦ absurd (cc (rw (visit_steps, stuck) at h))
      ]

keep-inside :
    (xs ys : List ℕ) → ((x : ℕ) → mem x xs ≡ true → mem x ys ≡ true) → keep (λ x. mem x ys) xs ≡ xs
keep-inside [] ys h = refl
keep-inside (x ∷ xs) ys h =
    rw (h x (mem-cons_self x xs))
      (ap (λ l. x ∷ l) (keep-inside xs ys (λ y m. h y (mem-cons_of_mem y x xs m))))

-- A list keeps the members of itself.
pub keep_self : (xs : List ℕ) → keep (λ x. mem x xs) xs ≡ xs
keep_self xs = keep-inside xs xs (λ x m. m)

index_step-put :
    (result made : Dict ℕ Fields) (step : Fields)
    → index_step result step ≡ ok made
    → put (sid_of step) step result ≡ made
unfolding index_step sid_of put
index_step-put result made step h = elim (Option-cases (step_id step)) [
  | inl bad ↦ absurd (cc (rw (index_step, bad) at h))
  | inr (sid, e) ↦
      let done : Result GraphError (Dict ℕ Fields) = ok (put sid step result) in
      let last =
        >>-eq-ok (raise_if (mem sid (keys result)) (duplicate_step_id sid)) done
          (rw (index_step, e) at h) in
      let added = last.1 in let same : put sid step result ≡ made = cc in rw (sid_of, e) same
]

index_into-index_steps :
    (result final : Dict ℕ Fields) (steps : List Fields)
    → index_steps result steps ≡ ok final
    → index_into result steps ≡ final
unfolding index_steps index_into
index_into-index_steps result final [] h = cc
index_into-index_steps result final (step ∷ steps) h =
    let (mid, first, rest) = >>=-eq-ok (index_step result step) (λ d. index_steps d steps) h in
    ap (λ d. index_into d steps) (index_step-put result mid step first)
    ∙ index_into-index_steps mid final steps rest

-- Where `step_index` accepts the steps, its index is the dict of the comprehensions.
pub index_all-step_index :
    (steps : List Fields) (by_id : Dict ℕ Fields)
    → step_index steps ≡ ok by_id
    → index_all steps ≡ by_id
unfolding step_index index_all
index_all-step_index steps by_id h = index_into-index_steps [] by_id steps h

index_into-IsDict :
    (result : Dict ℕ Fields) (steps : List Fields)
    → All (λ e. IsDict e.1) result
    → All IsDict steps
    → All (λ e. IsDict e.1) (index_into result steps)
unfolding index_into
index_into-IsDict result [] d ds = d
index_into-IsDict result (step ∷ steps) d (doc, docs) =
    index_into-IsDict (put (sid_of step) step result) steps
      (All-put (λ e. IsDict e.1) (sid_of step) step result doc d) docs

pub index_all-IsDict :
    (steps : List Fields) → All IsDict steps → All (λ e. IsDict e.1) (index_all steps)
unfolding index_all
index_all-IsDict steps docs = index_into-IsDict [] steps tt docs
