-- ===== src/Audit/Verified.antt =====
-- What a step of a full audit has run where it passes, and the record that proves it.
use plan_auditor.Base.{
  ℕ, String, true, Option, some, List, [], ◌∷◌, ◌≡◌, refl, sym, ap, ◌∙◌, inl, inr, string_eq,
  nat_eq, beq_refl, Bool-cases, Option-cases, Result-cases, All, All-map, and-true, Dict, lookup,
  lookup_or, length, ok,
}
use mathlib.Core.Option.{some-injective}
use plan_auditor.Json.{
  null, str, arr, Fields, end, get_or, as_list, py_eq, items_eq, number_eq, IsDict,
}
use plan_auditor.PlanGraph.Steps.{Graph}
use plan_auditor.PlanGraph.Outputs.{Ref, output_index, required_outputs}
use plan_auditor.PlanGraph.Declared.{IsDeclared, output_index-IsDeclared, All-lookup}
use plan_auditor.PlanContract.{object_items}
use plan_auditor.Audit.Checks.{System, CheckRun, run_outputs}
use plan_auditor.Audit.Records.{
  nat, id_items, audit_mode, Prerequisites, base_record, gate_fields, attempt_entry, step_record,
}
use plan_auditor.Audit.Run.{Job, Run, step_of, contract_of, dependencies_ok, GateResult}
use plan_auditor.Audit.Visit.{run_required, gate_outputs, prerequisite_gate, declared_outputs}
use plan_auditor.Audit.Proof.{
  contract_matches, and_then, outputs_value_match, requireds_value_match, declared_match,
  checks_match,
}
use plan_auditor.Audit.Contracts.{outputs_match-run_outputs, requireds_match-run_required}

-- A record that proves a step, as `fresh_full_audit_proof` reads it.
pub record IsStepRecord (split : String → Option (List String)) (python key : String)
    (by_id : Dict ℕ Fields) (deps : Graph) (sid : ℕ) (rec : Fields) : Type 0 where
  pub of_audit : get_or "mode" rec null ≡ str "audit"
  pub of_plan : get_or "plan" rec (str "default") ≡ str key
  pub of_step : get_or "step" rec null ≡ nat sid
  pub is_verified : get_or "status" rec null ≡ str "verified"
  pub matches :
      checks_match split python by_id (lookup_or sid by_id end) rec (lookup_or sid deps [])
      ≡ some true

pub items_eq-id_items : (ns : List ℕ) → items_eq (id_items ns) (id_items ns) ≡ true
unfolding items_eq id_items py_eq number_eq
items_eq-id_items [] = refl
items_eq-id_items (n ∷ ns) = rw (beq_refl n) (items_eq-id_items ns)

contract_of-IsDict :
    (by_id : Dict ℕ Fields) (ref : Ref) (contract : Fields)
    → All (λ e. IsDict e.1) by_id
    → contract_of by_id ref ≡ some contract
    → IsDict contract
unfolding contract_of
contract_of-IsDict by_id (source, name) contract d h = elim (Option-cases (lookup source by_id)) [
  | inl missing ↦ absurd (cc (rw (missing, contract_of) at h))
  | inr (step, found) ↦ elim (Result-cases (output_index step)) [
    | inr (e, bad) ↦ absurd (cc (rw (found, bad, contract_of) at h))
    | inl (outputs, declared) ↦
        All-lookup IsDict name contract outputs
          (All-map IsDeclared (λ e. IsDict e.1) outputs (λ e p. p.1)
            (output_index-IsDeclared step outputs (All-lookup IsDict source step by_id d found)
              declared))
          (rw (found, declared, contract_of) at h)
  ]
]

module _ {W : Type 0} (sys : System W) where
  pub declared_outputs-passed :
      (job : Job) (step : Fields) (c d : CheckRun W) (results : List Fields)
      → declared_outputs sys job step c ≡ some (d, results)
      → d.ok_all ≡ true
      → (outputs : Dict String Fields) × (o : CheckRun W) × (output_index step ≡ ok outputs)
        × (run_outputs sys outputs c.world ≡ some o)
        × (c.ok_all ≡ true)
        × (o.ok_all ≡ true)
        × (c.results ≡ d.results)
        × (o.results ≡ results)
  unfolding declared_outputs
  declared_outputs-passed job step c d results h passed = elim (Result-cases (output_index step)) [
    | inr (e, bad) ↦
        let made = some-injective _ _ (rw (bad, declared_outputs) at h) in
        absurd (cc (ap (λ (p : CheckRun W × List Fields). p.0.ok_all) made, passed))
    | inl (outputs, declared) ↦ elim (Option-cases (run_outputs sys outputs c.world)) [
      | inl stuck ↦ absurd (cc (rw (declared, declared_outputs, stuck) at h))
      | inr (o, ran) ↦
          let made = some-injective _ _ (rw (declared, declared_outputs, ran) at h) in
          let both =
            and-true c.ok_all o.ok_all
              (ap (λ (p : CheckRun W × List Fields). p.0.ok_all) made ∙ passed) in
          (
            outputs,
            o,
            declared,
            ran,
            both.0,
            both.1,
            ap (λ (p : CheckRun W × List Fields). p.0.results) made,
            ap (λ (p : CheckRun W × List Fields). p.1) made,
          )
    ]
  ]

  -- The gate lets a step pass behind its dependencies and the contracts that it requires.
  pub prerequisite_gate-passed :
      (job : Job) (sid : ℕ) (r : Run W) (g : GateResult W)
      → prerequisite_gate sys job sid r ≡ some g
      → g.ok_all ≡ true
      → (refs : List Ref) × (c : CheckRun W) × (dependencies_ok job r (lookup_or sid job.deps [])
          ≡ true)
        × (required_outputs (step_of job sid) ≡ ok refs)
        × (run_required sys job refs r.world ≡ some c)
        × (c.ok_all ≡ true)
        × (g.prerequisites.deps ≡ lookup_or sid job.deps [])
        × (g.prerequisites.required ≡ c.results)
        × (g.world ≡ c.world)
  unfolding prerequisite_gate
  prerequisite_gate-passed job sid r g h passed =
      elim (Bool-cases (dependencies_ok job r (lookup_or sid job.deps []))) [
        | inr unmet ↦
            let made = some-injective _ _ (rw (prerequisite_gate, unmet, gate_outputs) at h) in
            absurd (cc (ap (λ (g : GateResult W). g.ok_all) made, passed))
        | inl met ↦ elim (Result-cases (required_outputs (step_of job sid))) [
          | inr (e, bad) ↦ absurd (cc (rw (prerequisite_gate, met, gate_outputs, bad) at h))
          | inl (refs, read) ↦ elim (Option-cases (run_required sys job refs r.world)) [
            | inl stuck ↦ absurd (cc (rw (prerequisite_gate, met, gate_outputs, read, stuck) at h))
            | inr (c, ran) ↦
                let made =
                  some-injective _ _ (rw (prerequisite_gate, met, gate_outputs, read, ran) at h) in
                (
                  refs,
                  c,
                  met,
                  read,
                  ran,
                  ap (λ (g : GateResult W). g.ok_all) made ∙ passed,
                  ap (λ (g : GateResult W). g.prerequisites.deps) (sym made),
                  ap (λ (g : GateResult W). g.prerequisites.required) (sym made),
                  ap (λ (g : GateResult W). g.world) (sym made),
                )
          ]
        ]
      ]

  pub step_record-IsStepRecord :
      (job : Job) (sid attempt : ℕ) (ts : String) (g : Prerequisites) (results outs : List Fields)
      (outputs : Dict String Fields) (refs : List Ref)
      → contract_matches sys.split sys.python (step_of job sid) (arr (object_items results))
        ≡ some true
      → g.deps ≡ lookup_or sid job.deps []
      → output_index (step_of job sid) ≡ ok outputs
      → required_outputs (step_of job sid) ≡ ok refs
      → outputs_value_match sys.split sys.python outputs (arr (object_items outs)) ≡ some true
      → requireds_value_match sys.split sys.python job.by_id refs (arr (object_items g.required))
        ≡ some true
      → IsStepRecord sys.split sys.python job.key job.by_id job.deps sid
          (step_record ts audit_mode job.key sid g outs results true attempt)
  unfolding step_record base_record gate_fields attempt_entry get_or step_of checks_match
      declared_match and_then py_eq
  step_record-IsStepRecord job sid attempt ts g results outs outputs refs h deps declared read
        outs_ok required_ok =
      record {
        of_audit = refl;
        of_plan = refl;
        of_step = refl;
        is_verified = refl;
        matches =
            rw
              (
                h,
                deps,
                items_eq-id_items (lookup_or sid job.deps []),
                declared_match,
                declared,
                read,
                outs_ok,
                required_ok,
              )
              refl;
      }

  pub outputs_value_match-run_outputs :
      (outputs : Dict String Fields) (w : W) (o : CheckRun W)
      → All IsDeclared outputs
      → run_outputs sys outputs w ≡ some o
      → o.ok_all ≡ true
      → outputs_value_match sys.split sys.python outputs (arr (object_items o.results)) ≡ some true
  unfolding outputs_value_match as_list
  outputs_value_match-run_outputs outputs w o d h passed =
      let (matched, long) =
        outputs_match-run_outputs sys outputs w o
          (All-map IsDeclared (λ e. IsDict e.1) outputs (λ e p. p.1) d)
          (All-map IsDeclared (λ e. get_or "name" e.1 null ≡ str e.0) outputs (λ e p. p.0) d) h
          passed in
      rw (long, beq_refl (length outputs)) matched

  pub requireds_value_match-run_required :
      (job : Job) (refs : List Ref) (w : W) (c : CheckRun W)
      → All (λ e. IsDict e.1) job.by_id
      → run_required sys job refs w ≡ some c
      → c.ok_all ≡ true
      → requireds_value_match sys.split sys.python job.by_id refs (arr (object_items c.results))
        ≡ some true
  unfolding requireds_value_match as_list
  requireds_value_match-run_required job refs w c d h passed =
      let (matched, long) =
        requireds_match-run_required sys job refs w c
          (λ ref contract found. contract_of-IsDict job.by_id ref contract d found) h passed in
      rw (long, beq_refl (length refs)) matched
