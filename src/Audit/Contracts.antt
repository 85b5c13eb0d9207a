-- ===== src/Audit/Contracts.antt =====
-- The results of outputs and required outputs beside their contracts.
use plan_auditor.Base.{
  suc, String, true, some, List, [], ◌∷◌, ◌≡◌, refl, sym, ap, ◌∙◌, inl, inr, string_eq, nat_eq,
  beq_refl, Option-cases, All, and-true, Dict, length,
}
use mathlib.Core.Option.{some-injective}
use plan_auditor.Json.{
  null, str, obj, Fields, get_or, items, as_object, as_text, is_text, number_eq, py_eq, IsDict,
}
use plan_auditor.PlanGraph.Outputs.{Ref}
use plan_auditor.PlanContract.{object_items}
use plan_auditor.Audit.Checks.{System, CheckRun, run_check_list, output_result, run_outputs}
use plan_auditor.Audit.Run.{Job, contract_of, required_result}
use plan_auditor.Audit.Visit.{run_required}
use plan_auditor.Audit.Proof.{
  is_true_bool, and_then, output_matches, outputs_match, required_matches, requireds_match,
}
use plan_auditor.Audit.Matches.{AreContracts, contract_matches-run_check_list}

module _ {W : Type 0} (sys : System W) where
  -- The output's name stands in its contract.
  abbrev pub AreNamed : Dict String Fields → Type 0
  AreNamed d = All (λ e. get_or "name" e.1 null ≡ str e.0) d

  output_matches-output_result :
      (name : String) (output : Fields) (w : W) (c : CheckRun W)
      → IsDict output
      → get_or "name" output null ≡ str name
      → run_check_list sys output w ≡ some c
      → c.ok_all ≡ true
      → output_matches sys.split sys.python
          (name, output)
          (obj (output_result sys (get_or "name" output null) c))
        ≡ some true
  unfolding output_matches output_result as_object get_or is_text is_true_bool as_text
  output_matches-output_result name output w c d named h passed =
      rw (named, beq_refl name, passed) (contract_matches-run_check_list sys output w c d h passed)

  run_outputs-cons :
      (name : String) (output : Fields) (outputs : Dict String Fields) (w : W) (o : CheckRun W)
      → run_outputs sys ((name, output) ∷ outputs) w ≡ some o
      → o.ok_all ≡ true
      → (c : CheckRun W) × (rest : CheckRun W) × (run_check_list sys output w ≡ some c)
        × (run_outputs sys outputs c.world ≡ some rest)
        × (c.ok_all ≡ true)
        × (rest.ok_all ≡ true)
        × (o.results ≡ output_result sys (get_or "name" output null) c ∷ rest.results)
        × (o.world ≡ rest.world)
  unfolding run_outputs
  run_outputs-cons name output outputs w o h passed =
      elim (Option-cases (run_check_list sys output w)) [
        | inl bad ↦ absurd (cc (rw (run_outputs, bad) at h))
        | inr (c, first) ↦ elim (Option-cases (run_outputs sys outputs c.world)) [
          | inl bad ↦ absurd (cc (rw (run_outputs, first, bad) at h))
          | inr (rest, later) ↦
              let made = some-injective _ _ (rw (run_outputs, first, later) at h) in
              let both =
                and-true c.ok_all rest.ok_all (ap (λ (r : CheckRun W). r.ok_all) made ∙ passed) in
              (
                c,
                rest,
                first,
                later,
                both.0,
                both.1,
                ap (λ (r : CheckRun W). r.results) (sym made),
                ap (λ (r : CheckRun W). r.world) (sym made),
              )
        ]
      ]

  pub outputs_match-run_outputs :
      (outputs : Dict String Fields) (w : W) (o : CheckRun W)
      → AreContracts outputs
      → AreNamed outputs
      → run_outputs sys outputs w ≡ some o
      → o.ok_all ≡ true
      → (outputs_match sys.split sys.python outputs (items (object_items o.results)) ≡ some true)
        × (length (items (object_items o.results)) ≡ length outputs)
  unfolding run_outputs outputs_match items object_items and_then
  outputs_match-run_outputs [] w o d n h passed =
      let same : record { ok_all = true; results = []; world = w } ≡ o = cc in
      rw (← same) (refl, refl)
  outputs_match-run_outputs ((name, output) ∷ outputs) w o (d, ds) (n, ns) h passed =
      let (c, rest, first, later, here, there, results, _) =
        run_outputs-cons name output outputs w o h passed in
      let (matched, long) = outputs_match-run_outputs outputs c.world rest ds ns later there in
      rw results (
        rw (output_matches-output_result name output w c d n first here) matched,
        ap (λ k. suc k) long,
      )

  module _ (job : Job) where
    run_required-cons :
        (ref : Ref) (refs : List Ref) (w : W) (o : CheckRun W)
        → run_required sys job (ref ∷ refs) w ≡ some o
        → o.ok_all ≡ true
        → (contract : Fields) × (c : CheckRun W) × (rest : CheckRun W) × (contract_of job.by_id ref
            ≡ some contract)
          × (run_check_list sys contract w ≡ some c)
          × (run_required sys job refs c.world ≡ some rest)
          × (c.ok_all ≡ true)
          × (rest.ok_all ≡ true)
          × (o.results ≡ required_result ref.0 ref.1 c.ok_all c.results ∷ rest.results)
    unfolding run_required
    run_required-cons ref refs w o h passed = elim (Option-cases (contract_of job.by_id ref)) [
      | inl missing ↦ absurd (cc (rw (run_required, missing) at h))
      | inr (contract, found) ↦ elim (Option-cases (run_check_list sys contract w)) [
        | inl bad ↦ absurd (cc (rw (run_required, found, bad) at h))
        | inr (c, first) ↦ elim (Option-cases (run_required sys job refs c.world)) [
          | inl bad ↦ absurd (cc (rw (run_required, found, first, bad) at h))
          | inr (rest, later) ↦
              let made = some-injective _ _ (rw (run_required, found, first, later) at h) in
              let both =
                and-true c.ok_all rest.ok_all (ap (λ (r : CheckRun W). r.ok_all) made ∙ passed) in
              (
                contract,
                c,
                rest,
                found,
                first,
                later,
                both.0,
                both.1,
                ap (λ (r : CheckRun W). r.results) (sym made),
              )
        ]
      ]
    ]

    -- Every contract that a reference can name is a document.
    abbrev pub ContractsAreDicts : Type 0
    ContractsAreDicts =
        (ref : Ref) (contract : Fields)
        → contract_of job.by_id ref ≡ some contract
        → IsDict contract

    required_matches-required_result :
        (ref : Ref) (contract : Fields) (w : W) (c : CheckRun W)
        → IsDict contract
        → contract_of job.by_id ref ≡ some contract
        → run_check_list sys contract w ≡ some c
        → c.ok_all ≡ true
        → required_matches sys.split sys.python job.by_id ref
            (obj (required_result ref.0 ref.1 c.ok_all c.results))
          ≡ some true
    unfolding required_matches required_result as_object get_or is_text is_true_bool py_eq number_eq
        as_text
    required_matches-required_result ref contract w c d found h passed =
        rw (beq_refl ref.0, beq_refl ref.1, passed, found)
          (contract_matches-run_check_list sys contract w c d h passed)

    pub requireds_match-run_required :
        (refs : List Ref) (w : W) (o : CheckRun W)
        → ContractsAreDicts
        → run_required sys job refs w ≡ some o
        → o.ok_all ≡ true
        → (requireds_match sys.split sys.python job.by_id refs (items (object_items o.results))
            ≡ some true)
          × (length (items (object_items o.results)) ≡ length refs)
    unfolding run_required requireds_match items object_items and_then
    requireds_match-run_required [] w o d h passed =
        let same : record { ok_all = true; results = []; world = w } ≡ o = cc in
        rw (← same) (refl, refl)
    requireds_match-run_required (ref ∷ refs) w o d h passed =
        let (contract, c, rest, found, first, later, here, there, results) =
          run_required-cons ref refs w o h passed in
        let (matched, long) = requireds_match-run_required refs c.world rest d later there in
        rw results (
          rw
              (required_matches-required_result ref contract w c (d ref contract found) found first
                here)
              matched,
          ap (λ k. suc k) long,
        )
