-- ===== src/Audit/Written.antt =====
-- The records of steps as they are written to the chain.
use plan_auditor.Base.{
  ℕ, String, Option, List, [], ◌∷◌, ◌≡◌, refl, ◌∙◌, inl, inr, string_eq, nat_eq, Result-cases, Dict,
}
use plan_auditor.Json.{null, str, arr, nil, Fields}
use plan_auditor.PlanGraph.Steps.{Graph}
use plan_auditor.PlanGraph.Outputs.{output_index, required_outputs}
use plan_auditor.Integrity.{KeyMaterial}
use plan_auditor.Audit.Proof.{checks_match, declared_match}
use plan_auditor.Audit.Verified.{IsStepRecord}
use plan_auditor.Audit.Chain.{write_record, write_records, written_hash}
use plan_auditor.Audit.Grown.{get_or-write_record}
use plan_auditor.Audit.Scans.{AreStepRecords}

module _ (sha256 : List ℕ → String) (hmac : List ℕ → List ℕ → String)
    (key : Option KeyMaterial) where
  module _ (split : String → Option (List String)) (python plan_name : String)
      (by_id : Dict ℕ Fields) (deps : Graph) where
    declared_match-write_record :
        (previous : String) (step rec : Fields)
        → declared_match split python by_id step (write_record sha256 hmac key previous rec)
          ≡ declared_match split python by_id step rec
    unfolding declared_match
    declared_match-write_record previous step rec = elim (Result-cases (output_index step)) [
      | inr (e, bad) ↦ rw (declared_match, bad) refl
      | inl (declared, found) ↦ elim (Result-cases (required_outputs step)) [
        | inr (e, bad) ↦ rw (declared_match, found, bad) refl
        | inl (refs, read) ↦
            rw
              (
                declared_match,
                found,
                read,
                get_or-write_record sha256 hmac key "outputs" previous (arr nil) rec refl refl refl,
                get_or-write_record sha256 hmac key "required_outputs" previous (arr nil) rec refl
                    refl refl,
              )
              refl
      ]
    ]

    checks_match-write_record :
        (previous : String) (step rec : Fields) (ds : List ℕ)
        → checks_match split python by_id step (write_record sha256 hmac key previous rec) ds
          ≡ checks_match split python by_id step rec ds
    unfolding checks_match
    checks_match-write_record previous step rec ds =
        rw
          (
            checks_match,
            get_or-write_record sha256 hmac key "results" previous (arr nil) rec refl refl refl,
            get_or-write_record sha256 hmac key "dependencies" previous (arr nil) rec refl refl
                refl,
            declared_match-write_record previous step rec,
          )
          refl

    IsStepRecord-write_record :
        (previous : String) (sid : ℕ) (rec : Fields)
        → IsStepRecord split python plan_name by_id deps sid rec
        → IsStepRecord split python plan_name by_id deps sid
            (write_record sha256 hmac key previous rec)
    IsStepRecord-write_record previous sid rec p = record {
      of_audit =
          get_or-write_record sha256 hmac key "mode" previous null rec refl refl refl ∙ p.of_audit;
      of_plan =
          get_or-write_record sha256 hmac key "plan" previous (str "default") rec refl refl refl
          ∙ p.of_plan;
      of_step =
          get_or-write_record sha256 hmac key "step" previous null rec refl refl refl ∙ p.of_step;
      is_verified =
          get_or-write_record sha256 hmac key "status" previous null rec refl refl refl
          ∙ p.is_verified;
      matches = checks_match-write_record previous _ rec _ ∙ p.matches;
    }

    -- What proves the steps still proves them once it is written to the chain.
    pub AreStepRecords-write_records :
        (previous : String) (sids : List ℕ) (recs : List Fields)
        → AreStepRecords split python plan_name by_id deps sids recs
        → AreStepRecords split python plan_name by_id deps sids
            (write_records sha256 hmac key previous recs)
    unfolding AreStepRecords write_records
    AreStepRecords-write_records previous [] [] p = tt
    AreStepRecords-write_records previous (sid ∷ sids) (rec ∷ recs) p = (
      IsStepRecord-write_record previous sid rec p.0,
      AreStepRecords-write_records (written_hash sha256 hmac previous rec) sids recs p.1,
    )
    AreStepRecords-write_records previous [] (rec ∷ recs) p = absurd p
    AreStepRecords-write_records previous (sid ∷ sids) [] p = absurd p
