-- ===== src/Audit/Proof.antt =====
-- supervisor/orchestrator.py: `_iter_evidence_records`, `_checks_match` and `fresh_full_audit_proof`, which
-- finds in the evidence the full audit that proves a plan complete.
-- A file is its lines as `json.loads` reads them.
use plan_auditor.Base.{
  ℕ, String, Bool, true, false, ◌&&◌, Option, none, some, List, [], ◌∷◌, ◌++◌, nat_eq, string_eq,
  ◌==◌, if◌then◌else◌, length, Dict, ok, err,
}
use plan_auditor.Json.{
  Value, null, bool, arr, obj, nil, Fields, get_or, as_object, as_list, iterate, objects, is_text,
  py_eq,
}
use plan_auditor.PlanGraph.Outputs.{Ref, output_index, required_outputs}
use plan_auditor.Evidence.Chain.{Line, json, File}
use plan_auditor.Audit.Checks.{norm_fields}
use plan_auditor.Audit.Records.{nat, id_items}
use plan_auditor.Audit.Run.{contract_of}

-- The dicts of a file; what is no JSON or no dict is skipped.
unfoldable pub file_records : List Line → List Fields
unfolding as_object
file_records [] = []
file_records (json v ∷ lines) =
    let rest = file_records lines in elim (as_object v) [ none ↦ rest | some rec ↦ rec ∷ rest ]
file_records (_ ∷ lines) = file_records lines

unfoldable pub iter_evidence_records : List File → List Fields
unfolding file_records
iter_evidence_records [] = []
iter_evidence_records (none ∷ files) = iter_evidence_records files
iter_evidence_records (some lines ∷ files) = file_records lines ++ iter_evidence_records files

-- `v is True`
unfoldable pub is_true_bool : Value → Bool
is_true_bool (bool b) = b
is_true_bool _ = false

-- The loops over results stop at the first that does not match; a list that is too short or too long does
-- not match.
unfoldable pub result_matches : Fields → Value → Bool
unfolding as_object get_or py_eq is_true_bool
result_matches check result = elim (as_object result) [
  | none ↦ false
  | some fields ↦
      py_eq (get_or "check" fields null) (obj check) && is_true_bool (get_or "passed" fields null)
]

unfoldable pub results_match : List Fields → List Value → Bool
unfolding result_matches
results_match [] [] = true
results_match (check ∷ checks) (result ∷ results) =
    result_matches check result && results_match checks results
results_match _ _ = false

unfoldable pub result_checks_match : List Fields → Value → Bool
unfolding results_match as_list
result_checks_match expected results = elim (as_list results) [
  | none ↦ false
  | some actual ↦ results_match expected actual
]

module _ (split : String → Option (List String)) (python : String) where
  unfoldable pub norm_all : List Fields → Option (List Fields)
  norm_all [] = some []
  norm_all (check ∷ checks) = elim (norm_fields split python check) [
    | none ↦ none
    | some first ↦ elim (norm_all checks) [ none ↦ none | some rest ↦ some (first ∷ rest) ]
  ]

  -- `[norm_check(check) for check in source.get("verify", []) if isinstance(check, dict)]`; `none` is an
  -- exception.
  unfoldable pub expected_checks : Fields → Option (List Fields)
  unfolding norm_all get_or iterate objects
  expected_checks source = elim (iterate (get_or "verify" source (arr nil))) [
    | none ↦ none
    | some raws ↦ norm_all (objects raws)
  ]

  -- `some false` does not match.
  unfoldable pub contract_matches : Fields → Value → Option Bool
  unfolding expected_checks result_checks_match
  contract_matches source results = elim (expected_checks source) [
    | none ↦ none
    | some checks ↦ some (result_checks_match checks results)
  ]

  -- `if not test: return False`, and the rest of the function.
  unfoldable pub and_then : Option Bool → Option Bool → Option Bool
  and_then none rest = none
  and_then (some false) rest = some false
  and_then (some true) rest = rest

  unfoldable pub output_matches : String × Fields → Value → Option Bool
  unfolding as_object get_or is_text is_true_bool contract_matches
  output_matches (name, contract) actual = elim (as_object actual) [
    | none ↦ some false
    | some fields ↦
        if is_text name (get_or "name" fields null) && is_true_bool (get_or "passed" fields null)
        then contract_matches contract (get_or "results" fields (arr nil))
        else some false
  ]

  unfoldable pub outputs_match : Dict String Fields → List Value → Option Bool
  unfolding output_matches and_then
  outputs_match [] [] = some true
  outputs_match (output ∷ outputs) (actual ∷ actuals) =
      and_then (output_matches output actual) (outputs_match outputs actuals)
  outputs_match _ _ = some false

  unfoldable pub required_matches : Dict ℕ Fields → Ref → Value → Option Bool
  unfolding as_object get_or py_eq is_text is_true_bool contract_of contract_matches
  required_matches by_id ref actual = elim (as_object actual) [
    | none ↦ some false
    | some fields ↦
        if py_eq (get_or "step" fields null) (nat ref.0)
          && is_text ref.1 (get_or "name" fields null)
          && is_true_bool (get_or "passed" fields null)
        then elim (contract_of by_id ref) [
          | none ↦ some false
          | some contract ↦ contract_matches contract (get_or "results" fields (arr nil))
        ]
        else some false
  ]

  unfoldable pub requireds_match : Dict ℕ Fields → List Ref → List Value → Option Bool
  unfolding required_matches and_then
  requireds_match by_id [] [] = some true
  requireds_match by_id (ref ∷ refs) (actual ∷ actuals) =
      and_then (required_matches by_id ref actual) (requireds_match by_id refs actuals)
  requireds_match by_id _ _ = some false

  -- A value that is no list does not match, and lengths are compared before the loop.
  unfoldable pub outputs_value_match : Dict String Fields → Value → Option Bool
  unfolding outputs_match as_list
  outputs_value_match declared v = elim (as_list v) [
    | none ↦ some false
    | some actual ↦
        if length actual == length declared then outputs_match declared actual else some false
  ]

  unfoldable pub requireds_value_match : Dict ℕ Fields → List Ref → Value → Option Bool
  unfolding requireds_match as_list
  requireds_value_match by_id refs v = elim (as_list v) [
    | none ↦ some false
    | some actual ↦
        if length actual == length refs then requireds_match by_id refs actual else some false
  ]

  unfoldable pub declared_match : Dict ℕ Fields → Fields → Fields → Option Bool
  unfolding get_or outputs_value_match requireds_value_match and_then
  declared_match by_id step record_fields = elim (output_index step) [
    | err e ↦ some false
    | ok declared ↦ elim (required_outputs step) [
      | err e ↦ some false
      | ok refs ↦
          and_then (outputs_value_match declared (get_or "outputs" record_fields (arr nil)))
            (requireds_value_match by_id refs (get_or "required_outputs" record_fields (arr nil)))
    ]
  ]

  unfoldable pub checks_match : Dict ℕ Fields → Fields → Fields → List ℕ → Option Bool
  unfolding contract_matches get_or py_eq id_items declared_match and_then
  checks_match by_id step record_fields dependencies =
      and_then (contract_matches step (get_or "results" record_fields (arr nil))) (
        and_then
          (some
            (py_eq (get_or "dependencies" record_fields (arr nil)) (arr (id_items dependencies))))
          (declared_match by_id step record_fields))
