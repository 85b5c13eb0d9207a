-- ===== src/Sealing/Seals.antt =====
-- supervisor/sealing.py: `Seal`, `seal_plan`, the parsing of its document and the self-check. `int` on a text
-- and on a float that is not whole is a parameter.
use plan_auditor.Base.{
  ℕ, ◌+◌, String, true, false, Option, none, some, List, [], ◌∷◌, length, string_eq, ◌==◌,
  if◌then◌else◌, leb, Result, ok, err, ◌>>◌,
}
use plan_auditor.Json.{
  Value, null, bool, int, float, str, arr, obj, nil, ℤ, pos, negsuc, int_eq, Fields, end, field,
  get, get_or, as_object, is_text, iterate, objects, truthy,
}
use plan_auditor.PlanGraph.Steps.{plan_steps}
use plan_auditor.Integrity.{KeyError, canonical_digest}
use plan_auditor.PlanContract.{
  checks_of, contract_plan, traffic_entry, plan_hash, legacy_v3_plan_hash,
}
use plan_auditor.Sealing.Steps.{or_empty}

pub record Seal : Type 0 where
  pub plan_id : Value
  pub sealed_at : Value
  pub plan_hash : Value
  pub criteria_count : ℤ
  pub steps : Value
  pub task : Value
  pub requirements : Value
  pub required_tools : Value
  pub environment : Value
  pub traffic : Option Value
  pub format_version : ℤ
  pub auth : Option Fields

abbrev pub seal_domain : String
seal_domain = "plan-auditor:plan-seal:v1"

-- `value or {}`
unfoldable pub or_empty_dict : Value → Value
unfolding truthy
or_empty_dict v = if truthy v then v else obj end

unfoldable pub payload : Seal → Fields
unfolding or_empty_dict traffic_entry
payload s = field "format_version" (int s.format_version) (
    field "plan_id" s.plan_id (
      field "sealed_at" s.sealed_at (
        field "plan_hash" s.plan_hash (
          field "criteria_count" (int s.criteria_count) (
            field "task" s.task (
              field "requirements" s.requirements (
                field "required_tools" s.required_tools (
                  field "environment" (or_empty_dict s.environment)
                    (field "steps" s.steps (traffic_entry s.traffic))))))))))

unfoldable pub as_plan : Seal → Fields
unfolding or_empty traffic_entry
as_plan s = field "task" s.task (
    field "requirements" s.requirements (
      field "required_tools" (or_empty s.required_tools)
        (field "steps" s.steps (traffic_entry s.traffic))))

unfoldable pub add_counts : Option ℕ → Option ℕ → Option ℕ
add_counts none m = none
add_counts (some n) none = none
add_counts (some n) (some m) = some (n + m)

-- The checks of the outputs: `output.get("verify", []) or []`.
unfoldable pub output_checks : List Fields → Option ℕ
unfolding add_counts or_empty iterate objects get_or
output_checks [] = some 0
output_checks (output ∷ rest) =
    add_counts
      (elim (iterate (or_empty (get_or "verify" output (arr nil)))) [
        | none ↦ none
        | some vs ↦ some (length (objects vs))
      ])
      (output_checks rest)

unfoldable pub step_criteria : Fields → Option ℕ
unfolding checks_of output_checks
step_criteria step =
    add_counts (elim (checks_of step) [ none ↦ none | some cs ↦ some (length cs) ])
      (elim (iterate (or_empty (get_or "outputs" step (arr nil)))) [
        | none ↦ none
        | some vs ↦ output_checks (objects vs)
      ])

unfoldable pub sum_criteria : List Fields → Option ℕ
unfolding step_criteria
sum_criteria [] = some 0
sum_criteria (step ∷ steps) = add_counts (step_criteria step) (sum_criteria steps)

-- `_criteria_count`; `none` is a TypeError.
unfoldable pub criteria_count : Fields → Option ℕ
unfolding sum_criteria plan_steps
criteria_count plan = elim (plan_steps plan) [ none ↦ none | some steps ↦ sum_criteria steps ]

pub data SealError : Type 0 where
  bad_numbers contract_changed count_changed path_unsafe not_document not_object auth_failed
        auth_needs_key :
      SealError
  key_problem : KeyError → SealError
  type_error : SealError

-- `int(value)`; `none` is a TypeError or a ValueError.
unfoldable pub to_int : (Value → Option ℤ) → Value → Option ℤ
to_int parse (int n) = some n
to_int parse (bool true) = some (pos 1)
to_int parse (bool false) = some (pos 0)
to_int parse (float (some n) r) = some n
to_int parse (float none r) = parse (float none r)
to_int parse (str s) = parse (str s)
to_int parse _ = none

unfoldable pub seal_of : Fields → ℤ → ℤ → Seal
unfolding get_or get as_object
seal_of data_fields count version = record {
  plan_id = get_or "plan_id" data_fields (str "");
  sealed_at = get_or "sealed_at" data_fields (str "");
  plan_hash = get_or "plan_hash" data_fields (str "");
  criteria_count = count;
  steps = get_or "steps" data_fields (arr nil);
  task = get_or "task" data_fields null;
  requirements = get_or "requirements" data_fields null;
  required_tools = get_or "required_tools" data_fields (arr nil);
  environment = get_or "environment" data_fields (obj end);
  traffic = get "traffic" data_fields;
  format_version = version;
  auth = as_object (get_or "auth" data_fields null);
}

-- `_parse_seal_data`
unfoldable pub parse_seal_data : (Value → Option ℤ) → Fields → Result SealError Seal
unfolding to_int seal_of get_or
parse_seal_data parse data_fields =
    elim (to_int parse (get_or "criteria_count" data_fields (int (pos 0)))) [
      | none ↦ err bad_numbers
      | some count ↦ elim (to_int parse (get_or "format_version" data_fields (int (pos 1)))) [
        | none ↦ err bad_numbers
        | some version ↦ ok (seal_of data_fields count version)
      ]
    ]

-- What the version asks of the digest of the plan.
pub data Expected : Type 0 where
  not_checked : Expected
  digest : Option String → Expected

unfoldable pub same_hash : Value → Option String → Result SealError (Unit {0})
unfolding is_text
same_hash found none = err type_error
same_hash found (some hash) = if is_text hash found then ok tt else err contract_changed

unfoldable pub same_count : ℤ → Option ℕ → Result SealError (Unit {0})
same_count found none = err type_error
same_count found (some n) = if found == pos n then ok tt else err count_changed

module _ (sha256 : List ℕ → String) where
  unfoldable pub expected_hash : ℤ → Fields → Expected
  unfolding plan_hash legacy_v3_plan_hash
  expected_hash (negsuc n) plan = not_checked
  expected_hash (pos n) plan =
      if pos n == pos 3
      then digest (legacy_v3_plan_hash sha256 plan)
      else if leb 4 n
      then digest (plan_hash sha256 plan)
      else not_checked

  -- `_validate_seal_self_consistency`
  unfoldable pub validate_seal_self_consistency : Seal → Result SealError (Unit {0})
  unfolding expected_hash same_hash same_count criteria_count
  validate_seal_self_consistency s = elim (expected_hash s.format_version (as_plan s)) [
    | not_checked ↦ ok tt
    | digest hash ↦ do
      same_hash s.plan_hash hash
      same_count s.criteria_count (criteria_count (as_plan s))
  ]

  -- The seal of a contract.
  unfoldable pub contract_seal : String → String → Value → Fields → ℕ → Seal
  unfolding canonical_digest or_empty_dict get_or get
  contract_seal plan_id sealed_at environment contracted count = record {
    plan_id = str plan_id;
    sealed_at = str sealed_at;
    plan_hash = str (canonical_digest sha256 (obj contracted));
    criteria_count = pos count;
    steps = get_or "steps" contracted (arr nil);
    task = get_or "task" contracted null;
    requirements = get_or "requirements" contracted null;
    required_tools = get_or "required_tools" contracted (arr nil);
    environment = or_empty_dict environment;
    traffic = get "traffic" contracted;
    format_version = pos 4;
    auth = none;
  }

  -- `none` is a TypeError.
  unfoldable pub seal_plan : Fields → String → String → Value → Option Seal
  unfolding contract_seal contract_plan criteria_count
  seal_plan plan plan_id sealed_at environment = elim (contract_plan plan) [
    | none ↦ none
    | some contracted ↦ elim (criteria_count contracted) [
      | none ↦ none
      | some count ↦ some (contract_seal plan_id sealed_at environment contracted count)
    ]
  ]
