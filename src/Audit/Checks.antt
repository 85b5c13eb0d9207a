-- ===== src/Audit/Checks.antt =====
-- scripts/audit_check.py: `_legacy_split`, `_reject_shell`, `norm_check`, `_run_check_list` and
-- `_run_output_contract`. What the process runs on is a record: the files of the workspace are a type W,
-- `run_check` may change them, and `split` is `shlex.split`. `none` is an exception that ends the call.
use plan_auditor.Base.{
  ℕ, String, Bool, true, false, ◌&&◌, Option, none, some, List, [], ◌∷◌, map, string_eq,
  if◌then◌else◌, Dict,
}
use plan_auditor.Json.{
  Value, null, bool, int, str, arr, obj, pos, Items, nil, cons, Fields, end, field, get, get_or,
  as_object, as_text, iterate, set_field, is_text,
}
use plan_auditor.PlanGraph.Steps.{GraphError}
use plan_auditor.PlanContract.{object_items}

-- What `run_check` returns.
pub record CheckOutcome : Type 0 where
  pub passed : Bool
  pub detail : String
  pub output_tail : String

-- `now n` is what the clock shows when the n-th record of a call is written, and `describe` is the text
-- of an exception.
pub record System (W : Type 0) : Type 0 where
  pub run_check : Fields → W → CheckOutcome × W
  pub fingerprint : W → String
  pub now : ℕ → String
  pub describe : GraphError → String
  pub split : String → Option (List String)
  pub python : String

-- A list of values or of texts as a document.
unfoldable pub value_items : List Value → Items
value_items [] = nil
value_items (v ∷ vs) = cons v (value_items vs)

abbrev pub texts_arr : List String → List Value
texts_arr = map str

module _ (split : String → Option (List String)) where
  -- An empty command is refused.
  unfoldable pub legacy_split : String → Option (List Value)
  legacy_split cmd = elim (split cmd) [
    | none ↦ none
    | some [] ↦ none
    | some (arg ∷ args) ↦ some (str arg ∷ texts_arr args)
  ]

  -- `_legacy_split(args) if isinstance(args, str) else list(args)`
  unfoldable pub pytest_args : Value → Option (List Value)
  unfolding legacy_split as_text iterate
  pytest_args args = elim (as_text args) [ some text ↦ legacy_split text | none ↦ iterate args ]

-- `if key in check: normalized[key] = check[key]`
unfoldable pub copy_key : Fields → String → Fields → Fields
unfolding get set_field
copy_key check key normalized = elim (get key check) [
  | none ↦ normalized
  | some v ↦ set_field key v normalized
]

unfoldable pub copy_limits : Fields → Fields → Fields
unfolding copy_key
copy_limits check normalized =
    copy_key check "max_output_bytes"
      (copy_key check "output_regex" (copy_key check "timeout" normalized))

-- `check.get("shell") is True`
unfoldable pub asks_shell : Fields → Bool
asks_shell check = elim (get_or "shell" check null) [ bool b ↦ b | _ ↦ false ]

-- `normalized["argv"] = list(check["argv"])`, or the command.
unfoldable pub exec_command : Fields → Fields → Option Fields
unfolding get set_field iterate value_items
exec_command check normalized = elim (get "argv" check) [
  | some argv ↦ elim (iterate argv) [
    | none ↦ none
    | some args ↦ some (set_field "argv" (arr (value_items args)) normalized)
  ]
  | none ↦ elim (get "cmd" check) [ none ↦ none | some cmd ↦ some (set_field "cmd" cmd normalized) ]
]

unfoldable pub run_command : Fields → Fields
unfolding get_or
run_command check =
    field "type" (str "run") (field "expect_exit" (get_or "expect_exit" check (int (pos 0))) end)

unfoldable pub norm_exec : Fields → Option Fields
unfolding asks_shell exec_command run_command copy_limits
norm_exec check = if asks_shell check then none else elim (exec_command check (run_command check)) [
  | none ↦ none
  | some normalized ↦ some (copy_limits check normalized)
]

module _ (split : String → Option (List String)) (python : String) where
  unfoldable pub pytest_command : Fields → List Value → Fields
  unfolding value_items get_or
  pytest_command check extra = field "type" (str "run") (
      field "argv" (arr (value_items (str python ∷ str "-m" ∷ str "pytest" ∷ extra)))
        (field "expect_exit" (get_or "expect_exit" check (int (pos 0))) end))

  unfoldable pub norm_pytest : Fields → Option Fields
  unfolding pytest_args pytest_command copy_limits
  norm_pytest check = elim (pytest_args split (get_or "args" check (str ""))) [
    | none ↦ none
    | some extra ↦ some (copy_limits check (pytest_command check extra))
  ]

  -- `check["type"]` raises where the key is absent.
  unfoldable pub norm_fields : Fields → Option Fields
  unfolding norm_pytest norm_exec is_text get
  norm_fields check = elim (get "type" check) [
    | none ↦ none
    | some kind ↦
        if is_text "pytest" kind
        then norm_pytest check
        else if is_text "exec" kind
        then norm_exec check
        else some check
  ]

  -- A check that is no dict raises.
  unfoldable pub norm_check : Value → Option Fields
  unfolding norm_fields as_object
  norm_check raw = elim (as_object raw) [ none ↦ none | some check ↦ norm_fields check ]

unfoldable pub check_result : Fields → Bool → String → String → Fields
check_result check passed detail tail = field "check" (obj check) (
    field "passed" (bool passed) (field "detail" (str detail) (field "output_tail" (str tail) end)))

-- What a list of checks gives, and the files behind it.
pub record CheckRun (W : Type 0) : Type 0 where
  pub ok_all : Bool
  pub results : List Fields
  pub world : W

module _ {W : Type 0} (sys : System W) where
  -- `ok_all and ok`, with the result in front of the later ones.
  unfoldable pub add_result : Fields → CheckOutcome → CheckRun W → CheckRun W
  unfolding check_result
  add_result check outcome rest = record {
    ok_all = outcome.passed && rest.ok_all;
    results = check_result check outcome.passed outcome.detail outcome.output_tail ∷ rest.results;
    world = rest.world;
  }

  unfoldable pub run_checks : List Value → W → Option (CheckRun W)
  unfolding add_result
  run_checks [] w = some (record { ok_all = true; results = []; world = w })
  run_checks (raw ∷ raws) w = elim (norm_check sys.split sys.python raw) [
    | none ↦ none
    | some check ↦
        let (outcome, after) = sys.run_check check w in
        elim (run_checks raws after) [
          | none ↦ none
          | some rest ↦ some (add_result check outcome rest)
        ]
  ]

  -- `_run_check_list(source.get("verify", []), base)`
  unfoldable pub run_check_list : Fields → W → Option (CheckRun W)
  unfolding run_checks iterate get_or
  run_check_list source w = elim (iterate (get_or "verify" source (arr nil))) [
    | none ↦ none
    | some raws ↦ run_checks raws w
  ]

  unfoldable pub output_result : Value → CheckRun W → Fields
  unfolding object_items
  output_result name c =
      field "name" name
        (field "passed" (bool c.ok_all) (field "results" (arr (object_items c.results)) end))

  -- The contracts of a step's outputs, in order: the results of `_run_output_contract`.
  unfoldable pub run_outputs : Dict String Fields → W → Option (CheckRun W)
  unfolding run_check_list output_result
  run_outputs [] w = some (record { ok_all = true; results = []; world = w })
  run_outputs ((name, output) ∷ outputs) w = elim (run_check_list output w) [
    | none ↦ none
    | some c ↦ elim (run_outputs outputs c.world) [
      | none ↦ none
      | some rest ↦ some (record {
        ok_all = c.ok_all && rest.ok_all;
        results = output_result (get_or "name" output null) c ∷ rest.results;
        world = rest.world;
      })
    ]
  ]
