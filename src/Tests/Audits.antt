-- ===== src/Tests/Audits.antt =====
-- scripts/audit_check.py and supervisor/orchestrator.py: a full audit of a plan of two steps, the evidence
-- that it writes, and the proof that is found in it.
use plan_auditor.Base.{
  if◌then◌else◌, ℕ, String, true, false, none, some, List, [], ◌∷◌, ◌≡◌, refl, map, is_empty, All,
  ok, length, ap, ◌∙◌, append-nil, ◌+◌,
}
use plan_auditor.Json.{
  Value, int, str, arr, obj, pos, nil, cons, Fields, end, field, objects, IsDict, as_object,
}
use plan_auditor.Tests.Language.{language}
use plan_auditor.Tests.Graph.{id_list}
use plan_auditor.PlanGraph.Order.{topological_order}
use plan_auditor.PlanGraph.Outputs.{as_name, has_checks, validate_output_links}
use plan_auditor.PlanGraph.Steps.{positive_ids}
use plan_auditor.Evidence.Chain.{Line, genesis}
use plan_auditor.Audit.Checks.{System, norm_check}
use plan_auditor.Audit.Records.{audit_mode}
use plan_auditor.Audit.Run.{Run}
use plan_auditor.Audit.Visit.{visit_steps}
use plan_auditor.Audit.Full.{
  Audited, returned, start, audit_steps, run_job, selection, asks_nothing, attempts_for,
}
use plan_auditor.Audit.Counts.{read_graph, index_all}
use plan_auditor.Audit.Proof.{file_records, iter_evidence_records}
use plan_auditor.Audit.Fresh.{Workspace, valid, fresh_full_audit_proof}
use plan_auditor.Audit.Chain.{
  LineReader, strict_line, write_record, broken_at, prev_broken, written_hash, write_records,
  verify_chain, judge_head, scan_lines,
}
use plan_auditor.Audit.Grown.{json_line}
use plan_auditor.Audit.Chain.{scanned}
use plan_auditor.Base.{keep, mem, lookup}
use plan_auditor.Audit.Finished.{audit_steps-IsVerified}
use plan_auditor.Audit.Append.{Checkpoint, first_hash, append_line}
use plan_auditor.Audit.Continued.{IsDigest, goes_on, verify_chain-append_line}
use plan_auditor.Audit.Sound.{IsLast}
use plan_auditor.Audit.Valid.{IsCurrent, AreProofs, fresh_full_audit_proof-valid}
use plan_auditor.Audit.Refused.{IsReadAlike}
use plan_auditor.Audit.Agrees.{mode_of, verify_chain-verify_jsonl_chain}
use plan_auditor.Audit.Attempts.{attempts, count_failed_attempts-attempts}
use plan_auditor.Audit.Counts.{count_failed_attempts}
use plan_auditor.Audit.Chain.{HeadState, is_intact}
use plan_auditor.Evidence.Chain.{record_hash, blank, verify_jsonl_chain}
use plan_auditor.PlanGraph.Steps.{Graph, effective_dependencies}
use plan_auditor.Base.{◌↔◌, arith, beq_refl, nat_eq, ◌==◌, string_eq, pair_eq}
use plan_auditor.Json.{ℤ, int_eq}
use plan_auditor.Audit.Accepted.{IsAfter, fresh_full_audit_proof-audit_steps}
use plan_auditor.Evidence.Archives.{verify_anchor_chain}

-- The files are a number, and a check passes while it is 0.
abbrev machine : System ℕ
machine = record {
  run_check = λ check w. (record { passed = true; detail = ""; output_tail = "" }, w);
  fingerprint = λ w. "files";
  now = λ n. "time";
  describe = λ e. "graph error";
  split = λ s. none;
  python = "python";
}

abbrev exists_check : Fields
exists_check = field "type" (str "file_exists") (field "path" (str "a.txt") end)

abbrev first_step : Fields
first_step = field "id" (int (pos 1)) (
    field "depends_on" (arr nil) (
      field "verify" (arr (cons (obj exists_check) nil)) (
        field "outputs"
          (arr (
            cons
              (obj
                (field "name" (str "a") (field "verify" (arr (cons (obj exists_check) nil)) end)))
              nil))
          end)))

abbrev exec_check : Fields
exec_check = field "type" (str "exec") (field "argv" (arr (cons (str "make") nil)) end)

abbrev second_step : Fields
second_step = field "id" (int (pos 2)) (
    field "depends_on" (arr (id_list (1 ∷ []))) (
      field "requires_outputs"
        (arr (cons (obj (field "step" (int (pos 1)) (field "name" (str "a") end))) nil))
        (field "verify" (arr (cons (obj exec_check) nil)) end)))

abbrev raw_steps : List Value
raw_steps = obj first_step ∷ obj second_step ∷ []

abbrev plan : Fields
plan = field "task" (str "build") end

abbrev digest : List ℕ → String
digest bytes = "digest"

read_graph-raw_steps :
    read_graph (objects raw_steps) ≡ some (1 ∷ 2 ∷ [], (1, []) ∷ (2, 1 ∷ []) ∷ [])
unfolding read_graph topological_order validate_output_links positive_ids as_name has_checks
    language
read_graph-raw_steps = refl

abbrev full_audit : Audited ℕ
full_audit =
    audit_steps digest machine
      (record { mode = audit_mode; ids = none; key = "default"; force = false }) (some 3) plan
      raw_steps [] 0

abbrev run_of : Audited ℕ → Run ℕ
run_of (returned b r) = r
run_of _ = start 0

-- Both steps are verified, and three records are written.
audit_steps-raw_steps : full_audit ≡ returned true (run_of full_audit)
unfolding audit_steps read_graph topological_order validate_output_links positive_ids as_name
    has_checks language run_job visit_steps start selection index_all asks_nothing attempts_for
    norm_check
audit_steps-raw_steps = refl

raw_steps-IsDict : All IsDict (objects raw_steps)
unfolding IsDict language
raw_steps-IsDict = (first, (second, tt))
  where
    a_check : IsDict exists_check
    a_check = (refl, tt, (refl, tt, tt))

    first : IsDict first_step
    first = (
      refl,
      tt,
      (refl, tt, (refl, (a_check, tt), (refl, ((refl, tt, (refl, (a_check, tt), tt)), tt), tt))),
    )

    second : IsDict second_step
    second = (
      refl,
      tt,
      (
        refl,
        (tt, tt),
        (
          refl,
          ((refl, tt, (refl, tt, tt)), tt),
          (refl, ((refl, tt, (refl, (tt, tt), tt)), tt), tt),
        ),
      ),
    )

abbrev mac : List ℕ → List ℕ → String
mac key bytes = "mac"

-- The evidence file with the records of the audit, without a key.
abbrev audited : Workspace
audited = record {
  chain_ok = true;
  archives = record { archives = []; auth_problem = none };
  files = some (map json_line (write_records digest mac none genesis (run_of full_audit).log)) ∷ [];
  print = "files";
}

file_records-json_line : (recs : List Fields) → file_records (map json_line recs) ≡ recs
unfolding file_records as_object
file_records-json_line [] = refl
file_records-json_line (rec ∷ recs) = ap (λ l. rec ∷ l) (file_records-json_line recs)

audited-IsAfter : IsAfter digest mac machine (run_of full_audit) audited
unfolding iter_evidence_records verify_anchor_chain
audited-IsAfter = record {
  chain_holds = refl;
  archives_hold = refl;
  key = none;
  before = [];
  previous = genesis;
  stored =
      append-nil (
        file_records
          (map json_line (write_records digest mac none genesis (run_of full_audit).log)))
      ∙ file_records-json_line (write_records digest mac none genesis (run_of full_audit).log);
  unchanged = refl;
}

fresh_full_audit_proof-audit_steps_example :
    (ts : Value) × (fresh_full_audit_proof digest machine.split machine.python plan
        (objects raw_steps)
        "default"
        audited
      ≡ some (valid ts (length (objects raw_steps))))
fresh_full_audit_proof-audit_steps_example =
    fresh_full_audit_proof-audit_steps digest mac machine none "default" false 3 plan raw_steps [] 0
      (run_of full_audit) audited raw_steps-IsDict steps_there audit_steps-raw_steps audited-IsAfter
  where
    steps_there : is_empty (objects raw_steps) ≡ false
    steps_there = unfold objects in refl

-- The evidence of that audit proves the plan.
audited-proven :
    (ts : Value) × (fresh_full_audit_proof digest machine.split machine.python plan
        (objects raw_steps)
        "default"
        audited
      ≡ some (valid ts (length (objects raw_steps))))
audited-proven =
    fresh_full_audit_proof-audit_steps digest mac machine none "default" false 3 plan raw_steps [] 0
      (run_of full_audit) audited raw_steps-IsDict steps_there audit_steps-raw_steps audited-IsAfter
  where
    steps_there : is_empty (objects raw_steps) ≡ false
    steps_there = unfold objects in refl

fresh_full_audit_proof-valid_example :
    (order : List ℕ) × (deps : Graph) × (marker : Fields) × (recs : List Fields) × (audited.chain_ok
      ≡ true)
    × ((verify_anchor_chain audited.archives).is_anchored ≡ true)
    × (topological_order (objects raw_steps) ≡ ok order)
    × (effective_dependencies (objects raw_steps) ≡ ok deps)
    × (length (objects raw_steps) ≡ length order)
    × IsLast "default" (iter_evidence_records audited.files) marker recs
    × IsCurrent digest machine.split machine.python plan
        (objects raw_steps)
        order
        audited.print
        marker
    × AreProofs machine.split machine.python (index_all (objects raw_steps)) deps order recs
fresh_full_audit_proof-valid_example =
    fresh_full_audit_proof-valid digest machine.split machine.python plan (objects raw_steps)
      "default" audited audited-proven.0 (length (objects raw_steps)) audited-proven.1

digest-IsDigest : IsDigest digest
digest-IsDigest bytes h = absurd (cc h)

abbrev no_head : HeadState
no_head = record { present = false; verified = λ key. none }

-- A log of one record, and the checkpoint of a log of three records that was cut.
abbrev short_log : List Line
short_log = map json_line (write_records digest mac none genesis (exists_check ∷ []))

abbrev cut_off : Checkpoint
cut_off = record { active_count = 3; active_tail = "third" }

short_log-scanned :
    scan_lines digest mac none 1 (first_hash none) 0 short_log
    ≡ scanned 1 (written_hash digest mac genesis exists_check)
unfolding scan_lines write_records first_hash language
short_log-scanned = refl

hash_is_not_genesis : ¬ (written_hash digest mac genesis exists_check ≡ genesis)
unfolding written_hash record_hash
hash_is_not_genesis h = cc h

verify_chain-append_line_example :
    (line_no : ℕ) × (verify_chain digest mac
        (ok none)
        no_head
        (first_hash none)
        (some (append_line digest mac none (some cut_off) none short_log exists_check))
      ≡ (if goes_on (some cut_off) 1 (written_hash digest mac genesis exists_check)
          then judge_head none no_head (1 + 1)
          else broken_at 1 (prev_broken line_no)))
verify_chain-append_line_example =
    verify_chain-append_line digest mac digest-IsDigest none (some cut_off) none no_head short_log 1
      (written_hash digest mac genesis exists_check) exists_check short_log-scanned (omega arith)
      hash_is_not_genesis

-- The text of a record, and one that names a key twice.
abbrev two_texts : LineReader
two_texts = record {
  loads = λ text. json_line (write_record digest mac none genesis exists_check);
  is_strict = λ text. text == "record";
}

verify_chain-verify_jsonl_chain_example :
    (is_intact (
        verify_chain digest mac
          (ok none)
          no_head
          genesis
          (some (map (strict_line two_texts) ("record" ∷ []))))
      ≡ true)
    ↔ (((verify_jsonl_chain digest mac
            (mode_of none)
            genesis
            (some (map two_texts.loads ("record" ∷ [])))).valid
          ≡ some true)
        × All (IsReadAlike two_texts) ("record" ∷ [])
        × (is_intact (judge_head none no_head 0) ≡ true))
verify_chain-verify_jsonl_chain_example =
    verify_chain-verify_jsonl_chain digest mac none two_texts no_head genesis ("record" ∷ [])

audit_steps-IsVerified_example :
    All
      (λ sid. lookup sid (run_of full_audit).statuses ≡ some "verified")
      (keep (λ sid. mem sid (1 ∷ 2 ∷ [])) (1 ∷ 2 ∷ []))
unfolding selection
audit_steps-IsVerified_example =
    audit_steps-IsVerified digest machine
      (record { mode = audit_mode; ids = none; key = "default"; force = false }) 3 plan raw_steps []
      0 (1 ∷ 2 ∷ []) ((1, []) ∷ (2, 1 ∷ []) ∷ []) (run_of full_audit) read_graph-raw_steps
      audit_steps-raw_steps

abbrev failure : Fields
failure =
    field "mode" (str "run") (
      field "status" (str "failed") (field "step" (int (pos 1)) (field "plan" (str "default") end)))

count_failed_attempts-failure :
    count_failed_attempts
      (some (json_line failure ∷ blank ∷ []) ∷ none ∷ [])
      (pos 1)
      "default"
      "run"
    ≡ some 1
unfolding count_failed_attempts language
count_failed_attempts-failure = rw (beq_refl {A = String × ℤ} ("default", pos 1)) refl

count_failed_attempts-attempts_example :
    1
    ≡ attempts "run"
        ("default", pos 1)
        (iter_evidence_records (some (json_line failure ∷ blank ∷ []) ∷ none ∷ []))
count_failed_attempts-attempts_example =
    count_failed_attempts-attempts (some (json_line failure ∷ blank ∷ []) ∷ none ∷ []) (pos 1)
      "default" "run" 1 count_failed_attempts-failure
