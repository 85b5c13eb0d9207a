-- ===== src/Audit/Visit.antt =====
-- scripts/audit_check.py: `_prerequisite_gate` on required outputs and the loop of `audit_steps`.
use plan_auditor.Base.{
  ℕ, ◌+◌, String, Bool, true, false, not, ◌&&◌, ◌||◌, Option, none, some, List, [], ◌∷◌, ◌++◌, map,
  nat_eq, string_eq, pair_eq, ◌==◌, if◌then◌else◌, length, ltb, lookup_or, put, ok, err,
}
use plan_auditor.Json.{str, pos, int_eq, Fields, end, field}
use plan_auditor.PlanGraph.Outputs.{Ref, output_index, required_outputs}
use plan_auditor.Audit.Checks.{System, CheckRun, check_result, run_check_list, run_outputs}
use plan_auditor.Audit.Records.{
  run_mode, audit_mode, mode_text, is_audit, verdict_text, Prerequisites, step_guard_record,
  blocked_record, step_record,
}
use plan_auditor.Audit.Run.{
  GateResult, Job, Round, Run, contract_of, dependencies_ok, dependency_result, leave, next, raised,
  required_result, step_of,
}

module _ {W : Type 0} (sys : System W) (job : Job) where
  unfoldable pub run_required : List Ref → W → Option (CheckRun W)
  unfolding contract_of required_result
  run_required [] w = some (record { ok_all = true; results = []; world = w })
  run_required (ref ∷ refs) w = elim (contract_of job.by_id ref) [
    | none ↦ none
    | some contract ↦ elim (run_check_list sys contract w) [
      | none ↦ none
      | some c ↦ elim (run_required refs c.world) [
        | none ↦ none
        | some rest ↦ some (record {
          ok_all = c.ok_all && rest.ok_all;
          results = required_result ref.0 ref.1 c.ok_all c.results ∷ rest.results;
          world = rest.world;
        })
      ]
    ]
  ]

  -- The required outputs are run only behind dependencies that passed.
  unfoldable pub gate_outputs : Bool → Fields → W → Option (CheckRun W)
  unfolding run_required
  gate_outputs false step w = some (record { ok_all = false; results = []; world = w })
  gate_outputs true step w = elim (required_outputs step) [
    | err e ↦ none
    | ok refs ↦ run_required refs w
  ]

  unfoldable pub prerequisite_gate : ℕ → Run W → Option (GateResult W)
  unfolding dependencies_ok dependency_result gate_outputs step_of lookup_or
  prerequisite_gate sid r =
      let deps = lookup_or sid job.deps [] in
      elim (gate_outputs (dependencies_ok job r deps) (step_of job sid) r.world) [
        | none ↦ none
        | some c ↦ some (record {
          ok_all = c.ok_all;
          prerequisites = record {
            deps = deps;
            dependency_results = map (dependency_result job r) deps;
            required = c.results;
          };
          world = c.world;
        })
      ]

  -- `append_evidence`, with the time at which it is called.
  unfoldable pub append_record : (String → Fields) → Run W → Run W
  append_record make r = record r { log = r.log ++ make (sys.now (length r.log)) ∷ [] }

  -- `passed_this_run[sid] = passed` and `all_ok = all_ok and passed`
  unfoldable pub note_passed : ℕ → Bool → Run W → Run W
  unfolding put
  note_passed sid passed r = record r {
    passed = put sid passed r.passed;
    all_ok = r.all_ok && passed;
  }

  unfoldable pub set_status : ℕ → String → Run W → Run W
  unfolding put
  set_status sid status r = record r { statuses = put sid status r.statuses }

  unfoldable pub guard_step : ℕ → Run W → Run W
  unfolding append_record note_passed set_status step_guard_record
  guard_step sid r =
      append_record (λ ts. step_guard_record ts job.key sid)
        (note_passed sid false (set_status sid "failed" r))

  unfoldable pub block_step : ℕ → Prerequisites → Run W → Run W
  unfolding append_record note_passed set_status blocked_record
  block_step sid g r =
      append_record (λ ts. blocked_record ts (mode_text job.mode) job.key sid g)
        (note_passed sid false (set_status sid "blocked" r))

  unfoldable pub attempt_of : ℕ → ℕ
  unfolding lookup_or
  attempt_of sid = elim job.mode [
    | audit_mode ↦ 1
    | run_mode ↦ lookup_or (job.key, pos sid) job.failed_attempts 0 + 1
  ]

  unfoldable pub skips : ℕ → Bool
  unfolding attempt_of
  skips sid = not (is_audit job.mode) && ltb job.max_attempts (attempt_of sid) && not job.force

  -- The step's outputs run behind its checks; outputs that are not well formed are a failed result.
  unfoldable pub declared_outputs : Fields → CheckRun W → Option (CheckRun W × List Fields)
  unfolding check_result run_outputs
  declared_outputs step c = elim (output_index step) [
    | err e ↦ some (
      record {
        ok_all = false;
        results =
            c.results
            ++ check_result (field "type" (str "output_contract") end) false (sys.describe e) ""
              ∷ [];
        world = c.world;
      },
      [],
    )
    | ok outputs ↦ elim (run_outputs sys outputs c.world) [
      | none ↦ none
      | some o ↦ some (
        record { ok_all = c.ok_all && o.ok_all; results = c.results; world = o.world },
        o.results,
      )
    ]
  ]

  abbrev purity_detail : String
  purity_detail =
      "final-audit verification mutated workspace content/type/mode; verification must be observational"

  -- A full audit fails a step whose checks changed the files.
  unfoldable pub is_pure : String → W → Bool
  is_pure before w =
      not (is_audit job.mode) || (sys.fingerprint w == before && sys.fingerprint w == job.baseline)

  unfoldable pub check_purity : String → CheckRun W → CheckRun W
  unfolding is_pure check_result
  check_purity before c = if is_pure before c.world then c else record c {
    ok_all = false;
    results =
        c.results
        ++ check_result (field "type" (str "audit_purity") end) false purity_detail "" ∷ [];
  }

  unfoldable pub finish_step : ℕ → Prerequisites → CheckRun W → List Fields → Run W → Run W
  unfolding append_record note_passed set_status step_record attempt_of
  finish_step sid g c outputs r =
      append_record
        (λ ts. step_record ts job.mode job.key sid g outputs c.results c.ok_all (attempt_of sid))
        (note_passed sid c.ok_all
          (set_status sid (verdict_text c.ok_all) (record r { world = c.world })))

  unfoldable pub attempt_step : ℕ → GateResult W → Run W → Round W
  unfolding run_check_list declared_outputs check_purity finish_step step_of skips note_passed
  attempt_step sid g r =
      if skips sid
      then next (note_passed sid false (record r { world = g.world }))
      else elim (run_check_list sys (step_of job sid) g.world) [
        | none ↦ raised
        | some c ↦ elim (declared_outputs (step_of job sid) c) [
          | none ↦ raised
          | some (d, outputs) ↦
              next (
                finish_step sid g.prerequisites (check_purity (sys.fingerprint g.world) d) outputs
                  r)
        ]
      ]

  unfoldable pub visit_step : ℕ → Run W → Round W
  unfolding guard_step prerequisite_gate block_step attempt_step
  visit_step sid r =
      if is_audit job.mode && not (sys.fingerprint r.world == job.baseline)
      then leave (guard_step sid r)
      else elim (prerequisite_gate sid r) [
        | none ↦ raised
        | some g ↦
            if g.ok_all
            then attempt_step sid g r
            else next (block_step sid g.prerequisites (record r { world = g.world }))
      ]

  -- The loop over `target`. `none` is an exception.
  unfoldable pub visit_steps : List ℕ → Run W → Option (Run W)
  unfolding visit_step
  visit_steps [] r = some r
  visit_steps (sid ∷ sids) r = elim (visit_step sid r) [
    | raised ↦ none
    | leave r' ↦ some r'
    | next r' ↦ visit_steps sids r'
  ]
