-- ===== src/Lib.antt =====
-- plan-auditor decides whether an agent's plan, and its claim that the plan is done, may be believed.
-- A plan is a JSON document with a list of steps. These parts of its core are modelled.
--
-- The dependency graph, scripts/plan_graph.py, is PlanGraph. PlanGraph/Steps reads the ids and
-- `depends_on` of the steps (`_steps`, `step_index`, `effective_dependencies`), PlanGraph/Order is
-- `topological_order`, PlanGraph/Closure is `transitive_dependencies`, PlanGraph/Outputs is
-- `output_index`, `required_outputs` and `validate_output_links`. PlanGraph/Graphs says in its own
-- words what a graph and a topological order are; PlanGraph/Dependencies, PlanGraph/Declared,
-- PlanGraph/Kahn and PlanGraph/Ancestors hold the proofs.
--
-- The symbolic planner, supervisor/formal_planning.py, is FormalPlanning. It calls
-- `effective_dependencies` of the graph. FormalPlanning/Model is the data of a contract with
-- `_applicable`, `_apply` and `_blocked_detail`; FormalPlanning/Monotonic is `_monotonic_solve`;
-- FormalPlanning/Search is `_future_impossible` and `_search_solve`; FormalPlanning/Parse is
-- `_fact_list` and `_parse_contract`; FormalPlanning/Anchors is `find_formal_anchors` and
-- `_anchor_argv_errors`; FormalPlanning/Analyze is `analyze_formal_contract`. FormalPlanning/Spec
-- says what a plan for a contract is, on facts and steps as functions into Bool, without the
-- planners' lists. FormalPlanning/Facts, Execution and Reached relate the lists to it;
-- FormalPlanning/Forward is about the forward pass, FormalPlanning/Breadth about the search,
-- FormalPlanning/Parse/Valid, Reads and Accepts about the parser, FormalPlanning/Verdicts about the
-- analysis.
--
-- The priority layer, supervisor/priority.py, is Priority (`resolve_priority`), with the proofs in
-- Priority/Rulings. The completion gate, supervisor/gate.py, is Gate (`CompletionGate.evaluate`), with
-- the proofs in Gate/Outcomes; it calls the policy engine, whose rules are a list of functions, and the
-- priority layer. Policies has the default rules of supervisor/policies.py over the context that the
-- orchestrator builds; Policies/Rules joins them with the gate.
--
-- Authenticated integrity, scripts/integrity.py, is Integrity: the canonical text, `load_key`,
-- `make_auth`, `verify_auth`, the marker and `runtime_key`. Integrity/Authentic and Integrity/Domains hold
-- the proofs. The other parts take what `runtime_key` gives as an argument.
--
-- The evidence, supervisor/evidence.py, is Evidence. Evidence/Chain is `verify_jsonl_chain` and the
-- readers of one file, Evidence/Archives is `build_archive_manifest` and `verify_anchor_chain`,
-- Evidence/Signing is `_sign_jsonl`, `initialize_evidence_auth` and the head checkpoint. Evidence/Linked
-- says in its own words what a chain is; Evidence/Anchors, Signed and Heads hold the other proofs. A file
-- is the list of its lines, each with what its reader makes of it: `json.loads` here and in `fresh_full_audit_proof`,
-- `_strict_external_json` in scripts/audit_check.py (`strict_line` of Audit/Chain).
--
-- The contract of a plan, scripts/contract.py, is PlanContract (`contract_step`, `contract_plan`,
-- `plan_hash` and the encoding of version 3), with the proofs in PlanContract/Stable. It calls
-- `effective_dependencies` of the graph. Sealing, supervisor/sealing.py, is Sealing: Sealing/Seals is the
-- seal, `seal_plan` and the self-check, Sealing/Files is `load_seal`, `save_seal` and
-- `initialize_seal_auth`; Sealing/Monotonic is `check_monotonic` with Sealing/Steps (one step and its
-- outputs), Sealing/Changes (its result) and Sealing/Multisets (`_multiset_contains`). Sealing/Sealed and
-- Sealing/Kept hold the proofs. The gate reads the result of `check_monotonic`.
--
-- The trust in a plan, scripts/exec_trust.py, is ExecTrust (`require_plan_trust`): whether its commands may
-- run by the seal, the key and the active request. ExecTrust/Trusted says what such a plan is bound to;
-- ExecTrust/Sealed joins it with the sealing.
--
-- The coverage of the requirements, supervisor/coverage.py, is Coverage/Requirements (`_requirements`) and
-- Coverage/Analysis (`analyze_coverage`), with the proofs in Coverage/Required (the
-- requirements as they stand in the plan), Coverage/Clean (the errors) and Coverage/Covered.
--
-- The persisted verdict, supervisor/assessment.py, is Assessment: what `write_assessment` stores with and
-- without a key, and what `read_assessment_verified` and `verified_outcome` make of a file. Its binding is
-- taken from the evidence. Assessment/Bodies is about the fields of the documents, Assessment/Proven about
-- what is read.
--
-- The auditor, scripts/audit_check.py, and the proof that its evidence gives, `fresh_full_audit_proof`
-- of supervisor/orchestrator.py, are Audit. Audit/Checks is the commands of a check (`norm_check`) and
-- the loops `_run_list`, `_run_output_list` and `run_required`; Audit/Records is the evidence records;
-- Audit/Run is the job, the state of a run and the prerequisite gate; Audit/Visit is one step of the
-- loop of `audit_steps`, Audit/Full is `audit_steps`, and Audit/Counts is `failed_attempt_counts` and
-- the fingerprint of a plan's contract. Audit/Chain is the record that `_write_evidence_record`
-- builds, `verify_chain` and `evidence_is_authenticated`; Audit/Append is the previous hash that
-- `_write_evidence_record` chooses from the log and its checkpoint. Audit/Proof is the matching of a
-- record with its step, Audit/Fresh is `fresh_full_audit_proof`. A run is a function of the state of
-- the machine, which each command may change, and its log is the records in the order in which they
-- are appended. Audit/Normal, Matches, Contracts, Verified, Passed, Visited and Ended follow a run
-- that passes, Audit/Grown and Continued are about appended records, Scans, Written, Complete, Proves
-- and Accepted follow the records of a run into the proof, Audit/Sound, Statuses and Valid go from the
-- proof back to the records, Audit/Finished is about the statuses, Audit/Attempts about the attempts
-- that are counted, and Audit/Agrees joins `verify_chain` with the `verify_jsonl_chain` of the
-- evidence.
--
-- The lifecycle of a task, supervisor/lifecycle.py, is Lifecycle (`TaskLifecycle`), with the proofs in
-- Lifecycle/Trails and Lifecycle/Guards.
--
-- Json is Python's view of a JSON document (Json/Documents: one without a repeated key) and Base holds
-- lists, sets, dicts and results. A set is a list read through membership, a dict is an association
-- list in insertion order, a raised PlanGraphError is `err`, and a message text is a constructor with
-- the values it prints. Where a value that cannot be iterated makes the source raise a TypeError, the
-- model returns `none`. Json/Dumps is `json.dumps` with sorted keys, as code points, and UTF-8.
--
-- Loops. `kahn` has fuel for one round for each step, and a round places a step. `monotonic_rounds`
-- counts the steps that are not done, the difference that the source's `while` tests.
-- `search_rounds` counts `max_states - explored`, at whose end the source returns UNKNOWN.
-- `transitive_dependencies` runs over the topological order.
--
-- Parameters: SHA-256 and HMAC-SHA-256 as functions on bytes, with no assumption on them; the search for a
-- secret in a log; `str.strip` and `str.lower` on the names of hosts; `int` on texts and on floats that are
-- not whole; the text of the reason for which an assessment is unsigned; of the auditor, what running a
-- check gives and does to the machine, the clock, the fingerprint of the workspace, the texts of
-- exceptions, `shlex.split` and `sys.executable`.
--
-- Not modelled: a NaN in a document, the parsing of the text of a file, the paths and the atomic
-- replacement of files, the export to PDDL, the external planner, processes and the command line, the
-- rules of policy files, `_normalize_adversarial` (its result is an argument); of the auditor,
-- `validate_plan`, the snapshots and the rollback, the rotation of the evidence, the head that is
-- written behind a record, `evaluate_workspace`, what is printed and the failures of the disk (the
-- limits that `_runtime_limits` gives are arguments, and a step's status is held beside its dict); and
-- the other modules of scripts/, supervisor/ and hooks/. Where an error ends a loop that writes files,
-- the result does not tell what was written in front of it.
--
-- Tests runs the definitions on small inputs.
pub mod Base
pub mod Json
pub mod PlanGraph
pub mod Priority
pub mod Gate
pub mod Policies
pub mod Integrity
pub mod Evidence
pub mod PlanContract
pub mod Sealing
pub mod Assessment
pub mod Audit
pub mod ExecTrust
pub mod Coverage
pub mod Lifecycle
pub mod FormalPlanning
mod Tests
