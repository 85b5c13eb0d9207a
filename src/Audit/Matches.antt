-- ===== src/Audit/Matches.antt =====
-- The results of checks beside the contract of those checks.
use plan_auditor.Base.{
  String, true, some, List, [], ◌∷◌, ◌≡◌, refl, ap, ◌∙◌, inl, inr, string_eq, nat_eq, Option-cases,
  All, and-true, Dict,
}
use mathlib.Core.Option.{some-injective}
use plan_auditor.Json.{
  Value, null, bool, int, float, str, arr, obj, nil, Fields, get_or, items, as_object, as_list,
  iterate, objects, IsDocument, IsDict, py_eq_refl, get_or-IsDocument, iterate-IsDocument,
  as_object-IsDict,
}
use plan_auditor.PlanContract.{object_items}
use plan_auditor.Audit.Checks.{
  CheckOutcome, System, CheckRun, norm_fields, norm_check, check_result, add_result, run_checks,
  run_check_list,
}
use plan_auditor.Audit.Proof.{
  is_true_bool, result_matches, results_match, result_checks_match, norm_all, expected_checks,
  contract_matches,
}
use plan_auditor.Audit.Normal.{norm_fields-IsDict}

as_object-eq : (v : Value) (fs : Fields) → as_object v ≡ some fs → v ≡ obj fs
unfolding as_object
as_object-eq (obj gs) fs h = let e : gs ≡ fs = cc in ap obj e
as_object-eq (arr xs) fs h = cc
as_object-eq null fs h = cc
as_object-eq (bool b) fs h = cc
as_object-eq (int n) fs h = cc
as_object-eq (float n r) fs h = cc
as_object-eq (str s) fs h = cc

-- A dict whose checks are documents, and a dict of such dicts.
abbrev pub AreContracts : {K : Type 0} → Dict K Fields → Type 0
AreContracts d = All (λ e. IsDict e.1) d

obj-IsDocument : (fs : Fields) → IsDict fs → IsDocument (obj fs)
unfolding IsDocument
obj-IsDocument fs d = d

nil-IsDocument : IsDocument (arr nil)
unfolding IsDocument
nil-IsDocument = tt

result_matches-check_result :
    (check : Fields) (detail tail : String)
    → IsDict check
    → result_matches check (obj (check_result check true detail tail)) ≡ true
unfolding result_matches check_result as_object get_or is_true_bool
result_matches-check_result check detail tail d =
    rw (py_eq_refl (obj check) (obj-IsDocument check d)) refl

module _ {W : Type 0} (sys : System W) where
  abbrev Matched : List Value → List Fields → Type 0
  Matched raws results =
      (checks : List Fields) × (norm_all sys.split sys.python (objects raws) ≡ some checks)
      × (results_match checks (items (object_items results)) ≡ true)

  -- A list of checks that runs to its end has run its first.
  run_checks-cons :
      (raw : Value) (raws : List Value) (w : W) (c : CheckRun W)
      → run_checks sys (raw ∷ raws) w ≡ some c
      → (fs : Fields) × (check : Fields) × (rest : CheckRun W) × (raw ≡ obj fs)
        × (norm_fields sys.split sys.python fs ≡ some check)
        × (run_checks sys raws (sys.run_check check w).1 ≡ some rest)
        × (add_result sys check (sys.run_check check w).0 rest ≡ c)
  unfolding run_checks norm_check
  run_checks-cons raw raws w c h = elim (Option-cases (as_object raw)) [
    | inl other ↦ absurd (cc (rw (run_checks, other, norm_check) at h))
    | inr (fs, is_dict) ↦ elim (Option-cases (norm_fields sys.split sys.python fs)) [
      | inl bad ↦ absurd (cc (rw (run_checks, is_dict, bad, norm_check) at h))
      | inr (check, made) ↦ elim (Option-cases (run_checks sys raws (sys.run_check check w).1)) [
        | inl failed ↦ absurd (cc (rw (run_checks, is_dict, made, norm_check, failed) at h))
        | inr (rest, later) ↦
            let run = rw (run_checks, is_dict, made, norm_check, later) at h in
            (fs, check, rest, as_object-eq raw fs is_dict, made, later, some-injective _ _ run)
      ]
    ]
  ]

  Matched-cons :
      (fs check : Fields) (raws : List Value) (detail tail : String) (results : List Fields)
      → IsDict fs
      → norm_fields sys.split sys.python fs ≡ some check
      → Matched raws results
      → Matched (obj fs ∷ raws) (check_result check true detail tail ∷ results)
  unfolding norm_all objects results_match items object_items
  Matched-cons fs check raws detail tail results d made (checks, normal, matched) = (
    check ∷ checks,
    rw (norm_all, made, normal) refl,
    rw
        (result_matches-check_result check detail tail
          (norm_fields-IsDict sys.split sys.python fs check d made))
        matched,
  )

  run_checks-Matched :
      (raws : List Value) (w : W) (c : CheckRun W)
      → All IsDocument raws
      → run_checks sys raws w ≡ some c
      → c.ok_all ≡ true
      → Matched raws c.results
  unfolding run_checks norm_all objects results_match items object_items as_object add_result
  run_checks-Matched [] w c d h passed =
      let same : record { ok_all = true; results = []; world = w } ≡ c = cc in
      rw (← same) ([], refl, refl)
  run_checks-Matched (raw ∷ raws) w c (dr, drs) h passed =
      let (fs, check, rest, raw_obj, made, later, same) = run_checks-cons raw raws w c h in
      added fs check rest (sys.run_check check w).0 raw_obj made
        (λ ok. run_checks-Matched raws (sys.run_check check w).1 rest drs later ok) same
    where
      added :
          (fs check : Fields) (rest : CheckRun W) (outcome : CheckOutcome)
          → raw ≡ obj fs
          → norm_fields sys.split sys.python fs ≡ some check
          → (rest.ok_all ≡ true → Matched raws rest.results)
          → add_result sys check outcome rest ≡ c
          → Matched (raw ∷ raws) c.results
      added fs check rest outcome raw_obj made later same =
          let (here, there) =
            and-true outcome.passed rest.ok_all (ap (λ (r : CheckRun W). r.ok_all) same ∙ passed) in
          rw (raw_obj, ← same, here)
            (Matched-cons fs check raws outcome.detail outcome.output_tail rest.results
              (as_object-IsDict raw fs dr (ap as_object raw_obj)) made (later there))

  pub contract_matches-run_check_list :
      (source : Fields) (w : W) (c : CheckRun W)
      → IsDict source
      → run_check_list sys source w ≡ some c
      → c.ok_all ≡ true
      → contract_matches sys.split sys.python source (arr (object_items c.results)) ≡ some true
  unfolding run_check_list contract_matches expected_checks result_checks_match as_list
  contract_matches-run_check_list source w c d h passed =
      elim (Option-cases (iterate (get_or "verify" source (arr nil)))) [
        | inl bad ↦ absurd (cc (rw (bad, run_check_list) at h))
        | inr (raws, e) ↦
            let docs =
              iterate-IsDocument _ raws
                (get_or-IsDocument "verify" source (arr nil) d nil-IsDocument) e in
            let (checks, normal, matched) =
              run_checks-Matched raws w c docs (rw (e, run_check_list) at h) passed in
            rw (contract_matches, expected_checks, e, normal, matched) refl
      ]
