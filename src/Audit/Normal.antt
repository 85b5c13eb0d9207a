-- ===== src/Audit/Normal.antt =====
-- scripts/audit_check.py: the form of a normalized check.
use plan_auditor.Base.{
  String, Option, some, List, [], ◌∷◌, ◌≡◌, refl, inl, inr, string_eq, Bool-cases, Option-cases,
  All,
}
use plan_auditor.Json.{
  Value, int, str, arr, pos, Fields, get, get_or, has_key, as_text, iterate, is_text, IsDocument,
  IsDict, AreDocuments, get-IsDocument, get_or-IsDocument, set_field, set_field-IsDict,
  iterate-IsDocument,
}
use plan_auditor.Audit.Checks.{
  value_items, texts_arr, legacy_split, pytest_args, copy_key, copy_limits, asks_shell,
  exec_command, run_command, norm_exec, pytest_command, norm_pytest, norm_fields,
}

value_items-AreDocuments : (vs : List Value) → All IsDocument vs → AreDocuments (value_items vs)
unfolding value_items AreDocuments
value_items-AreDocuments [] d = tt
value_items-AreDocuments (v ∷ vs) d = (d.0, value_items-AreDocuments vs d.1)

texts_arr-IsDocument : (ts : List String) → All IsDocument (texts_arr ts)
unfolding IsDocument
texts_arr-IsDocument [] = tt
texts_arr-IsDocument (t ∷ ts) = (tt, texts_arr-IsDocument ts)

copy_key-IsDict :
    (check : Fields) (key : String) (made : Fields)
    → IsDict check
    → IsDict made
    → IsDict (copy_key check key made)
unfolding copy_key
copy_key-IsDict check key made d m = elim (Option-cases (get key check)) [
  | inl absent ↦ rw (absent, copy_key) m
  | inr (v, found) ↦
      rw (found, copy_key) (set_field-IsDict key v made m (get-IsDocument key check v d found))
]

copy_limits-IsDict :
    (check made : Fields) → IsDict check → IsDict made → IsDict (copy_limits check made)
unfolding copy_limits
copy_limits-IsDict check made d m =
    copy_key-IsDict check "max_output_bytes" _ d
      (copy_key-IsDict check "output_regex" _ d (copy_key-IsDict check "timeout" made d m))

module _ (split : String → Option (List String)) (python : String) where
  legacy_split-IsDocument :
      (cmd : String) (vs : List Value) → legacy_split split cmd ≡ some vs → All IsDocument vs
  unfolding legacy_split IsDocument
  legacy_split-IsDocument cmd vs h = elim (Option-cases (split cmd)) [
    | inl bad ↦ absurd (cc (rw (bad, legacy_split) at h))
    | inr ([], e) ↦ absurd (cc (rw (e, legacy_split) at h))
    | inr (arg ∷ args, e) ↦
        let run : some (str arg ∷ texts_arr args) ≡ some vs = rw (e, legacy_split) at h in
        let same : str arg ∷ texts_arr args ≡ vs = cc in rw (← same) (tt, texts_arr-IsDocument args)
  ]

  pytest_args-IsDocument :
      (args : Value) (vs : List Value)
      → IsDocument args
      → pytest_args split args ≡ some vs
      → All IsDocument vs
  unfolding pytest_args
  pytest_args-IsDocument args vs d h = elim (Option-cases (as_text args)) [
    | inl other ↦ iterate-IsDocument args vs d (rw (other, pytest_args) at h)
    | inr (text, e) ↦ legacy_split-IsDocument text vs (rw (e, pytest_args) at h)
  ]

  text-IsDocument : (s : String) → IsDocument (str s)
  unfolding IsDocument
  text-IsDocument s = tt

  pytest_command-IsDict :
      (check : Fields) (extra : List Value)
      → IsDict check
      → All IsDocument extra
      → IsDict (pytest_command split python check extra)
  unfolding pytest_command IsDict IsDocument has_key AreDocuments value_items
  pytest_command-IsDict check extra d more = (
    refl,
    tt,
    (
      refl,
      (tt, (tt, (tt, value_items-AreDocuments extra more))),
      (refl, get_or-IsDocument "expect_exit" check (int (pos 0)) d tt, tt),
    ),
  )

  norm_pytest-IsDict :
      (check made : Fields)
      → IsDict check
      → norm_pytest split python check ≡ some made
      → IsDict made
  unfolding norm_pytest
  norm_pytest-IsDict check made d h =
      elim (Option-cases (pytest_args split (get_or "args" check (str "")))) [
        | inl bad ↦ absurd (cc (rw (bad, norm_pytest) at h))
        | inr (extra, e) ↦
            let run : some (copy_limits check (pytest_command split python check extra))
                ≡ some made =
              rw (e, norm_pytest) at h in
            let same : copy_limits check (pytest_command split python check extra) ≡ made = cc in
            rw (← same) (
              copy_limits-IsDict check _ d (
                pytest_command-IsDict check extra d (
                  pytest_args-IsDocument _ extra
                    (get_or-IsDocument "args" check (str "") d (text-IsDocument "")) e)))
      ]

  run_command-IsDict : (check : Fields) → IsDict check → IsDict (run_command check)
  unfolding run_command IsDict IsDocument has_key
  run_command-IsDict check d =
      (refl, tt, (refl, get_or-IsDocument "expect_exit" check (int (pos 0)) d tt, tt))

  exec_command-IsDict :
      (check base made : Fields)
      → IsDict check
      → IsDict base
      → exec_command check base ≡ some made
      → IsDict made
  unfolding exec_command IsDocument
  exec_command-IsDict check base made d b h = elim (Option-cases (get "argv" check)) [
    | inl no_argv ↦ elim (Option-cases (get "cmd" check)) [
      | inl no_cmd ↦ absurd (cc (rw (no_argv, no_cmd, exec_command) at h))
      | inr (cmd, e) ↦
          let run = rw (no_argv, e, exec_command) at h in
          let same : set_field "cmd" cmd base ≡ made = cc in
          rw (← same) (set_field-IsDict "cmd" cmd base b (get-IsDocument "cmd" check cmd d e))
    ]
    | inr (argv, e) ↦ elim (Option-cases (iterate argv)) [
      | inl bad ↦ absurd (cc (rw (e, bad, exec_command) at h))
      | inr (args, listed) ↦
          let run = rw (e, listed, exec_command) at h in
          let same : set_field "argv" (arr (value_items args)) base ≡ made = cc in
          rw (← same) (
            set_field-IsDict "argv" (arr (value_items args)) base b (
              value_items-AreDocuments args
                (iterate-IsDocument argv args (get-IsDocument "argv" check argv d e) listed)))
    ]
  ]

  norm_exec-IsDict :
      (check made : Fields) → IsDict check → norm_exec check ≡ some made → IsDict made
  unfolding norm_exec
  norm_exec-IsDict check made d h = elim (Bool-cases (asks_shell check)) [
    | inl shell ↦ absurd (cc (rw (shell, norm_exec) at h))
    | inr plain ↦ elim (Option-cases (exec_command check (run_command check))) [
      | inl bad ↦ absurd (cc (rw (plain, bad, norm_exec) at h))
      | inr (base, e) ↦
          let run : some (copy_limits check base) ≡ some made = rw (plain, e, norm_exec) at h in
          let same : copy_limits check base ≡ made = cc in
          rw (← same) (
            copy_limits-IsDict check base d
              (exec_command-IsDict check (run_command check) base d (run_command-IsDict check d) e))
    ]
  ]

  pub norm_fields-IsDict :
      (check made : Fields)
      → IsDict check
      → norm_fields split python check ≡ some made
      → IsDict made
  unfolding norm_fields
  norm_fields-IsDict check made d h = elim (Option-cases (get "type" check)) [
    | inl absent ↦ absurd (cc (rw (absent, norm_fields) at h))
    | inr (kind, e) ↦ elim (Bool-cases (is_text "pytest" kind)) [
      | inl pytest ↦ norm_pytest-IsDict check made d (rw (e, pytest, norm_fields) at h)
      | inr no_pytest ↦ elim (Bool-cases (is_text "exec" kind)) [
        | inl exec ↦ norm_exec-IsDict check made d (rw (e, no_pytest, exec, norm_fields) at h)
        | inr other ↦
            let run : some check ≡ some made = rw (e, no_pytest, other, norm_fields) at h in
            let same : check ≡ made = cc in rw (← same) d
      ]
    ]
  ]
