-- ===== src/Sealing/Files.antt =====
-- supervisor/sealing.py: the documents of seals that are loaded, saved and authenticated. A file is the
-- document that `_parse_seal_json` gives for it; whether its path is confined to the control plane and what
-- `runtime_key` gives are arguments.
use plan_auditor.Base.{
  ℕ, String, Bool, not, Option, none, some, List, [], ◌∷◌, string_eq, if◌then◌else◌, Result, ok,
  err, ◌>>=◌, ◌>>◌, raise_if,
}
use plan_auditor.Json.{Value, null, obj, ℤ, int_eq, Fields, get_or, as_object, without, set_field}
use plan_auditor.Integrity.{KeyMaterial, KeyError, make_auth, verify_auth}
use plan_auditor.Sealing.Seals.{
  Seal, seal_domain, payload, SealError, parse_seal_data, validate_seal_self_consistency,
  path_unsafe, not_document, not_object, auth_failed, auth_needs_key, key_problem,
}

module _ (hmac : List ℕ → List ℕ → String) where
  -- The document that `_write_seal_payload` writes.
  unfoldable pub write_seal_payload : Fields → Option KeyMaterial → Value
  unfolding set_field
  write_seal_payload fields none = obj fields
  write_seal_payload fields (some key) =
      obj (set_field "auth" (obj (make_auth hmac key seal_domain (obj fields))) fields)

  -- The last tests of `load_seal`.
  unfoldable pub check_auth : Option KeyMaterial → Fields → Value → Result SealError (Unit {0})
  check_auth (some key) fields auth =
      if verify_auth hmac key seal_domain (obj fields) auth then ok tt else err auth_failed
  check_auth none fields null = ok tt
  check_auth none fields auth = err auth_needs_key

abbrev pub key_or_error :
    Result KeyError (Option KeyMaterial) → Result SealError (Option KeyMaterial)
key_or_error (ok key) = ok key
key_or_error (err e) = err (key_problem e)

module _ (sha256 : List ℕ → String) (hmac : List ℕ → List ℕ → String)
    (parse : Value → Option ℤ) where
  unfoldable pub load_fields :
      Bool → Result KeyError (Option KeyMaterial) → Fields → Result SealError (Option Seal)
  load_fields confined key data_fields = do
    seal ← parse_seal_data parse data_fields
    validate_seal_self_consistency sha256 seal
    raise_if (not confined) path_unsafe
    found ← key_or_error key
    check_auth hmac found (payload seal) (get_or "auth" data_fields null)
    ok (some seal)

  -- `none`: there is no file; `some none`: it holds no document.
  unfoldable pub load_seal :
      Bool
      → Result KeyError (Option KeyMaterial)
      → Option (Option Value)
      → Result SealError (Option Seal)
  unfolding load_fields as_object
  load_seal confined key none = ok none
  load_seal confined key (some none) = err not_document
  load_seal confined key (some (some v)) = elim (as_object v) [
    | none ↦ err not_object
    | some data_fields ↦ load_fields confined key data_fields
  ]

  -- The document that is written.
  unfoldable pub save_seal :
      Bool → Result KeyError (Option KeyMaterial) → Seal → Result SealError Value
  unfolding validate_seal_self_consistency write_seal_payload payload
  save_seal confined key seal = do
    raise_if (not confined) path_unsafe
    validate_seal_self_consistency sha256 seal
    found ← key_or_error key
    ok (write_seal_payload hmac (payload seal) found)

  -- The loop of `initialize_seal_auth` on one file: `none` where it holds no document.
  unfoldable pub authenticate_seal : KeyMaterial → Option Value → Result SealError Value
  unfolding parse_seal_data validate_seal_self_consistency write_seal_payload without as_object
  authenticate_seal key none = err not_document
  authenticate_seal key (some v) = elim (as_object v) [
    | none ↦ err not_object
    | some data_fields ↦ do
      seal ← parse_seal_data parse data_fields
      validate_seal_self_consistency sha256 seal
      ok (write_seal_payload hmac (without "auth" data_fields) (some key))
  ]

  -- The documents of all the files, which are sorted. Of an error the files that were written in front of
  -- it are not part of the result.
  unfoldable pub initialize_seal_auth :
      KeyMaterial → List (Option Value) → Result SealError (List Value)
  unfolding authenticate_seal
  initialize_seal_auth key [] = ok []
  initialize_seal_auth key (file ∷ files) = do
    written ← authenticate_seal key file
    rest ← initialize_seal_auth key files
    ok (written ∷ rest)
