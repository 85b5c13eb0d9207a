-- ===== src/ExecTrust.antt =====
-- scripts/exec_trust.py: `require_plan_trust`, which decides whether the commands of a plan may run, with
-- `validate_plan_name` of scripts/contract.py. What is read of the two files and what `runtime_key` gives are
-- arguments.
pub mod Trusted
pub mod Sealed
use plan_auditor.Base.{
  ℕ, String, Bool, true, false, not, ◌&&◌, ◌||◌, Option, none, some, List, [], ◌∷◌, length, all,
  mem, nat_eq, string_eq, ◌==◌, if◌then◌else◌, ltb, leb, Result, ok, err, ◌>>=◌, ◌>>◌, raise_if,
}
use plan_auditor.Json.{
  Value, null, int, obj, end, ℤ, pos, negsuc, Fields, get_or, as_object, as_text, is_text, without,
  codes,
}
use plan_auditor.Integrity.{KeyMaterial, KeyError, canonical_digest, verify_auth}
use plan_auditor.Evidence.Chain.{is_null}
use plan_auditor.PlanContract.{plan_hash}
use plan_auditor.Sealing.Seals.{seal_domain}

-- What `_read_json_object` makes of a file: `bad_file` is a link, an unreadable file or no object.
pub data TrustFile : Type 0 where
  no_file bad_file : TrustFile
  object_file : Fields → TrustFile

pub data TrustError : Type 0 where
  name_invalid seal_absent seal_unreadable no_version no_plan_hash plan_changed : TrustError
  version_untrusted : ℤ → TrustError
  key_problem : KeyError → TrustError
  auth_without_key auth_failed : TrustError
  request_unreadable request_missing request_not_bound request_swapped request_of_other_plan :
      TrustError
  type_error : TrustError

unfoldable pub is_alphanumeric : ℕ → Bool
is_alphanumeric c = leb 48 c && leb c 57 || leb 65 c && leb c 90 || leb 97 c && leb c 122

-- A letter, a digit, or one of . _ -
unfoldable pub is_name_code : ℕ → Bool
unfolding is_alphanumeric
is_name_code c = is_alphanumeric c || c == 46 || c == 95 || c == 45

-- PLAN_NAME_RE
unfoldable pub is_plan_name : List ℕ → Bool
unfolding is_name_code
is_plan_name [] = false
is_plan_name (c ∷ cs) = is_alphanumeric c && all is_name_code cs && leb (length cs) 127

-- `validate_plan_name`: `some none` is the default plan, `none` a ValueError.
unfoldable pub validate_plan_name : Option String → Option (Option String)
unfolding is_plan_name codes
validate_plan_name none = some none
validate_plan_name (some name) =
    if name == "" || name == "default"
    then some none
    else if is_plan_name (codes name)
    then some (some name)
    else none

abbrev pub plan_key : Option String → String
plan_key none = "default"
plan_key (some name) = name

-- `_seal_environment(data).get("request_sha256")`
unfoldable pub committed_request : Fields → Value
unfolding as_object get_or
committed_request seal = elim (as_object (get_or "environment" seal null)) [
  | none ↦ null
  | some environment ↦ get_or "request_sha256" environment null
]

-- A stamp of another plan: `isinstance(stamped, str) and stamped and stamped != expected`
unfoldable pub is_other_stamp : String → Value → Bool
unfolding as_text
is_other_stamp expected stamped = elim (as_text stamped) [
  | none ↦ false
  | some stamp ↦ not (stamp == "") && not (stamp == expected)
]

unfoldable pub check_stamp : String → String → Fields → Result TrustError (Unit {0})
unfolding is_other_stamp as_object get_or
check_stamp key expected request = elim (as_object (get_or "plan_contract_sha256s" request null)) [
  | none ↦ ok tt
  | some bindings ↦
      raise_if (is_other_stamp expected (get_or key bindings null)) request_of_other_plan
]

-- The tests of `require_plan_trust` on the version and the digest.
unfoldable pub check_version : Value → Result TrustError (Unit {0})
check_version (int (pos n)) = if ltb n 4 then err (version_untrusted (pos n)) else ok tt
check_version (int (negsuc n)) = err (version_untrusted (negsuc n))
check_version _ = err no_version

unfoldable pub check_hash : Value → String → Result TrustError (Unit {0})
unfolding as_text
check_hash sealed expected = elim (as_text sealed) [
  | none ↦ err no_plan_hash
  | some hash ↦
      if hash == "" then err no_plan_hash else if hash == expected then ok tt else err plan_changed
]

module _ (hmac : List ℕ → List ℕ → String) where
  -- `_verify_seal_mac`
  unfoldable pub verify_seal_mac :
      Result KeyError (Option KeyMaterial) → Fields → Result TrustError (Unit {0})
  unfolding is_null
  verify_seal_mac (err e) seal = err (key_problem e)
  verify_seal_mac (ok none) seal =
      raise_if (not (is_null (get_or "auth" seal null))) auth_without_key
  verify_seal_mac (ok (some key)) seal =
      raise_if
        (not
          (verify_auth hmac key seal_domain (obj (without "auth" seal)) (get_or "auth" seal null)))
        auth_failed

module _ (sha256 : List ℕ → String) where
  -- `_verify_request_binding`
  unfoldable pub verify_request_binding :
      TrustFile → Fields → String → String → Result TrustError (Unit {0})
  verify_request_binding no_file seal key expected =
      raise_if (not (is_null (committed_request seal))) request_missing
  verify_request_binding bad_file seal key expected = err request_unreadable
  verify_request_binding (object_file request) seal key expected = do
    raise_if (is_null (committed_request seal)) request_not_bound
    raise_if
        (not (
          is_text (canonical_digest sha256 (obj (without "auth" request)))
            (committed_request seal)))
        request_swapped
    check_stamp key expected request

module _ (sha256 : List ℕ → String) (hmac : List ℕ → List ℕ → String) where
  unfoldable pub trust_seal :
      Result KeyError (Option KeyMaterial)
      → TrustFile
      → String
      → String
      → Fields
      → Result TrustError Fields
  trust_seal key request plan expected seal = do
    check_version (get_or "format_version" seal null)
    check_hash (get_or "plan_hash" seal null) expected
    verify_seal_mac hmac key seal
    verify_request_binding sha256 request seal plan expected
    ok seal

  unfoldable pub judge_file :
      Result KeyError (Option KeyMaterial)
      → TrustFile
      → String
      → String
      → TrustFile
      → Result TrustError Fields
  judge_file key request plan expected no_file = err seal_absent
  judge_file key request plan expected bad_file = err seal_unreadable
  judge_file key request plan expected (object_file seal) =
      trust_seal key request plan expected seal

  unfoldable pub require_plan_trust :
      Result KeyError (Option KeyMaterial)
      → TrustFile
      → TrustFile
      → Fields
      → Option String
      → Result TrustError Fields
  require_plan_trust key seal request plan name = elim (validate_plan_name name) [
    | none ↦ err name_invalid
    | some safe_name ↦ elim (plan_hash sha256 plan) [
      | none ↦ err type_error
      | some expected ↦ judge_file key request (plan_key safe_name) expected seal
    ]
  ]
