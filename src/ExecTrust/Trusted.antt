-- ===== src/ExecTrust/Trusted.antt =====
-- scripts/exec_trust.py: what a plan that may run is bound to, and that a sealed plan may run.
use plan_auditor.Base.{
  true_of_not, ℕ, String, true, false, Option, none, some, List, ◌≡◌, refl, ap, ◌∙◌, subst, inl,
  inr, nat_eq, string_eq, ◌==◌, beq→eq, ltb, Bool-cases, Option-cases, Result, ok, err, >>-eq-ok,
  raise_if-eq-ok, arith,
}
use plan_auditor.Json.{
  Value, null, int, str, obj, pos, negsuc, Fields, get_or, as_text, is_text, without,
}
use plan_auditor.Integrity.{KeyMaterial, KeyError, canonical_digest, verify_auth}
use plan_auditor.Evidence.Chain.{is_null}
use plan_auditor.PlanContract.{plan_hash}
use plan_auditor.Sealing.Seals.{seal_domain}
use plan_auditor.ExecTrust.{
  TrustFile, no_file, bad_file, object_file, auth_without_key, auth_failed, request_missing,
  request_swapped, validate_plan_name, plan_key, committed_request, check_stamp, check_version,
  check_hash, verify_seal_mac, verify_request_binding, trust_seal, judge_file, require_plan_trust,
}

null_of_is_null : (v : Value) → is_null v ≡ true → v ≡ null
unfolding is_null
null_of_is_null null h = refl
null_of_is_null v h = absurd (cc h)

-- The version binds the full contract.
abbrev pub IsTrustedVersion : Value → Type 0
IsTrustedVersion v = (n : ℕ) × (v ≡ int (pos n)) × (ltb n 4 ≡ false)

check_version-IsTrustedVersion : (v : Value) → check_version v ≡ ok tt → IsTrustedVersion v
unfolding check_version
check_version-IsTrustedVersion (int (pos n)) h = (n, refl, ground arith)
check_version-IsTrustedVersion (int (negsuc n)) h = absurd (cc h)
check_version-IsTrustedVersion v h = absurd (cc h)

check_hash-text :
    (sealed : Value) (expected : String)
    → check_hash sealed expected ≡ ok tt
    → sealed ≡ str expected
unfolding check_hash as_text
check_hash-text (str hash) expected h = elim (Bool-cases (hash == expected)) [
  | inl same ↦ ap str (beq→eq hash expected same)
  | inr other ↦ absurd (ground (arith, other, h))
]
check_hash-text v expected h = absurd (cc h)

module _ (sha256 : List ℕ → String) (hmac : List ℕ → List ℕ → String) where
  -- How the MAC of a seal is judged: with a key it is verified, without one there is none.
  abbrev pub IsAuthenticated : Option KeyMaterial → Fields → Type 0
  IsAuthenticated none seal = get_or "auth" seal null ≡ null
  IsAuthenticated (some key) seal =
      verify_auth hmac key seal_domain (obj (without "auth" seal)) (get_or "auth" seal null) ≡ true

  -- How an active request is bound: the seal names its digest, and it names no other plan.
  abbrev pub IsRequestBound : String → String → Fields → TrustFile → Type 0
  IsRequestBound key expected seal no_file = committed_request seal ≡ null
  IsRequestBound key expected seal bad_file = ⊥
  IsRequestBound key expected seal (object_file request) =
      (is_text (canonical_digest sha256 (obj (without "auth" request))) (committed_request seal)
        ≡ true)
      × (check_stamp key expected request ≡ ok tt)

  -- What a seal has that lets a plan of the digest run.
  pub record IsTrusted (key : Option KeyMaterial) (plan expected : String) (request : TrustFile)
      (seal : Fields) : Type 0 where
    pub version : IsTrustedVersion (get_or "format_version" seal null)
    pub hash : get_or "plan_hash" seal null ≡ str expected
    pub authentic : IsAuthenticated key seal
    pub bound : IsRequestBound plan expected seal request

  verify_seal_mac-eq-ok :
      (found : Result KeyError (Option KeyMaterial)) (seal : Fields)
      → verify_seal_mac hmac found seal ≡ ok tt
      → (key : Option KeyMaterial) × (found ≡ ok key) × IsAuthenticated key seal
  unfolding verify_seal_mac
  verify_seal_mac-eq-ok (err e) seal h = absurd (cc h)
  verify_seal_mac-eq-ok (ok none) seal h =
      (none, refl, null_of_is_null _ (true_of_not _ (raise_if-eq-ok _ auth_without_key h)))
  verify_seal_mac-eq-ok (ok (some key)) seal h =
      (some key, refl, true_of_not _ (raise_if-eq-ok _ auth_failed h))

  verify_request_binding-eq-ok :
      (request : TrustFile) (seal : Fields) (plan expected : String)
      → verify_request_binding sha256 request seal plan expected ≡ ok tt
      → IsRequestBound plan expected seal request
  unfolding verify_request_binding
  verify_request_binding-eq-ok no_file seal plan expected h =
      null_of_is_null _ (true_of_not _ (raise_if-eq-ok _ request_missing h))
  verify_request_binding-eq-ok bad_file seal plan expected h = cc h
  verify_request_binding-eq-ok (object_file request) seal plan expected h =
      let (_, rest) = >>-eq-ok _ _ h in
      let (same, stamp) = >>-eq-ok _ _ rest in
      (true_of_not _ (raise_if-eq-ok _ request_swapped same), stamp)

  trust_seal-eq-ok :
      (found : Result KeyError (Option KeyMaterial)) (request : TrustFile) (plan expected : String)
      (fields seal : Fields)
      → trust_seal sha256 hmac found request plan expected fields ≡ ok seal
      → (key : Option KeyMaterial) × (found ≡ ok key)
        × (fields ≡ seal)
        × IsTrusted key plan expected request fields
  unfolding trust_seal
  trust_seal-eq-ok found request plan expected fields seal h =
      let (version, h₁) = >>-eq-ok _ _ h in
      let (hash, h₂) = >>-eq-ok _ _ h₁ in
      let (mac, h₃) = >>-eq-ok _ _ h₂ in
      let (bound, done) = >>-eq-ok _ _ h₃ in
      let (key, e, authentic) = verify_seal_mac-eq-ok found fields mac in
      (
        key,
        e,
        cc done,
        record {
          version = check_version-IsTrustedVersion _ version;
          hash = check_hash-text _ expected hash;
          authentic = authentic;
          bound = verify_request_binding-eq-ok request fields plan expected bound;
        },
      )

  trusted_file :
      (found : Result KeyError (Option KeyMaterial)) (request : TrustFile) (plan expected : String)
      (file : TrustFile) (seal : Fields)
      → judge_file sha256 hmac found request plan expected file ≡ ok seal
      → (fields : Fields) × (file ≡ object_file fields)
        × (trust_seal sha256 hmac found request plan expected fields ≡ ok seal)
  unfolding judge_file
  trusted_file found request plan expected no_file seal h = absurd (cc h)
  trusted_file found request plan expected bad_file seal h = absurd (cc h)
  trusted_file found request plan expected (object_file fields) seal h = (fields, refl, h)

  -- A plan is let run only by a seal of a trusted version that carries the digest of the plan, whose MAC is
  -- verified where a key is configured and absent where none is, and that is bound to the active request.
  pub require_plan_trust-IsTrusted :
      (found : Result KeyError (Option KeyMaterial)) (file request : TrustFile) (plan : Fields)
      (name : Option String)
      → (seal : Fields) → require_plan_trust sha256 hmac found file request plan name ≡ ok seal
      → (key : Option KeyMaterial) × (safe_name : Option String) × (expected : String) × (found
          ≡ ok key)
        × (file ≡ object_file seal)
        × (validate_plan_name name ≡ some safe_name)
        × (plan_hash sha256 plan ≡ some expected)
        × IsTrusted key (plan_key safe_name) expected request seal
  unfolding require_plan_trust
  require_plan_trust-IsTrusted found file request plan name seal h =
      elim (Option-cases (validate_plan_name name)) [
        | inl bad ↦ absurd (cc (rw (bad, require_plan_trust) at h))
        | inr (safe_name, e) ↦ elim (Option-cases (plan_hash sha256 plan)) [
          | inl stuck ↦ absurd (cc (rw (e, stuck, require_plan_trust) at h))
          | inr (expected, f) ↦
              let (fields, there, run) =
                trusted_file found request (plan_key safe_name) expected file seal
                  (rw (e, f, require_plan_trust) at h) in
              let (key, k, same, trusted) =
                trust_seal-eq-ok found request (plan_key safe_name) expected fields seal run in
              (
                key,
                safe_name,
                expected,
                k,
                there ∙ ap object_file same,
                e,
                f,
                subst (IsTrusted key (plan_key safe_name) expected request) same trusted,
              )
        ]
      ]
