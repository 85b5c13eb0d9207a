-- ===== src/ExecTrust/Sealed.antt =====
-- scripts/exec_trust.py with supervisor/sealing.py: a plan that was sealed and saved may run.
use plan_auditor.Base.{
  ℕ, String, false, Option, none, some, List, ◌≡◌, refl, ap, ◌∙◌, subst, inl, inr, nat_eq,
  string_eq, ◌==◌, beq_refl, beq→eq, Bool-cases, ok,
}
use mathlib.Core.Logic.{◌≢◌}
use plan_auditor.Json.{
  Value, null, int, str, obj, pos, Fields, get_or, as_text, without, set_field,
  get_or-set_field_other, get_or-set_field_self, without-set_field,
}
use plan_auditor.Integrity.{KeyMaterial, canonical_digest, make_auth}
use plan_auditor.Integrity.Authentic.{verify_auth-make_auth}
use plan_auditor.Evidence.Chain.{is_null}
use plan_auditor.PlanContract.{traffic_entry, digest_of, plan_hash}
use plan_auditor.Sealing.Seals.{Seal, seal_domain, payload, contract_seal, seal_plan}
use plan_auditor.Sealing.Files.{write_seal_payload}
use plan_auditor.Sealing.Sealed.{seal_plan-some, auth-payload}
use plan_auditor.ExecTrust.{
  no_file, object_file, validate_plan_name, plan_key, committed_request, check_version, check_hash,
  verify_seal_mac, verify_request_binding, trust_seal, judge_file, require_plan_trust,
}

without-traffic_entry : (t : Option Value) → without "auth" (traffic_entry t) ≡ traffic_entry t
unfolding without traffic_entry
without-traffic_entry none = refl
without-traffic_entry (some v) = refl

without-payload : (s : Seal) → without "auth" (payload s) ≡ payload s
unfolding without payload
without-payload s = rw (without-traffic_entry s.traffic) refl

module _ (hmac : List ℕ → List ℕ → String) where
  -- The fields of the file of a seal.
  abbrev pub file_fields : Option KeyMaterial → Seal → Fields
  file_fields none s = payload s
  file_fields (some key) s =
      set_field "auth" (obj (make_auth hmac key seal_domain (obj (payload s)))) (payload s)

  file_fields-written :
      (key : Option KeyMaterial) (s : Seal)
      → write_seal_payload hmac (payload s) key ≡ obj (file_fields key s)
  unfolding write_seal_payload
  file_fields-written none s = refl
  file_fields-written (some key) s = refl

  get_or-file_fields :
      (k : String) (key : Option KeyMaterial) (s : Seal)
      → (k == "auth") ≡ false
      → get_or k (file_fields key s) null ≡ get_or k (payload s) null
  get_or-file_fields k none s h = refl
  get_or-file_fields k (some key) s h =
      get_or-set_field_other k "auth" (obj (make_auth hmac key seal_domain (obj (payload s)))) null
        (payload s) h

  verify_seal_mac-file_fields :
      (key : Option KeyMaterial) (s : Seal)
      → verify_seal_mac hmac (ok key) (file_fields key s) ≡ ok tt
  unfolding verify_seal_mac is_null
  verify_seal_mac-file_fields none s = rw (auth-payload s) refl
  verify_seal_mac-file_fields (some key) s =
      let auth = obj (make_auth hmac key seal_domain (obj (payload s))) in
      rw
        (
          without-set_field "auth" auth (payload s),
          without-payload s,
          get_or-set_field_self "auth" auth null (payload s),
          verify_auth-make_auth hmac key seal_domain (obj (payload s)),
        )
        refl

module _ (sha256 : List ℕ → String) where
  version-contract_seal :
      (plan_id sealed_at : String) (environment : Value) (contracted : Fields) (count : ℕ)
      → (get_or "format_version"
            (payload (contract_seal sha256 plan_id sealed_at environment contracted count))
            null
          ≡ int (pos 4))
        × (get_or "plan_hash"
              (payload (contract_seal sha256 plan_id sealed_at environment contracted count))
              null
            ≡ str (canonical_digest sha256 (obj contracted)))
  unfolding payload contract_seal get_or
  version-contract_seal plan_id sealed_at environment contracted count = (refl, refl)

  -- The digest that a seal carries is that of the plan.
  pub hash-seal_plan :
      (plan : Fields) (plan_id sealed_at : String) (environment : Value) (seal : Seal)
      → seal_plan sha256 plan plan_id sealed_at environment ≡ some seal
      → (hash : String) × (plan_hash sha256 plan ≡ some hash)
        × (get_or "format_version" (payload seal) null ≡ int (pos 4))
        × (get_or "plan_hash" (payload seal) null ≡ str hash)
  unfolding plan_hash digest_of
  hash-seal_plan plan plan_id sealed_at environment seal h =
      let (contracted, count, made, _, same) =
        seal_plan-some sha256 plan plan_id sealed_at environment seal h in
      let (version, hash) = version-contract_seal plan_id sealed_at environment contracted count in
      (
        canonical_digest sha256 (obj contracted),
        rw (made, plan_hash) refl,
        subst (λ s. get_or "format_version" (payload s) null ≡ int (pos 4)) same version,
        subst
            (λ s.
              get_or "plan_hash" (payload s) null ≡ str (canonical_digest sha256 (obj contracted)))
            same hash,
      )

check_hash-same : (hash : String) → (hash == "") ≡ false → check_hash (str hash) hash ≡ ok tt
unfolding check_hash as_text
check_hash-same hash h = rw (h, beq_refl hash) refl

module _ (sha256 : List ℕ → String) (hmac : List ℕ → List ℕ → String) where
  trust_seal-ok :
      (key : Option KeyMaterial) (plan hash : String) (fields : Fields)
      → get_or "format_version" fields null ≡ int (pos 4)
      → get_or "plan_hash" fields null ≡ str hash
      → (hash == "") ≡ false
      → verify_seal_mac hmac (ok key) fields ≡ ok tt
      → committed_request fields ≡ null
      → trust_seal sha256 hmac (ok key) no_file plan hash fields ≡ ok fields
  unfolding trust_seal verify_request_binding is_null check_version
  trust_seal-ok key plan hash fields version digest filled mac free =
      rw (version, digest) (rw (check_hash-same hash filled) (rw mac (rw free refl)))

  text_filled :
      (hash : String) (found : Option String)
      → found ≡ some hash
      → found ≢ some ""
      → (hash == "") ≡ false
  text_filled hash found e filled = elim (Bool-cases (hash == "")) [
    | inl empty ↦ absurd (filled (e ∙ ap some (beq→eq hash "" empty)))
    | inr full ↦ full
  ]

  -- A plan that was sealed may run by the seal that is saved, with the same key or without a key, under any
  -- valid name, where there is no request and the environment of the seal names none, and where the digest of
  -- the plan is not the empty text.
  pub require_plan_trust-seal_plan :
      (key : Option KeyMaterial) (plan : Fields) (plan_id sealed_at : String) (environment : Value)
      (seal : Seal)
      → (name safe_name : Option String)
      → seal_plan sha256 plan plan_id sealed_at environment ≡ some seal
      → plan_hash sha256 plan ≢ some ""
      → committed_request (file_fields hmac key seal) ≡ null
      → validate_plan_name name ≡ some safe_name
      → require_plan_trust sha256 hmac
          (ok key)
          (object_file (file_fields hmac key seal))
          no_file
          plan
          name
        ≡ ok (file_fields hmac key seal)
  unfolding require_plan_trust judge_file
  require_plan_trust-seal_plan key plan plan_id sealed_at environment seal name safe_name h filled
        free named =
      let (hash, e, version, digest) =
        hash-seal_plan sha256 plan plan_id sealed_at environment seal h in
      rw (named, e, require_plan_trust)
        (trust_seal-ok key (plan_key safe_name) hash (file_fields hmac key seal)
          (get_or-file_fields hmac "format_version" key seal refl ∙ version)
          (get_or-file_fields hmac "plan_hash" key seal refl ∙ digest)
          (text_filled hash (plan_hash sha256 plan) e filled)
          (verify_seal_mac-file_fields hmac key seal) free)
