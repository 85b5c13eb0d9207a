-- ===== src/Sealing/Sealed.antt =====
-- supervisor/sealing.py: a plan that is sealed passes its own check, and a seal that is saved is loaded.
use plan_auditor.Base.{
  ℕ, String, true, Option, none, some, List, ◌≡◌, refl, ◌∙◌, subst, inl, inr, string_eq, beq_refl,
  Option-cases, ok, >>-eq-ok,
}
use mathlib.Core.Option.{some-injective}
use plan_auditor.Json.{
  Value, null, arr, obj, nil, ℤ, pos, int_eq, Fields, get, get_or, as_object, as_text, is_text,
  set_field, get_or-set_field_self,
}
use plan_auditor.Integrity.{KeyMaterial, canonical_digest, make_auth}
use plan_auditor.Integrity.Authentic.{verify_auth-make_auth}
use plan_auditor.PlanContract.{
  contract_document, contract_plan, traffic_entry, digest_of, plan_hash,
}
use plan_auditor.PlanContract.Stable.{contract_plan-some, contract_plan_idempotent}
use plan_auditor.Sealing.Steps.{or_empty}
use plan_auditor.Sealing.Seals.{
  Seal, seal_domain, or_empty_dict, payload, as_plan, criteria_count, to_int, seal_of,
  parse_seal_data, same_hash, same_count, expected_hash, validate_seal_self_consistency,
  contract_seal, seal_plan,
}
use plan_auditor.Sealing.Files.{write_seal_payload, check_auth, load_fields, load_seal, save_seal}

get-traffic_entry : (t : Option Value) → get "traffic" (traffic_entry t) ≡ t
unfolding get traffic_entry
get-traffic_entry none = refl
get-traffic_entry (some v) = refl

module _ (sha256 : List ℕ → String) where
  -- The plan of a seal is the contract that it was made of, where the tools are a list or are truthy.
  as_plan-contract_seal :
      (plan_id sealed_at : String) (environment : Value) (plan : Fields) (steps : List Fields)
      (count : ℕ)
      → or_empty (get_or "required_tools" plan (arr nil)) ≡ get_or "required_tools" plan (arr nil)
      → as_plan
          (contract_seal sha256 plan_id sealed_at environment (contract_document plan steps) count)
        ≡ contract_document plan steps
  unfolding as_plan contract_seal contract_document get_or get
  as_plan-contract_seal plan_id sealed_at environment plan steps count tools =
      rw (tools, get-traffic_entry (get "traffic" plan)) refl

  validate-contract_seal :
      (plan_id sealed_at : String) (environment : Value) (contracted : Fields) (count : ℕ)
      → as_plan (contract_seal sha256 plan_id sealed_at environment contracted count) ≡ contracted
      → contract_plan contracted ≡ some contracted
      → criteria_count contracted ≡ some count
      → validate_seal_self_consistency sha256
          (contract_seal sha256 plan_id sealed_at environment contracted count)
        ≡ ok tt
  unfolding validate_seal_self_consistency expected_hash plan_hash digest_of same_hash same_count
      is_text as_text contract_seal
  validate-contract_seal plan_id sealed_at environment contracted count plan own counted = rw plan (
      rw (own, counted)
        (rw (beq_refl (canonical_digest sha256 (obj contracted))) (rw (beq_refl (pos count)) refl)))

  pub seal_plan-some :
      (plan : Fields) (plan_id sealed_at : String) (environment : Value) (seal : Seal)
      → seal_plan sha256 plan plan_id sealed_at environment ≡ some seal
      → (contracted : Fields) × (count : ℕ) × (contract_plan plan ≡ some contracted)
        × (criteria_count contracted ≡ some count)
        × (contract_seal sha256 plan_id sealed_at environment contracted count ≡ seal)
  unfolding seal_plan
  seal_plan-some plan plan_id sealed_at environment seal h =
      elim (Option-cases (contract_plan plan)) [
        | inl stuck ↦ absurd (cc (rw (stuck, seal_plan) at h))
        | inr (contracted, e) ↦ elim (Option-cases (criteria_count contracted)) [
          | inl stuck ↦ absurd (cc (rw (e, stuck, seal_plan) at h))
          | inr (count, f) ↦
              (contracted, count, e, f, some-injective _ _ (rw (e, f, seal_plan) at h))
        ]
      ]

  -- A plan that is sealed gives a seal that passes its own check, where the tools that the plan requires are
  -- a list or are truthy.
  pub seal_plan-consistent :
      (plan : Fields) (plan_id sealed_at : String) (environment : Value) (seal : Seal)
      → or_empty (get_or "required_tools" plan (arr nil)) ≡ get_or "required_tools" plan (arr nil)
      → seal_plan sha256 plan plan_id sealed_at environment ≡ some seal
      → validate_seal_self_consistency sha256 seal ≡ ok tt
  seal_plan-consistent plan plan_id sealed_at environment seal tools h =
      let (contracted, count, made, counted, same) =
        seal_plan-some plan plan_id sealed_at environment seal h in
      let (steps, bound, _, document) = contract_plan-some plan contracted made in
      let plan_kept =
        subst (λ c. as_plan (contract_seal sha256 plan_id sealed_at environment c count) ≡ c)
          document (as_plan-contract_seal plan_id sealed_at environment plan bound count tools) in
      subst (λ s. validate_seal_self_consistency sha256 s ≡ ok tt) same
        (validate-contract_seal plan_id sealed_at environment contracted count plan_kept
          (contract_plan_idempotent plan contracted made) counted)

auth-traffic_entry : (t : Option Value) → get_or "auth" (traffic_entry t) null ≡ null
unfolding get_or traffic_entry
auth-traffic_entry none = refl
auth-traffic_entry (some v) = refl

traffic-signed_entry :
    (a : Value) (t : Option Value) → get "traffic" (set_field "auth" a (traffic_entry t)) ≡ t
unfolding get traffic_entry set_field
traffic-signed_entry a none = refl
traffic-signed_entry a (some v) = refl

auth-signed_entry :
    (a : Value) (t : Option Value) → get_or "auth" (set_field "auth" a (traffic_entry t)) null ≡ a
unfolding get_or traffic_entry set_field
auth-signed_entry a none = refl
auth-signed_entry a (some v) = refl

abbrev set_auth : Option Fields → Seal → Seal
set_auth auth s = record {
  plan_id = s.plan_id;
  sealed_at = s.sealed_at;
  plan_hash = s.plan_hash;
  criteria_count = s.criteria_count;
  steps = s.steps;
  task = s.task;
  requirements = s.requirements;
  required_tools = s.required_tools;
  environment = s.environment;
  traffic = s.traffic;
  format_version = s.format_version;
  auth = auth;
}

-- The authentication is read neither by the self-check nor by the payload.
validate-set_auth :
    (sha256 : List ℕ → String) (auth : Option Fields) (s : Seal)
    → validate_seal_self_consistency sha256 (set_auth auth s)
      ≡ validate_seal_self_consistency sha256 s
unfolding validate_seal_self_consistency as_plan
validate-set_auth sha256 auth s = refl

payload-set_auth : (auth : Option Fields) (s : Seal) → payload (set_auth auth s) ≡ payload s
unfolding payload
payload-set_auth auth s = refl

pub auth-payload : (s : Seal) → get_or "auth" (payload s) null ≡ null
unfolding payload get_or
auth-payload s = auth-traffic_entry s.traffic

-- The seal as it is loaded: `auth` is what was written.
abbrev pub signed_by : (List ℕ → List ℕ → String) → Option KeyMaterial → Seal → Seal
signed_by hmac none s = set_auth none s
signed_by hmac (some key) s = set_auth (some (make_auth hmac key seal_domain (obj (payload s)))) s

module _ (sha256 : List ℕ → String) (hmac : List ℕ → List ℕ → String)
    (parse : Value → Option ℤ) where
  parse-payload :
      (s : Seal)
      → or_empty_dict s.environment ≡ s.environment
      → parse_seal_data parse (payload s) ≡ ok (signed_by hmac none s)
  unfolding parse_seal_data to_int seal_of payload get_or get as_object
  parse-payload s environment =
      rw (environment, get-traffic_entry s.traffic, auth-traffic_entry s.traffic, as_object) refl

  parse-signed :
      (s : Seal) (auth : Fields)
      → or_empty_dict s.environment ≡ s.environment
      → parse_seal_data parse (set_field "auth" (obj auth) (payload s))
        ≡ ok (set_auth (some auth) s)
  unfolding parse_seal_data to_int seal_of payload get_or get as_object set_field
  parse-signed s auth environment =
      rw
        (
          environment,
          traffic-signed_entry (obj auth) s.traffic,
          auth-signed_entry (obj auth) s.traffic,
          as_object,
        )
        refl

  check_auth-keyless : (fields : Fields) → check_auth hmac none fields null ≡ ok tt
  unfolding check_auth
  check_auth-keyless fields = refl

  check_auth-made :
      (key : KeyMaterial) (fields : Fields)
      → check_auth hmac (some key) fields (obj (make_auth hmac key seal_domain (obj fields)))
        ≡ ok tt
  unfolding check_auth
  check_auth-made key fields = rw (verify_auth-make_auth hmac key seal_domain (obj fields)) refl

  load_fields-parsed :
      (key : Option KeyMaterial) (s parsed : Seal) (written : Fields)
      → parse_seal_data parse written ≡ ok parsed
      → validate_seal_self_consistency sha256 parsed ≡ ok tt
      → check_auth hmac key (payload parsed) (get_or "auth" written null) ≡ ok tt
      → load_fields sha256 hmac parse true (ok key) written ≡ ok (some parsed)
  unfolding load_fields
  load_fields-parsed key s parsed written read valid accepted =
      rw (read, load_fields) (rw valid (rw accepted refl))

  load_seal-written :
      (key : Option KeyMaterial) (s : Seal)
      → or_empty_dict s.environment ≡ s.environment
      → validate_seal_self_consistency sha256 s ≡ ok tt
      → load_seal sha256 hmac parse true
          (ok key)
          (some (some (write_seal_payload hmac (payload s) key)))
        ≡ ok (some (signed_by hmac key s))
  unfolding load_seal write_seal_payload as_object
  load_seal-written none s environment valid =
      load_fields-parsed none s (set_auth none s) (payload s) (parse-payload s environment)
        (validate-set_auth sha256 none s ∙ valid)
        (rw (payload-set_auth none s, auth-payload s) (check_auth-keyless (payload s)))
  load_seal-written (some key) s environment valid =
      let auth = make_auth hmac key seal_domain (obj (payload s)) in
      load_fields-parsed (some key) s (set_auth (some auth) s)
        (set_field "auth" (obj auth) (payload s)) (parse-signed s auth environment)
        (validate-set_auth sha256 (some auth) s ∙ valid)
        (rw
          (payload-set_auth (some auth) s, get_or-set_field_self "auth" (obj auth) null (payload s))
          (check_auth-made key (payload s)))

  -- A seal that is saved is loaded again with the same key, or without a key, as the same seal with the
  -- authentication that was written, where its environment is no falsy value but an empty dict.
  pub load_seal-save_seal :
      (key : Option KeyMaterial) (seal : Seal) (document : Value)
      → or_empty_dict seal.environment ≡ seal.environment
      → save_seal sha256 hmac parse true (ok key) seal ≡ ok document
      → load_seal sha256 hmac parse true (ok key) (some (some document))
        ≡ ok (some (signed_by hmac key seal))
  unfolding save_seal
  load_seal-save_seal key seal document environment h =
      let (valid, written) =
        >>-eq-ok (validate_seal_self_consistency sha256 seal)
          (ok (write_seal_payload hmac (payload seal) key)) h in
      let same : write_seal_payload hmac (payload seal) key ≡ document = cc written in
      subst
        (λ d.
          load_seal sha256 hmac parse true (ok key) (some (some d))
          ≡ ok (some (signed_by hmac key seal)))
        same (load_seal-written key seal environment valid)
