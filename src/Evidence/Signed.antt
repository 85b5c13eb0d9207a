-- ===== src/Evidence/Signed.antt =====
-- supervisor/evidence.py: what is signed is verified.
use plan_auditor.Base.{
  ℕ, suc, ◌+◌, String, Bool, true, false, not, ◌&&◌, Option, none, some, List, [], ◌∷◌, ◌≡◌, ◌⊎◌,
  inl, inr, refl, ap, ◌∙◌, subst, string_eq, ◌==◌, Bool-cases, Result, ok,
}
use plan_auditor.Json.{
  Value, null, obj, Fields, get_or, has_key, as_object, is_text, utf8, without, set_field,
  get_or-set_field_other, get_or-set_field_self, has_key-set_field_other, without-set_field,
  without_comm,
}
use plan_auditor.Integrity.{KeyMaterial, make_auth}
use plan_auditor.Integrity.Authentic.{verify_auth-make_auth}
use plan_auditor.Evidence.Chain.{
  Line, blank, not_json, json, genesis, record_domain, ChainProblem, Mode, evidence_json,
  hash_payload, record_hash, is_authentic, auth_problem, verify_jsonl_chain, first_prev,
}
use plan_auditor.Evidence.Linked.{Follows, IsLinked, verify_jsonl_chain_iff}
use plan_auditor.Evidence.Archives.{is_false}
use plan_auditor.Evidence.Signing.{
  SignError, sign_if, sign_record, sign_lines, signing_mode, chain_to_sign, sign_jsonl,
}

sign_if-ok :
    (valid : Option Bool) (p : ChainProblem) (rest : Result SignError (List Line))
    (signed : List Line)
    → sign_if valid p rest ≡ ok signed
    → (valid ≡ some true) × (rest ≡ ok signed)
unfolding sign_if
sign_if-ok none p rest signed h = absurd (cc h)
sign_if-ok (some false) p rest signed h = absurd (cc h)
sign_if-ok (some true) p rest signed h = (refl, h)

valid_not_false : (valid : Option Bool) → valid ≡ some true → is_false valid ≡ false
valid_not_false valid h = rw h refl

module _ (sha256 : List ℕ → String) (hmac : List ℕ → List ℕ → String) (key : KeyMaterial) where
  -- The mode in which a file is verified where a key is configured.
  abbrev pub required : Mode
  required = record { key = some key; require_auth = true; ignore_auth = false }

  hash_payload-sign_record :
      (rec : Fields) → hash_payload (sign_record hmac key rec) ≡ hash_payload rec
  unfolding hash_payload sign_record
  hash_payload-sign_record rec =
      let auth = obj (make_auth hmac key record_domain (obj (without "auth" rec))) in
      without_comm "auth" "hash" (set_field "auth" auth rec)
      ∙ ap (without "hash") (without-set_field "auth" auth rec)
      ∙ without_comm "hash" "auth" rec

  record_hash-sign_record :
      (rec : Fields) → record_hash sha256 (sign_record hmac key rec) ≡ record_hash sha256 rec
  unfolding record_hash
  record_hash-sign_record rec =
      ap (λ p. sha256 (utf8 (evidence_json (obj p)))) (hash_payload-sign_record rec)

  is_authentic-sign_record :
      (rec : Fields) → is_authentic hmac (some key) (sign_record hmac key rec) ≡ true
  unfolding is_authentic sign_record
  is_authentic-sign_record rec =
      let auth = obj (make_auth hmac key record_domain (obj (without "auth" rec))) in
      rw (without-set_field "auth" auth rec, get_or-set_field_self "auth" auth null rec)
        (verify_auth-make_auth hmac key record_domain (obj (without "auth" rec)))

  kept :
      (k : String) (rec : Fields)
      → (k == "auth") ≡ false
      → get_or k (sign_record hmac key rec) null ≡ get_or k rec null
  unfolding sign_record
  kept k rec other = get_or-set_field_other k "auth" _ null rec other

  has_key-sign_record :
      (rec : Fields) → has_key "prev" (sign_record hmac key rec) ≡ has_key "prev" rec
  unfolding sign_record
  has_key-sign_record rec = has_key-set_field_other "prev" "auth" _ rec refl

  sign_record-Follows :
      (n m : ℕ) (prev : String) (v : Value) (rec : Fields)
      → Follows sha256 hmac (signing_mode key) n prev v rec
      → Follows sha256 hmac required m prev
          (obj (sign_record hmac key rec))
          (sign_record hmac key rec)
  unfolding as_object auth_problem
  sign_record-Follows n m prev v rec f = record {
    object = refl;
    has_prev = has_key-sign_record rec ∙ f.has_prev;
    names_prev = ap (is_text prev) (kept "prev" rec refl) ∙ f.names_prev;
    names_hash =
        ap (λ h. is_text h (get_or "hash" (sign_record hmac key rec) null))
          (record_hash-sign_record rec)
        ∙ ap (is_text (record_hash sha256 rec)) (kept "hash" rec refl)
        ∙ f.names_hash;
    accepted = rw (is_authentic-sign_record rec, auth_problem) refl;
  }

  -- Signing a chain of records gives lines, and they are a chain that is verified with the key.
  sign_lines-IsLinked :
      (n m k : ℕ) (prev : String) (lines : List Line)
      → IsLinked sha256 hmac (signing_mode key) n prev lines
      → (signed : List Line) × (sign_lines hmac key m lines ≡ ok signed)
        × IsLinked sha256 hmac required k prev signed
  unfolding sign_lines
  sign_lines-IsLinked n m k prev [] h = ([], refl, tt)
  sign_lines-IsLinked n m k prev (blank ∷ lines) h =
      sign_lines-IsLinked (n + 1) (suc m) k prev lines h
  sign_lines-IsLinked n m k prev (not_json ∷ lines) h = absurd h
  sign_lines-IsLinked n m k prev (json v ∷ lines) (rec, f, rest) =
      let (signed, e, linked) =
        sign_lines-IsLinked (n + 1) (suc m) (k + 1) (record_hash sha256 rec) lines rest in
      (
        json (obj (sign_record hmac key rec)) ∷ signed,
        rw (f.object, sign_lines) (rw e refl),
        (
          sign_record hmac key rec,
          sign_record-Follows n k prev v rec f,
          rw (record_hash-sign_record rec) linked,
        ),
      )

  signed_from :
      (prev : String) (lines signed : List Line)
      → (verify_jsonl_chain sha256 hmac (signing_mode key) prev (some lines)).valid ≡ some true
      → sign_lines hmac key 1 lines ≡ ok signed
      → (verify_jsonl_chain sha256 hmac required prev (some signed)).valid ≡ some true
  signed_from prev lines signed valid h =
      let linked = (verify_jsonl_chain_iff sha256 hmac (signing_mode key) prev lines).0 valid in
      let (written, e, verified) = sign_lines-IsLinked 1 1 1 prev lines linked in
      let same : written ≡ signed = cc (e, h) in
      (verify_jsonl_chain_iff sha256 hmac required prev signed).1
        (subst (IsLinked sha256 hmac required 1 prev) same verified)

  sign_jsonl-ok :
      (prev : String) (lines signed : List Line)
      → sign_jsonl sha256 hmac key prev lines ≡ ok signed
      → ((chain_to_sign sha256 hmac key prev lines).valid ≡ some true)
        × (sign_lines hmac key 1 lines ≡ ok signed)
  unfolding sign_jsonl
  sign_jsonl-ok prev lines signed h =
      sign_if-ok (chain_to_sign sha256 hmac key prev lines).valid _ (sign_lines hmac key 1 lines)
        signed h

  chain_to_sign-cases :
      (prev : String) (lines : List Line)
      → (chain_to_sign sha256 hmac key prev lines).valid ≡ some true
      → ((verify_jsonl_chain sha256 hmac (signing_mode key) prev (some lines)).valid ≡ some true)
        ⊎ ((verify_jsonl_chain sha256 hmac (signing_mode key) genesis (some lines)).valid
            ≡ some true)
  unfolding chain_to_sign
  chain_to_sign-cases prev lines h =
      let here = verify_jsonl_chain sha256 hmac (signing_mode key) prev (some lines) in
      elim (Bool-cases (
        is_false here.valid
        && not (prev == genesis)
        && is_text genesis (first_prev (some lines)))) [
          | inl legacy ↦ inr (rw (legacy, chain_to_sign) at h)
          | inr whole ↦ inl (rw (whole, chain_to_sign) at h)
        ]

  -- Where a file is signed, the lines that are written are accepted with the key required, from the given
  -- hash or from GENESIS on.
  pub sign_jsonl-verified :
      (initial_prev : String) (lines signed : List Line)
      → sign_jsonl sha256 hmac key initial_prev lines ≡ ok signed
      → ((verify_jsonl_chain sha256 hmac required initial_prev (some signed)).valid ≡ some true)
        ⊎ ((verify_jsonl_chain sha256 hmac required genesis (some signed)).valid ≡ some true)
  sign_jsonl-verified initial_prev lines signed h =
      let (valid, written) = sign_jsonl-ok initial_prev lines signed h in
      elim (chain_to_sign-cases initial_prev lines valid) [
        | inl here ↦ inl (signed_from initial_prev lines signed here written)
        | inr legacy ↦ inr (signed_from genesis lines signed legacy written)
      ]

  -- A file whose records are a chain from the given hash on is signed, and what is written is accepted with
  -- the key required from the same hash on.
  pub sign_jsonl_total :
      (initial_prev : String) (lines : List Line)
      → (verify_jsonl_chain sha256 hmac (signing_mode key) initial_prev (some lines)).valid
        ≡ some true
      → (signed : List Line) × (sign_jsonl sha256 hmac key initial_prev lines ≡ ok signed)
        × ((verify_jsonl_chain sha256 hmac required initial_prev (some signed)).valid ≡ some true)
  unfolding sign_jsonl chain_to_sign
  sign_jsonl_total initial_prev lines valid =
      let linked =
        (verify_jsonl_chain_iff sha256 hmac (signing_mode key) initial_prev lines).0 valid in
      let (signed, e, verified) = sign_lines-IsLinked 1 1 1 initial_prev lines linked in
      (
        signed,
        rw (valid_not_false _ valid, chain_to_sign) (rw (valid, e, sign_if) refl),
        (verify_jsonl_chain_iff sha256 hmac required initial_prev signed).1 verified,
      )
