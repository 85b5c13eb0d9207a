-- ===== src/Integrity/Authentic.antt =====
-- scripts/integrity.py: what a verified authentication and a resolved key say.
use plan_auditor.Base.{
  ℕ, String, Bool, true, false, not, ◌||◌, Option, none, some, List, ◌≡◌, ◌↔◌, refl, ap, ◌∙◌, inl,
  inr, string_eq, beq_refl, beq→eq, if◌then◌else◌, Option-cases, ok, arith,
}
use plan_auditor.Json.{
  Value, null, str, obj, Fields, get_or, as_object, as_text, is_text, without, py_eq,
}
use mathlib.Core.Option.{some-injective}
use mathlib.Core.Logic.{◌≢◌}
use plan_auditor.Integrity.{
  KeyMaterial, Environment, hmac_alg, mac_of, make_auth, verify_auth, load_key, marker_domain,
  marker_payload, marker_document, verify_marker, runtime_key,
}

is_text-str : (t : String) → is_text t (str t) ≡ true
unfolding is_text as_text
is_text-str t = beq_refl t

str_of_is_text : (t : String) (v : Value) → is_text t v ≡ true → v ≡ str t
unfolding is_text as_text
str_of_is_text t (str s) h = ap str (beq→eq s t h)
str_of_is_text t null h = absurd (cc h)
str_of_is_text t v h = absurd (cc h)

tests_hold :
    (a b c : Bool)
    → (if not a || not b then false else c) ≡ true
    → (a ≡ true) × (b ≡ true) × (c ≡ true)
tests_hold a b c h = ground arith

module _ (hmac : List ℕ → List ℕ → String) where
  -- What `make_auth` gives for a key, a domain and a payload is verified for them.
  pub verify_auth-make_auth :
      (key : KeyMaterial) (domain : String) (payload : Value)
      → verify_auth hmac key domain payload (obj (make_auth hmac key domain payload)) ≡ true
  unfolding verify_auth make_auth as_text
  verify_auth-make_auth key domain payload =
      rw (beq_refl key.key_id) (beq_refl (mac_of hmac key domain payload))

  -- The fields that an authentication of a payload carries.
  abbrev pub IsAuth : KeyMaterial → String → Value → Fields → Type 0
  IsAuth key domain payload fields =
      (get_or "alg" fields null ≡ str hmac_alg)
      × (get_or "key_id" fields null ≡ str key.key_id)
      × (get_or "mac" fields null ≡ str (mac_of hmac key domain payload))

  -- An authentication is verified exactly where it is an object that names the algorithm and the key and
  -- carries the MAC of the domain and the payload under the key.
  pub verify_auth_iff :
      (key : KeyMaterial) (domain : String) (payload auth : Value)
      → (verify_auth hmac key domain payload auth ≡ true)
        ↔ ((fields : Fields) × (as_object auth ≡ some fields) × IsAuth key domain payload fields)
  unfolding verify_auth
  verify_auth_iff key domain payload auth = elim (Option-cases (as_object auth)) [
    | inl other ↦ rw (other, verify_auth) ((λ h. absurd (cc h)), (λ p. absurd (cc (p.1))))
    | inr (fields, e) ↦
        rw (e, verify_auth)
          (
            λ h.
                let (alg, id, mac) = tests_hold _ _ _ h in
                (
                  fields,
                  refl,
                  (str_of_is_text _ _ alg, str_of_is_text _ _ id, str_of_is_text _ _ mac),
                ),
            λ p.
                let same = some-injective fields p.0 p.1 in
                let alg = ap (λ f. get_or "alg" f null) same ∙ p.2.0 in
                let id = ap (λ f. get_or "key_id" f null) same ∙ p.2.1 in
                let mac = ap (λ f. get_or "mac" f null) same ∙ p.2.2 in
                rw (alg, id, mac, is_text-str hmac_alg, is_text-str key.key_id)
                  (is_text-str (mac_of hmac key domain payload)),
          )
  ]

  -- The marker that is written for a key is verified with the key.
  pub verify_marker-marker_document :
      (key : KeyMaterial) → verify_marker hmac (some (obj (marker_document hmac key))) key ≡ true
  unfolding verify_marker marker_document marker_payload without as_object get_or py_eq
  verify_marker-marker_document key =
      rw (beq_refl key.key_id) (verify_auth-make_auth key marker_domain (obj (marker_payload key)))

module _ (sha256 : List ℕ → String) (hmac : List ℕ → List ℕ → String) where
  -- Where the marker is there no state without a key is accepted.
  pub runtime_key_marked :
      (e : Environment) (marker : Option Value) → runtime_key sha256 hmac e (some marker) ≢ ok none
  unfolding runtime_key load_key
  runtime_key_marked e marker h = ground (arith)

  -- A key that `runtime_key` gives was loaded and its marker is there and verified.
  pub runtime_key-some :
      (e : Environment) (path : Option (Option Value)) (key : KeyMaterial)
      → runtime_key sha256 hmac e path ≡ ok (some key)
      → (load_key sha256 e true ≡ ok (some key))
        × ((marker : Option Value) × (path ≡ some marker) × (verify_marker hmac marker key ≡ true))
  unfolding runtime_key
  runtime_key-some e none key h = ground arith
  runtime_key-some e (some marker) key h = (ground arith, (marker, refl, ground arith))
