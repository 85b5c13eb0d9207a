-- ===== src/Integrity.antt =====
-- scripts/integrity.py and the digest of scripts/contract.py: canonical texts, authentication by HMAC and
-- the marker that binds a workspace to its key. SHA-256 and HMAC-SHA-256, on bytes, are parameters; what
-- the process environment and the key file hold is a record.
pub mod Domains
pub mod Authentic
use plan_auditor.Base.{
  ℕ, zero, suc, String, Bool, true, false, not, ◌&&◌, ◌||◌, Option, none, some, List, [], ◌∷◌, ◌++◌,
  string_eq, ◌==◌, if◌then◌else◌, ltb, length, Result, ok, err,
}
use plan_auditor.Json.{
  Value, null, int, str, obj, pos, Fields, end, field, get_or, has_key, as_object, as_text, truthy,
  codes, dumps, utf8, py_eq, is_text, without,
}

unfoldable pub take_text : ℕ → String → String
take_text zero s = ""
take_text (suc n) String.[] = ""
take_text (suc n) (String.◌∷◌ c s) = String.◌∷◌ c (take_text n s)

-- The separators "," and ":".
unfoldable pub canonical_json : Value → List ℕ
unfolding dumps
canonical_json v = dumps (44 ∷ []) (58 ∷ []) v

pub record KeyMaterial : Type 0 where
  pub key : List ℕ
  pub source : String
  pub key_id : String

pub data KeyError : Type 0 where
  two_keys key_in_workspace key_file_unreadable key_missing key_too_short not_initialized
        marker_invalid :
      KeyError

abbrev pub min_key_bytes : ℕ
min_key_bytes = 32

-- The two variables of the environment, and what they name: whether the key file stands in the
-- workspace, its stripped bytes (`none`: an OSError) and its path.
pub record Environment : Type 0 where
  pub direct : Option String
  pub file : Option String
  pub file_in_workspace : Bool
  pub file_bytes : Option (List ℕ)
  pub file_path : String

abbrev pub is_set : Option String → Bool
is_set none = false
is_set (some s) = not (s == "")

unfoldable pub bytes_of : String → List ℕ
unfolding utf8 codes
bytes_of s = utf8 (codes s)

-- `raw` and `source`, before the length is checked.
unfoldable pub raw_key : Environment → Result KeyError (Option (List ℕ × String))
unfolding bytes_of
raw_key e = if is_set e.direct && is_set e.file then err two_keys else elim e.direct [
  | some text ↦ ok (some (bytes_of text, "environment"))
  | none ↦
      if not (is_set e.file)
      then ok none
      else if e.file_in_workspace
      then err key_in_workspace
      else elim e.file_bytes [
        | none ↦ err key_file_unreadable
        | some raw ↦ ok (some (raw, e.file_path))
      ]
]

abbrev pub hmac_alg : String
hmac_alg = "hmac-sha256"

-- The bytes that are authenticated: the domain, a NUL and the canonical text.
unfoldable pub signed_bytes : String → Value → List ℕ
unfolding bytes_of utf8 canonical_json
signed_bytes domain payload = bytes_of domain ++ 0 ∷ utf8 (canonical_json payload)

abbrev pub marker_domain : String
marker_domain = "plan-auditor:integrity-marker:v1"

unfoldable pub marker_payload : KeyMaterial → Fields
marker_payload key =
    field "format_version" (int (pos 1))
      (field "key_id" (str key.key_id) (field "mode" (str "external-hmac") end))

module _ (sha256 : List ℕ → String) where
  unfoldable pub canonical_digest : Value → String
  unfolding canonical_json utf8
  canonical_digest v = sha256 (utf8 (canonical_json v))

  unfoldable pub key_material : List ℕ → String → Result KeyError KeyMaterial
  unfolding take_text
  key_material raw source =
      if ltb (length raw) min_key_bytes
      then err key_too_short
      else ok (record { key = raw; source = source; key_id = take_text 16 (sha256 raw) })

  unfoldable pub load_key : Environment → Bool → Result KeyError (Option KeyMaterial)
  unfolding raw_key key_material
  load_key e required = elim (raw_key e) [
    | err x ↦ err x
    | ok none ↦ if required then err key_missing else ok none
    | ok (some (raw, source)) ↦ elim (key_material raw source) [
      | err x ↦ err x
      | ok key ↦ ok (some key)
    ]
  ]

module _ (hmac : List ℕ → List ℕ → String) where
  unfoldable pub mac_of : KeyMaterial → String → Value → String
  unfolding signed_bytes
  mac_of key domain payload = hmac key.key (signed_bytes domain payload)

  unfoldable pub make_auth : KeyMaterial → String → Value → Fields
  unfolding mac_of
  make_auth key domain payload =
      field "alg" (str hmac_alg)
        (field "key_id" (str key.key_id) (field "mac" (str (mac_of key domain payload)) end))

  unfoldable pub verify_auth : KeyMaterial → String → Value → Value → Bool
  unfolding mac_of is_text get_or as_object
  verify_auth key domain payload auth = elim (as_object auth) [
    | none ↦ false
    | some fields ↦
        if not (is_text hmac_alg (get_or "alg" fields null))
          || not (is_text key.key_id (get_or "key_id" fields null))
        then false
        else is_text (mac_of key domain payload) (get_or "mac" fields null)
  ]

  -- The document that `write_marker` writes.
  unfoldable pub marker_document : KeyMaterial → Fields
  unfolding marker_payload
  marker_document key = field "format_version" (int (pos 1)) (
      field "key_id" (str key.key_id) (
        field "mode" (str "external-hmac")
          (field "auth" (obj (make_auth key marker_domain (obj (marker_payload key)))) end)))

  -- `none`: the file cannot be read or is no valid document.
  unfoldable pub verify_marker : Option Value → KeyMaterial → Bool
  unfolding without marker_payload py_eq
  verify_marker none key = false
  verify_marker (some value) key = elim (as_object value) [
    | none ↦ false
    | some fields ↦
        let payload = obj (without "auth" fields) in
        py_eq payload (obj (marker_payload key))
        && verify_auth key marker_domain payload (get_or "auth" fields null)
  ]

module _ (sha256 : List ℕ → String) (hmac : List ℕ → List ℕ → String) where
  -- The marker's path is absent (`none`) or holds what was read of it.
  unfoldable pub runtime_key :
      Environment → Option (Option Value) → Result KeyError (Option KeyMaterial)
  unfolding load_key
  runtime_key e none = elim (load_key sha256 e false) [
    | err x ↦ err x
    | ok none ↦ ok none
    | ok (some key) ↦ err not_initialized
  ]
  runtime_key e (some marker) = elim (load_key sha256 e true) [
    | err x ↦ err x
    | ok none ↦ ok none
    | ok (some key) ↦ if verify_marker hmac marker key then ok (some key) else err marker_invalid
  ]
