-- ===== src/Tests/Records.antt =====
-- scripts/integrity.py and supervisor/evidence.py on two linked records, with digests that are fixed texts.
use plan_auditor.Base.{
  ℕ, String, true, false, not, none, some, List, [], ◌∷◌, ◌++◌, ◌≡◌, ◌↔◌, ◌⊎◌, refl, ok,
}
use plan_auditor.Json.{Value, null, str, obj, end, field, utf8, set_field, without, py_eq}
use plan_auditor.Tests.Language.{language}
use plan_auditor.Integrity.{
  KeyMaterial, Environment, load_key, key_material, raw_key, bytes_of, take_text, make_auth,
  marker_document, runtime_key, canonical_json,
}
use plan_auditor.Integrity.Authentic.{verify_marker-marker_document}
use plan_auditor.Integrity.Domains.{signed_bytes_injective}
use plan_auditor.Evidence.Chain.{
  record_count, tail_hash, Line, json, blank, genesis, record_domain, Mode, verify_jsonl_chain,
}
use plan_auditor.Evidence.Linked.{
  IsLinked, end_hash, verify_jsonl_chain_iff, verify_jsonl_chain-append,
}
use plan_auditor.Evidence.Archives.{
  ArchiveManifest, is_some, anchored, first_break, build_archive_manifest, verify_anchor_chain,
}
use plan_auditor.Evidence.Anchors.{anchored-first_break}
use plan_auditor.Evidence.Signing.{
  chain_to_sign, sign_jsonl, sign_lines, signing_mode, head_mismatch, head_payload,
  write_evidence_head, verify_evidence_head,
}
use plan_auditor.Evidence.Heads.{SameHead, verify_evidence_head_iff}
use plan_auditor.Evidence.Signed.{required, sign_jsonl-verified, sign_jsonl_total}

abbrev pub digest : List ℕ → String
digest bytes = "0123456789abcdef0123"

abbrev pub mac : List ℕ → List ℕ → String
mac key bytes = "m"

abbrev key_text : String
key_text = "0123456789abcdef0123456789abcdef"

abbrev environment : Environment
environment = record {
  direct = some key_text;
  file = none;
  file_in_workspace = false;
  file_bytes = none;
  file_path = "";
}

abbrev pub key : KeyMaterial
key = record { key = bytes_of key_text; source = "environment"; key_id = "0123456789abcdef" }

load_key-environment : load_key digest environment true ≡ ok (some key)
unfolding load_key key_material raw_key bytes_of take_text utf8 language
load_key-environment = refl

abbrev marker : Value
marker = obj (marker_document mac key)

runtime_key-environment : runtime_key digest mac environment (some (some marker)) ≡ ok (some key)
unfolding runtime_key
runtime_key-environment = rw (load_key-environment, verify_marker-marker_document mac key) refl

signed_bytes_injective_example :
    (record_domain ≡ record_domain) × (utf8 (canonical_json null) ≡ utf8 (canonical_json null))
unfolding language
signed_bytes_injective_example =
    signed_bytes_injective record_domain record_domain null null refl refl refl

abbrev sample_record : String → Value
sample_record prev = obj (field "prev" (str prev) (field "hash" (str "0123456789abcdef0123") end))

abbrev front : List Line
front = json (sample_record genesis) ∷ blank ∷ []

abbrev back : List Line
back = json (sample_record "0123456789abcdef0123") ∷ []

abbrev plain : Mode
plain = record { key = none; require_auth = false; ignore_auth = false }

verify_jsonl_chain-both :
    (verify_jsonl_chain digest mac plain genesis (some (front ++ back))).valid ≡ some true
unfolding verify_jsonl_chain language
verify_jsonl_chain-both = refl

verify_jsonl_chain-dropped :
    (verify_jsonl_chain digest mac plain genesis (some back)).valid ≡ some false
unfolding verify_jsonl_chain language
verify_jsonl_chain-dropped = refl

verify_jsonl_chain_iff_example :
    ((verify_jsonl_chain digest mac plain genesis (some (front ++ back))).valid ≡ some true)
    ↔ IsLinked digest mac plain 1 genesis (front ++ back)
verify_jsonl_chain_iff_example = verify_jsonl_chain_iff digest mac plain genesis (front ++ back)

verify_jsonl_chain-append_example :
    ((verify_jsonl_chain digest mac plain genesis (some (front ++ back))).valid ≡ some true) ↔ (
      ((verify_jsonl_chain digest mac plain genesis (some front)).valid ≡ some true)
      × ((verify_jsonl_chain digest mac plain
            (end_hash digest mac plain genesis front)
            (some back)).valid
          ≡ some true))
verify_jsonl_chain-append_example = verify_jsonl_chain-append digest mac plain genesis front back

-- The second archive does not name the tail of the first.
abbrev manifest : ArchiveManifest
manifest = build_archive_manifest digest mac (ok none) (
    some (
      record { filename = "evidence-1.jsonl"; content = some front; file_hash = none }
      ∷ record { filename = "evidence-2.jsonl"; content = some back; file_hash = none }
      ∷ []))

first_break-manifest : first_break manifest ≡ some 1
unfolding first_break build_archive_manifest language verify_jsonl_chain
first_break-manifest = refl

anchored-first_break_example :
    (anchored manifest ≡ not (is_some (first_break manifest)))
    × (anchored manifest ≡ true → (verify_anchor_chain manifest).integrity_ok ≡ true)
anchored-first_break_example = anchored-first_break manifest

chain-front :
    (verify_jsonl_chain digest mac (signing_mode key) genesis (some front)).valid ≡ some true
unfolding verify_jsonl_chain signing_mode language
chain-front = refl

sign_jsonl_total_example :
    (signed : List Line) × (sign_jsonl digest mac key genesis front ≡ ok signed)
    × ((verify_jsonl_chain digest mac (required digest mac key) genesis (some signed)).valid
        ≡ some true)
sign_jsonl_total_example = sign_jsonl_total digest mac key genesis front chain-front

abbrev signed_front : List Line
signed_front =
    json (
      obj (
        field "prev" (str genesis) (
          field "hash" (str "0123456789abcdef0123")
            (field "auth" (obj (make_auth mac key record_domain (sample_record genesis))) end))))
    ∷ []

sign_jsonl-front : sign_jsonl digest mac key genesis front ≡ ok signed_front
unfolding sign_jsonl sign_lines signing_mode verify_jsonl_chain language chain_to_sign
sign_jsonl-front = refl

sign_jsonl-verified_example :
    ((verify_jsonl_chain digest mac (required digest mac key) genesis (some signed_front)).valid
      ≡ some true)
    ⊎ ((verify_jsonl_chain digest mac (required digest mac key) genesis (some signed_front)).valid
        ≡ some true)
sign_jsonl-verified_example =
    sign_jsonl-verified digest mac key genesis front signed_front sign_jsonl-front

-- The head of the front alone does not fit the whole file.
head-changed :
    verify_evidence_head mac
      (some (write_evidence_head mac key (some front) none))
      key
      (some (front ++ back))
      none
    ≡ some head_mismatch
unfolding verify_evidence_head write_evidence_head head_payload record_count tail_hash set_field
    without py_eq language
head-changed = refl

verify_evidence_head_iff_example :
    (verify_evidence_head mac
        (some (write_evidence_head mac key (some front) none))
        key
        (some (front ++ back))
        none
      ≡ none)
    ↔ SameHead (some front) (some (front ++ back)) none none
verify_evidence_head_iff_example =
    verify_evidence_head_iff mac key (some front) (some (front ++ back)) none none
