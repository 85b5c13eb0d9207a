-- ===== src/Evidence/Archives.antt =====
-- supervisor/evidence.py: `build_archive_manifest` over the archive files in the order of their names, and
-- `verify_anchor_chain`. What `runtime_key` gives is an argument.
use plan_auditor.Base.{
  ℕ, ◌+◌, String, Bool, true, false, not, ◌&&◌, Option, none, some, List, [], ◌∷◌, string_eq, ◌==◌,
  if◌then◌else◌, any, all, Result, ok, err,
}
use plan_auditor.Json.{Value, is_text}
use plan_auditor.Integrity.{KeyMaterial, KeyError}
use plan_auditor.Evidence.Chain.{
  File, genesis, ChainProblem, ChainResult, Mode, verify_jsonl_chain, tail_hash, read_stored_link,
  first_prev,
}

-- A file of the directory, with the digest of its bytes (`none`: an OSError).
pub record ArchiveFile : Type 0 where
  pub filename : String
  pub content : File
  pub file_hash : Option String

pub record ArchiveItem : Type 0 where
  pub file : String
  pub sha256 : Option String
  pub tail : Option String
  pub previous_archive_hash : Option String
  pub first_prev_value : Value
  pub cross_archive_start : Bool
  pub chain_valid : Option Bool
  pub records : ℕ
  pub chain_problem : ChainProblem
  pub authenticated : Bool

pub record ArchiveManifest : Type 0 where
  pub archives : List ArchiveItem
  pub auth_problem : Option KeyError

abbrev pub is_true : Option Bool → Bool
is_true (some true) = true
is_true _ = false

abbrev pub is_false : Option Bool → Bool
is_false (some false) = true
is_false _ = false

abbrev pub is_some : {A : Type 0} → Option A → Bool
is_some none = false
is_some (some a) = true

-- `==` on texts that may be `None`.
unfoldable pub same_text : Option String → Option String → Bool
same_text none none = true
same_text (some s) (some t) = s == t
same_text _ _ = false

-- `item.get("tail_hash") or expected_prev`
unfoldable pub next_prev : Option String → String → String
next_prev none expected = expected
next_prev (some tail) expected = if tail == "" then expected else tail

module _ (sha256 : List ℕ → String) (hmac : List ℕ → List ℕ → String) where
  -- The chain from the expected hash on or, for an archive that is not the first and starts at GENESIS,
  -- from GENESIS on; and whether it starts at the expected hash.
  unfoldable pub judge_archive : Option KeyMaterial → Bool → String → File → ChainResult × Bool
  unfolding first_prev is_text
  judge_archive key is_first expected content =
      let mode : Mode = record { key = key; require_auth = is_some key; ignore_auth = false } in
      let here = verify_jsonl_chain sha256 hmac mode expected content in
      let legacy = verify_jsonl_chain sha256 hmac mode genesis content in
      if is_false here.valid
        && not is_first
        && is_text genesis (first_prev content)
        && is_true legacy.valid
      then (legacy, false)
      else (here, is_true here.valid)

  unfoldable pub archive_item : Option KeyMaterial → Bool → String → ArchiveFile → ArchiveItem
  unfolding judge_archive tail_hash read_stored_link
  archive_item key is_first expected f =
      let (result, starts_across) = judge_archive key is_first expected f.content in
      record {
        file = f.filename;
        sha256 = f.file_hash;
        tail = tail_hash f.content;
        previous_archive_hash = read_stored_link f.content;
        first_prev_value = first_prev f.content;
        cross_archive_start = starts_across;
        chain_valid = result.valid;
        records = result.count;
        chain_problem = result.problem;
        authenticated = is_some key && is_true result.valid;
      }

  unfoldable pub archive_items :
      Option KeyMaterial → Bool → String → List ArchiveFile → List ArchiveItem
  unfolding archive_item next_prev
  archive_items key is_first expected [] = []
  archive_items key is_first expected (f ∷ fs) =
      let item = archive_item key is_first expected f in
      item ∷ archive_items key false (next_prev item.tail expected) fs

  -- `none`: there is no such directory.
  unfoldable pub build_archive_manifest :
      Result KeyError (Option KeyMaterial) → Option (List ArchiveFile) → ArchiveManifest
  unfolding archive_items
  build_archive_manifest (err e) none = record { archives = []; auth_problem = some e }
  build_archive_manifest (ok key) none = record { archives = []; auth_problem = none }
  build_archive_manifest (err e) (some files) = record {
    archives = archive_items none true genesis files;
    auth_problem = some e;
  }
  build_archive_manifest (ok key) (some files) = record {
    archives = archive_items key true genesis files;
    auth_problem = none;
  }

-- The loop of `anchored` over the neighbours.
unfoldable pub links_hold : List ArchiveItem → Bool
unfolding same_text
links_hold [] = true
links_hold (item ∷ []) = true
links_hold (item ∷ next ∷ items) =
    let rest = links_hold (next ∷ items) in
    if not (same_text next.previous_archive_hash item.tail) then false else rest

unfoldable pub anchored : ArchiveManifest → Bool
unfolding links_hold
anchored m =
    if is_some m.auth_problem
    then false
    else if any (λ item. is_false item.chain_valid) m.archives
    then false
    else links_hold m.archives

unfoldable pub legacy_count : List ArchiveItem → ℕ
legacy_count [] = 0
legacy_count (item ∷ items) =
    let rest = legacy_count items in if is_some item.chain_valid then rest else rest + 1

-- The loop of `_first_break` behind the item `previous`, at the place `index`.
unfoldable pub break_behind : ArchiveItem → ℕ → List ArchiveItem → Option ℕ
unfolding same_text
break_behind previous index [] = none
break_behind previous index (item ∷ items) =
    let rest = break_behind item (index + 1) items in
    if is_false item.chain_valid
    then some index
    else if not (same_text item.previous_archive_hash previous.tail)
    then some index
    else rest

unfoldable pub break_from : List ArchiveItem → Option ℕ
unfolding break_behind
break_from [] = none
break_from (item ∷ items) = if is_false item.chain_valid then some 0 else break_behind item 1 items

unfoldable pub first_break : ArchiveManifest → Option ℕ
unfolding break_from
first_break m = if is_some m.auth_problem then some 0 else break_from m.archives

pub record AnchorReport : Type 0 where
  pub is_anchored : Bool
  pub archives : List ArchiveItem
  pub broken_at : Option ℕ
  pub legacy_archives : ℕ
  pub integrity_ok : Bool
  pub auth_problem : Option KeyError

unfoldable pub verify_anchor_chain : ArchiveManifest → AnchorReport
unfolding anchored first_break legacy_count
verify_anchor_chain m = record {
  is_anchored = anchored m;
  archives = m.archives;
  broken_at = first_break m;
  legacy_archives = legacy_count m.archives;
  integrity_ok =
      not (is_some m.auth_problem) && all (λ item. not (is_false item.chain_valid)) m.archives;
  auth_problem = m.auth_problem;
}
