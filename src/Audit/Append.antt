-- ===== src/Audit/Append.antt =====
-- scripts/audit_check.py: the choice of the previous hash in `_write_evidence_record`, for the active file. The tail of a
-- checkpoint is a text that is not empty, as `_write_evidence_head` stores it.
use plan_auditor.Base.{
  ℕ, ◌+◌, String, not, ◌&&◌, Option, none, some, List, [], ◌∷◌, ◌++◌, nat_eq, string_eq, ◌==◌,
  if◌then◌else◌, ltb,
}
use plan_auditor.Json.{null, obj, Fields, get_or, as_object, as_text}
use plan_auditor.Integrity.{KeyMaterial}
use plan_auditor.Evidence.Chain.{Line, blank, json, File, genesis, record_count}
use plan_auditor.Audit.Chain.{write_record}

-- `value.get("hash") or "GENESIS"` of a line.
unfoldable pub line_hash : Line → String
unfolding as_object as_text get_or
line_hash (json v) = elim (as_object v) [
  | none ↦ genesis
  | some rec ↦ elim (as_text (get_or "hash" rec null)) [
    | none ↦ genesis
    | some text ↦ if text == "" then genesis else text
  ]
]
line_hash _ = genesis

-- The hash of the last line that is not empty, or the first argument.
unfoldable pub last_hash : String → List Line → String
unfolding line_hash
last_hash h [] = h
last_hash h (blank ∷ lines) = last_hash h lines
last_hash h (line ∷ lines) = last_hash (line_hash line) lines

unfoldable pub last_record_hash : File → String
unfolding last_hash
last_record_hash none = genesis
last_record_hash (some lines) = last_hash genesis lines

-- The head as it is stored; the count is 0 where it is no positive int.
pub record Checkpoint : Type 0 where
  pub active_count : ℕ
  pub active_tail : String

-- `_latest_archive_tail(base) or "GENESIS"`
unfoldable pub first_hash : Option String → String
first_hash none = genesis
first_hash (some tail) = if tail == "" then genesis else tail

-- Without a checkpoint of records.
unfoldable pub previous_of_log : Option String → File → String
unfolding record_count last_record_hash first_hash
previous_of_log archive file =
    if ltb 0 (record_count file) then last_record_hash file else first_hash archive

-- The checkpoint and the log agree, the log is one record ahead, or the checkpoint is taken.
unfoldable pub previous_of_checkpoint : Checkpoint → File → String
unfolding record_count last_record_hash
previous_of_checkpoint head file =
    let tail = last_record_hash file in
    if tail == head.active_tail
    then tail
    else if not (tail == genesis) && record_count file == head.active_count + 1
    then tail
    else head.active_tail

unfoldable pub choose_previous : Option Checkpoint → Option String → File → String
unfolding previous_of_log previous_of_checkpoint
choose_previous none archive file = previous_of_log archive file
choose_previous (some head) archive file =
    if ltb 0 head.active_count
    then previous_of_checkpoint head file
    else previous_of_log archive file

-- The lines of the file behind `_write_evidence_record`.
unfoldable pub append_line :
    (List ℕ → String)
    → (List ℕ → List ℕ → String)
    → Option KeyMaterial
    → Option Checkpoint
    → Option String
    → List Line
    → Fields
    → List Line
unfolding choose_previous write_record
append_line sha256 hmac key head archive lines rec =
    lines
    ++ json (obj (write_record sha256 hmac key (choose_previous head archive (some lines)) rec))
      ∷ []
