-- ===== src/Evidence/Linked.antt =====
-- supervisor/evidence.py: the chains that `verify_jsonl_chain` accepts.
use plan_auditor.Base.{
  ℕ, ◌+◌, ◌<◌, String, true, false, none, some, List, [], ◌∷◌, ◌++◌, ◌≡◌, ◌↔◌, ◌⊎◌, inl, inr, refl,
  nat_eq, Bool-cases, Option-cases, arith,
}
use mathlib.Core.Logic.{◌≢◌}
use plan_auditor.Json.{Value, null, Fields, get_or, has_key, as_object, is_text}
use plan_auditor.Evidence.Chain.{
  line_not_object, prev_chain_broken, hash_mismatch, Line, blank, not_json, json, ChainProblem,
  Mode, stop, go, end_of_chain, record_hash, auth_problem, visit_record, visit_line, verify_lines,
  verify_jsonl_chain,
}

module _ (sha256 : List ℕ → String) (hmac : List ℕ → List ℕ → String) (mode : Mode) where
  -- A record that follows a record of the hash `prev`: it names that hash and its own, and its
  -- authentication is the one that the mode asks for.
  pub record Follows (line_no : ℕ) (prev : String) (v : Value) (rec : Fields) : Type 0 where
    pub object : as_object v ≡ some rec
    pub has_prev : has_key "prev" rec ≡ true
    pub names_prev : is_text prev (get_or "prev" rec null) ≡ true
    pub names_hash : is_text (record_hash sha256 rec) (get_or "hash" rec null) ≡ true
    pub accepted : auth_problem hmac mode line_no rec ≡ none

  -- The lines are blank or records, each following the record in front of it.
  abbrev pub IsLinked : ℕ → String → List Line → Type 0
  IsLinked line_no prev [] = Unit
  IsLinked line_no prev (blank ∷ lines) = IsLinked (line_no + 1) prev lines
  IsLinked line_no prev (not_json ∷ lines) = ⊥
  IsLinked line_no prev (json v ∷ lines) =
      (rec : Fields) × Follows line_no prev v rec
      × IsLinked (line_no + 1) (record_hash sha256 rec) lines

  visit_line-Follows :
      (n : ℕ) (prev : String) (v : Value) (rec : Fields)
      → Follows n prev v rec
      → visit_line sha256 hmac mode n prev false v ≡ go (record_hash sha256 rec) false
  unfolding visit_line visit_record
  visit_line-Follows n prev v rec f =
      rw (f.object, visit_line) (rw (f.has_prev, f.names_prev, f.names_hash, f.accepted) refl)

  visit_line-cases :
      (n : ℕ) (prev : String) (v : Value)
      → ((p : ChainProblem) × (visit_line sha256 hmac mode n prev false v ≡ stop p))
        ⊎ (visit_line sha256 hmac mode n prev false v ≡ go prev true)
        ⊎ ((rec : Fields) × Follows n prev v rec)
  unfolding visit_line visit_record
  visit_line-cases n prev v = elim (Option-cases (as_object v)) [
    | inl other ↦ inl (line_not_object n, rw (other, visit_line) refl)
    | inr (rec, o) ↦ elim (Bool-cases (has_key "prev" rec)) [
      | inr missing ↦ inr (inl (rw (o, visit_line) (rw missing refl)))
      | inl present ↦ elim (Bool-cases (is_text prev (get_or "prev" rec null))) [
        | inr broken ↦ inl (prev_chain_broken n, rw (o, visit_line) (rw (present, broken) refl))
        | inl named ↦
            elim (Bool-cases (is_text (record_hash sha256 rec) (get_or "hash" rec null))) [
              | inr changed ↦
                  inl (hash_mismatch n, rw (o, visit_line) (rw (present, named, changed) refl))
              | inl hashed ↦ elim (Option-cases (auth_problem hmac mode n rec)) [
                | inr (p, refused) ↦
                    inl (p, rw (o, visit_line) (rw (present, named, hashed, refused) refl))
                | inl passed ↦ inr (
                    inr (
                      rec,
                      record {
                        object = o;
                        has_prev = present;
                        names_prev = named;
                        names_hash = hashed;
                        accepted = passed;
                      },
                    ))
              ]
            ]
      ]
    ]
  ]

  visit_line_gap :
      (n : ℕ) (prev : String) (v : Value)
      → ((p : ChainProblem) × (visit_line sha256 hmac mode n prev true v ≡ stop p))
        ⊎ (visit_line sha256 hmac mode n prev true v ≡ go prev true)
  unfolding visit_line visit_record
  visit_line_gap n prev v = elim (Option-cases (as_object v)) [
    | inl other ↦ inl (line_not_object n, rw (other, visit_line) refl)
    | inr (rec, o) ↦ elim (Bool-cases (has_key "prev" rec)) [
      | inr missing ↦ inr (rw (o, visit_line) (rw missing refl))
      | inl present ↦ inr (rw (o, visit_line) (rw present refl))
    ]
  ]

  -- Behind a record without `prev` no file is accepted.
  not_valid_behind_gap :
      (n : ℕ) (prev : String) (count : ℕ) (lines : List Line)
      → 0 < count
      → (verify_lines sha256 hmac mode n prev count true lines).valid ≢ some true
  unfolding verify_lines end_of_chain
  not_valid_behind_gap n prev count [] some_read = λ h. ground arith
  not_valid_behind_gap n prev count (blank ∷ lines) some_read =
      not_valid_behind_gap (n + 1) prev count lines some_read
  not_valid_behind_gap n prev count (not_json ∷ lines) some_read = λ h. cc
  not_valid_behind_gap n prev count (json v ∷ lines) some_read = elim (visit_line_gap n prev v) [
    | inl (p, e) ↦ rw (e, verify_lines) (λ h. cc)
    | inr e ↦
        rw (e, verify_lines) (not_valid_behind_gap (n + 1) prev (count + 1) lines (omega arith))
  ]

  verify_lines_iff :
      (n : ℕ) (prev : String) (count : ℕ) (lines : List Line)
      → ((verify_lines sha256 hmac mode n prev count false lines).valid ≡ some true)
        ↔ IsLinked n prev lines
  unfolding verify_lines end_of_chain
  verify_lines_iff n prev count [] = (λ h. tt, λ h. ground arith)
  verify_lines_iff n prev count (blank ∷ lines) = verify_lines_iff (n + 1) prev count lines
  verify_lines_iff n prev count (not_json ∷ lines) = (λ h. absurd (cc h), λ h. absurd h)
  verify_lines_iff n prev count (json v ∷ lines) = (
    elim (visit_line-cases n prev v) [
      | inl (p, e) ↦ rw (e, verify_lines) (λ h. absurd (cc h))
      | inr (inl e) ↦
          rw (e, verify_lines)
            (λ h. absurd (not_valid_behind_gap (n + 1) prev (count + 1) lines (omega arith) h))
      | inr (inr (rec, f)) ↦
          rw (visit_line-Follows n prev v rec f, verify_lines)
            (λ h.
              (rec, f, (verify_lines_iff (n + 1) (record_hash sha256 rec) (count + 1) lines).0 h))
    ],
    λ (rec, f, rest).
        rw (visit_line-Follows n prev v rec f, verify_lines)
          ((verify_lines_iff (n + 1) (record_hash sha256 rec) (count + 1) lines).1 rest),
  )

  -- A file is accepted exactly where it can be read and its lines are blank or records, each of which
  -- names the hash of the record in front (the first the initial one) and its own hash, and carries the
  -- authentication that the mode asks for.
  pub verify_jsonl_chain_iff :
      (initial_prev : String) (lines : List Line)
      → ((verify_jsonl_chain sha256 hmac mode initial_prev (some lines)).valid ≡ some true)
        ↔ IsLinked 1 initial_prev lines
  unfolding verify_jsonl_chain
  verify_jsonl_chain_iff initial_prev lines = verify_lines_iff 1 initial_prev 0 lines

  -- The hash of the last record, if there is one.
  abbrev pub end_hash : String → List Line → String
  end_hash prev [] = prev
  end_hash prev (json v ∷ lines) = elim (as_object v) [
    | none ↦ prev
    | some rec ↦ end_hash (record_hash sha256 rec) lines
  ]
  end_hash prev (_ ∷ lines) = end_hash prev lines

  end_hash-json :
      (prev : String) (v : Value) (rec : Fields) (lines : List Line)
      → as_object v ≡ some rec
      → end_hash prev (json v ∷ lines) ≡ end_hash (record_hash sha256 rec) lines
  end_hash-json prev v rec lines e = rw (e, end_hash) refl

  auth_problem_lines :
      (n m : ℕ) (rec : Fields)
      → auth_problem hmac mode n rec ≡ none
      → auth_problem hmac mode m rec ≡ none
  unfolding auth_problem
  auth_problem_lines n m rec h = ground arith

  Follows-lines :
      (n m : ℕ) (prev : String) (v : Value) (rec : Fields)
      → Follows n prev v rec
      → Follows m prev v rec
  Follows-lines n m prev v rec f = record {
    object = f.object;
    has_prev = f.has_prev;
    names_prev = f.names_prev;
    names_hash = f.names_hash;
    accepted = auth_problem_lines n m rec f.accepted;
  }

  IsLinked-lines :
      (n m : ℕ) (prev : String) (lines : List Line) → IsLinked n prev lines → IsLinked m prev lines
  IsLinked-lines n m prev [] h = tt
  IsLinked-lines n m prev (blank ∷ lines) h = IsLinked-lines (n + 1) (m + 1) prev lines h
  IsLinked-lines n m prev (not_json ∷ lines) h = h
  IsLinked-lines n m prev (json v ∷ lines) (rec, f, rest) = (
    rec,
    Follows-lines n m prev v rec f,
    IsLinked-lines (n + 1) (m + 1) (record_hash sha256 rec) lines rest,
  )

  IsLinked-append :
      (n : ℕ) (prev : String) (front back : List Line)
      → IsLinked n prev (front ++ back)
        ↔ (IsLinked n prev front × IsLinked 1 (end_hash prev front) back)
  IsLinked-append n prev [] back =
      (λ h. (tt, IsLinked-lines n 1 prev back h), λ h. IsLinked-lines 1 n prev back h.1)
  IsLinked-append n prev (blank ∷ front) back = IsLinked-append (n + 1) prev front back
  IsLinked-append n prev (not_json ∷ front) back = (λ h. absurd h, λ h. absurd h.0)
  IsLinked-append n prev (json v ∷ front) back = (
    λ (rec, f, rest).
        let both = (IsLinked-append (n + 1) (record_hash sha256 rec) front back).0 rest in
        rw (end_hash-json prev v rec front f.object) ((rec, f, both.0), both.1),
    λ ((rec, f, rest), behind). (
      rec,
      f,
      (IsLinked-append (n + 1) (record_hash sha256 rec) front back).1
          (rest, rw (end_hash-json prev v rec front f.object) at behind),
    ),
  )

  -- Two files that are accepted, the second from the last hash of the first on, are accepted as one file,
  -- and a file that is accepted is so cut in two anywhere.
  pub verify_jsonl_chain-append :
      (initial_prev : String) (front back : List Line)
      → ((verify_jsonl_chain sha256 hmac mode initial_prev (some (front ++ back))).valid
          ≡ some true)
        ↔ (((verify_jsonl_chain sha256 hmac mode initial_prev (some front)).valid ≡ some true)
            × ((verify_jsonl_chain sha256 hmac mode (end_hash initial_prev front) (some back)).valid
                ≡ some true))
  verify_jsonl_chain-append initial_prev front back =
      let whole = verify_jsonl_chain_iff initial_prev (front ++ back) in
      let first = verify_jsonl_chain_iff initial_prev front in
      let second = verify_jsonl_chain_iff (end_hash initial_prev front) back in
      let split = IsLinked-append 1 initial_prev front back in
      (
        λ h. let both = split.0 (whole.0 h) in (first.1 both.0, second.1 both.1),
        λ h. whole.1 (split.1 (first.0 h.0, second.0 h.1)),
      )
