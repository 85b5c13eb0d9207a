-- ===== src/Coverage/Requirements.antt =====
-- supervisor/coverage.py: `_requirements`. An id is the list of the code points of its stripped text, and a
-- message is a constructor.
use plan_auditor.Base.{
  ℕ, suc, ◌+◌, Bool, true, false, not, ◌&&◌, Option, none, some, List, [], ◌∷◌, ◌++◌, map, nat_eq,
  list_eq, ◌==◌, if◌then◌else◌, ltb, leb, is_empty, mem,
}
use plan_auditor.Json.{
  Value, null, str, pos, Fields, get_or, as_object, as_list, as_text, codes, is_space, decimal,
}

abbrev pub RequirementId : Type 0
RequirementId = List ℕ

unfoldable pub strip_left : List ℕ → List ℕ
unfolding is_space
strip_left [] = []
strip_left (c ∷ cs) = let rest = strip_left cs in if is_space c then rest else c ∷ cs

unfoldable pub strip_right : List ℕ → List ℕ
unfolding is_space
strip_right [] = []
strip_right (c ∷ cs) =
    let rest = strip_right cs in if is_empty rest && is_space c then [] else c ∷ rest

-- The stripped text, where the value is a text that is not blank.
unfoldable pub as_id : Value → Option RequirementId
unfolding strip_left strip_right codes as_text
as_id v = elim (as_text v) [
  | none ↦ none
  | some text ↦
      let stripped = strip_right (strip_left (codes text)) in
      if is_empty stripped then none else some stripped
]

pub data Priority : Type 0 where
  must should may : Priority

abbrev pub lower_code : ℕ → ℕ
lower_code c = if leb 65 c && leb c 90 then c + 32 else c

-- `str(v).lower()`, where it is one of the three. No other letter is lowered to one of theirs.
unfoldable pub read_priority : Value → Option Priority
unfolding as_text codes
read_priority v = elim (as_text v) [
  | none ↦ none
  | some text ↦
      let lowered = map lower_code (codes text) in
      if lowered == codes "must"
      then some must
      else if lowered == codes "should"
      then some should
      else if lowered == codes "may"
      then some may
      else none
]

pub data CoverageError : Type 0 where
  no_requirements : CoverageError
  not_requirement requirement_without_id : ℕ → CoverageError
  duplicate_requirement requirement_without_description : RequirementId → CoverageError
  priority_invalid : RequirementId → Value → CoverageError
  step_id_invalid : Value → CoverageError
  covers_not_list invalid_cover : ℕ → CoverageError
  repeated_cover unknown_cover : ℕ → RequirementId → CoverageError
  not_covered : List RequirementId → CoverageError

-- A requirement that is kept; its priority is `none` where it is invalid.
pub record Requirement : Type 0 where
  pub id : RequirementId
  pub priority : Option Priority

pub record Collected : Type 0 where
  pub result : List Requirement
  pub errors : List CoverageError

-- `f"REQ-{index:03d}"`
unfoldable pub numbered_id : ℕ → RequirementId
unfolding decimal codes
numbered_id index =
    let ds = decimal (pos index) in
    codes "REQ-" ++ (if ltb index 10 then 48 ∷ 48 ∷ ds else if ltb index 100 then 48 ∷ ds else ds)

abbrev pub failure_if : Bool → CoverageError → List CoverageError
failure_if true e = e ∷ []
failure_if false e = []

unfoldable pub enter_requirement : RequirementId → Bool → Value → Collected → Collected
unfolding mem
enter_requirement id described priority found =
    if mem id (map (λ (r : Requirement). r.id) found.result)
    then record { result = found.result; errors = found.errors ++ duplicate_requirement id ∷ [] }
    else let read = read_priority priority in
      record {
        result = found.result ++ record { id = id; priority = read } ∷ [];
        errors =
            found.errors
            ++ failure_if (not described) (requirement_without_description id)
            ++ elim read [ none ↦ priority_invalid id priority ∷ [] | some p ↦ [] ];
      }

abbrev pub is_described : Value → Bool
is_described v = elim (as_id v) [ none ↦ false | some text ↦ true ]

unfoldable pub read_requirement : ℕ → Value → Collected → Collected
unfolding enter_requirement as_id numbered_id as_object get_or
read_requirement index (str text) found =
    enter_requirement (numbered_id index) (is_described (str text)) (str "must") found
read_requirement index item found = elim (as_object item) [
  | none ↦ record { result = found.result; errors = found.errors ++ not_requirement index ∷ [] }
  | some fields ↦ elim (as_id (get_or "id" fields null)) [
    | none ↦ record {
      result = found.result;
      errors = found.errors ++ requirement_without_id index ∷ [];
    }
    | some id ↦
        enter_requirement id (is_described (get_or "description" fields null))
          (get_or "priority" fields (str "must")) found
  ]
]

unfoldable pub read_requirements : ℕ → List Value → Collected → Collected
unfolding read_requirement
read_requirements index [] found = found
read_requirements index (item ∷ rest) found =
    read_requirements (suc index) rest (read_requirement index item found)

-- `_requirements`
unfoldable pub requirements_of : Fields → Collected
unfolding read_requirements as_list get_or
requirements_of plan = elim (as_list (get_or "requirements" plan null)) [
  | none ↦ record { result = []; errors = no_requirements ∷ [] }
  | some raw ↦
      if is_empty raw
      then record { result = []; errors = no_requirements ∷ [] }
      else read_requirements 1 raw (record { result = []; errors = [] })
]

abbrev pub is_required : Requirement → Bool
is_required r = elim r.priority [
  | none ↦ false
  | some must ↦ true
  | some should ↦ true
  | some may ↦ false
]
