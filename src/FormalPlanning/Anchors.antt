-- ===== src/FormalPlanning/Anchors.antt =====
-- supervisor/formal_planning.py: `find_formal_anchors`, the checks that carry a contract, and
-- `_anchor_argv_errors`, what such a check may run.
use plan_auditor.Base.{
  ℕ, ◌+◌, ◌-◌, String, Bool, true, false, not, ◌&&◌, Option, none, some, List, [], ◌∷◌, ◌++◌, ◌==◌,
  string_eq, nat_eq, if◌then◌else◌, take,
}
use plan_auditor.Json.{
  Value, null, arr, nil, Fields, get_or, has_key, as_object, as_list, as_text, iterate, objects,
  truthy, is_blank, is_text,
}

abbrev pub formal_key : String
formal_key = "formal_planning"

abbrev pub formal_executable : String
formal_executable = "plan-auditor-formal"

pub data AnchorError : Type 0 where
  anchor_not_run anchor_without_argv anchor_not_canonical : AnchorError
  option_without_value : AnchorError
  unsupported_token : String → AnchorError

-- The loop over `argv[5:]`: which of the two options have been seen, and the tokens that are left.
unfoldable pub option_errors : Bool → Bool → List String → List AnchorError
option_errors seen_fast seen_require [] = []
option_errors seen_fast seen_require (item ∷ []) =
    if item == "--fast-downward" && not seen_fast
    then option_without_value ∷ []
    else if item == "--require-fast-downward" && not seen_require
    then []
    else unsupported_token item ∷ []
option_errors seen_fast seen_require (item ∷ value ∷ rest) =
    let after_value = option_errors true seen_require rest in
    let after_item = option_errors seen_fast true (value ∷ rest) in
    if item == "--fast-downward" && not seen_fast
    then (if is_blank value then option_without_value ∷ [] else after_value)
    else if item == "--require-fast-downward" && not seen_require
    then after_item
    else unsupported_token item ∷ []

-- The texts of a list that holds nothing else.
unfoldable pub all_texts : List Value → Option (List String)
all_texts [] = some []
all_texts (v ∷ vs) =
    let rest = all_texts vs in
    elim (as_text v) [
      | none ↦ none
      | some text ↦ elim rest [ none ↦ none | some texts ↦ some (text ∷ texts) ]
    ]

unfoldable pub same_texts : List String → List String → Bool
same_texts [] [] = true
same_texts (x ∷ xs) (y ∷ ys) = x == y && same_texts xs ys
same_texts _ _ = false

unfoldable pub drop : {A : Type 0} → ℕ → List A → List A
drop n [] = []
drop n (x ∷ xs) = if n == 0 then x ∷ xs else drop (n - 1) xs

abbrev pub canonical_argv : String → List String
canonical_argv digest = formal_executable ∷ "verify" ∷ "." ∷ "--contract-sha" ∷ digest ∷ []

unfoldable pub argv_errors : List String → String → List AnchorError
unfolding option_errors same_texts drop
argv_errors argv digest =
    if not (same_texts (take 5 argv) (canonical_argv digest))
    then anchor_not_canonical ∷ []
    else option_errors false false (drop 5 argv)

unfoldable pub anchor_argv_errors : Fields → String → List AnchorError
unfolding argv_errors is_text all_texts
anchor_argv_errors check digest =
    let argv : Option (List String) = elim (as_list (get_or "argv" check null)) [
      | none ↦ none
      | some values ↦ all_texts values
    ] in
    if not (is_text "run" (get_or "type" check null))
    then anchor_not_run ∷ []
    else elim argv [ none ↦ anchor_without_argv ∷ [] | some tokens ↦ argv_errors tokens digest ]

-- The step's id, as it stands in the plan, and the check.
pub record Anchor : Type 0 where
  pub step : Value
  pub index : ℕ
  pub check : Fields

-- `for x in v or []`
unfoldable pub iterate_or_empty : Value → Option (List Value)
iterate_or_empty v = if truthy v then iterate v else some []

unfoldable pub anchors_of : Value → ℕ → List Value → List Anchor
anchors_of sid index [] = []
anchors_of sid index (v ∷ checks) =
    let rest = anchors_of sid (index + 1) checks in
    elim (as_object v) [
      | none ↦ rest
      | some check ↦
          if has_key formal_key check
          then record { step = sid; index = index; check = check } ∷ rest
          else rest
    ]

-- `none`: a TypeError.
unfoldable pub step_anchors : Fields → Option (List Anchor)
unfolding iterate_or_empty anchors_of
step_anchors step = elim (iterate_or_empty (get_or "verify" step (arr nil))) [
  | none ↦ none
  | some checks ↦ some (anchors_of (get_or "id" step null) 0 checks)
]

unfoldable pub steps_anchors : List Fields → Option (List Anchor)
unfolding step_anchors
steps_anchors [] = some []
steps_anchors (step ∷ steps) =
    let rest = steps_anchors steps in
    elim (step_anchors step) [
      | none ↦ none
      | some here ↦ elim rest [ none ↦ none | some later ↦ some (here ++ later) ]
    ]

unfoldable pub find_formal_anchors : Fields → Option (List Anchor)
unfolding iterate_or_empty steps_anchors
find_formal_anchors plan = elim (iterate_or_empty (get_or "steps" plan (arr nil))) [
  | none ↦ none
  | some values ↦ steps_anchors (objects values)
]
