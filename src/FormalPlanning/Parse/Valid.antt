-- ===== src/FormalPlanning/Parse/Valid.antt =====
-- supervisor/formal_planning.py: what `_fact_list` has checked when it finds no error.
use plan_auditor.Base.{
  ℕ, ◌+◌, ◌≤◌, String, Bool, true, false, not, ◌&&◌, ◌||◌, some, List, [], ◌∷◌, ◌++◌, ◌≡◌, inl, inr,
  refl, sym, ap, ◌∙◌, map, string_eq, nodup, All, length, is_empty, ltb, Bool-cases, Option-cases,
  arith,
}
use mathlib.Core.Option.{some-injective}
use plan_auditor.Json.{Value, str, as_list, as_text, is_blank, codes}
use plan_auditor.FormalPlanning.Model.{Facts}
use plan_auditor.FormalPlanning.Parse.FactLists.{
  Label, FormalError, max_facts, read_facts, error_if, fact_items, fact_list,
}

abbrev pub IsFact : String → Type 0
IsFact f = (is_blank f ≡ false) × (length (codes f) ≤ 256)

-- The values of the loop are the texts that the document lists, and each is a fact.
pub record IsListed (raw : List Value) (facts : Facts) : Type 0 where
  pub listed : raw ≡ map str facts
  pub proper : All IsFact facts

as_text-str : (v : Value) (text : String) → as_text v ≡ some text → v ≡ str text
unfolding as_text
as_text-str (str s) text h = ap str (some-injective _ _ h)
as_text-str v text h = absurd (cc h)

read_facts-IsListed :
    (label : Label) (index : ℕ) (raw : List Value)
    → is_empty (read_facts label index raw).1 ≡ true
    → IsListed raw (read_facts label index raw).0
unfolding read_facts
read_facts-IsListed label index [] = λ h. record { listed = refl; proper = tt }
read_facts-IsListed label index (v ∷ raw) = elim (Option-cases (as_text v)) [
  | inl other ↦ rw (other, read_facts) (λ h. absurd (cc h))
  | inr (text, e) ↦ elim (Bool-cases (is_blank text)) [
    | inl blank ↦ rw (e, blank, read_facts) (λ h. absurd (cc h))
    | inr shown ↦ elim (Bool-cases (ltb 256 (length (codes text)))) [
      | inl long ↦ rw (e, shown, long, read_facts) (λ h. absurd (cc h))
      | inr short ↦
          rw (e, shown, short, read_facts)
            (λ h.
              let rest = read_facts-IsListed label (index + 1) raw h in
              record {
                listed =
                    ap (λ w. w ∷ raw) (as_text-str v text e) ∙ ap (λ l. str text ∷ l) rest.listed;
                proper = ((shown, ground (arith, short)), rest.proper);
              })
    ]
  ]
]

is_empty-map : (facts : Facts) → is_empty (map str facts) ≡ is_empty facts
is_empty-map [] = refl
is_empty-map (f ∷ facts) = refl

empty_parts :
    (many : Bool) (read : List FormalError) (twice : Bool) (e1 e2 : FormalError)
    → is_empty (error_if many e1 ++ read ++ error_if twice e2) ≡ true
    → (many ≡ false) × (is_empty read ≡ true) × (twice ≡ false)
empty_parts true read twice e1 e2 h = absurd (cc h)
empty_parts false [] true e1 e2 h = absurd (cc h)
empty_parts false [] false e1 e2 h = (refl, refl, refl)
empty_parts false (x ∷ read) twice e1 e2 h = absurd (cc h)

-- What `_fact_list` has checked of a value: it is a list of at most 4096 facts, each given once.
pub record IsFactList (raw : Value) (facts : Facts) : Type 0 where
  pub values : List Value
  pub is_list : as_list raw ≡ some values
  pub facts_listed : IsListed values facts
  pub once : nodup facts ≡ true
  pub few : length values ≤ max_facts

fact_items-IsFactList :
    (raw : Value) (label : Label) (values : List Value)
    → as_list raw ≡ some values
    → is_empty (fact_items label values).1 ≡ true
    → IsFactList raw (fact_items label values).0
unfolding fact_items
fact_items-IsFactList raw label values e h =
    let (few, read, once) =
      empty_parts (ltb max_facts (length values)) (read_facts label 1 values).1
        (not (nodup (read_facts label 1 values).0)) _ _ h in
    record {
      values = values;
      is_list = e;
      facts_listed = read_facts-IsListed label 1 values read;
      once = ground (arith, once);
      few = ground (arith, few);
    }

-- Where `_fact_list` returns no error the value is a list of at most 4096 texts and the facts are
-- exactly these texts, in order, none twice, none blank and none longer than 256 characters; where
-- an empty list is not allowed there is a fact.
pub fact_list-IsFactList :
    (raw : Value) (label : Label) (allow_empty : Bool)
    → is_empty (fact_list raw label allow_empty).1 ≡ true
    → IsFactList raw (fact_list raw label allow_empty).0
      × ((allow_empty || not (is_empty (fact_list raw label allow_empty).0)) ≡ true)
unfolding fact_list
fact_list-IsFactList raw label allow_empty = elim (Option-cases (as_list raw)) [
  | inl other ↦ rw (other, fact_list) (λ h. absurd (cc h))
  | inr (values, e) ↦ elim (Bool-cases (not allow_empty && is_empty values)) [
    | inl bare ↦ rw (e, bare, fact_list) (λ h. absurd (cc h))
    | inr fine ↦
        rw (e, fine, fact_list)
          (λ h.
            let result = fact_items-IsFactList raw label values e h in
            let same : is_empty values ≡ is_empty (fact_items label values).0 =
              ap is_empty (some-injective _ _ (sym e ∙ result.is_list))
              ∙ ap is_empty result.facts_listed.listed
              ∙ is_empty-map (fact_items label values).0 in
            (result, ground (arith, fine, same)))
  ]
]
