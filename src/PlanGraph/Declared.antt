-- ===== src/PlanGraph/Declared.antt =====
-- scripts/plan_graph.py: the contracts that `output_index` returns stand under their names, and are
-- documents where the step is one.
use plan_auditor.Base.{
  String, not, some, List, [], ◌∷◌, ◌≡◌, ap, inl, inr, subst, string_eq, ◌==◌, beq→eq, Bool-cases,
  Option-cases, All, mem, Dict, keys, put, lookup, Result, ok, ◌>>◌, raise_if, >>=-eq-ok, >>-eq-ok,
  Eq,
}
use mathlib.Core.Option.{some-injective}
use plan_auditor.Json.{
  Value, null, bool, int, float, str, arr, obj, nil, Fields, get_or, as_object, as_list, as_text,
  is_blank, IsDocument, IsDict, get_or-IsDocument, as_object-IsDict, as_list-IsDocument,
}
use plan_auditor.PlanGraph.Steps.{GraphError, duplicate_output, output_without_checks}
use plan_auditor.PlanGraph.Outputs.{
  as_name, has_checks, list_field, index_output, index_outputs, output_index,
}

-- A dict whose entries all have a property keeps it where an entry with the property is put.
pub All-put :
    {K V : Type 0} ⦃e : Eq K⦄ (P : K × V → Type 0) (k : K) (v : V) (d : Dict K V)
    → P (k, v)
    → All P d
    → All P (put k v d)
unfolding put
All-put P k v [] p h = (p, tt)
All-put P k v ((j, w) ∷ d) p (here, later) = elim (Bool-cases (k == j)) [
  | inl same ↦ rw same (subst (λ i. P (i, v)) (beq→eq k j same) p, later)
  | inr other ↦ rw other (here, All-put P k v d p later)
]

pub All-lookup :
    {K V : Type 0} ⦃e : Eq K⦄ (P : V → Type 0) (k : K) (v : V) (d : Dict K V)
    → All (λ e. P e.1) d
    → lookup k d ≡ some v
    → P v
unfolding lookup
All-lookup P k v [] h found = cc
All-lookup P k v ((j, w) ∷ d) (here, later) found = elim (Bool-cases (k == j)) [
  | inl same ↦ subst P (some-injective _ _ (rw same at found)) here
  | inr other ↦ All-lookup P k v d later (rw other at found)
]

as_text-eq : (v : Value) (s : String) → as_text v ≡ some s → v ≡ str s
unfolding as_text
as_text-eq (str t) s h = let e : t ≡ s = cc in ap str e
as_text-eq (arr xs) s h = cc
as_text-eq (obj fs) s h = cc
as_text-eq null s h = cc
as_text-eq (bool b) s h = cc
as_text-eq (int n) s h = cc
as_text-eq (float n r) s h = cc

as_name-eq : (v : Value) (s : String) → as_name v ≡ some s → v ≡ str s
unfolding as_name
as_name-eq v s h = elim (Option-cases (as_text v)) [
  | inl other ↦ absurd (cc (rw (other, as_name) at h))
  | inr (t, e) ↦ elim (Bool-cases (is_blank t)) [
    | inl empty ↦ absurd (cc (rw (e, empty, as_name) at h))
    | inr full ↦
        let same : t ≡ s = some-injective _ _ (rw (e, full, as_name) at h) in
        as_text-eq v s (rw (← same) e)
  ]
]

-- The name of a contract, and that it is a document.
abbrev pub IsDeclared : String × Fields → Type 0
IsDeclared e = (get_or "name" e.1 null ≡ str e.0) × IsDict e.1

index_output-IsDeclared :
    (sid : Value) (result made : Dict String Fields) (item : Value)
    → IsDocument item
    → All IsDeclared result
    → index_output sid result item ≡ ok made
    → All IsDeclared made
unfolding index_output
index_output-IsDeclared sid result made item d all h = elim (Option-cases (as_object item)) [
  | inl other ↦ absurd (cc (rw (other, index_output) at h))
  | inr (output, e) ↦ elim (Option-cases (as_name (get_or "name" output null))) [
    | inl bad ↦ absurd (cc (rw (e, bad, index_output) at h))
    | inr (name, named) ↦
        let run : (raise_if (mem name (keys result)) (duplicate_output sid name)
              >> (raise_if (not (has_checks (get_or "verify" output null)))
                    (output_without_checks sid name)
                  >> ok (put name output result)))
            ≡ ok made =
          rw (e, named, index_output) at h in
        let once = raise_if (mem name (keys result)) (duplicate_output sid name) in
        let checked =
          raise_if (not (has_checks (get_or "verify" output null)))
            (output_without_checks sid name) in
        let done : Result GraphError (Dict String Fields) = ok (put name output result) in
        let rest = >>-eq-ok once (checked >> done) run in
        let last = >>-eq-ok checked done rest.1 in
        let added = last.1 in
        let same : put name output result ≡ made = cc in
        rw (← same) (
          All-put IsDeclared name output result
            (as_name-eq _ name named, as_object-IsDict item output d e) all)
  ]
]

index_outputs-IsDeclared :
    (sid : Value) (result made : Dict String Fields) (raw : List Value)
    → All IsDocument raw
    → All IsDeclared result
    → index_outputs sid result raw ≡ ok made
    → All IsDeclared made
unfolding index_outputs
index_outputs-IsDeclared sid result made [] d all h =
    let same : result ≡ made = cc in rw (← same) all
index_outputs-IsDeclared sid result made (item ∷ raw) (d, ds) all h =
    let (mid, first, rest) =
      >>=-eq-ok (index_output sid result item) (λ r. index_outputs sid r raw) h in
    index_outputs-IsDeclared sid mid made raw ds
      (index_output-IsDeclared sid result mid item d all first) rest

list_field-IsDocument :
    (k : String) (step : Fields) (raw : List Value)
    → IsDict step
    → list_field k step ≡ some raw
    → All IsDocument raw
unfolding list_field
list_field-IsDocument k step raw d h =
    listed (get_or k step (arr nil)) (get_or-IsDocument k step (arr nil) d nil_doc) h
  where
    nil_doc : IsDocument (arr nil)
    nil_doc = unfold IsDocument in tt

    listed :
        (v : Value)
        → IsDocument v
        → (elim v [ null ↦ some [] | w ↦ as_list w ]) ≡ some raw
        → All IsDocument raw
    listed null dv e = let same : [] ≡ raw = some-injective _ _ e in rw (← same) tt
    listed (arr xs) dv e = as_list-IsDocument (arr xs) raw dv e
    listed (obj fs) dv e = as_list-IsDocument (obj fs) raw dv e
    listed (str s) dv e = as_list-IsDocument (str s) raw dv e
    listed (bool b) dv e = as_list-IsDocument (bool b) raw dv e
    listed (int n) dv e = as_list-IsDocument (int n) raw dv e
    listed (float n r) dv e = as_list-IsDocument (float n r) raw dv e

pub output_index-IsDeclared :
    (step : Fields) (outputs : Dict String Fields)
    → IsDict step
    → output_index step ≡ ok outputs
    → All IsDeclared outputs
unfolding output_index
output_index-IsDeclared step outputs d h = elim (Option-cases (list_field "outputs" step)) [
  | inl bad ↦ absurd (cc (rw (bad, output_index) at h))
  | inr (raw, e) ↦
      index_outputs-IsDeclared (get_or "id" step null) [] outputs raw
        (list_field-IsDocument "outputs" step raw d e) tt (rw (e, output_index) at h)
]
