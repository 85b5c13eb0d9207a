-- ===== src/FormalPlanning/Reads.antt =====
-- The loop of `_parse_contract` over the actions: what holds of the actions when it finds no error.
use plan_auditor.Base.{
  ℕ, ◌+◌, String, Bool, true, false, not, List, [], ◌∷◌, ◌++◌, ◌≡◌, refl, ◌∙◌, ap, map, inl, inr,
  nat_eq, string_eq, mem, mem-keep, mem_of_is_empty, nodup, nodup-snoc, keep, All, All-append,
  is_empty, Bool-cases, Option-cases, arith,
}
use plan_auditor.Json.{Value, null, int_eq, Fields, get_or, as_object, arr, nil}
use plan_auditor.FormalPlanning.Model.{Facts, FormalAction}
use plan_auditor.FormalPlanning.Parse.{
  FormalError, error_if, Read, action_step, read_effects, read_fields, read_action, read_actions,
  fact_list, preconditions_label, add_label, del_label,
}

-- An action does not delete what it adds.
abbrev pub IsConsistent : FormalAction → Type 0
IsConsistent a = (f : String) → mem f a.add_effects ≡ true → mem f a.del_effects ≡ false

-- What the loop over the actions keeps, however many errors it finds.
pub record IsRead (r : Read) : Type 0 where
  pub distinct : nodup r.seen ≡ true
  pub same : map (λ a. a.step_id) r.actions ≡ r.seen
  pub consistent : is_empty r.errors ≡ true → All IsConsistent r.actions

pub error_if-empty : (b : Bool) (e : FormalError) → is_empty (error_if b e) ≡ true → b ≡ false
error_if-empty true e h = cc
error_if-empty false e h = refl

-- Both parts of a list of errors that is empty are.
pub parts_empty :
    (xs ys : List FormalError)
    → is_empty (xs ++ ys) ≡ true
    → is_empty xs ≡ true × is_empty ys ≡ true
parts_empty [] ys h = (refl, h)
parts_empty (x ∷ xs) ys h = (h, absurd (cc h))

not_in_overlap :
    (adds dels : Facts)
    → is_empty (keep (λ f. mem f dels) adds) ≡ true
    → (f : String) → mem f adds ≡ true
    → mem f dels ≡ false
not_in_overlap adds dels h f m =
    ground
      (arith, mem-keep (λ g. mem g dels) f adds, mem_of_is_empty f (keep (λ g. mem g dels) adds) h)

effects_consistent :
    (earlier : List FormalError)
    → (adds dels : Facts) (e : FormalError)
    → is_empty (earlier ++ error_if (not (is_empty (keep (λ f. mem f dels) adds))) e) ≡ true
    → (f : String) → mem f adds ≡ true
    → mem f dels ≡ false
effects_consistent earlier adds dels e h f m =
    let overlap = keep (λ g. mem g dels) adds in
    let (_, at_last) = parts_empty earlier (error_if (not (is_empty overlap)) e) h in
    let none_shared = error_if-empty (not (is_empty overlap)) e at_last in
    not_in_overlap adds dels (ground (arith, none_shared)) f m

read_effects-IsConsistent :
    (index sid : ℕ) (raw : Fields)
    → is_empty (read_effects index sid raw).1 ≡ true
    → IsConsistent (read_effects index sid raw).0
unfolding read_effects
read_effects-IsConsistent index sid raw h f m =
    let pre = fact_list (get_or "preconditions" raw (arr nil)) (preconditions_label index) true in
    let adds = fact_list (get_or "add_effects" raw (arr nil)) (add_label index) true in
    let dels = fact_list (get_or "del_effects" raw (arr nil)) (del_label index) true in
    effects_consistent (pre.1 ++ adds.1 ++ dels.1) adds.0 dels.0 _ h f m

map-snoc :
    (actions : List FormalAction) (a : FormalAction) (seen : List ℕ)
    → map (λ b. b.step_id) actions ≡ seen
    → map (λ b. b.step_id) (actions ++ a ∷ []) ≡ seen ++ a.step_id ∷ []
map-snoc [] a seen h = ap (λ l. l ++ a.step_id ∷ []) h
map-snoc (b ∷ actions) a seen h =
    ap (λ l. b.step_id ∷ l) (map-snoc actions a (map (λ c. c.step_id) actions) refl)
    ∙ ap (λ l. l ++ a.step_id ∷ []) h

-- An error that is appended leaves the actions as they are.
fail-IsRead :
    (r : Read) (errors : List FormalError)
    → IsRead r
    → (is_empty errors ≡ true → is_empty r.errors ≡ true)
    → IsRead (record r { errors = errors })
fail-IsRead r errors inv h = record {
  distinct = inv.distinct;
  same = inv.same;
  consistent = λ e. inv.consistent (h e);
}

read_effects-step_id : (index sid : ℕ) (raw : Fields) → (read_effects index sid raw).0.step_id ≡ sid
unfolding read_effects
read_effects-step_id index sid raw = refl

read_one-IsRead :
    (index sid : ℕ) (raw : Fields) (r : Read) (more : List FormalError)
    → mem sid r.seen ≡ false
    → IsRead r
    → IsRead (record {
      actions = r.actions ++ (read_effects index sid raw).0 ∷ [];
      seen = r.seen ++ sid ∷ [];
      errors = (r.errors ++ more) ++ (read_effects index sid raw).1;
    })
read_one-IsRead index sid raw r more new inv = record {
  distinct = nodup-snoc r.seen sid inv.distinct new;
  same =
      map-snoc r.actions (read_effects index sid raw).0 r.seen inv.same
      ∙ ap (λ n. r.seen ++ n ∷ []) (read_effects-step_id index sid raw);
  consistent = λ h.
      let (before, here) = parts_empty (r.errors ++ more) _ h in
      let (earlier, _) = parts_empty r.errors more before in
      All-append IsConsistent r.actions ((read_effects index sid raw).0 ∷ [])
        (inv.consistent earlier) (read_effects-IsConsistent index sid raw here, tt);
}

earlier_empty :
    (xs more last : List FormalError) → is_empty ((xs ++ more) ++ last) ≡ true → is_empty xs ≡ true
earlier_empty xs more last h = (parts_empty xs more (parts_empty (xs ++ more) last h).0).0

read_fields-IsRead :
    (index : ℕ) (raw : Fields) (r : Read) → IsRead r → IsRead (read_fields index raw r)
unfolding read_fields
read_fields-IsRead index raw r inv = elim (Option-cases (action_step (get_or "step" raw null))) [
  | inl invalid ↦ rw (invalid, read_fields) (fail-IsRead r _ inv (earlier_empty r.errors _ _))
  | inr (sid, valid) ↦ elim (Bool-cases (mem sid r.seen)) [
    | inl seen ↦ rw (valid, seen, read_fields) (fail-IsRead r _ inv (earlier_empty r.errors _ _))
    | inr new ↦ rw (valid, new, read_fields) (read_one-IsRead index sid raw r _ new inv)
  ]
]

read_action-IsRead :
    (index : ℕ) (raw : Value) (r : Read) → IsRead r → IsRead (read_action index raw r)
unfolding read_action
read_action-IsRead index raw r inv = elim (Option-cases (as_object raw)) [
  | inl other ↦ rw (other, read_action) (fail-IsRead r _ inv λ h. (parts_empty r.errors _ h).0)
  | inr (fields, e) ↦ rw (e, read_action) (read_fields-IsRead index fields r inv)
]

pub read_actions-IsRead :
    (index : ℕ) (raws : List Value) (r : Read) → IsRead r → IsRead (read_actions index raws r)
unfolding read_actions
read_actions-IsRead index [] r inv = inv
read_actions-IsRead index (raw ∷ rest) r inv =
    read_actions-IsRead (index + 1) rest (read_action index raw r)
      (read_action-IsRead index raw r inv)
