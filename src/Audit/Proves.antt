-- ===== src/Audit/Proves.antt =====
-- `audit_steps` in full and the proof that is found afterwards: what the call returns and what is read.
use plan_auditor.Base.{
  ℕ, String, false, Option, some, List, [], ◌∷◌, ◌++◌, ◌≡◌, refl, sym, ap, ◌∙◌, inl, inr, arith,
  string_eq, nat_eq, ◌==◌, Bool-cases, Result-cases, keys, is_empty, length, length-map,
  length_le_of_subset, ok, >>=-eq-ok,
}
use mathlib.Core.Option.{some-injective}
use plan_auditor.Json.{Value, null, str, Fields, get_or}
use plan_auditor.PlanGraph.Steps.{Graph, sid_of, step_ids, step_index, effective_dependencies}
use plan_auditor.PlanGraph.Order.{topological_order}
use plan_auditor.PlanGraph.Dependencies.{step_index-keys, effective_dependencies-IsGraph}
use plan_auditor.PlanGraph.Kahn.Decides.{topological_order-decides}
use plan_auditor.PlanGraph.Outputs.{validate_output_links}
use plan_auditor.Integrity.{KeyMaterial}
use plan_auditor.Audit.Counts.{read_graph, index_all}
use plan_auditor.Audit.Chain.{write_record, write_records, written_hash}
use plan_auditor.Audit.Grown.{get_or-write_record}
use plan_auditor.Audit.Visited.{index_all-step_index}
use plan_auditor.Audit.Complete.{IsMarker}

pub read_graph-some :
    (steps : List Fields) (order : List ℕ) (deps : Graph)
    → read_graph steps ≡ some (order, deps)
    → (topological_order steps ≡ ok order) × (effective_dependencies steps ≡ ok deps)
unfolding read_graph
read_graph-some steps order deps h = elim (Result-cases (topological_order steps)) [
  | inr (e, bad) ↦ absurd (cc (rw (read_graph, bad) at h))
  | inl (o, sorted) ↦ elim (Result-cases (effective_dependencies steps)) [
    | inr (e, bad) ↦ absurd (cc (rw (read_graph, sorted, bad) at h))
    | inl (d, read) ↦ elim (Bool-cases (is_empty (validate_output_links steps))) [
      | inr bad ↦ absurd (cc (rw (read_graph, sorted, read, bad) at h))
      | inl linked ↦
          let same : (o, d) ≡ (order, deps) =
            some-injective _ _ (rw (read_graph, sorted, read, linked) at h) in
          (
            sorted ∙ ap (λ (p : List ℕ × Graph). ok p.0) same,
            read ∙ ap (λ (p : List ℕ × Graph). ok p.1) same,
          )
    ]
  ]
]

pub order-length :
    (steps : List Fields) (order : List ℕ) (deps : Graph)
    → topological_order steps ≡ ok order
    → effective_dependencies steps ≡ ok deps
    → (length (index_all steps) ≡ length order) × (length steps ≡ length order)
unfolding effective_dependencies step_ids
order-length steps order deps sorted read =
    let (named, graph) = effective_dependencies-IsGraph steps deps read in
    elim (topological_order-decides steps deps read) [
      | inr (cycle, raised, _) ↦ absurd (cc (sorted, raised))
      | inl (o, found, t) ↦
          let same : o ≡ order = cc (sorted, found) in
          let down = length_le_of_subset o (keys deps) t.once (λ n m. sym (t.all_steps n) ∙ m) in
          let up =
            length_le_of_subset (keys deps) o graph.keys_distinct (λ n m. t.all_steps n ∙ m) in
          let (by_id, indexed, _) = >>=-eq-ok (step_index steps) _ read in
          let (ids, _) = step_index-keys steps by_id indexed in
          let long = length-map (λ (e : ℕ × Fields). e.0) by_id in
          let short : length (keys by_id) ≡ length (step_ids steps) = ap (λ l. length l) ids in
          let whole = length-map sid_of steps in
          let edges : length (keys deps) ≡ length (step_ids steps) = ap (λ l. length l) named in
          let order_long : length o ≡ length order = ap (λ l. length l) same in
          let index_long : length (index_all steps) ≡ length by_id =
            ap (λ l. length l) (index_all-step_index steps by_id indexed) in
          (
            omega (arith, index_long, long, short, edges, order_long, down, up),
            omega (arith, whole, edges, order_long, down, up),
          )
    ]

module _ (sha256 : List ℕ → String) (hmac : List ℕ → List ℕ → String)
    (written_key : Option KeyMaterial) where
  pub write_records-snoc :
      (previous : String) (recs : List Fields) (last : Fields)
      → (previous' : String) × (write_records sha256 hmac written_key previous (recs ++ last ∷ [])
          ≡ write_records sha256 hmac written_key previous recs
            ++ write_record sha256 hmac written_key previous' last ∷ [])
  unfolding write_records
  write_records-snoc previous [] last = (previous, refl)
  write_records-snoc previous (rec ∷ recs) last =
      let (previous', rest) =
        write_records-snoc (written_hash sha256 hmac previous rec) recs last in
      (previous', ap (λ l. write_record sha256 hmac written_key previous rec ∷ l) rest)

  pub IsMarker-write_record :
      (key print previous : String) (plan marker : Fields) (steps : List Fields) (order : List ℕ)
      → IsMarker sha256 key plan steps order print marker
      → IsMarker sha256 key plan steps order print
          (write_record sha256 hmac written_key previous marker)
  IsMarker-write_record key print previous plan marker steps order m = record {
    of_plan = kept "plan" (str "default") refl refl refl ∙ m.of_plan;
    of_mode = kept "mode" null refl refl refl ∙ m.of_mode;
    is_verified = kept "status" null refl refl refl ∙ m.is_verified;
    of_order = kept "topological_order" null refl refl refl ∙ m.of_order;
    of_contract = kept "plan_fingerprint" null refl refl refl ∙ m.of_contract;
    of_workspace = kept "workspace_fingerprint" null refl refl refl ∙ m.of_workspace;
  }
    where
      kept :
          (k : String) (d : Value)
          → (k == "auth") ≡ false
          → (k == "hash") ≡ false
          → (k == "prev") ≡ false
          → get_or k (write_record sha256 hmac written_key previous marker) d ≡ get_or k marker d
      kept k d = get_or-write_record sha256 hmac written_key k previous d marker
