-- ===== src/Integrity/Domains.antt =====
-- scripts/integrity.py: the domain is told apart from the payload in the bytes that are authenticated.
use plan_auditor.Base.{
  ℕ, String, true, false, not, ◌&&◌, ◌||◌, List, [], ◌∷◌, ◌++◌, ◌≡◌, refl, nat_eq, list_eq,
  string_eq, ◌==◌, beq_refl, beq→eq, mem, all, and-true, all-mem, arith, subst,
}
use plan_auditor.Json.{Value, utf8, codes}
use plan_auditor.Integrity.{bytes_of, signed_bytes, canonical_json}

-- The domains of the program.
abbrev pub domains : List String
domains =
    "plan-auditor:evidence-record:v1" ∷ "plan-auditor:evidence-head:v1"
    ∷ "plan-auditor:supervisor-assessment:v1" ∷ "plan-auditor:registry-record:v1"
    ∷ "plan-auditor:registry-head:v1" ∷ "plan-auditor:plan-seal:v1"
    ∷ "plan-auditor:integrity-marker:v1" ∷ "plan-auditor:request-contract:v1"
    ∷ "plan-auditor:request-activation:v1" ∷ []

-- A NUL ends the first of two parts that hold none.
split_at_nul :
    (xs ys a b : List ℕ)
    → mem 0 xs ≡ false
    → mem 0 ys ≡ false
    → xs ++ 0 ∷ a ≡ ys ++ 0 ∷ b
    → (xs ≡ ys) × (a ≡ b)
unfolding mem
split_at_nul [] [] a b f g h = (refl, cc)
split_at_nul [] (y ∷ ys) a b f g h = absurd (cc (g, h, beq_refl y))
split_at_nul (x ∷ xs) [] a b f g h = absurd (cc (f, h, beq_refl x))
split_at_nul (x ∷ xs) (y ∷ ys) a b f g h =
    let first : x ≡ y = cc h in
    let rest : xs ++ 0 ∷ a ≡ ys ++ 0 ∷ b = cc h in
    let (same, payload) = split_at_nul xs ys a b (ground (arith, f)) (ground (arith, g)) rest in
    (cc (first, same), payload)

-- Every domain is told from the others by its bytes, and has no NUL.
domains_table :
    all
      (λ d.
        not (mem 0 (bytes_of d)) && all (λ d'. not (bytes_of d == bytes_of d') || d == d') domains)
      domains
    ≡ true
unfolding bytes_of mem utf8 codes
domains_table = refl

table_row :
    (d : String)
    → mem d domains ≡ true
    → (mem 0 (bytes_of d) ≡ false)
      × (all (λ d'. not (bytes_of d == bytes_of d') || d == d') domains ≡ true)
table_row d m =
    let row =
      all-mem
        (λ d.
          not (mem 0 (bytes_of d))
          && all (λ d'. not (bytes_of d == bytes_of d') || d == d') domains)
        domains d domains_table m in
    let (nul_free, apart) = and-true (not (mem 0 (bytes_of d))) _ row in
    (ground (arith, nul_free), apart)

-- The bytes that are authenticated for two of the program's domains are the same only where the domain is
-- the same and so are the bytes of the canonical payloads.
pub signed_bytes_injective :
    (d d' : String) (p p' : Value)
    → mem d domains ≡ true
    → mem d' domains ≡ true
    → signed_bytes d p ≡ signed_bytes d' p'
    → (d ≡ d') × (utf8 (canonical_json p) ≡ utf8 (canonical_json p'))
unfolding signed_bytes
signed_bytes_injective d d' p p' m m' h =
    let (nul_free, apart) = table_row d m in
    let (nul_free', _) = table_row d' m' in
    let (same, payload) =
      split_at_nul (bytes_of d) (bytes_of d') (utf8 (canonical_json p)) (utf8 (canonical_json p'))
        nul_free nul_free' h in
    let equal = subst (λ bs. (bytes_of d == bs) ≡ true) same (beq_refl (bytes_of d)) in
    (
      beq→eq d d' (
          ground (
            arith,
            all-mem (λ e. not (bytes_of d == bytes_of e) || d == e) domains d' apart m',
            equal,
          )),
      payload,
    )
