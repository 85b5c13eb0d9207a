-- ===== src/Evidence/Heads.antt =====
-- supervisor/evidence.py: what a head checkpoint binds.
use plan_auditor.Base.{
  ℕ, String, Bool, true, false, not, ◌&&◌, Option, none, some, List, ◌≡◌, ◌↔◌, refl, sym, ap, ◌∙◌,
  nat_eq, string_eq, ◌==◌, beq_refl, beq→eq, if◌then◌else◌, arith,
}
use plan_auditor.Json.{
  null, str, obj, field_names, get, as_object, without, py_eq, get_or-set_field_self,
  without-set_field,
}
use plan_auditor.Integrity.{KeyMaterial, make_auth}
use plan_auditor.Integrity.Authentic.{verify_auth-make_auth}
use plan_auditor.Evidence.Chain.{File, record_count, tail_hash}
use plan_auditor.Evidence.Signing.{
  head_domain, text_or_null, last_tail, tail_or_genesis, head_payload, head_mismatch,
  write_evidence_head, verify_evidence_head,
}

py_eq-text_or_null :
    (s t : Option String)
    → (py_eq (text_or_null s) (text_or_null t) ≡ true) ↔ (text_or_null s ≡ text_or_null t)
unfolding py_eq text_or_null
py_eq-text_or_null none none = (λ h. refl, λ h. refl)
py_eq-text_or_null none (some t) = (λ h. cc, λ h. cc)
py_eq-text_or_null (some s) none = (λ h. cc, λ h. cc)
py_eq-text_or_null (some s) (some t) =
    (λ h. ap str (beq→eq s t h), λ h. let same : s ≡ t = cc h in rw same (beq_refl t))

last_tail-text : (f : Option File) → (t : Option String) × (last_tail f ≡ text_or_null t)
unfolding last_tail text_or_null
last_tail-text none = (none, refl)
last_tail-text (some f) = (tail_hash f, refl)

py_eq-last_tail :
    (f g : Option File) → (py_eq (last_tail f) (last_tail g) ≡ true) ↔ (last_tail f ≡ last_tail g)
py_eq-last_tail f g =
    let (s, e) = last_tail-text f in
    let (t, d) = last_tail-text g in rw (e, d) (py_eq-text_or_null s t)

-- Two evidence states that a head does not tell apart.
pub record SameHead (active other : File) (last other_last : Option File) : Type 0 where
  pub counts : record_count active ≡ record_count other
  pub tails : tail_or_genesis (tail_hash active) ≡ tail_or_genesis (tail_hash other)
  pub archives : last_tail last ≡ last_tail other_last

payload_test :
    (key : KeyMaterial) (active other : File) (last other_last : Option File)
    → py_eq (obj (head_payload key active last)) (obj (head_payload key other other_last)) ≡ (
        key.key_id == key.key_id
        && (record_count active == record_count other
            && (tail_or_genesis (tail_hash active) == tail_or_genesis (tail_hash other)
                && (py_eq (last_tail last) (last_tail other_last) && true))))
unfolding py_eq head_payload get field_names
payload_test key active other last other_last = refl

four_tests :
    (a b c d : Bool)
    → a ≡ true
    → ((a && (b && (c && (d && true)))) ≡ true) ↔ ((b ≡ true) × (c ≡ true) × (d ≡ true))
four_tests a b c d h = ground arith

payload_same :
    (key : KeyMaterial) (active other : File) (last other_last : Option File)
    → (py_eq (obj (head_payload key active last)) (obj (head_payload key other other_last)) ≡ true)
      ↔ SameHead active other last other_last
payload_same key active other last other_last =
    let tests =
      four_tests (key.key_id == key.key_id) (record_count active == record_count other)
        (tail_or_genesis (tail_hash active) == tail_or_genesis (tail_hash other))
        (py_eq (last_tail last) (last_tail other_last)) (beq_refl key.key_id) in
    let archive = py_eq-last_tail last other_last in
    let run = payload_test key active other last other_last in
    (
      λ h.
          let (counts, tails, archives) = tests.0 (sym run ∙ h) in
          record {
            counts = beq→eq (record_count active) (record_count other) counts;
            tails =
                beq→eq (tail_or_genesis (tail_hash active)) (tail_or_genesis (tail_hash other))
                  tails;
            archives = archive.0 archives;
          },
      λ same.
          run
          ∙ tests.1 (
            rw same.counts (beq_refl (record_count other)),
            rw same.tails (beq_refl (tail_or_genesis (tail_hash other))),
            archive.1 same.archives,
          ),
    )

without-head_payload :
    (key : KeyMaterial) (active : File) (last : Option File)
    → without "auth" (head_payload key active last) ≡ head_payload key active last
unfolding without head_payload
without-head_payload key active last = refl

mismatch_iff : (b : Bool) → ((if not b then some head_mismatch else none) ≡ none) ↔ (b ≡ true)
mismatch_iff true = (λ h. refl, λ h. refl)
mismatch_iff false = (λ h. cc, λ h. cc)

module _ (hmac : List ℕ → List ℕ → String) where
  written_judged :
      (key : KeyMaterial) (active other : File) (last other_last : Option File)
      → verify_evidence_head hmac
          (some (write_evidence_head hmac key active last))
          key
          other
          other_last
        ≡ (if not
              (py_eq (obj (head_payload key active last)) (obj (head_payload key other other_last)))
            then some head_mismatch
            else none)
  unfolding verify_evidence_head write_evidence_head as_object
  written_judged key active other last other_last =
      let payload = head_payload key active last in
      let auth = obj (make_auth hmac key head_domain (obj payload)) in
      rw
        (
          without-set_field "auth" auth payload,
          without-head_payload key active last,
          get_or-set_field_self "auth" auth null payload,
          verify_auth-make_auth hmac key head_domain (obj payload),
        )
        refl

  -- The head that was written for one state of the evidence is accepted for another exactly where the number
  -- of records, the last hash of the active file and that of the last archive are the same.
  pub verify_evidence_head_iff :
      (key : KeyMaterial) (active other : File) (last other_last : Option File)
      → (verify_evidence_head hmac
            (some (write_evidence_head hmac key active last))
            key
            other
            other_last
          ≡ none)
        ↔ SameHead active other last other_last
  verify_evidence_head_iff key active other last other_last =
      let test =
        py_eq (obj (head_payload key active last)) (obj (head_payload key other other_last)) in
      let same = payload_same key active other last other_last in
      let run = written_judged key active other last other_last in
      (
        λ h. same.0 ((mismatch_iff test).0 (sym run ∙ h)),
        λ h. run ∙ (mismatch_iff test).1 (same.1 h),
      )
