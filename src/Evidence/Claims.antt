-- ===== src/Evidence/Claims.antt =====
-- How the loops of conflictingPrimary (internal/observer/primary_evidence.go) treat the claim of
-- one Pod name.
use cnpg_connect_plugin.Prelude.{
  ◌≡◌, refl, ap, ◌∙◌, inl, inr, String, string_eq, Bool, true, false, ◌&&◌, ◌||◌, not, some, List,
  [], ◌∷◌, arith, if◌then◌else◌, string_beq, string_beq_iff, contains, filter_by, is_some,
  Bool-cases,
}
use cnpg_connect_plugin.Prelude.Map.{Map, lookup, insert, delete, lookup-insert, lookup-delete}
use cnpg_connect_plugin.Kube.{Pod}
use cnpg_connect_plugin.Status.{StatusResult}
use cnpg_connect_plugin.Evidence.{
  differs, drop_replaced, weigh_claim, weigh_claims, clear_expected, unresolved,
}

-- Whether a probe tells the role of the Pod with this name.
abbrev pub is_verdict : String → Pod × StatusResult → Bool
is_verdict n pr = string_beq pr.0.name n && (not pr.1.failed && is_some pr.1.status.is_primary)

abbrev pub verdicts : String → List (Pod × StatusResult) → List (Pod × StatusResult)
verdicts n = filter_by (is_verdict n)

-- Every Pod of the list with this name has this UID.
abbrev pub same_uid : String → String → List Pod → Bool
same_uid n uid [] = true
same_uid n uid (p ∷ ps) = (not (string_beq p.name n) || string_beq p.uid uid) && same_uid n uid ps

module _ (n uid : String) where
  insert_agrees :
      (p : Pod) (uids : Map String String)
      → (not (string_beq p.name n) || string_beq p.uid uid) ≡ true
      → differs uids n uid ≡ false
      → differs (insert p.name p.uid uids) n uid ≡ false
  unfolding differs
  insert_agrees p uids h u = ground (arith, lookup-insert p.name n p.uid uids)

  abbrev keep_members : Pod → Map String String → Map String String
  keep_members p members = if differs members p.name p.uid then delete p.name members else members

  keep_members_same :
      (p : Pod) (members : Map String String)
      → (not (string_beq p.name n) || string_beq p.uid uid) ≡ true
      → differs members n uid ≡ false
      → lookup n (keep_members p members) ≡ lookup n members
  keep_members_same p members h m = elim (Bool-cases (string_beq p.name n)) [
    | inr other ↦ ground (arith, lookup-delete p.name n members)
    | inl same ↦
        let e : p.name ≡ n = (string_beq_iff p.name n).0 same in
        let u : p.uid ≡ uid = (string_beq_iff p.uid uid).0 (ground arith) in
        let d : differs members p.name p.uid ≡ false = rw (e, u) m in ground (arith, d)
  ]

  differs-cong :
      (m m' : Map String String)
      → lookup n m ≡ lookup n m'
      → differs m' n uid ≡ false
      → differs m n uid ≡ false
  unfolding differs
  differs-cong m m' e h = rw (e, differs) h

  pub drop_replaced_agrees :
      (ps : List Pod) (uids members : Map String String)
      → same_uid n uid ps ≡ true
      → differs uids n uid ≡ false
      → differs (drop_replaced ps uids members).0 n uid ≡ false
  unfolding drop_replaced
  drop_replaced_agrees [] uids members h u = u
  drop_replaced_agrees (p ∷ ps) uids members h u =
      drop_replaced_agrees ps (insert p.name p.uid uids) (keep_members p members) (ground arith)
        (insert_agrees p uids (ground arith) u)

  pub drop_replaced_keeps :
      (ps : List Pod) (uids members : Map String String)
      → same_uid n uid ps ≡ true
      → differs uids n uid ≡ false
      → differs members n uid ≡ false
      → (differs (drop_replaced ps uids members).0 n uid ≡ false)
        × (lookup n (drop_replaced ps uids members).1 ≡ lookup n members)
  unfolding drop_replaced
  drop_replaced_keeps [] uids members h u m = (u, refl)
  drop_replaced_keeps (p ∷ ps) uids members h u m =
      let first : (not (string_beq p.name n) || string_beq p.uid uid) ≡ true = ground arith in
      let e = keep_members_same p members first m in
      let r =
        drop_replaced_keeps ps (insert p.name p.uid uids) (keep_members p members) (ground arith)
          (insert_agrees p uids first u) (differs-cong (keep_members p members) members e m) in
      (r.0, r.1 ∙ e)

  weigh_claim_ignores :
      (uids : Map String String) (pr : Pod × StatusResult) (members : Map String String)
      → is_verdict n pr ≡ false
      → lookup n (weigh_claim uids pr members) ≡ lookup n members
  unfolding weigh_claim
  weigh_claim_ignores uids (pod, r) members h =
      ground (arith, lookup-insert pod.name n pod.uid members, lookup-delete pod.name n members)

  pub weigh_claims_ignores :
      (uids : Map String String) (prs : List (Pod × StatusResult)) (members : Map String String)
      → verdicts n prs ≡ []
      → lookup n (weigh_claims uids prs members) ≡ lookup n members
  unfolding weigh_claims
  weigh_claims_ignores uids [] members h = refl
  weigh_claims_ignores uids ((pod, r) ∷ prs) members h =
      weigh_claims_ignores uids prs (weigh_claim uids (pod, r) members) (ground arith)
      ∙ weigh_claim_ignores uids (pod, r) members (ground arith)

  weigh_claim_adds :
      (uids : Map String String) (pr : Pod × StatusResult) (members : Map String String)
      → differs uids n uid ≡ false
      → pr.0.uid ≡ uid
      → pr.1.status.is_primary ≡ some true
      → is_verdict n pr ≡ true
      → lookup n (weigh_claim uids pr members) ≡ some uid
  unfolding weigh_claim
  weigh_claim_adds uids (pod, r) members u f claims v =
      let e : pod.name ≡ n = (string_beq_iff pod.name n).0 (ground arith) in
      let d : differs uids pod.name pod.uid ≡ false = rw (e, f) u in
      ground (arith, d, lookup-insert pod.name n pod.uid members, string_beq_iff n n)

  -- The only verdict on the name is a claim.
  pub weigh_claims_adds :
      (uids : Map String String) (prs : List (Pod × StatusResult)) (members : Map String String)
      (claim : Pod × StatusResult)
      → differs uids n uid ≡ false
      → claim.0.uid ≡ uid
      → claim.1.status.is_primary ≡ some true
      → verdicts n prs ≡ claim ∷ []
      → lookup n (weigh_claims uids prs members) ≡ some uid
  unfolding weigh_claims
  weigh_claims_adds uids [] members claim u f claims h = cc
  weigh_claims_adds uids (pr ∷ prs) members claim u f claims h =
      elim (Bool-cases (is_verdict n pr)) [
        | inr no_verdict ↦
            weigh_claims_adds uids prs (weigh_claim uids pr members) claim u f claims (ground arith)
        | inl verdict ↦
            let t : verdicts n (pr ∷ prs) ≡ pr ∷ verdicts n prs = rw verdict refl in
            let same : pr ≡ claim = cc in
            let rest = weigh_claims_ignores uids prs (weigh_claim uids pr members) cc in
            rest
            ∙ weigh_claim_adds uids pr members u (ap (λ x. x.0.uid) same ∙ f)
                (ap (λ x. x.1.status.is_primary) same ∙ claims) verdict
      ]

  pub clear_expected_keeps :
      (expected : String) (members : Map String String)
      → string_beq n expected ≡ false
      → lookup n members ≡ some uid
      → lookup n (clear_expected expected members) ≡ some uid
  unfolding clear_expected lookup
  clear_expected_keeps expected [] ne h = cc
  clear_expected_keeps expected ((k, v) ∷ []) ne h =
      ground (arith, string_beq_iff k n, string_beq_iff k expected, string_beq_iff n expected)
  clear_expected_keeps expected (x ∷ y ∷ members) ne h = ground arith

  pub unresolved_finds :
      (fenced : List String) (expected : String) (members : Map String String)
      → lookup n members ≡ some uid
      → string_beq n expected ≡ false
      → (contains fenced "*" || contains fenced n) ≡ false
      → unresolved fenced expected members ≡ true
  unfolding unresolved lookup
  unresolved_finds fenced expected [] h ne f = cc
  unresolved_finds fenced expected ((k, v) ∷ members) h ne f = elim (Bool-cases (string_beq k n)) [
    | inl same ↦ ground (arith, string_beq_iff k n)
    | inr other ↦
        let rest = unresolved_finds fenced expected members (ground arith) ne f in
        ground (arith, rest)
  ]
