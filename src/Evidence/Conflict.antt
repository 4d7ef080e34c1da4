-- ===== src/Evidence/Conflict.antt =====
-- When conflictingPrimary (internal/observer/primary_evidence.go) reports a conflict.
use cnpg_connect_plugin.Prelude.{
  ◌≡◌, refl, ◌∙◌, String, string_eq, Bool, true, false, ◌||◌, Option, some, List, [], ◌∷◌, arith,
  get_or, string_beq, string_beq_iff, contains, Option-cases, Bool-cases, inl, inr,
}
use cnpg_connect_plugin.Prelude.Map.{Map, lookup, lookup-insert}
use cnpg_connect_plugin.Key.{ClusterKey, key_eq, key_beq_iff}
use cnpg_connect_plugin.Kube.{Pod, Cluster}
use cnpg_connect_plugin.Status.{StatusResult}
use cnpg_connect_plugin.Evidence.{
  PrimaryEvidence, key_of, evidence_for, differs, drop_replaced, fenced_by, collect_claims,
  conflicting_primary,
}
use cnpg_connect_plugin.Evidence.Claims.{
  verdicts, same_uid, drop_replaced_agrees, drop_replaced_keeps, weigh_claims_ignores,
  weigh_claims_adds, clear_expected_keeps, unresolved_finds,
}

-- Whether the Cluster's annotation fences the Pod name; one that cannot be decoded fences nobody.
abbrev pub fences : (String → Option (List String)) → Cluster → String → Bool
fences parse_fenced c n =
    let fenced = get_or (fenced_by parse_fenced c) [] in contains fenced "*" || contains fenced n

-- The claim that is kept against a Pod name of the Cluster.
abbrev pub claim_of : Map ClusterKey PrimaryEvidence → Cluster → String → Option String
claim_of primaries c n = lookup n (evidence_for primaries c).members

module _ (parse_fenced : String → Option (List String)) (primaries : Map ClusterKey PrimaryEvidence)
    (observed c : Cluster) (probed : List (Pod × StatusResult)) (current : List Pod) where
  abbrev claims_after : Map String String
  claims_after =
      collect_claims observed.current_primary (evidence_for primaries c).members probed current

  evidence_uid : (evidence_for primaries c).cluster_uid ≡ c.uid
  unfolding evidence_for
  evidence_uid = elim (Option-cases (lookup (key_of c) primaries)) [
    | inl e ↦ ground arith
    | inr (x, e) ↦ ground (arith, string_beq_iff x.cluster_uid c.uid)
  ]

  claim_stored :
      (n : String)
      → claim_of (conflicting_primary parse_fenced primaries observed c probed current).0 c n
        ≡ lookup n claims_after
  unfolding conflicting_primary evidence_for
  claim_stored n = ground (
    arith,
    evidence_uid,
    key_beq_iff (key_of c) (key_of c),
    string_beq_iff c.uid c.uid,
    lookup-insert (key_of c) (key_of c)
        (record { cluster_uid = (evidence_for primaries c).cluster_uid; members = claims_after })
        primaries,
  )

  claim_conflicts :
      (n uid : String)
      → lookup n claims_after ≡ some uid
      → string_beq n c.current_primary ≡ false
      → fences parse_fenced c n ≡ false
      → (conflicting_primary parse_fenced primaries observed c probed current).1 ≡ true
  unfolding conflicting_primary
  claim_conflicts n uid h ne f = elim (Option-cases (fenced_by parse_fenced c)) [
    | inl e ↦ rw (e, conflicting_primary) refl
    | inr (fenced, e) ↦
        let free : (contains fenced "*" || contains fenced n) ≡ false = ground arith in
        let found = unresolved_finds n uid fenced c.current_primary claims_after h ne free in
        rw (e, conflicting_primary) found
  ]

  claim_survives :
      (n uid : String)
      → same_uid n uid current ≡ true
      → claim_of primaries c n ≡ some uid
      → verdicts n probed ≡ []
      → string_beq n observed.current_primary ≡ false
      → lookup n claims_after ≡ some uid
  unfolding collect_claims lookup
  claim_survives n uid s h silent ne =
      let members = (evidence_for primaries c).members in
      let d : differs members n uid ≡ false =
        unfold differs in ground (arith, string_beq_iff uid uid) in
      let (agrees, kept) =
        drop_replaced_keeps n uid current [] members s (unfold differs in refl) d in
      let (uids, rest) = drop_replaced current [] members in
      clear_expected_keeps n uid observed.current_primary _ ne
        (weigh_claims_ignores n uid _ probed _ silent ∙ (kept ∙ h))

  claim_recorded :
      (n uid : String) (claim : Pod × StatusResult)
      → verdicts n probed ≡ claim ∷ []
      → claim.0.uid ≡ uid
      → claim.1.status.is_primary ≡ some true
      → same_uid n uid current ≡ true
      → string_beq n observed.current_primary ≡ false
      → lookup n claims_after ≡ some uid
  unfolding collect_claims lookup
  claim_recorded n uid claim v f p s ne =
      let members = (evidence_for primaries c).members in
      let agrees = drop_replaced_agrees n uid current [] members s (unfold differs in refl) in
      clear_expected_keeps n uid observed.current_primary _ ne
        (weigh_claims_adds n uid _ probed _ claim agrees f p v)

  -- An unexpected primary is a conflict: if the one probe that tells the role of a Pod name finds
  -- it primary, no current Pod has that name with another UID, neither the Cluster that the
  -- collection began with nor the current one names it as the primary, and it is not fenced, then a
  -- conflict is reported, whatever evidence there was and whatever the other probes say.
  pub unexpected_primary_conflicts :
      (n uid : String) (claim : Pod × StatusResult)
      → verdicts n probed ≡ claim ∷ []
      → claim.0.uid ≡ uid
      → claim.1.status.is_primary ≡ some true
      → same_uid n uid current ≡ true
      → string_beq n observed.current_primary ≡ false
      → string_beq n c.current_primary ≡ false
      → fences parse_fenced c n ≡ false
      → (conflicting_primary parse_fenced primaries observed c probed current).1 ≡ true
  unexpected_primary_conflicts n uid claim v f p s ne now fence =
      claim_conflicts n uid (claim_recorded n uid claim v f p s ne) now fence

  -- Evidence of a conflict is not lost: a claim kept against a Pod name of this incarnation of the
  -- Cluster stays, under the same UID, through a collection in which no probe tells the name's role
  -- and no current Pod replaces it, if the collection did not begin with it as the primary; fencing
  -- does not erase it, and while it is neither fenced nor the expected primary, a conflict is
  -- reported.
  pub evidence_kept :
      (n uid : String)
      → claim_of primaries c n ≡ some uid
      → verdicts n probed ≡ []
      → same_uid n uid current ≡ true
      → string_beq n observed.current_primary ≡ false
      → let r = conflicting_primary parse_fenced primaries observed c probed current in
        (claim_of r.0 c n ≡ some uid)
        × ((string_beq n c.current_primary || fences parse_fenced c n || r.1) ≡ true)
  evidence_kept n uid h silent s ne =
      let k = claim_survives n uid s h silent ne in
      (
        claim_stored n ∙ k,
        elim (Bool-cases (string_beq n c.current_primary)) [
          | inl expected ↦ ground arith
          | inr other ↦ elim (Bool-cases (fences parse_fenced c n)) [
            | inl fenced ↦ ground arith
            | inr free ↦
                let reported = claim_conflicts n uid k other free in ground (arith, reported)
          ]
        ],
      )
