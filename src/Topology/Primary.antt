-- ===== src/Topology/Primary.antt =====
-- When buildSnapshot (internal/observer/topology.go) publishes a primary.
use cnpg_connect_plugin.Prelude.{
  ℕ, ◌+◌, ◌≤◌, ◌≡◌, refl, ◌∙◌, ◌⊎◌, inl, inr, String, true, false, ◌||◌, Option, none, some, List,
  [], ◌∷◌, arith, ltb, string_beq_iff, is_some, length, Bool-cases, Option-cases,
}
use cnpg_connect_plugin.Api.{Time, Snapshot}
use cnpg_connect_plugin.Kube.{Pod, Cluster, Parameters}
use cnpg_connect_plugin.Status.{StatusResult}
use cnpg_connect_plugin.Topology.{unavailable, transitioning, server_name, Scan}
use cnpg_connect_plugin.Topology.Build.{
  pair_at, fenced_names, scan_all, empty_scan, conclude, build_snapshot,
}
use cnpg_connect_plugin.Topology.Loop.{
  Pairs, claimants, scan-count, scan_index, scan_index_found, sole_claimant, one_claimant,
  any_named,
}

-- The fencing annotation can be read, the Cluster names one primary and is not changing it, and of
-- all Pods that are not fenced, ready and verified, exactly one claims to be primary, the one that
-- the Cluster names.
pub record IsSettled (parse_fenced : String → Option (List String)) (c : Cluster) (prs : Pairs)
    (p : Pod × StatusResult) : Type 0 where
  pub fenced : List String
  pub readable : fenced_names parse_fenced c ≡ some fenced
  pub steady : transitioning c ≡ false
  pub sole : claimants fenced prs ≡ p ∷ []
  pub expected : p.0.name ≡ c.current_primary

-- What makes `conclude` publish a primary.
pub record Concluded (s : Snapshot) (prs : Pairs) (found : Scan) (p : Pod × StatusResult)
    : Type 0 where
  pub index : ℕ
  pub few : ltb 1 found.primary_count ≡ false
  pub steady : s.transitioning ≡ false
  pub indexed : found.primary_index ≡ some index
  pub pair : pair_at index prs ≡ some p

module _ (s : Snapshot) (prs : Pairs) (found : Scan) where
  pub conclude_publishes :
      (p : Pod × StatusResult)
      → Concluded s prs found p
      → ((conclude s prs found).available ≡ true) × ((conclude s prs found).primary_id ≡ p.0.uid)
  unfolding conclude
  conclude_publishes p h = ground (arith, h.few, h.steady, h.indexed, h.pair)

  pub conclude_cases :
      s.available ≡ false
      → ((p : Pod × StatusResult) × Concluded s prs found p)
        ⊎ (((conclude s prs found).available ≡ false)
            × ((conclude s prs found).primary_id ≡ s.primary_id)
            × ((conclude s prs found).members ≡ s.members))
  unfolding conclude
  conclude_cases a = elim (Bool-cases (ltb 1 found.primary_count)) [
    | inl many ↦ inr (rw many (a, refl, refl))
    | inr few ↦ elim (Bool-cases s.transitioning) [
      | inl moves ↦ inr (rw (few, moves) (a, refl, refl))
      | inr steady ↦ elim (Option-cases found.primary_index) [
        | inl e ↦ inr (rw (few, steady, e) (a, refl, refl))
        | inr (i, e) ↦ elim (Option-cases (pair_at i prs)) [
          | inl f ↦ inr (rw (few, steady, e, f) (a, refl, refl))
          | inr (p, f) ↦
              inl (p, record { index = i; few = few; steady = steady; indexed = e; pair = f })
        ]
      ]
    ]
  ]

module _ (parse_fenced : String → Option (List String)) (c : Cluster) (prs : Pairs)
    (params : Parameters) (at : Time) (ttl : ℕ) where
  abbrev built : Snapshot
  built = build_snapshot parse_fenced c prs params at ttl

  abbrev pub blank_snapshot : Snapshot
  blank_snapshot = record (unavailable c at ttl "primary_unverified") {
    transitioning = transitioning c;
  }

  abbrev found_in : List String → Scan
  found_in fenced = scan_all fenced c prs params

  pub build_readable :
      (fenced : List String)
      → fenced_names parse_fenced c ≡ some fenced
      → built
        ≡ conclude
            (record blank_snapshot { members = (found_in fenced).members })
            prs
            (found_in fenced)
  unfolding build_snapshot
  build_readable fenced e = rw (e, build_snapshot)

  build_unreadable :
      fenced_names parse_fenced c ≡ none
      → built ≡ record blank_snapshot { reason = "invalid_fencing_configuration" }
  unfolding build_snapshot
  build_unreadable e = rw (e, build_snapshot)

  concluded_settled :
      (fenced : List String) (p : Pod × StatusResult)
      → fenced_names parse_fenced c ≡ some fenced
      → Concluded
          (record blank_snapshot { members = (found_in fenced).members })
          prs
          (found_in fenced)
          p
      → IsSettled parse_fenced c prs p
  unfolding scan_all
  concluded_settled fenced p e h =
      elim (scan_index fenced params server current (transitioning c) 0 h.index prs empty_scan
        h.indexed) [
          | inl never ↦ cc
          | inr (j, pr, k, pairs, claims, named) ↦
              let q : pr ≡ p = ground (arith, h.pair, h.indexed) in
              record {
                fenced = fenced;
                readable = e;
                steady = h.steady;
                sole = rw (← q) (one_claimant fenced j prs pr few pairs claims);
                expected = rw (← q) named;
              }
        ]
    where
      server : String
      server = server_name c params

      current : String
      current = c.current_primary

      few : length (claimants fenced prs) ≤ 1
      few =
          let n = scan-count fenced params server current (transitioning c) 0 prs empty_scan in
          ground (arith, h.few)

  pub settled-Concluded :
      (p : Pod × StatusResult) (h : IsSettled parse_fenced c prs p)
      → Concluded
          (record blank_snapshot { members = (found_in h.fenced).members })
          prs
          (found_in h.fenced)
          p
  unfolding scan_all
  settled-Concluded p h = elim (Option-cases (found_in h.fenced).primary_index) [
    | inl e ↦ absurd (ground (arith, some_found, any, e))
    | inr (i, e) ↦
        elim (scan_index h.fenced params server current (transitioning c) 0 i prs empty_scan e) [
          | inl never ↦ cc
          | inr (j, pr, k, pairs, claims, named) ↦
              let q : pr ≡ p = sole_claimant h.fenced j prs pr p h.sole pairs claims in
              record {
                index = i;
                few = ground (arith, count, h.sole);
                steady = h.steady;
                indexed = e;
                pair = ground arith;
              }
        ]
  ]
    where
      server : String
      server = server_name c params

      current : String
      current = c.current_primary

      count : (found_in h.fenced).primary_count ≡ 0 + length (claimants h.fenced prs)
      count = scan-count h.fenced params server current (transitioning c) 0 prs empty_scan

      some_found :
          is_some (found_in h.fenced).primary_index
          ≡ (false || any_named current (claimants h.fenced prs))
      some_found =
          scan_index_found h.fenced params server current (transitioning c) 0 prs empty_scan
            h.steady

      any : any_named current (claimants h.fenced prs) ≡ true
      any = rw h.sole (ground (arith, h.expected, string_beq_iff p.0.name current))

  -- Either a settled primary is published, or the snapshot has neither primary nor members other
  -- than those that the loop built.
  pub build_cases :
      ((p : Pod × StatusResult) × IsSettled parse_fenced c prs p)
      ⊎ ((built.available ≡ false)
          × (built.primary_id ≡ "")
          × ((built.members ≡ [])
              ⊎ ((fenced : List String) × (built.members ≡ (found_in fenced).members))))
  build_cases = elim (Option-cases (fenced_names parse_fenced c)) [
    | inl e ↦ inr (rw (build_unreadable e) (unfold unavailable in (refl, refl, inl refl)))
    | inr (fenced, e) ↦
        elim (conclude_cases (record blank_snapshot { members = (found_in fenced).members }) prs
          (found_in fenced) (unfold unavailable in refl)) [
            | inl (p, h) ↦ inl (p, concluded_settled fenced p e h)
            | inr (a, i, m) ↦ inr (
                rw (build_readable fenced e) (a, i ∙ (unfold unavailable in refl), inr (fenced, m)))
          ]
  ]

  -- A settled primary is published: if the fencing annotation can be read, the Cluster is not
  -- changing its primary, and of the instances that are unfenced, ready and verified exactly one
  -- claims to be primary, the one that the Cluster names, then the snapshot is available and names
  -- that Pod as the primary.
  pub settled-available :
      (p : Pod × StatusResult)
      → IsSettled parse_fenced c prs p
      → (built.available ≡ true) × (built.primary_id ≡ p.0.uid)
  settled-available p h =
      rw (build_readable h.fenced h.readable)
        (conclude_publishes _ prs (found_in h.fenced) p (settled-Concluded p h))

  -- Only a settled primary is published: an available snapshot names the Pod of the one instance
  -- that claims to be primary, which is the one that the Cluster names, while the Cluster is not
  -- changing its primary and its fencing annotation can be read.
  pub available-settled :
      built.available ≡ true
      → (p : Pod × StatusResult) × IsSettled parse_fenced c prs p × (built.primary_id ≡ p.0.uid)
  available-settled h = elim build_cases [
    | inl (p, settled) ↦ (p, settled, (settled-available p settled).1)
    | inr (a, _, _) ↦ cc
  ]
