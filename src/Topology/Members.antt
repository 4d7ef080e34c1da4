-- ===== src/Topology/Members.antt =====
-- The members that buildSnapshot (internal/observer/topology.go) publishes.
use cnpg_connect_plugin.Prelude.{ℕ, ◌≡◌, inl, inr, String, false, Option, List, arith, All}
use cnpg_connect_plugin.Api.{Time, Snapshot, Member}
use cnpg_connect_plugin.Kube.{Pod, Cluster, Parameters}
use cnpg_connect_plugin.Status.{StatusResult}
use cnpg_connect_plugin.Topology.{transitioning, server_name, Scan, verify_replicas}
use cnpg_connect_plugin.Topology.Build.{
  scan_all, empty_scan, with_primary, conclude, build_snapshot, mark_primary,
}
use cnpg_connect_plugin.Topology.Loop.{Pairs, scan-members}
use cnpg_connect_plugin.Topology.Ready.{
  Vouched, Aligned, found_of, loop_members, verify-members, members-unready,
}
use cnpg_connect_plugin.Topology.Primary.{
  IsSettled, Concluded, build_cases, build_readable, blank_snapshot, settled-Concluded,
  settled-available,
}

module _ (parse_fenced : String → Option (List String)) (c : Cluster) (prs : Pairs)
    (params : Parameters) (at : Time) (ttl : ℕ) where
  scan_all-members :
      (fenced : List String)
      → (scan_all fenced c prs params).members
        ≡ loop_members fenced params (server_name c params) prs
  unfolding scan_all
  scan_all-members fenced =
      scan-members fenced params (server_name c params) c.current_primary (transitioning c) 0 prs
        empty_scan

  conclude-members :
      (s : Snapshot) (found : Scan) (p : Pod × StatusResult) (h : Concluded s prs found p)
      → (conclude s prs found).members
        ≡ verify_replicas p.1.status (found_of p) prs (mark_primary h.index s.members)
  unfolding conclude with_primary
  conclude-members s found p h = ground (arith, h.few, h.steady, h.indexed, h.pair)

  -- Where a primary is settled, there is one member for each Pod, in order and under the Pod's name
  -- and UID, and every member that is ready is of the primary or of a replica that the primary vouches for:
  -- one that is not fenced, is ready, replays and receives, is of the same database system, and is
  -- streamed to by exactly one sender of its name.
  pub ready_members-Vouched :
      (p : Pod × StatusResult) (h : IsSettled parse_fenced c prs p)
      → Aligned (Vouched h.fenced p) prs (build_snapshot parse_fenced c prs params at ttl).members
  ready_members-Vouched p h =
      let found = scan_all h.fenced c prs params in
      let s = record (blank_snapshot parse_fenced c prs params at ttl) {
        members = found.members;
      } in
      let concluded = settled-Concluded parse_fenced c prs params at ttl p h in
      let server = server_name c params in
      rw
        (
          build_readable parse_fenced c prs params at ttl h.fenced h.readable,
          conclude-members s found p concluded,
          scan_all-members h.fenced,
        )
        (verify-members h.fenced params server p concluded.index prs concluded.pair)

  -- A snapshot that is not available has no ready member.
  pub unavailable_unready :
      (build_snapshot parse_fenced c prs params at ttl).available ≡ false
      → All
          (λ (m : Member). m.ready ≡ false)
          (build_snapshot parse_fenced c prs params at ttl).members
  unavailable_unready h = elim (build_cases parse_fenced c prs params at ttl) [
    | inl (p, settled) ↦
        absurd (ground (arith, settled-available parse_fenced c prs params at ttl p settled))
    | inr (_, _, inl e) ↦ rw e tt
    | inr (_, _, inr (fenced, e)) ↦
        rw (e, scan_all-members fenced) (members-unready fenced params (server_name c params) prs)
  ]
