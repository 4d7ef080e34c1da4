-- ===== src/Topology/Build.antt =====
-- internal/observer/topology.go: buildSnapshot. `parse_fenced` is the JSON decoding of the fencing
-- annotation into a list of names, none where it fails.
use cnpg_connect_plugin.Prelude.{
  ℕ, zero, suc, String, string_eq, true, Option, none, some, List, [], ◌∷◌, ltb, if◌then◌else◌,
}
use cnpg_connect_plugin.Prelude.Map.{lookup}
use cnpg_connect_plugin.Api.{Time, Snapshot, Member}
use cnpg_connect_plugin.Kube.{Pod, Cluster, Parameters}
use cnpg_connect_plugin.Status.{StatusResult}
use cnpg_connect_plugin.Topology.{
  unavailable, fenced_annotation, transitioning, server_name, Scan, scan, senders, verify_replicas,
}

-- The fenced names; an absent annotation fences nobody.
unfoldable pub fenced_names : (String → Option (List String)) → Cluster → Option (List String)
fenced_names parse_fenced c = elim (lookup fenced_annotation c.annotations) [
  | none ↦ some []
  | some raw ↦ parse_fenced raw
]

abbrev pub empty_scan : Scan
empty_scan = record { primary_index = none; primary_count = 0; members = [] }

unfoldable pub scan_all : List String → Cluster → List (Pod × StatusResult) → Parameters → Scan
scan_all fenced c prs params =
    scan fenced params (server_name c params) c.current_primary (transitioning c) 0 prs empty_scan

unfoldable pub mark_primary : ℕ → List Member → List Member
mark_primary i [] = []
mark_primary zero (m ∷ ms) = record m { ready = true; reason = "" } ∷ ms
mark_primary (suc i) (m ∷ ms) = m ∷ mark_primary i ms

-- Reading past the end is a fault in the source; the index that the loop sets is always in range.
unfoldable pub pair_at : ℕ → List (Pod × StatusResult) → Option (Pod × StatusResult)
pair_at i [] = none
pair_at zero (pr ∷ prs) = some pr
pair_at (suc i) (pr ∷ prs) = pair_at i prs

-- What follows when the one primary is found at an index.
unfoldable pub with_primary :
    Snapshot → List (Pod × StatusResult) → ℕ → Option (Pod × StatusResult) → Snapshot
unfolding mark_primary
with_primary s prs i none = s
with_primary s prs i (some (pod, r)) =
    let found = senders r.status.replication (record { replication = []; duplicates = [] }) in
    record s {
      primary_id = pod.uid;
      available = true;
      reason = "";
      members = verify_replicas r.status found prs (mark_primary i s.members);
    }

unfoldable pub conclude : Snapshot → List (Pod × StatusResult) → Scan → Snapshot
unfolding with_primary pair_at
conclude s prs found =
    if ltb 1 found.primary_count
    then record s { reason = "multiple_primaries_observed" }
    else if s.transitioning
    then record s { reason = "primary_transition" }
    else elim found.primary_index [ none ↦ s | some i ↦ with_primary s prs i (pair_at i prs) ]

unfoldable pub build_snapshot :
    (String → Option (List String))
    → Cluster
    → List (Pod × StatusResult)
    → Parameters
    → Time
    → ℕ
    → Snapshot
unfolding fenced_names scan_all conclude
build_snapshot parse_fenced c prs params at ttl =
    let s : Snapshot = record (unavailable c at ttl "primary_unverified") {
      transitioning = transitioning c;
    } in
    elim (fenced_names parse_fenced c) [
      | none ↦ record s { reason = "invalid_fencing_configuration" }
      | some fenced ↦
          (let found = scan_all fenced c prs params in
            conclude (record s { members = found.members }) prs found)
    ]
