-- ===== src/Topology/Examples.antt =====
-- Snapshots of a cluster of two instances (internal/observer/topology.go).
use cnpg_connect_plugin.Prelude.{◌≡◌, refl, true, false, [], string_beq, contains}
use cnpg_connect_plugin.Prelude.Map.{lookup}
use cnpg_connect_plugin.Api.{Snapshot}
use cnpg_connect_plugin.Kube.{Pod, Cluster}
use cnpg_connect_plugin.Status.{StatusResult}
use cnpg_connect_plugin.Topology.{
  transitioning, claims_primary, reported_role, is_fenced, pod_ready, condition_ready, scan,
  scan_round, unavailable,
}
use cnpg_connect_plugin.Topology.Build.{fenced_names, build_snapshot, conclude, scan_all}
use cnpg_connect_plugin.Topology.Primary.{IsSettled, settled-available, available-settled}
use cnpg_connect_plugin.Topology.Ready.{Aligned, Vouched}
use cnpg_connect_plugin.Topology.Members.{ready_members-Vouched}
use cnpg_connect_plugin.Samples.{cluster_a, no_parameters, parse_nothing, primary_1, two_instances}

abbrev built : Cluster → Snapshot
built c = build_snapshot parse_nothing c two_instances no_parameters 100 50

two_instances-IsSettled : IsSettled parse_nothing cluster_a two_instances primary_1
unfolding fenced_names transitioning claims_primary reported_role is_fenced pod_ready
    condition_ready lookup contains string_beq
two_instances-IsSettled = record {
  fenced = [];
  readable = refl;
  steady = refl;
  sole = refl;
  expected = refl;
}

settled-available_example :
    ((built cluster_a).available ≡ true) × ((built cluster_a).primary_id ≡ "u1")
settled-available_example =
    settled-available parse_nothing cluster_a two_instances no_parameters 100 50 primary_1
      two_instances-IsSettled

is_available : (built cluster_a).available ≡ true
is_available =
    (settled-available parse_nothing cluster_a two_instances no_parameters 100 50 primary_1
      two_instances-IsSettled).0

available-settled_example :
    (p : Pod × StatusResult) × IsSettled parse_nothing cluster_a two_instances p
    × ((built cluster_a).primary_id ≡ p.0.uid)
available-settled_example =
    available-settled parse_nothing cluster_a two_instances no_parameters 100 50 is_available

ready_members-Vouched_example :
    Aligned
      (Vouched two_instances-IsSettled.fenced primary_1)
      two_instances
      (built cluster_a).members
ready_members-Vouched_example =
    ready_members-Vouched parse_nothing cluster_a two_instances no_parameters 100 50 primary_1
      two_instances-IsSettled

-- The cluster on its way to another primary.
abbrev moving : Cluster
moving = record cluster_a { target_primary = "orders-2" }

is_unavailable : (built moving).available ≡ false
unfolding build_snapshot fenced_names conclude scan_all scan scan_round unavailable transitioning
    claims_primary reported_role is_fenced pod_ready condition_ready lookup contains string_beq
is_unavailable = refl
