-- ===== src/Observer/ClusterEvents/Examples.antt =====
-- A Cluster that is disabled, and one whose primary moves, and the theorems at them.
use cnpg_connect_plugin.Prelude.{
  ◌≡◌, refl, string_eq, true, false, ◌||◌, not, none, some, [], ◌∷◌, string_beq,
}
use cnpg_connect_plugin.Prelude.Map.{lookup}
use cnpg_connect_plugin.Key.{key_eq}
use cnpg_connect_plugin.Kube.{Cluster}
use cnpg_connect_plugin.Queue.{new_queue}
use cnpg_connect_plugin.Store.{new_store, cluster_identity}
use cnpg_connect_plugin.Config.Enrollment.{parameters}
use cnpg_connect_plugin.ClusterRoutes.{same_cluster_route}
use cnpg_connect_plugin.Evidence.{key_of}
use cnpg_connect_plugin.CaCache.History.{empty_cache}
use cnpg_connect_plugin.Observer.{Observer, Clock}
use cnpg_connect_plugin.Observer.Closing.{IsSuperseded}
use cnpg_connect_plugin.Observer.ClusterEvents.{cluster_event, is_registered}
use cnpg_connect_plugin.Observer.ClusterEvents.Withdrawn.{
  IsHalted, route_differs, disabled_withdrawn, changed_withdrawn,
}
use cnpg_connect_plugin.Samples.{no_library, cluster_a, key_a, short_hash}

-- An observation of the cluster is in flight.
abbrev busy : Observer
busy = record {
  namespace = "";
  poll_interval = 10;
  ttl = 60;
  store = new_store "p";
  clusters = (key_a, cluster_a) ∷ [];
  pods = [];
  queue = new_queue;
  delayed = [];
  demand_next = [];
  observations = (key_a, false) ∷ [];
  primaries = (key_a, record { cluster_uid = "c1"; members = ("orders-2", "u2") ∷ [] }) ∷ [];
  ca = empty_cache;
}

abbrev at_130 : Clock
at_130 = record {
  observed = 130;
  before = 130;
  committed = 130;
  read = 130;
  asked = 130;
  paced = 130;
}

abbrev disabled : Cluster
disabled = record cluster_a { annotations = ("connect.cnpg.io/enabled", "false") ∷ [] }

abbrev moved : Cluster
moved = record cluster_a { target_primary = "orders-2" }

is_disabled : (not (parameters no_library disabled).0 || false) ≡ true
unfolding parameters lookup string_beq
is_disabled = refl

disabled_withdrawn_example :
    let o' = (cluster_event short_hash no_library busy (some cluster_a) disabled at_130 at_130).0 in
    (lookup (key_of disabled) o'.store.records ≡ none)
    × (lookup (key_of disabled) o'.primaries ≡ none)
    × IsSuperseded o' (key_of disabled)
disabled_withdrawn_example =
    disabled_withdrawn short_hash no_library busy (some cluster_a) disabled at_130 at_130
      is_disabled

is_live : (not (parameters no_library moved).0 || false) ≡ false
unfolding parameters lookup string_beq
is_live = refl

is_changed :
    (not (is_registered busy moved) || route_differs no_library (some cluster_a) moved) ≡ true
unfolding is_registered cluster_identity new_store same_cluster_route lookup string_beq
is_changed = refl

changed_withdrawn_example :
    IsHalted (cluster_event short_hash no_library busy (some cluster_a) moved at_130 at_130).0 moved
changed_withdrawn_example =
    changed_withdrawn short_hash no_library busy (some cluster_a) moved at_130 at_130 is_live
      is_changed
