-- ===== src/Observer/ClusterEvents.antt =====
-- clusterEvent of internal/observer/events.go. Times are the readings of two clocks: the first for
-- the commit that registers a Cluster and for the test of demand, the second for what follows each.
pub mod Withdrawn
mod Examples
use cnpg_connect_plugin.Prelude.{
  ℕ, String, Bool, true, false, ◌||◌, not, Option, none, some, List, [], ◌∷◌, ◌++◌, if◌then◌else◌,
  string_beq,
}
use cnpg_connect_plugin.Prelude.Map.{delete}
use cnpg_connect_plugin.Key.{ClusterKey, key_eq}
use cnpg_connect_plugin.Api.{Snapshot}
use cnpg_connect_plugin.Kube.{Cluster}
use cnpg_connect_plugin.Routing.{Digest}
use cnpg_connect_plugin.Store.{Notification, delete_deferred, has_demand, cluster_identity}
use cnpg_connect_plugin.Topology.{unavailable}
use cnpg_connect_plugin.Evidence.{key_of}
use cnpg_connect_plugin.Config.{Library}
use cnpg_connect_plugin.Config.Enrollment.{parameters}
use cnpg_connect_plugin.ClusterRoutes.{same_cluster_route}
use cnpg_connect_plugin.Observer.{Observer, Clock, cancel_observation, enqueue, commit_publication}

-- The state that belongs to an incarnation of a Cluster, but for what the store has.
unfoldable pub forget_cluster : Observer → ClusterKey → Observer
unfolding cancel_observation
forget_cluster o key =
    let o1 = cancel_observation o key in
    record o1 { primaries = delete key o1.primaries; demand_next = delete key o1.demand_next }

unfoldable pub withdraw_cluster : Observer → ClusterKey → Observer × List Notification
unfolding forget_cluster
withdraw_cluster o key =
    let o1 = forget_cluster o key in
    let (st, n) = delete_deferred o1.store key in (record o1 { store = st }, n ∷ [])

-- Whether the store has this incarnation of the Cluster.
unfoldable pub is_registered : Observer → Cluster → Bool
is_registered o c = elim (cluster_identity o.store (key_of c)) [
  | none ↦ false
  | some previous ↦ string_beq previous.uid c.uid
]

unfoldable pub register_cluster :
    (Snapshot → Digest) → Observer → Cluster → Clock → Observer × List Notification
unfolding forget_cluster is_registered
register_cluster hash o c t =
    if is_registered o c
    then (o, [])
    else commit_publication hash (forget_cluster o (key_of c))
        (unavailable c t.observed o.ttl "awaiting_observation") t

unfoldable pub close_route :
    (Snapshot → Digest) → Observer → Cluster → Clock → Observer × List Notification
unfolding cancel_observation
close_route hash o c t =
    commit_publication hash (cancel_observation o (key_of c))
      (unavailable c t.observed o.ttl "topology_changed") t

unfoldable pub demand_cluster : Observer → ClusterKey → Clock → Clock → Observer
demand_cluster o key t u =
    let (st, demanded) = has_demand o.store key t.asked in
    let o1 : Observer = record o { store = st } in if demanded then enqueue o1 key true u else o1

-- The end of clusterEvent, for a Cluster that is registered.
unfoldable pub compare_routes :
    (Snapshot → Digest)
    → Library
    → Observer × List Notification
    → Option Cluster
    → Cluster
    → Clock
    → Clock
    → Observer × List Notification
unfolding close_route demand_cluster
compare_routes hash library (o, ns) none c t u = (demand_cluster o (key_of c) t u, ns)
compare_routes hash library (o, ns) (some old) c t u =
    if same_cluster_route library old c
    then (o, ns)
    else (let (o1, ms) = close_route hash o c u in (demand_cluster o1 (key_of c) t u, ns ++ ms))

unfoldable pub cluster_event :
    (Snapshot → Digest)
    → Library
    → Observer
    → Option Cluster
    → Cluster
    → Clock
    → Clock
    → Observer × List Notification
unfolding withdraw_cluster register_cluster compare_routes
cluster_event hash library o old c t u =
    if not (parameters library c).0 || c.deleting
    then withdraw_cluster o (key_of c)
    else compare_routes hash library (register_cluster hash o c t) old c t u
