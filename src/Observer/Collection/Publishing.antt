-- ===== src/Observer/Collection/Publishing.antt =====
-- publishObservation and publishFailure of internal/observer/collection.go. Whether the context of
-- the observation is done, and whether the informers are ready, are arguments.
use cnpg_connect_plugin.Prelude.{
  String, Bool, true, false, ◌||◌, not, Option, none, some, List, [], ◌∷◌, if◌then◌else◌,
  string_beq,
}
use cnpg_connect_plugin.Prelude.Map.{Map, lookup}
use cnpg_connect_plugin.Key.{ClusterKey, key_eq}
use cnpg_connect_plugin.Api.{Snapshot}
use cnpg_connect_plugin.Kube.{Cluster}
use cnpg_connect_plugin.Routing.{Digest}
use cnpg_connect_plugin.Store.{Notification, delete_deferred}
use cnpg_connect_plugin.Topology.{unavailable, transitioning}
use cnpg_connect_plugin.Evidence.{PrimaryEvidence, conflicting_primary}
use cnpg_connect_plugin.Config.{Library}
use cnpg_connect_plugin.Config.Enrollment.{parameters}
use cnpg_connect_plugin.ClusterRoutes.{same_cluster_route}
use cnpg_connect_plugin.CaCache.{current_ca}
use cnpg_connect_plugin.Observer.{Observer, Clock, enqueue, commit_publication}
use cnpg_connect_plugin.Observer.Collection.{Collected, collected_snapshot, drop_cluster, pods_of}

-- The claims of primaries after a collection, and whether they conflict; those of another
-- incarnation of the Cluster are not weighed.
unfoldable pub weigh_evidence :
    (String → Option (List String))
    → Observer
    → Cluster
    → Collected
    → Map ClusterKey PrimaryEvidence × Bool
unfolding pods_of
weigh_evidence parse_fenced o latest w =
    if string_beq w.observed.uid latest.uid
    then conflicting_primary parse_fenced o.primaries w.observed latest w.probed (pods_of o latest)
    else (o.primaries, false)

-- A publication that is unavailable, after which the cluster is observed again.
unfoldable pub retry_later :
    (Snapshot → Digest)
    → Observer
    → ClusterKey
    → Cluster
    → String
    → Clock
    → Observer × List Notification
retry_later hash o key latest reason t =
    let o1 = enqueue o key true t in
    commit_publication hash o1 (unavailable latest t.observed o1.ttl reason) t

unfoldable pub commit_collected :
    (Snapshot → Digest)
    → (String → Option (List String))
    → Library
    → Observer
    → ClusterKey
    → Cluster
    → Collected
    → Bool
    → Clock
    → Observer × List Notification × Bool
unfolding retry_later collected_snapshot
commit_collected hash parse_fenced library o key latest w conflict t =
    if not (same_cluster_route library w.observed latest)
    then (let (o1, ns) = retry_later hash o key latest "topology_changed_during_observation" t in
        (o1, ns, false))
    else if not (current_ca o.ca (some w.ca))
    then (let (o1, ns) = retry_later hash o key latest "connection_defaults_changed" t in
        (o1, ns, false))
    else (let s = collected_snapshot parse_fenced o latest w conflict in
        let (o1, ns) = commit_publication hash o s t in (o1, ns, s.available))

-- The part that has found the Cluster. `may_publish` is false after a cancellation or while a watch
-- has failed.
unfoldable pub publish_latest :
    (Snapshot → Digest)
    → (String → Option (List String))
    → Library
    → Observer
    → ClusterKey
    → Cluster
    → Collected
    → Bool
    → Clock
    → Observer × List Notification × Bool
unfolding weigh_evidence commit_collected
publish_latest hash parse_fenced library o key latest w may_publish t =
    let (primaries, conflict) = weigh_evidence parse_fenced o latest w in
    let o1 : Observer = record o { primaries = primaries } in
    if not may_publish
    then (o1, [], false)
    else commit_collected hash parse_fenced library o1 key latest w conflict t

unfoldable pub publish_observation :
    (Snapshot → Digest)
    → (String → Option (List String))
    → Library
    → Observer
    → ClusterKey
    → Collected
    → Bool
    → Bool
    → Clock
    → Observer × List Notification × Bool
unfolding drop_cluster publish_latest
publish_observation hash parse_fenced library o key w stopped ready t =
    elim (lookup key o.clusters) [
      | none ↦ (let (o1, ns) = drop_cluster o key in (o1, ns, true))
      | some latest ↦
          if not (parameters library latest).0 || latest.deleting
          then (let (o1, ns) = drop_cluster o key in (o1, ns, true))
          else publish_latest hash parse_fenced library o key latest w (not (stopped || not ready))
              t
    ]

-- What publishFailure does for a Cluster that it finds.
unfoldable pub fail_latest :
    (Snapshot → Digest)
    → Library
    → Observer
    → ClusterKey
    → Cluster
    → String
    → Clock
    → Observer × List Notification
fail_latest hash library o key latest reason t =
    if not (parameters library latest).0 || latest.deleting
    then (let (st, n) = delete_deferred o.store key in (record o { store = st }, n ∷ []))
    else (let s : Snapshot = record (unavailable latest t.observed o.ttl reason) {
      transitioning = transitioning latest;
    } in
        commit_publication hash o s t)

-- The observation has always failed.
unfoldable pub publish_failure :
    (Snapshot → Digest)
    → Library
    → Observer
    → ClusterKey
    → String
    → Bool
    → Clock
    → Observer × List Notification
unfolding fail_latest
publish_failure hash library o key reason stopped t =
    if stopped then (o, []) else elim (lookup key o.clusters) [
      | none ↦ (let (st, n) = delete_deferred o.store key in (record o { store = st }, n ∷ []))
      | some latest ↦ fail_latest hash library o key latest reason t
    ]
