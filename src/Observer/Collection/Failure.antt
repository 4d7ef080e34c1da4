-- ===== src/Observer/Collection/Failure.antt =====
-- What publishFailure (internal/observer/collection.go) leaves of a cluster.
use cnpg_connect_plugin.Prelude.{
  ◌≡◌, refl, subst, String, false, ◌||◌, not, some, arith, Bool-cases, Option-cases, inl, inr,
}
use cnpg_connect_plugin.Prelude.Map.{lookup}
use cnpg_connect_plugin.Key.{ClusterKey, key_eq, key_beq_iff}
use cnpg_connect_plugin.Api.{Snapshot}
use cnpg_connect_plugin.Kube.{Cluster}
use cnpg_connect_plugin.Routing.{Digest}
use cnpg_connect_plugin.Store.{StoredRecord, delete_deferred}
use cnpg_connect_plugin.Store.Deleting.{delete_deletes}
use cnpg_connect_plugin.Topology.{unavailable, transitioning, cluster_ref}
use cnpg_connect_plugin.Evidence.{key_of}
use cnpg_connect_plugin.Config.{Library}
use cnpg_connect_plugin.Config.Enrollment.{parameters}
use cnpg_connect_plugin.Observer.{Observer, Clock, commit_publication}
use cnpg_connect_plugin.Observer.Closing.{IsShut, NoneReady, commit-IsShut}
use cnpg_connect_plugin.Observer.Collection.Publishing.{fail_latest, publish_failure}

-- Whatever is stored of the cluster, nothing is to be routed to.
abbrev pub IsUnroutable : Observer → ClusterKey → Type 0
IsUnroutable o key =
    (r : StoredRecord)
    → lookup key o.store.records ≡ some r
    → (r.publication.snapshot.available ≡ false) × NoneReady r.publication.snapshot.members

shut-IsUnroutable :
    (o : Observer) (key : ClusterKey) (c : Cluster)
    → IsShut o key (cluster_ref c)
    → IsUnroutable o key
shut-IsUnroutable o key c (r, kept, closed, _, unready) x h =
    let same : r ≡ x = ground (arith, kept, h) in
    subst
      (λ y. (y.publication.snapshot.available ≡ false) × NoneReady y.publication.snapshot.members)
      same (closed, unready)

deleted-IsUnroutable :
    (o : Observer) (key : ClusterKey)
    → IsUnroutable (record o { store = (delete_deferred o.store key).0 }) key
deleted-IsUnroutable o key r h =
    let gone = (delete_deletes o.store key).2 key in
    absurd (ground (arith, gone, h, key_beq_iff key key))

fail_latest-IsUnroutable :
    (hash : Snapshot → Digest) (library : Library) (o : Observer) (latest : Cluster)
    (reason : String) (t : Clock)
    → IsUnroutable (fail_latest hash library o (key_of latest) latest reason t).0 (key_of latest)
unfolding fail_latest unavailable cluster_ref
fail_latest-IsUnroutable hash library o latest reason t =
    elim (Bool-cases (not (parameters library latest).0 || latest.deleting)) [
      | inl e ↦ rw (e, fail_latest) (deleted-IsUnroutable o (key_of latest))
      | inr e ↦
          let s : Snapshot = record (unavailable latest t.observed o.ttl reason) {
            transitioning = transitioning latest;
          } in
          rw (e, fail_latest)
            (shut-IsUnroutable (commit_publication hash o s t).0 (key_of latest) latest
              (commit-IsShut hash o s t refl tt))
    ]

-- publishFailure, where the context of the observation is not done, leaves nothing to route to: the
-- cluster then has no record, or one that is unavailable without a ready member. It is assumed that
-- the informer keeps a Cluster under its own key.
pub failure-IsUnroutable :
    (hash : Snapshot → Digest) (library : Library) (o : Observer) (key : ClusterKey)
    (reason : String) (t : Clock)
    → ((c : Cluster) → lookup key o.clusters ≡ some c → key_of c ≡ key)
    → IsUnroutable (publish_failure hash library o key reason false t).0 key
unfolding publish_failure
failure-IsUnroutable hash library o key reason t keyed =
    elim (Option-cases (lookup key o.clusters)) [
      | inl e ↦ rw (e, publish_failure) (deleted-IsUnroutable o key)
      | inr (c, e) ↦
          rw (e, publish_failure)
            (subst (λ k. IsUnroutable (fail_latest hash library o k c reason t).0 k) (keyed c e)
              (fail_latest-IsUnroutable hash library o c reason t))
    ]
