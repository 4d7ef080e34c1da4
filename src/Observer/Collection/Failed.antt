-- ===== src/Observer/Collection/Failed.antt =====
-- What an observation that fails leaves of a cluster (publishObservation of
-- internal/observer/collection.go).
use cnpg_connect_plugin.Prelude.{
  ◌≡◌, refl, sym, ◌∙◌, subst, ap, String, Bool, true, false, ◌||◌, not, Option, some, List, arith,
  Bool-cases, Option-cases, inl, inr,
}
use cnpg_connect_plugin.Prelude.Map.{lookup}
use cnpg_connect_plugin.Key.{ClusterKey, key_eq}
use cnpg_connect_plugin.Api.{Snapshot, ClusterRef}
use cnpg_connect_plugin.Kube.{Cluster}
use cnpg_connect_plugin.Routing.{Digest}
use cnpg_connect_plugin.Store.{StoredRecord}
use cnpg_connect_plugin.Topology.{cluster_ref}
use cnpg_connect_plugin.Evidence.{key_of}
use cnpg_connect_plugin.Config.{Library}
use cnpg_connect_plugin.Config.Enrollment.{parameters}
use cnpg_connect_plugin.ClusterRoutes.{same_cluster_route}
use cnpg_connect_plugin.CaCache.{current_ca}
use cnpg_connect_plugin.Observer.{Observer, Clock, commit_publication}
use cnpg_connect_plugin.Observer.Closing.{IsClosed, IsShut, commit-IsClosed}
use cnpg_connect_plugin.Observer.Collection.{Collected, collected_snapshot}
use cnpg_connect_plugin.Observer.Collection.Publishing.{
  weigh_evidence, commit_collected, publish_latest, publish_observation,
}
use cnpg_connect_plugin.Observer.Collection.Supersession.{refused-IsShut}
use cnpg_connect_plugin.Observer.Collection.Safety.{collected-cluster, verified_route}

-- Whatever the store has of the cluster is unavailable.
abbrev pub IsUnavailable : Observer → ClusterKey → Type 0
IsUnavailable o key =
    (r : StoredRecord)
    → lookup key o.store.records ≡ some r
    → r.publication.snapshot.available ≡ false

closed-IsUnavailable :
    (o : Observer) (key : ClusterKey) (cluster : ClusterRef)
    → IsClosed o key cluster
    → IsUnavailable o key
closed-IsUnavailable o key cluster (r, kept, closed, _) x h =
    let same : r ≡ x = ground (arith, kept, h) in
    subst (λ y. y.publication.snapshot.available ≡ false) same closed

shut-IsClosed :
    (o : Observer) (key : ClusterKey) (cluster : ClusterRef)
    → IsShut o key cluster
    → IsClosed o key cluster
shut-IsClosed o key cluster (r, kept, closed, same, _) = (r, kept, closed, same)

module _ (hash : Snapshot → Digest) (parse_fenced : String → Option (List String))
    (library : Library) (o : Observer) (latest : Cluster) (w : Collected) (t : Clock) where
  snapshot-IsUnavailable :
      (conflict : Bool)
      → (collected_snapshot parse_fenced o latest w conflict).available ≡ false
      → IsUnavailable
          (commit_publication hash o (collected_snapshot parse_fenced o latest w conflict) t).0
          (key_of latest)
  unfolding cluster_ref
  snapshot-IsUnavailable conflict h =
      let s = collected_snapshot parse_fenced o latest w conflict in
      subst
        (λ c.
          IsUnavailable (commit_publication hash o s t).0
            (record { namespace = c.namespace; name = c.name }))
        (collected-cluster hash parse_fenced library o latest w t conflict)
        (closed-IsUnavailable (commit_publication hash o s t).0 _ s.cluster
          (commit-IsClosed hash o s t h))

  committed-IsUnavailable :
      (conflict : Bool)
      → (commit_collected hash parse_fenced library o (key_of latest) latest w conflict t).2 ≡ false
      → IsUnavailable
          (commit_collected hash parse_fenced library o (key_of latest) latest w conflict t).0
          (key_of latest)
  committed-IsUnavailable conflict h =
      let refused =
        not (same_cluster_route library w.observed latest) || not (current_ca o.ca (some w.ca)) in
      elim (Bool-cases refused) [
        | inl e ↦
            let shut =
              refused-IsShut hash parse_fenced library o latest w t conflict (ground (arith, e)) in
            let after =
              (commit_collected hash parse_fenced library o (key_of latest) latest w conflict
                t).0 in
            closed-IsUnavailable after (key_of latest) (cluster_ref latest)
              (shut-IsClosed after (key_of latest) (cluster_ref latest) shut)
        | inr e ↦
            let verified =
              verified_route hash parse_fenced library o latest w t conflict (ground (arith, e))
                (ground (arith, e)) in
            rw verified
              (snapshot-IsUnavailable conflict (ground (arith, h, ap (λ x. x.2) verified)))
      ]

module _ (hash : Snapshot → Digest) (parse_fenced : String → Option (List String))
    (library : Library) (o : Observer) (latest : Cluster) (w : Collected) (t : Clock) where
  latest-IsUnavailable :
      (publish_latest hash parse_fenced library o (key_of latest) latest w true t).2 ≡ false
      → IsUnavailable
          (publish_latest hash parse_fenced library o (key_of latest) latest w true t).0
          (key_of latest)
  unfolding publish_latest
  latest-IsUnavailable h =
      let evidence = weigh_evidence parse_fenced o latest w in
      committed-IsUnavailable hash parse_fenced library (record o { primaries = evidence.0 }) latest
        w t evidence.1 h

-- An observation that fails though it was not superseded and no watch has failed leaves nothing
-- available: whatever the store has of the cluster then is unavailable. It is assumed that the
-- informer keeps a Cluster under its own key.
pub failed-IsUnavailable :
    (hash : Snapshot → Digest) (parse_fenced : String → Option (List String)) (library : Library)
    (o : Observer) (key : ClusterKey) (w : Collected) (stopped ready : Bool) (t : Clock)
    → ((c : Cluster) → lookup key o.clusters ≡ some c → key_of c ≡ key)
    → (stopped || not ready) ≡ false
    → (publish_observation hash parse_fenced library o key w stopped ready t).2 ≡ false
    → IsUnavailable (publish_observation hash parse_fenced library o key w stopped ready t).0 key
unfolding publish_observation
failed-IsUnavailable hash parse_fenced library o key w stopped ready t keyed may failed =
    elim (Option-cases (lookup key o.clusters)) [
      | inl e ↦ absurd (ground (arith, e, failed))
      | inr (c, e) ↦ elim (Bool-cases (not (parameters library c).0 || c.deleting)) [
        | inl gone ↦ absurd (ground (arith, e, gone, failed))
        | inr live ↦
            let found : publish_observation hash parse_fenced library o key w stopped ready t
                ≡ publish_latest hash parse_fenced library o key c w true t =
              rw (e, publish_observation, live, may) refl in
            rw found (
              subst
                (λ k.
                  (publish_latest hash parse_fenced library o k c w true t).2 ≡ false
                  → IsUnavailable (publish_latest hash parse_fenced library o k c w true t).0 k)
                (keyed c e) (latest-IsUnavailable hash parse_fenced library o c w t)
                (sym (ap (λ x. x.2) found) ∙ failed))
      ]
    ]
