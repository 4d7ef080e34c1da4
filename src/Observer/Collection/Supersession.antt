-- ===== src/Observer/Collection/Supersession.antt =====
-- What publishObservation (internal/observer/collection.go) does not publish.
use cnpg_connect_plugin.Prelude.{
  ◌≡◌, refl, ◌∙◌, subst, String, Bool, true, false, ◌||◌, not, Option, some, List, [], ◌∷◌, map,
  arith, Bool-cases, Option-cases, inl, inr, ℕ,
}
use cnpg_connect_plugin.Prelude.Map.{lookup}
use cnpg_connect_plugin.Key.{key_eq}
use cnpg_connect_plugin.Api.{Time, Snapshot, Member}
use cnpg_connect_plugin.Kube.{Cluster, Pod, Parameters}
use cnpg_connect_plugin.Routing.{Digest}
use cnpg_connect_plugin.Status.{StatusResult}
use cnpg_connect_plugin.Topology.{unavailable, cluster_ref, Scan}
use cnpg_connect_plugin.Topology.Build.{
  build_snapshot, conclude, with_primary, fenced_names, scan_all,
}
use cnpg_connect_plugin.Topology.Primary.{blank_snapshot}
use cnpg_connect_plugin.Evidence.{key_of}
use cnpg_connect_plugin.Config.{Library}
use cnpg_connect_plugin.Config.Enrollment.{parameters}
use cnpg_connect_plugin.ClusterRoutes.{same_cluster_route}
use cnpg_connect_plugin.CaCache.{current_ca}
use cnpg_connect_plugin.Observer.{Observer, Clock, enqueue, commit_publication}
use cnpg_connect_plugin.Observer.Closing.{IsShut, NoneReady, commit-IsShut, unavailable-IsShut}
use cnpg_connect_plugin.Observer.Collection.{Collected, quarantine, collected_snapshot}
use cnpg_connect_plugin.Observer.Collection.Publishing.{
  weigh_evidence, retry_later, commit_collected, publish_latest, publish_observation,
}

module _ (hash : Snapshot → Digest) (parse_fenced : String → Option (List String))
    (library : Library) (o : Observer) (latest : Cluster) (w : Collected) (t : Clock) where
  pub publish_found :
      (stopped ready : Bool)
      → lookup (key_of latest) o.clusters ≡ some latest
      → (not (parameters library latest).0 || latest.deleting) ≡ false
      → publish_observation hash parse_fenced library o (key_of latest) w stopped ready t
        ≡ publish_latest hash parse_fenced library o
            (key_of latest)
            latest
            w
            (not (stopped || not ready))
            t
  unfolding publish_observation
  publish_found stopped ready found live = rw (found, publish_observation, live) refl

  -- The branch of a cancellation or a failed watch.
  pub superseded_renews_nothing :
      (stopped ready : Bool)
      → lookup (key_of latest) o.clusters ≡ some latest
      → (not (parameters library latest).0 || latest.deleting) ≡ false
      → (stopped || not ready) ≡ true
      → publish_observation hash parse_fenced library o (key_of latest) w stopped ready t
        ≡ (record o { primaries = (weigh_evidence parse_fenced o latest w).0 }, [], false)
  unfolding publish_latest
  superseded_renews_nothing stopped ready found live ends =
      publish_found stopped ready found live ∙ rw (ends, publish_latest) refl

conclude-cluster :
    (s : Snapshot) (prs : List (Pod × StatusResult)) (found : Scan)
    → (conclude s prs found).cluster ≡ s.cluster
unfolding conclude with_primary
conclude-cluster s prs found = ground arith

pub built-cluster :
    (parse_fenced : String → Option (List String)) (c : Cluster) (prs : List (Pod × StatusResult))
    (params : Parameters) (at : Time) (ttl : ℕ)
    → (build_snapshot parse_fenced c prs params at ttl).cluster ≡ cluster_ref c
unfolding build_snapshot unavailable
built-cluster parse_fenced c prs params at ttl = elim (Option-cases (fenced_names parse_fenced c)) [
  | inl e ↦ rw (e, build_snapshot) refl
  | inr (fenced, e) ↦
      let found = scan_all fenced c prs params in
      rw (e, build_snapshot)
        (conclude-cluster
          (record (blank_snapshot parse_fenced c prs params at ttl) { members = found.members }) prs
          found)
]

quarantine-NoneReady :
    (ms : List Member) → NoneReady (map (λ (m : Member). record m { ready = false }) ms)
quarantine-NoneReady [] = tt
quarantine-NoneReady (m ∷ ms) = (refl, quarantine-NoneReady ms)

module _ (hash : Snapshot → Digest) (parse_fenced : String → Option (List String))
    (library : Library) (o : Observer) (latest : Cluster) (w : Collected) (t : Clock) where
  retry-IsShut :
      (reason : String)
      → IsShut
          (retry_later hash o (key_of latest) latest reason t).0
          (key_of latest)
          (cluster_ref latest)
  unfolding retry_later
  retry-IsShut reason =
      let again = enqueue o (key_of latest) true t in
      unavailable-IsShut hash again latest t.observed again.ttl reason t

  conflict-cluster : (collected_snapshot parse_fenced o latest w true).cluster ≡ cluster_ref latest
  unfolding collected_snapshot quarantine
  conflict-cluster = built-cluster parse_fenced latest _ w.params w.started o.ttl

  conflict-closed : (collected_snapshot parse_fenced o latest w true).available ≡ false
  unfolding collected_snapshot quarantine
  conflict-closed = refl

  conflict-unready : NoneReady (collected_snapshot parse_fenced o latest w true).members
  unfolding collected_snapshot quarantine
  conflict-unready = quarantine-NoneReady _

  conflict-IsShut :
      IsShut
        (commit_publication hash o (collected_snapshot parse_fenced o latest w true) t).0
        (key_of latest)
        (cluster_ref latest)
  unfolding cluster_ref
  conflict-IsShut =
      let s = collected_snapshot parse_fenced o latest w true in
      let same : s.cluster ≡ cluster_ref latest = conflict-cluster in
      subst
        (λ c.
          IsShut (commit_publication hash o s t).0
            (record { namespace = c.namespace; name = c.name }) c)
        same (commit-IsShut hash o s t conflict-closed conflict-unready)

  -- what is committed in any case but the good one
  pub refused-IsShut :
      (conflict : Bool)
      → (conflict
          || (not (same_cluster_route library w.observed latest)
              || not (current_ca o.ca (some w.ca))))
        ≡ true
      → IsShut
          (commit_collected hash parse_fenced library o (key_of latest) latest w conflict t).0
          (key_of latest)
          (cluster_ref latest)
  unfolding commit_collected
  refused-IsShut conflict h = elim (Bool-cases (same_cluster_route library w.observed latest)) [
    | inr e ↦ rw e (retry-IsShut "topology_changed_during_observation")
    | inl e ↦ elim (Bool-cases (current_ca o.ca (some w.ca))) [
      | inr f ↦ rw (e, f) (retry-IsShut "connection_defaults_changed")
      | inl f ↦ let c : conflict ≡ true = ground (arith, e, f, h) in rw (e, f, c) conflict-IsShut
    ]
  ]

module _ (hash : Snapshot → Digest) (parse_fenced : String → Option (List String))
    (library : Library) (o : Observer) (latest : Cluster) (w : Collected) (t : Clock) where
  -- Nothing is routed to what was not verified: where the collection began with other routes of the
  -- Cluster, where the CA that it was given is no longer that of the Secret, or where an unexpected
  -- instance has claimed to be primary, what is published of the Cluster is unavailable and has no
  -- ready member.
  pub refused_publication-IsShut :
      (stopped ready : Bool)
      → lookup (key_of latest) o.clusters ≡ some latest
      → (not (parameters library latest).0 || latest.deleting) ≡ false
      → (stopped || not ready) ≡ false
      → ((weigh_evidence parse_fenced o latest w).1
          || (not (same_cluster_route library w.observed latest)
              || not (current_ca o.ca (some w.ca))))
        ≡ true
      → IsShut
          (publish_observation hash parse_fenced library o (key_of latest) w stopped ready t).0
          (key_of latest)
          (cluster_ref latest)
  unfolding publish_latest
  refused_publication-IsShut stopped ready found live may refused =
      let evidence = weigh_evidence parse_fenced o latest w in
      let there =
        refused-IsShut hash parse_fenced library (record o { primaries = evidence.0 }) latest w t
          evidence.1 refused in
      rw
        (
          publish_found hash parse_fenced library o latest w t stopped ready found live,
          may,
          publish_latest,
        )
        there
