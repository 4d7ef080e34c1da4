-- ===== src/Observer/Collection/Safety.antt =====
-- What has been verified where publishObservation (internal/observer/collection.go) publishes a
-- primary.
use cnpg_connect_plugin.Prelude.{
  ◌≡◌, refl, sym, ◌∙◌, ap, subst, String, Bool, true, false, ◌||◌, not, Option, some, List, arith,
  Bool-cases, inl, inr,
}
use cnpg_connect_plugin.Prelude.Map.{lookup}
use cnpg_connect_plugin.Key.{key_eq}
use cnpg_connect_plugin.Api.{Snapshot, ClusterRef}
use cnpg_connect_plugin.Kube.{Cluster, Pod}
use cnpg_connect_plugin.Status.{StatusResult}
use cnpg_connect_plugin.Routing.{Digest}
use cnpg_connect_plugin.Store.{StoredRecord, cluster_key}
use cnpg_connect_plugin.Store.Publishing.{accepted}
use cnpg_connect_plugin.Topology.{cluster_ref}
use cnpg_connect_plugin.Topology.Primary.{IsSettled, available-settled}
use cnpg_connect_plugin.Evidence.{key_of}
use cnpg_connect_plugin.Config.{Library}
use cnpg_connect_plugin.Config.Enrollment.{parameters}
use cnpg_connect_plugin.ClusterRoutes.{same_cluster_route}
use cnpg_connect_plugin.CaCache.{current_ca}
use cnpg_connect_plugin.Observer.{Observer, Clock, commit_publication}
use cnpg_connect_plugin.Observer.Stored.{commit_stored}
use cnpg_connect_plugin.Observer.Collection.{
  Collected, quarantine, collected_snapshot, pods_of, match_instance_results,
}
use cnpg_connect_plugin.Observer.Collection.Publishing.{
  weigh_evidence, commit_collected, publish_latest, publish_observation,
}
use cnpg_connect_plugin.Observer.Collection.Supersession.{
  publish_found, built-cluster, superseded_renews_nothing,
}

-- What holds of an observation that has published a primary.
pub record IsVerified (parse_fenced : String → Option (List String)) (library : Library)
    (o : Observer) (latest : Cluster) (w : Collected) (stopped ready : Bool) : Type 0 where
  pub undisturbed : (stopped ≡ false) × (ready ≡ true)
  pub same_route : same_cluster_route library w.observed latest ≡ true
  pub same_ca : current_ca o.ca (some w.ca) ≡ true
  pub no_conflict : (weigh_evidence parse_fenced o latest w).1 ≡ false
  pub primary : Pod × StatusResult
  pub settled :
      IsSettled parse_fenced latest (match_instance_results w.probed (pods_of o latest)) primary

collected-settled :
    (parse_fenced : String → Option (List String)) (o : Observer) (latest : Cluster) (w : Collected)
    (conflict : Bool)
    → (collected_snapshot parse_fenced o latest w conflict).available ≡ true
    → (conflict ≡ false)
      × ((p : Pod × StatusResult) × IsSettled parse_fenced latest
            (match_instance_results w.probed (pods_of o latest))
            p
          × ((collected_snapshot parse_fenced o latest w conflict).primary_id ≡ p.0.uid)
          × ((collected_snapshot parse_fenced o latest w conflict).connection ≡ w.connection))
unfolding collected_snapshot quarantine
collected-settled parse_fenced o latest w true h = cc
collected-settled parse_fenced o latest w false h =
    let mapped = match_instance_results w.probed (pods_of o latest) in
    let (p, settled, id) =
      available-settled parse_fenced latest mapped w.params w.started o.ttl h in
    (refl, (p, settled, id, refl))

module _ (hash : Snapshot → Digest) (parse_fenced : String → Option (List String))
    (library : Library) (o : Observer) (latest : Cluster) (w : Collected) (t : Clock) where
  pub collected-cluster :
      (conflict : Bool)
      → (collected_snapshot parse_fenced o latest w conflict).cluster ≡ cluster_ref latest
  unfolding collected_snapshot quarantine
  collected-cluster true = built-cluster parse_fenced latest _ w.params w.started o.ttl
  collected-cluster false = built-cluster parse_fenced latest _ w.params w.started o.ttl

  abbrev outcome : Bool → Bool
  outcome conflict =
      (commit_collected hash parse_fenced library o (key_of latest) latest w conflict t).2

  other_route :
      (conflict : Bool)
      → same_cluster_route library w.observed latest ≡ false
      → outcome conflict ≡ false
  unfolding commit_collected
  other_route conflict e = rw (outcome, e, commit_collected) refl

  other_ca :
      (conflict : Bool)
      → same_cluster_route library w.observed latest ≡ true
      → current_ca o.ca (some w.ca) ≡ false
      → outcome conflict ≡ false
  unfolding commit_collected
  other_ca conflict e f = rw (outcome, e, f, commit_collected) refl

  pub verified_route :
      (conflict : Bool)
      → same_cluster_route library w.observed latest ≡ true
      → current_ca o.ca (some w.ca) ≡ true
      → commit_collected hash parse_fenced library o (key_of latest) latest w conflict t ≡ (
          let s = collected_snapshot parse_fenced o latest w conflict in
          let (o1, ns) = commit_publication hash o s t in (o1, ns, s.available))
  unfolding commit_collected
  verified_route conflict e f = rw (e, f, commit_collected) refl

  committed_when :
      (conflict : Bool)
      → outcome conflict ≡ true
      → (same_cluster_route library w.observed latest ≡ true)
        × (current_ca o.ca (some w.ca) ≡ true)
        × ((collected_snapshot parse_fenced o latest w conflict).available ≡ true)
  committed_when conflict h = elim (Bool-cases (same_cluster_route library w.observed latest)) [
    | inr e ↦ absurd (ground (arith, other_route conflict e))
    | inl e ↦ elim (Bool-cases (current_ca o.ca (some w.ca))) [
      | inr f ↦ absurd (ground (arith, other_ca conflict e f))
      | inl f ↦ (e, f, sym (ap (λ x. x.2) (verified_route conflict e f)) ∙ h)
    ]
  ]

  -- the snapshot that is stored
  committed_snapshot :
      (conflict : Bool) (r : StoredRecord)
      → outcome conflict ≡ true
      → lookup
          (key_of latest)
          (commit_collected hash parse_fenced library o
            (key_of latest)
            latest
            w
            conflict
            t).0.store.records
        ≡ some r
      → r.publication.snapshot
        ≡ record (accepted
            (collected_snapshot parse_fenced o latest w conflict)
            t.before
            t.committed) { revision = r.publication.snapshot.revision }
  unfolding cluster_ref
  committed_snapshot conflict r h kept =
      let (e, f, _) = committed_when conflict h in
      let s = collected_snapshot parse_fenced o latest w conflict in
      let key : cluster_key s ≡ key_of latest =
        ap (λ (c : ClusterRef). record { namespace = c.namespace; name = c.name })
          (collected-cluster conflict) in
      let stored : lookup (key_of latest) (commit_publication hash o s t).0.store.records ≡ some r =
        subst (λ x. lookup (key_of latest) x.0.store.records ≡ some r) (verified_route conflict e f)
          kept in
      commit_stored hash o t s r (
        subst (λ k. lookup k (commit_publication hash o s t).0.store.records ≡ some r) (sym key)
          stored)

pub undisturbed_publish :
    (hash : Snapshot → Digest) (parse_fenced : String → Option (List String)) (library : Library)
    (o : Observer) (latest : Cluster) (w : Collected) (t : Clock) (stopped ready : Bool)
    → lookup (key_of latest) o.clusters ≡ some latest
    → (not (parameters library latest).0 || latest.deleting) ≡ false
    → (stopped || not ready) ≡ false
    → let evidence = weigh_evidence parse_fenced o latest w in
      publish_observation hash parse_fenced library o (key_of latest) w stopped ready t
      ≡ commit_collected hash parse_fenced library
          (record o { primaries = evidence.0 })
          (key_of latest)
          latest
          w
          evidence.1
          t
unfolding publish_latest
undisturbed_publish hash parse_fenced library o latest w t stopped ready found live may =
    publish_found hash parse_fenced library o latest w t stopped ready found live
    ∙ rw (may, publish_latest) refl

-- A primary is published only verified: where an observation succeeds on a Cluster that is still
-- there and observed, it was neither superseded nor did a watch fail, the Cluster's routes and the
-- CA are those that it began with, no unexpected instance has claimed to be primary, and of the
-- results that belong to the current Pods, exactly one unfenced, ready and verified instance claims
-- to be primary, the one that the Cluster names. What is then stored is the snapshot of these
-- results with the connection that the probes used, which names that Pod, unless it has expired.
pub publish_observation-IsVerified :
    (hash : Snapshot → Digest) (parse_fenced : String → Option (List String)) (library : Library)
    (o : Observer) (latest : Cluster) (w : Collected) (t : Clock) (stopped ready : Bool)
    (r : StoredRecord)
    → lookup (key_of latest) o.clusters ≡ some latest
    → (not (parameters library latest).0 || latest.deleting) ≡ false
    → let published =
        publish_observation hash parse_fenced library o (key_of latest) w stopped ready t in
      published.2 ≡ true
      → lookup (key_of latest) published.0.store.records ≡ some r
      → (v : IsVerified parse_fenced library o latest w stopped ready) × (let s =
            collected_snapshot parse_fenced o latest w false in
          (s.primary_id ≡ v.primary.0.uid)
          × (s.connection ≡ w.connection)
          × (r.publication.snapshot ≡ record (accepted s t.before t.committed) {
            revision = r.publication.snapshot.revision;
          }))
unfolding pods_of collected_snapshot
publish_observation-IsVerified hash parse_fenced library o latest w t stopped ready r found live
      done kept =
    let evidence = weigh_evidence parse_fenced o latest w in
    let weighed : Observer = record o { primaries = evidence.0 } in
    elim (Bool-cases (stopped || not ready)) [
      | inl ends ↦
          let nothing =
            superseded_renews_nothing hash parse_fenced library o latest w t stopped ready found
              live ends in
          absurd (ground (arith, ap (λ x. x.2) nothing))
      | inr may ↦
          let same =
            undisturbed_publish hash parse_fenced library o latest w t stopped ready found live
              may in
          let succeeded = sym (ap (λ x. x.2) same) ∙ done in
          let stored = subst (λ x. lookup (key_of latest) x.0.store.records ≡ some r) same kept in
          let (route, ca, available) =
            committed_when hash parse_fenced library weighed latest w t evidence.1 succeeded in
          let (no_conflict, (p, settled, id, connection)) =
            collected-settled parse_fenced weighed latest w evidence.1 available in
          let content =
            committed_snapshot hash parse_fenced library weighed latest w t evidence.1 r succeeded
              stored in
          (
            record {
              undisturbed = (ground (arith, may), ground (arith, may));
              same_route = route;
              same_ca = ca;
              no_conflict = no_conflict;
              primary = p;
              settled = settled;
            },
            (
              subst (λ b. (collected_snapshot parse_fenced weighed latest w b).primary_id ≡ p.0.uid)
                  no_conflict id,
              subst
                  (λ b.
                    (collected_snapshot parse_fenced weighed latest w b).connection ≡ w.connection)
                  no_conflict connection,
              subst
                  (λ b.
                    r.publication.snapshot
                    ≡ record (accepted (collected_snapshot parse_fenced weighed latest w b) t.before
                        t.committed) { revision = r.publication.snapshot.revision })
                  no_conflict content,
            ),
          )
    ]
