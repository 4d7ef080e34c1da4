-- ===== src/Observer/Collection/Examples.antt =====
-- A collection of two instances that is published, and one that is refused.
use cnpg_connect_plugin.Prelude.{
  ◌+◌, ◌*◌, ◌≤◌, ◌≡◌, refl, sym, ◌∙◌, ap, subst, string_eq, Bool, true, false, ◌||◌, not, some,
  List, [], ◌∷◌, map, string_beq, arith, contains,
}
use cnpg_connect_plugin.Prelude.Map.{lookup, insert}
use cnpg_connect_plugin.Key.{ClusterKey, key_eq, key_beq}
use cnpg_connect_plugin.Api.{Snapshot, ClusterRef}
use cnpg_connect_plugin.Kube.{Cluster}
use cnpg_connect_plugin.Queue.{new_queue}
use cnpg_connect_plugin.Store.{StoredRecord, Notification, put_deferred, cluster_key, new_store}
use cnpg_connect_plugin.Evidence.{key_of, conflicting_primary}
use cnpg_connect_plugin.Config.{parse_parameters}
use cnpg_connect_plugin.Config.Enrollment.{parameters}
use cnpg_connect_plugin.ClusterRoutes.{same_cluster_route}
use cnpg_connect_plugin.CaCache.{CachedCa, CaCache, current_ca, application_database}
use cnpg_connect_plugin.Observer.{Observer, Clock, commit_publication}
use cnpg_connect_plugin.Observer.Options.{Options, check_options}
use cnpg_connect_plugin.Observer.Collection.{
  Collected, pods_of, budget, collected_snapshot, primary_first, match_instance_results,
}
use cnpg_connect_plugin.Observer.Collection.Failed.{IsUnavailable, failed-IsUnavailable}
use cnpg_connect_plugin.Observer.Collection.Publishing.{
  publish_latest, commit_collected, weigh_evidence, publish_observation, publish_failure,
}
use cnpg_connect_plugin.Observer.Closing.{IsShut}
use cnpg_connect_plugin.Topology.{
  cluster_ref, owned_pods, pod_ready, transitioning, claims_primary, reported_role, is_fenced,
  condition_ready,
}
use cnpg_connect_plugin.Topology.Build.{build_snapshot, fenced_names}
use cnpg_connect_plugin.Topology.Primary.{IsSettled, settled-available}
use cnpg_connect_plugin.Store.Publishing.{accepted, put_commits}
use cnpg_connect_plugin.Prelude.Sort.{sort_by}
use cnpg_connect_plugin.Prelude.Text.{string_less}
use cnpg_connect_plugin.Routes.{
  pod_cluster, same_pod_route, status_scheme, postgres_container_id, owners_beq,
}
use cnpg_connect_plugin.Observer.Collection.Matching.{attributed, match_instance_results-attributed}
use cnpg_connect_plugin.Observer.Collection.Budget.{budget_fits}
use cnpg_connect_plugin.Observer.Collection.Failure.{IsUnroutable, failure-IsUnroutable}
use cnpg_connect_plugin.Observer.Collection.Supersession.{publish_found, refused_publication-IsShut}
use cnpg_connect_plugin.Observer.Collection.Safety.{
  IsVerified, publish_observation-IsVerified, undisturbed_publish, verified_route,
  collected-cluster,
}
use cnpg_connect_plugin.Samples.{
  no_library, cluster_a, key_a, short_hash, pod_1, pod_2, two_instances, primary_1, no_parameters,
  parse_nothing,
}

abbrev secret_key : ClusterKey
secret_key = record { namespace = "shop"; name = "orders-ca" }

abbrev ca_1 : CachedCa
ca_1 = record { id = 0; key = secret_key; uid = "s1"; resource_version = "1"; public = 65 ∷ [] }

abbrev cache_1 : CaCache
cache_1 = record {
  secrets = (secret_key, record { uid = "s1"; resource_version = "1" }) ∷ [];
  cas = (secret_key, ca_1) ∷ [];
  reads = [];
  pending = [];
  queue = [];
  next_id = 1;
}

abbrev observer_b : Observer
observer_b = record {
  namespace = "";
  poll_interval = 5;
  ttl = 60;
  store = new_store "p";
  clusters = (key_a, cluster_a) ∷ [];
  pods = pod_1 ∷ pod_2 ∷ [];
  queue = new_queue;
  delayed = [];
  demand_next = [];
  observations = (key_a, false) ∷ [];
  primaries = [];
  ca = cache_1;
}

abbrev at_130 : Clock
at_130 = record {
  observed = 130;
  before = 130;
  committed = 130;
  read = 130;
  asked = 130;
  paced = 130;
}

abbrev collected_b : Collected
collected_b = record {
  observed = cluster_a;
  probed = two_instances;
  params = no_parameters;
  connection = record { database = "app"; server_ca_pem = 65 ∷ [] };
  ca = ca_1;
  started = 120;
}

cached : lookup (key_of cluster_a) observer_b.clusters ≡ some cluster_a
unfolding lookup key_beq string_beq
cached = refl

is_live : (not (parameters no_library cluster_a).0 || false) ≡ false
unfolding parameters lookup string_beq
is_live = refl

-- The primary goes first.
orders : primary_first "orders-2" (pod_1 ∷ pod_2 ∷ []) ≡ pod_2 ∷ pod_1 ∷ []
unfolding primary_first string_beq
orders = refl

match_instance_results-attributed_example :
    match_instance_results two_instances (pod_2 ∷ []) ≡ map (attributed two_instances) (pod_2 ∷ [])
match_instance_results-attributed_example =
    match_instance_results-attributed two_instances (pod_2 ∷ [])

abbrev options_b : Options
options_b = record {
  namespace = "";
  poll_interval = 5;
  ttl = 15;
  probe_timeout = 2;
  max_concurrency = 128;
  max_concurrent_clusters = 32;
}

budget_fits_example : (4 + 5 ≤ 15) × (2 ≤ 4) × (4 ≤ 2 * 2)
unfolding check_options budget
budget_fits_example = budget_fits options_b options_b refl

keeps_keys : (c : Cluster) → lookup key_a observer_b.clusters ≡ some c → key_of c ≡ key_a
unfolding lookup key_beq string_beq
keeps_keys c h = ground arith

failure-IsUnroutable_example :
    IsUnroutable
      (publish_failure short_hash no_library observer_b key_a "primary_transition" false at_130).0
      key_a
failure-IsUnroutable_example =
    failure-IsUnroutable short_hash no_library observer_b key_a "primary_transition" at_130
      keeps_keys

abbrev changed_b : Collected
changed_b = record collected_b { observed = record cluster_a { target_primary = "orders-2" } }

refuses :
    ((weigh_evidence parse_nothing observer_b cluster_a changed_b).1
      || (not (same_cluster_route no_library changed_b.observed cluster_a)
          || not (current_ca observer_b.ca (some changed_b.ca))))
    ≡ true
unfolding weigh_evidence conflicting_primary owned_pods sort_by pod_cluster string_less
    same_cluster_route current_ca lookup insert string_beq key_beq
refuses = refl

refused_publication-IsShut_example :
    IsShut
      (publish_observation short_hash parse_nothing no_library observer_b
        (key_of cluster_a)
        changed_b
        false
        true
        at_130).0
      (key_of cluster_a)
      (cluster_ref cluster_a)
refused_publication-IsShut_example =
    refused_publication-IsShut short_hash parse_nothing no_library observer_b cluster_a changed_b
      at_130 false true cached is_live refl refuses

route_changes : same_cluster_route no_library changed_b.observed cluster_a ≡ false
unfolding same_cluster_route lookup string_beq
route_changes = refl

fails :
    (publish_observation short_hash parse_nothing no_library observer_b key_a changed_b false true
      at_130).2
    ≡ false
unfolding publish_latest commit_collected
fails =
    rw
      (
        publish_found short_hash parse_nothing no_library observer_b cluster_a changed_b at_130
            false true cached is_live,
        publish_latest,
        commit_collected,
        route_changes,
      )
      refl

failed-IsUnavailable_example :
    IsUnavailable
      (publish_observation short_hash parse_nothing no_library observer_b key_a changed_b false true
        at_130).0
      key_a
failed-IsUnavailable_example =
    failed-IsUnavailable short_hash parse_nothing no_library observer_b key_a changed_b false true
      at_130 keeps_keys refl fails

pods_b : pods_of observer_b cluster_a ≡ pod_1 ∷ pod_2 ∷ []
unfolding pods_of owned_pods sort_by pod_cluster string_less string_beq key_beq
pods_b = refl

weighs_b : (weigh_evidence parse_nothing observer_b cluster_a collected_b).1 ≡ false
unfolding weigh_evidence conflicting_primary owned_pods sort_by pod_cluster string_less lookup
    insert string_beq key_beq
weighs_b = refl

matches_b : match_instance_results two_instances (pod_1 ∷ pod_2 ∷ []) ≡ two_instances
unfolding match_instance_results same_pod_route status_scheme postgres_container_id owners_beq
    pod_ready lookup insert string_beq
matches_b = refl

two_instances-IsSettled : IsSettled parse_nothing cluster_a two_instances primary_1
unfolding fenced_names transitioning claims_primary reported_role is_fenced pod_ready
    condition_ready lookup contains string_beq
two_instances-IsSettled = record {
  fenced = [];
  readable = refl;
  steady = refl;
  sole = refl;
  expected = refl;
}

builds_b :
    (build_snapshot parse_nothing cluster_a two_instances no_parameters 120 60).available ≡ true
builds_b =
    (settled-available parse_nothing cluster_a two_instances no_parameters 120 60 primary_1
      two_instances-IsSettled).0

same_b : same_cluster_route no_library cluster_a cluster_a ≡ true
unfolding same_cluster_route parameters parse_parameters application_database lookup string_beq
same_b = refl

current_b : current_ca cache_1 (some ca_1) ≡ true
unfolding current_ca lookup string_beq key_beq
current_b = refl

-- The observer with the claims that it has weighed, and what it commits.
abbrev weighed_b : Observer
weighed_b = record observer_b {
  primaries = (weigh_evidence parse_nothing observer_b cluster_a collected_b).0;
}

abbrev snapshot_b : Bool → Snapshot
snapshot_b conflict = collected_snapshot parse_nothing weighed_b cluster_a collected_b conflict

weighed_pods_b : pods_of weighed_b cluster_a ≡ pod_1 ∷ pod_2 ∷ []
unfolding pods_of
weighed_pods_b = pods_b

available_b : (snapshot_b false).available ≡ true
unfolding collected_snapshot
available_b = rw (weighed_pods_b, matches_b) builds_b

abbrev published_b : Observer × List Notification × Bool
published_b =
    publish_observation short_hash parse_nothing no_library observer_b (key_of cluster_a)
      collected_b false true at_130

commits_b : published_b ≡ (
    let s = snapshot_b false in
    let (o1, ns) = commit_publication short_hash weighed_b s at_130 in (o1, ns, s.available))
commits_b =
    undisturbed_publish short_hash parse_nothing no_library observer_b cluster_a collected_b at_130
      false true cached is_live refl
    ∙ (verified_route short_hash parse_nothing no_library weighed_b cluster_a collected_b at_130
          (weigh_evidence parse_nothing observer_b cluster_a collected_b).1 same_b current_b
        ∙ ap
            (λ conflict.
              let s = snapshot_b conflict in
              let (o1, ns) = commit_publication short_hash weighed_b s at_130 in
              (o1, ns, s.available))
            weighs_b)

succeeds_b : published_b.2 ≡ true
succeeds_b = ap (λ x. x.2) commits_b ∙ available_b

abbrev stored_b : StoredRecord
stored_b = (put_commits short_hash weighed_b.store (snapshot_b false) 130 130).stored

keeps_b : lookup (key_of cluster_a) published_b.0.store.records ≡ some stored_b
unfolding commit_publication cluster_ref
keeps_b =
    let key : cluster_key (snapshot_b false) ≡ key_of cluster_a =
      ap (λ (c : ClusterRef). record { namespace = c.namespace; name = c.name })
        (collected-cluster short_hash parse_nothing no_library weighed_b cluster_a collected_b
          at_130 false) in
    let there : lookup (key_of cluster_a)
          (put_deferred short_hash weighed_b.store (snapshot_b false) 130 130).0.records
        ≡ some stored_b =
      subst
        (λ k.
          lookup k (put_deferred short_hash weighed_b.store (snapshot_b false) 130 130).0.records
          ≡ some stored_b)
        key (put_commits short_hash weighed_b.store (snapshot_b false) 130 130).kept in
    subst (λ x. lookup (key_of cluster_a) x.0.store.records ≡ some stored_b) (sym commits_b) there

publish_observation-IsVerified_example :
    (v : IsVerified parse_nothing no_library observer_b cluster_a collected_b false true) × (let s =
        collected_snapshot parse_nothing observer_b cluster_a collected_b false in
      (s.primary_id ≡ v.primary.0.uid)
      × (s.connection ≡ collected_b.connection)
      × (stored_b.publication.snapshot
          ≡ record (accepted s 130 130) { revision = stored_b.publication.snapshot.revision }))
publish_observation-IsVerified_example =
    publish_observation-IsVerified short_hash parse_nothing no_library observer_b cluster_a
      collected_b at_130 false true stored_b cached is_live succeeds_b keeps_b
