-- ===== src/Observer/Collection.antt =====
-- internal/observer/collection.go: an observation of a cluster, as the steps that hold the lock and
-- that other events come between. Those are its start, the lookup of the connection, and the
-- publication of a failure or of the results. The probes themselves are I/O; the results stand
-- beside their Pods.
pub mod Publishing
pub mod Matching
pub mod Supersession
pub mod Safety
pub mod Failure
pub mod Failed
pub mod Budget
mod Examples
use cnpg_connect_plugin.Prelude.{
  ℕ, ◌-◌, ◌*◌, ◌/◌, String, string_eq, Bool, true, false, ◌&&◌, ◌||◌, not, Option, none, some, List,
  [], ◌∷◌, map, filter_by, leb, if◌then◌else◌, string_beq,
}
use cnpg_connect_plugin.Prelude.Result.{Result, ok, err}
use cnpg_connect_plugin.Prelude.Map.{Map, lookup, insert, delete}
use cnpg_connect_plugin.Key.{ClusterKey, key_eq, key_beq}
use cnpg_connect_plugin.Api.{Time, Snapshot, Member, ConnectionParameters}
use cnpg_connect_plugin.Kube.{Pod, Cluster, Parameters}
use cnpg_connect_plugin.Routing.{Digest}
use cnpg_connect_plugin.Status.{InstanceStatus, StatusResult}
use cnpg_connect_plugin.Store.{Notification, delete_deferred}
use cnpg_connect_plugin.Topology.{unavailable, owned_pods, pod_ready, transitioning}
use cnpg_connect_plugin.Topology.Build.{build_snapshot}
use cnpg_connect_plugin.Evidence.{PrimaryEvidence, key_of, conflicting_primary}
use cnpg_connect_plugin.Routes.{pod_cluster, same_pod_route}
use cnpg_connect_plugin.Config.{Library, ConfigError}
use cnpg_connect_plugin.Config.Enrollment.{parameters}
use cnpg_connect_plugin.ClusterRoutes.{same_cluster_route}
use cnpg_connect_plugin.CaCache.{CachedCa, current_ca, cached_connection}
use cnpg_connect_plugin.Observer.{Observer, Clock, enqueue, commit_publication}

-- The deadline of a collection from its start.
unfoldable pub budget : ℕ → ℕ → ℕ → ℕ
budget ttl poll_interval probe_timeout =
    let timeout = ttl - poll_interval in
    if leb probe_timeout (timeout / 2) then 2 * probe_timeout else timeout

unfoldable pub belongs_to : Cluster → Pod → Bool
belongs_to c p = elim (pod_cluster p.namespace p.owner_references) [
  | none ↦ false
  | some key ↦ key_beq key (key_of c)
]

-- The Pods that the informer indexes under the cluster, of which those are kept that it owns.
unfoldable pub pods_of : Observer → Cluster → List Pod
unfolding belongs_to
pods_of o c = owned_pods c (filter_by (belongs_to c) o.pods)

-- The first Pod of the name, and the list with `p` in its place.
unfoldable pub take_named : String → Pod → List Pod → Option (Pod × List Pod)
take_named name p [] = none
take_named name p (q ∷ qs) =
    let rest = take_named name p qs in
    if string_beq q.name name
    then some (q, p ∷ qs)
    else elim rest [ none ↦ none | some (found, others) ↦ some (found, q ∷ others) ]

-- The expected primary in the first place, in exchange for the Pod that stands there.
unfoldable pub primary_first : String → List Pod → List Pod
unfolding take_named
primary_first name [] = []
primary_first name (p ∷ ps) =
    if string_beq p.name name
    then p ∷ ps
    else elim (take_named name p ps) [ none ↦ p ∷ ps | some (found, others) ↦ found ∷ others ]

-- The end of an observation that finds no Cluster to observe.
unfoldable pub drop_cluster : Observer → ClusterKey → Observer × List Notification
drop_cluster o key =
    let (st, n) = delete_deferred o.store key in
    (record o { store = st; primaries = delete key o.primaries }, n ∷ [])

-- How an observation begins: it is over, it publishes a failure, or it collects.
pub data Begun : Type 0 where
  ends : Begun
  fails : String → Begun
  collects : Cluster → Parameters → List Pod → Begun

unfoldable pub begin_collection : Observer → Cluster → Result ConfigError Parameters → Begun
unfolding pods_of primary_first
begin_collection o c (err e) = fails "invalid_configuration"
begin_collection o c (ok params) =
    if transitioning c
    then fails "primary_transition"
    else collects c params (primary_first c.current_primary (pods_of o c))

unfoldable pub begin_observe :
    Library → Observer → ClusterKey → Observer × List Notification × Begun
unfolding drop_cluster begin_collection
begin_observe library o key = elim (lookup key o.clusters) [
  | none ↦ (let (o1, ns) = drop_cluster o key in (o1, ns, ends))
  | some c ↦
      (let (enabled, params) = parameters library c in
        if not enabled || c.deleting
        then (let (o1, ns) = drop_cluster o key in (o1, ns, ends))
        else (o, [], begin_collection o c params))
]

unfoldable pub connect :
    Observer → Cluster → Bool → Observer × Option (ConnectionParameters × CachedCa)
connect o c stopped =
    let (ca, found) = cached_connection o.ca c stopped in (record o { ca = ca }, found)

-- What is left of a probe that did not succeed.
abbrev pub no_status : StatusResult
no_status = record {
  status = record {
    is_primary = none;
    system_id = "";
    timeline = 0;
    replay_lsn = "";
    replay_paused = false;
    wal_receiver_active = false;
    rewinding = false;
    unavailable = false;
    replication = [];
  };
  failed = true;
}

-- `outcome` is none where no slot was acquired before the probes were stopped.
unfoldable pub probe_instance : Pod → Option StatusResult → StatusResult
probe_instance pod outcome =
    if not (pod_ready pod)
    then no_status
    else elim outcome [ none ↦ no_status | some result ↦ result ]

-- Whether the result of the first Pod stops the other probes.
unfoldable pub stops_probes : Pod → StatusResult → Bool
stops_probes pod r =
    not (pod_ready pod)
    || (r.failed || elim r.status.is_primary [
      | none ↦ true
      | some primary ↦ not primary || (r.status.unavailable || r.status.rewinding)
    ])

unfoldable pub index_probed :
    List (Pod × StatusResult) → Map String (Pod × StatusResult) → Map String (Pod × StatusResult)
index_probed [] index = index
index_probed ((pod, r) ∷ prs) index = index_probed prs (insert pod.name (pod, r) index)

unfoldable pub match_result : Map String (Pod × StatusResult) → Pod → Pod × StatusResult
match_result index pod = elim (lookup pod.name index) [
  | none ↦ (pod, no_status)
  | some (previous, r) ↦ if not (same_pod_route previous pod) then (pod, no_status) else (pod, r)
]

unfoldable pub match_instance_results :
    List (Pod × StatusResult) → List Pod → List (Pod × StatusResult)
unfolding index_probed match_result
match_instance_results probed current = map (match_result (index_probed probed [])) current

-- What an observation has gathered when it publishes.
pub record Collected : Type 0 where
  pub observed : Cluster
  pub probed : List (Pod × StatusResult)
  pub params : Parameters
  pub connection : ConnectionParameters
  pub ca : CachedCa
  pub started : Time

unfoldable pub quarantine : Snapshot → Snapshot
quarantine s = record s {
  available = false;
  primary_id = "";
  reason = "multiple_primaries_observed";
  members = map (λ (m : Member). record m { ready = false }) s.members;
}

unfoldable pub collected_snapshot :
    (String → Option (List String)) → Observer → Cluster → Collected → Bool → Snapshot
unfolding pods_of match_instance_results quarantine
collected_snapshot parse_fenced o latest w conflict =
    let mapped = match_instance_results w.probed (pods_of o latest) in
    let s = build_snapshot parse_fenced latest mapped w.params w.started o.ttl in
    record (if conflict then quarantine s else s) { connection = w.connection }
