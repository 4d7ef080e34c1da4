-- ===== src/Topology.antt =====
-- internal/observer/topology.go: the routing snapshot that is built from a Cluster, its Pods and
-- the status of each. There is one status for each Pod, so the two slices are one list of pairs.
pub mod Build
pub mod Loop
pub mod Primary
pub mod Senders
pub mod Ready
pub mod Members
mod Examples
use cnpg_connect_plugin.Prelude.{
  ℕ, zero, suc, String, ◌+◌, Bool, true, false, ◌&&◌, ◌||◌, not, Option, none, some, List, [], ◌∷◌,
  ◌++◌, ltb, if◌then◌else◌, get_or, is_some, string_beq, string_eq, contains, filter_by,
}
use cnpg_connect_plugin.Prelude.Map.{Map, lookup, insert, has}
use cnpg_connect_plugin.Prelude.Text.{string_less}
use cnpg_connect_plugin.Prelude.Sort.{sort_by}
use Prim.Native.String.{◌++◌ as text_append}
use cnpg_connect_plugin.Api.{
  Time, Snapshot, Member, Endpoint, ClusterRef, ConnectionParameters, blank, api_version,
}
use cnpg_connect_plugin.Kube.{Pod, Cluster, Condition, OwnerReference, Parameters}
use cnpg_connect_plugin.Status.{InstanceStatus, ReplicationStatus, StatusResult}

unfoldable pub cluster_ref : Cluster → ClusterRef
cluster_ref c = record { namespace = c.namespace; name = c.name; uid = c.uid }

unfoldable pub condition_ready : List Condition → Bool
condition_ready [] = false
condition_ready (c ∷ cs) =
    let rest = condition_ready cs in
    if string_beq c.type "Ready" then string_beq c.status "True" else rest

unfoldable pub pod_ready : Pod → Bool
unfolding condition_ready
pod_ready pod =
    if pod.deleting || (not (string_beq pod.phase "Running") || string_beq pod.pod_ip "")
    then false
    else condition_ready pod.conditions

unfoldable pub owned_by : Cluster → List OwnerReference → Bool
owned_by c [] = false
owned_by c (o ∷ os) =
    (string_beq o.kind "Cluster"
      && (string_beq o.uid c.uid && string_beq o.api_version "postgresql.cnpg.io/v1"))
    || owned_by c os

unfoldable pub pod_less : Pod → Pod → Bool
pod_less a b = string_less a.name b.name

unfoldable pub owned_pods : Cluster → List Pod → List Pod
unfolding owned_by pod_less
owned_pods c pods = sort_by pod_less (filter_by (λ (p : Pod). owned_by c p.owner_references) pods)

unfoldable pub unavailable : Cluster → Time → ℕ → String → Snapshot
unfolding cluster_ref
unavailable c at ttl reason = record {
  api_version = api_version;
  cluster = cluster_ref c;
  revision = blank;
  observed_at = at;
  valid_until = at + ttl;
  available = false;
  reason = reason;
  primary_id = "";
  transitioning = false;
  members = [];
  connection = record { database = ""; server_ca_pem = [] };
}

abbrev pub label : Pod → String → String
label pod key = get_or (lookup key pod.labels) ""

abbrev pub fenced_annotation : String
fenced_annotation = "cnpg.io/fencedInstances"

unfoldable pub is_fenced : List String → Pod → Bool
is_fenced fenced pod = contains fenced "*" || contains fenced pod.name

unfoldable pub transitioning : Cluster → Bool
transitioning c =
    not (string_beq c.current_primary c.target_primary) || string_beq c.current_primary ""

-- `fmt.Sprintf("%s-rw.%s.svc", name, namespace)` where the parameters name no server.
unfoldable pub server_name : Cluster → Parameters → String
server_name c params =
    if string_beq params.server_name ""
    then text_append c.name (text_append "-rw." (text_append c.namespace ".svc"))
    else params.server_name

unfoldable pub internal_endpoint : String → Pod → Map String Endpoint
internal_endpoint server pod =
    if string_beq pod.pod_ip ""
    then []
    else insert "internal" (record { host = pod.pod_ip; port = 5432; server_name = server }) []

unfoldable pub endpoints : Parameters → String → Pod → Map String Endpoint
unfolding internal_endpoint
endpoints params server pod = elim (lookup pod.name params.external_endpoints) [
  | none ↦ internal_endpoint server pod
  | some e ↦
      insert "external"
        (if string_beq e.server_name "" then record e { server_name = server } else e)
        (internal_endpoint server pod)
]

unfoldable pub base_member : Parameters → String → Pod → Member
unfolding endpoints
base_member params server pod = record {
  id = pod.uid;
  name = pod.name;
  role = "unknown";
  sync_state = "unknown";
  ready = false;
  reason = "status_unavailable";
  endpoints = endpoints params server pod;
  node = pod.node_name;
  zone = label pod "topology.kubernetes.io/zone";
  region = label pod "topology.kubernetes.io/region";
  timeline = 0;
  replay_lsn = "";
}

-- The default branch of the switch, for an instance that reports its role.
unfoldable pub healthy_member : Member → InstanceStatus → Bool → Member
healthy_member m s true = record m {
  timeline = s.timeline;
  replay_lsn = s.replay_lsn;
  role = "primary";
  reason = "primary_unverified";
}
healthy_member m s false = record m {
  timeline = s.timeline;
  replay_lsn = s.replay_lsn;
  role = "standby";
  reason =
      if s.replay_paused
      then "replay_paused"
      else if not s.wal_receiver_active
      then "wal_receiver_inactive"
      else "replication_unverified";
}

-- Whether the switch reaches its default branch, with the role that the instance reports.
unfoldable pub reported_role : List String → Pod × StatusResult → Option Bool
reported_role fenced (pod, r) =
    if is_fenced fenced pod
      || (not (pod_ready pod) || (r.failed || (r.status.unavailable || r.status.rewinding)))
    then none
    else r.status.is_primary

unfoldable pub member_of : List String → Parameters → String → Pod × StatusResult → Member
unfolding base_member healthy_member
member_of fenced params server (pod, r) =
    let m = base_member params server pod in
    if is_fenced fenced pod
    then record m { reason = "fenced" }
    else if not (pod_ready pod)
    then record m { reason = "pod_not_ready" }
    else if r.failed
    then record m { reason = "status_unavailable" }
    else elim r.status.is_primary [
      | none ↦ record m { reason = "status_unavailable" }
      | some primary ↦
          if r.status.unavailable || r.status.rewinding
          then record m { reason = "instance_unavailable" }
          else healthy_member m r.status primary
    ]

pub record Scan : Type 0 where
  pub primary_index : Option ℕ
  pub primary_count : ℕ
  pub members : List Member

-- Whether the switch counts the instance as a primary.
unfoldable pub claims_primary : List String → Pod × StatusResult → Bool
unfolding reported_role
claims_primary fenced pr = get_or (reported_role fenced pr) false

-- One round of the loop over the Pods, at index `i`.
unfoldable pub scan_round :
    List String → Parameters → String → String → Bool → ℕ → Pod × StatusResult → Scan → Scan
scan_round fenced params server current transits i pr acc =
    let claims = claims_primary fenced pr in
    record {
      primary_index =
          if claims && (string_beq pr.0.name current && not transits)
          then some i
          else acc.primary_index;
      primary_count = if claims then acc.primary_count + 1 else acc.primary_count;
      members = acc.members ++ (member_of fenced params server pr ∷ []);
    }

unfoldable pub scan :
    List String → Parameters → String → String → Bool → ℕ → List (Pod × StatusResult) → Scan → Scan
unfolding scan_round
scan fenced params server current transits i [] acc = acc
scan fenced params server current transits i (pr ∷ prs) acc =
    scan fenced params server current transits (suc i) prs
      (scan_round fenced params server current transits i pr acc)

-- The senders of the primary by application name, and the names that stand twice.
pub record SenderIndex : Type 0 where
  pub replication : Map String ReplicationStatus
  pub duplicates : Map String Bool

unfoldable pub senders : List ReplicationStatus → SenderIndex → SenderIndex
senders [] acc = acc
senders (r ∷ rs) acc = senders rs (record {
  duplicates =
      if has r.application_name acc.replication
      then insert r.application_name true acc.duplicates
      else acc.duplicates;
  replication = insert r.application_name r acc.replication;
})

abbrev pub sync_states : List String
sync_states = "sync" ∷ "quorum" ∷ "potential" ∷ "async" ∷ []

unfoldable pub streams : SenderIndex → Member → ReplicationStatus → Bool
streams s m state =
    not (get_or (lookup m.name s.duplicates) false)
    && (string_beq state.state "streaming" && contains sync_states state.sync_state)

-- One round of the loop that verifies replicas against the primary.
unfoldable pub verify_replica : InstanceStatus → SenderIndex → InstanceStatus → Member → Member
unfolding streams
verify_replica primary s status m =
    if not (string_beq m.role "standby") || not (string_beq m.reason "replication_unverified")
    then m
    else if not (string_beq status.system_id primary.system_id)
    then record m { reason = "database_identity_mismatch" }
    else elim (lookup m.name s.replication) [
      | none ↦ m
      | some state ↦
          if streams s m state
          then record m { sync_state = state.sync_state; ready = true; reason = "" }
          else m
    ]

unfoldable pub verify_replicas :
    InstanceStatus → SenderIndex → List (Pod × StatusResult) → List Member → List Member
unfolding verify_replica
verify_replicas primary s ((pod, r) ∷ prs) (m ∷ ms) =
    verify_replica primary s r.status m ∷ verify_replicas primary s prs ms
verify_replicas primary s _ ms = ms
