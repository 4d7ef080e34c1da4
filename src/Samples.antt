-- ===== src/Samples.antt =====
-- Concrete clusters and snapshots, of which the examples of the parts of internal/ are made.
use cnpg_connect_plugin.Prelude.{
  String, List, [], ◌∷◌, length, Bool, false, true, not, Option, none, some,
}
use cnpg_connect_plugin.Key.{ClusterKey}
use cnpg_connect_plugin.Api.{Snapshot, Member, blank}
use cnpg_connect_plugin.Routing.{Digest}
use cnpg_connect_plugin.Kube.{Pod, Cluster, absent, OwnerReference, Parameters}
use cnpg_connect_plugin.Config.{Library}
use cnpg_connect_plugin.Status.{ReplicationStatus, StatusResult}

abbrev pub key_a : ClusterKey
key_a = record { namespace = "shop"; name = "orders" }

abbrev pub key_b : ClusterKey
key_b = record { namespace = "shop"; name = "stock" }

-- A stand-in for the hash function.
abbrev pub short_hash : Snapshot → Digest
short_hash s = length s.members ∷ []

abbrev pub member_a : Member
member_a = record {
  id = "u1";
  name = "orders-1";
  role = "primary";
  sync_state = "unknown";
  ready = true;
  reason = "";
  endpoints = [];
  node = "n1";
  zone = "z1";
  region = "r1";
  timeline = 1;
  replay_lsn = "";
}

-- Valid from 100 to 200.
abbrev pub snapshot_a : Snapshot
snapshot_a = record {
  api_version = "";
  cluster = record { namespace = "shop"; name = "orders"; uid = "c1" };
  revision = blank;
  observed_at = 100;
  valid_until = 200;
  available = true;
  reason = "";
  primary_id = "u1";
  transitioning = false;
  members = member_a ∷ [];
  connection = record { database = "app"; server_ca_pem = [] };
}

abbrev pub owner_a : OwnerReference
owner_a = record {
  api_version = "postgresql.cnpg.io/v1";
  kind = "Cluster";
  name = "orders";
  uid = "c1";
  controller = some true;
  block_owner_deletion = some true;
}

-- A ready Pod of the cluster by its name, UID and address.
abbrev pub ready_pod : String → String → String → Pod
ready_pod name uid ip = record {
  namespace = "shop";
  name = name;
  uid = uid;
  deleting = false;
  labels = [];
  owner_references = owner_a ∷ [];
  node_name = "n1";
  containers = [];
  phase = "Running";
  pod_ip = ip;
  conditions = record { type = "Ready"; status = "True" } ∷ [];
  container_statuses = [];
}

abbrev pub pod_1 : Pod
pod_1 = ready_pod "orders-1" "u1" "10.0.0.1"

abbrev pub pod_2 : Pod
pod_2 = ready_pod "orders-2" "u2" "10.0.0.2"

abbrev pub cluster_a : Cluster
cluster_a = record {
  namespace = "shop";
  name = "orders";
  uid = "c1";
  deleting = false;
  annotations = [];
  current_primary = "orders-1";
  target_primary = "orders-1";
  plugins = absent;
  databases = ("initdb", "app") ∷ [];
  certificates = "{}";
  server_ca_secret = "orders-ca";
}

-- A library that decodes nothing.
abbrev pub no_library : Library
no_library = record {
  decode_endpoints = λ raw. none;
  decode_values = λ raw. none;
  is_ip = λ raw. false;
  lower_char = λ c. c;
}

abbrev pub no_parameters : Parameters
no_parameters = record { external_endpoints = []; server_name = "" }

-- A decoding of the fencing annotation that always fails.
abbrev pub parse_nothing : String → Option (List String)
parse_nothing raw = none

abbrev pub reports : Bool → List ReplicationStatus → StatusResult
reports primary senders = record {
  status = record {
    is_primary = some primary;
    system_id = "s1";
    timeline = 1;
    replay_lsn = "";
    replay_paused = false;
    wal_receiver_active = not primary;
    rewinding = false;
    unavailable = false;
    replication = senders;
  };
  failed = false;
}

abbrev pub primary_1 : Pod × StatusResult
primary_1 = (
  pod_1,
  reports true
      (record { application_name = "orders-2"; state = "streaming"; sync_state = "async" } ∷ []),
)

abbrev pub replica_2 : Pod × StatusResult
replica_2 = (pod_2, reports false [])

abbrev pub two_instances : List (Pod × StatusResult)
two_instances = primary_1 ∷ replica_2 ∷ []
