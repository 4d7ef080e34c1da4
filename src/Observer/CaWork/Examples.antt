-- ===== src/Observer/CaWork/Examples.antt =====
-- A CA that a worker reads for a Cluster that is asked for, and the theorem at it.
use cnpg_connect_plugin.Prelude.{◌≡◌, refl, true, false, some, [], ◌∷◌, string_beq}
use cnpg_connect_plugin.Prelude.Map.{lookup, insert, delete}
use cnpg_connect_plugin.Key.{ClusterKey, key_eq, key_beq}
use cnpg_connect_plugin.Queue.{new_queue}
use cnpg_connect_plugin.Store.{new_store, has_demand}
use cnpg_connect_plugin.Config.Enrollment.{parameters}
use cnpg_connect_plugin.CaCache.{SecretMeta, ReadSecret, begin_fetch, current_ca, ca_key}
use cnpg_connect_plugin.Observer.{Observer, Clock}
use cnpg_connect_plugin.Observer.SecretEvents.{index_server_ca, listed_under, clusters_using_ca}
use cnpg_connect_plugin.Observer.CaWork.{
  reads, keep_asked, demanded_ca_clusters, any_cluster, start_fetch, begin_ca_work, end_ca_work,
}
use cnpg_connect_plugin.Observer.CaWork.Outcome.{Answered, ca_work-Answered}
use cnpg_connect_plugin.Samples.{no_library, cluster_a, key_a}

abbrev secret_key : ClusterKey
secret_key = record { namespace = "shop"; name = "orders-ca" }

abbrev version_1 : SecretMeta
version_1 = record { uid = "s1"; resource_version = "1" }

abbrev read_1 : ReadSecret
read_1 = record { uid = "s1"; resource_version = "1"; public = 65 ∷ [] }

-- The Secret was asked for, and a unary request has asked for the Cluster until 150.
abbrev asked : Observer
asked = record {
  namespace = "";
  poll_interval = 10;
  ttl = 60;
  store = record (new_store "p") { unary_demand = (key_a, 150) ∷ [] };
  clusters = (key_a, cluster_a) ∷ [];
  pods = [];
  queue = new_queue;
  delayed = [];
  demand_next = [];
  observations = [];
  primaries = [];
  ca = record {
    secrets = (secret_key, version_1) ∷ [];
    cas = [];
    reads = [];
    pending = (secret_key, true) ∷ [];
    queue = [];
    next_id = 0;
  };
}

abbrev at_130 : ClusterKey → Clock
at_130 key = record {
  observed = 130;
  before = 130;
  committed = 130;
  read = 130;
  asked = 130;
  paced = 130;
}

abbrev reading : Observer
reading = (begin_ca_work no_library asked secret_key false true at_130).0

begins : (begin_ca_work no_library asked secret_key false true at_130).1 ≡ reads version_1
unfolding begin_ca_work start_fetch demanded_ca_clusters keep_asked any_cluster has_demand
    begin_fetch current_ca clusters_using_ca index_server_ca listed_under ca_key parameters lookup
    insert delete key_beq string_beq new_store
begins = refl

ca_work-Answered_example :
    Answered no_library asked secret_key at_130
      (begin_ca_work no_library asked secret_key false true at_130)
    × Answered no_library reading secret_key at_130
        (end_ca_work no_library reading secret_key version_1 (some read_1) false true at_130)
ca_work-Answered_example =
    ca_work-Answered no_library asked reading secret_key at_130 at_130 version_1 (some read_1) false
      true false true
