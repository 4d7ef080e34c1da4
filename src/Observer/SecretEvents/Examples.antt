-- ===== src/Observer/SecretEvents/Examples.antt =====
-- A rotated CA Secret of a Cluster that is being observed, and the theorem at it.
use cnpg_connect_plugin.Prelude.{
  ◌≡◌, ◌≢◌, refl, string_beq, string_beq_iff, true, false, some, [], ◌∷◌,
}
use cnpg_connect_plugin.Prelude.Map.{lookup}
use cnpg_connect_plugin.Key.{ClusterKey, key_eq, key_beq}
use cnpg_connect_plugin.Queue.{new_queue}
use cnpg_connect_plugin.Store.{new_store}
use cnpg_connect_plugin.Store.Operations.{perform, puts}
use cnpg_connect_plugin.Config.Enrollment.{parameters}
use cnpg_connect_plugin.Evidence.{key_of}
use cnpg_connect_plugin.CaCache.{CaCache, current_ca, ca_key}
use cnpg_connect_plugin.Observer.{Observer, Clock}
use cnpg_connect_plugin.Observer.SecretEvents.{
  index_server_ca, listed_under, clusters_using_ca, secret_event,
}
use cnpg_connect_plugin.Observer.SecretEvents.Rotation.{IsForgotten, IsCleared, rotation-IsCleared}
use cnpg_connect_plugin.Samples.{no_library, cluster_a, key_a, short_hash, snapshot_a}

abbrev secret_key : ClusterKey
secret_key = record { namespace = "shop"; name = "orders-ca" }

-- The informer has version 2 of the Secret, the cache the certificates of version 1.
abbrev rotated : CaCache
rotated = record {
  secrets = (secret_key, record { uid = "s1"; resource_version = "2" }) ∷ [];
  cas =
      (
        secret_key,
        record { id = 0; key = secret_key; uid = "s1"; resource_version = "1"; public = 65 ∷ [] },
      )
      ∷ [];
  reads = [];
  pending = [];
  queue = [];
  next_id = 1;
}

abbrev routed : Observer
routed = record {
  namespace = "";
  poll_interval = 10;
  ttl = 60;
  store = perform short_hash (new_store "p") (puts snapshot_a 100 100);
  clusters = (key_a, cluster_a) ∷ [];
  pods = [];
  queue = new_queue;
  delayed = [];
  demand_next = [];
  observations = (key_a, false) ∷ [];
  primaries = [];
  ca = rotated;
}

abbrev at_130 : ClusterKey → Clock
at_130 key = record {
  observed = 130;
  before = 130;
  committed = 130;
  read = 130;
  asked = 130;
  paced = 130;
}

is_stale : current_ca routed.ca (lookup secret_key routed.ca.cas) ≡ false
unfolding current_ca lookup key_beq string_beq
is_stale = refl

uses_secret : clusters_using_ca no_library routed.clusters secret_key ≡ cluster_a ∷ []
unfolding clusters_using_ca index_server_ca listed_under ca_key parameters lookup key_beq string_beq
uses_secret = refl

is_cached : lookup key_a routed.clusters ≡ some cluster_a
unfolding lookup key_beq string_beq
is_cached = refl

is_enabled : (parameters no_library cluster_a).0 ≡ true
unfolding parameters lookup string_beq
is_enabled = refl

names_ca : cluster_a.server_ca_secret ≢ ""
unfolding string_beq
names_ca h = let e : false ≡ true = (string_beq_iff cluster_a.server_ca_secret "").1 h in cc

rotation-IsCleared_example :
    let o' = (secret_event short_hash no_library routed secret_key at_130).0 in
    IsForgotten o'.ca secret_key × IsCleared o' (key_of cluster_a)
rotation-IsCleared_example =
    rotation-IsCleared short_hash no_library routed secret_key at_130 key_a cluster_a is_stale
      is_cached is_enabled refl names_ca refl
