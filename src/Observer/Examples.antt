-- ===== src/Observer/Examples.antt =====
-- A primary that goes before anything was observed (internal/observer/events.go).
use cnpg_connect_plugin.Prelude.{◌≡◌, refl, true, false, none, some, List, [], ◌∷◌, string_beq}
use cnpg_connect_plugin.Prelude.Map.{lookup, insert, delete}
use cnpg_connect_plugin.Key.{key_eq, key_beq}
use cnpg_connect_plugin.Api.{numbered}
use cnpg_connect_plugin.Queue.{new_queue}
use cnpg_connect_plugin.Store.{
  StoredRecord, new_store, has_demand, put_deferred, commit_snapshot, routing_changed, revise,
  next_revision, new_publication, notification,
}
use cnpg_connect_plugin.Routing.{routing_digest, routing_view}
use cnpg_connect_plugin.Prelude.Sort.{sort_by}
use cnpg_connect_plugin.Topology.{unavailable, cluster_ref}
use cnpg_connect_plugin.Store.Operations.{Operation, perform_all, store-Inv}
use cnpg_connect_plugin.Evidence.{key_of}
use cnpg_connect_plugin.Observer.{
  Observer, Clock, route_changed, handle_pod, withdraw_route, commit_publication,
  cancel_observation, enqueue,
}
use cnpg_connect_plugin.Observer.Withdrawal.{IsWithdrawn, handle_pod-IsWithdrawn}
use cnpg_connect_plugin.CaCache.History.{empty_cache}
use cnpg_connect_plugin.Samples.{cluster_a, key_a, pod_1, short_hash}

abbrev nothing_done : List Operation
nothing_done = []

abbrev observer_a : Observer
observer_a = record {
  namespace = "";
  poll_interval = 10;
  ttl = 60;
  store = perform_all short_hash (new_store "p") nothing_done;
  clusters = (key_a, cluster_a) ∷ [];
  queue = new_queue;
  delayed = [];
  demand_next = [];
  observations = [];
  primaries = [];
  pods = [];
  ca = empty_cache;
}

abbrev at_130 : Clock
at_130 = record {
  observed = 130;
  before = 130;
  committed = 130;
  read = 130;
  asked = 130;
  paced = 130;
}

cached : lookup (key_of cluster_a) observer_a.clusters ≡ some cluster_a
unfolding lookup key_beq string_beq
cached = refl

gone : route_changed pod_1 none ≡ true
unfolding route_changed
gone = refl

abbrev left_record : StoredRecord
left_record = record {
  publication = record {
    snapshot = record (unavailable cluster_a 130 60 "primary_changed") {
      revision = numbered "p" 1;
    };
    order = 1;
  };
  routing = 0 ∷ [];
  expired = false;
}

stays_stored :
    lookup
      (key_of cluster_a)
      (handle_pod short_hash observer_a (some pod_1) none (key_of cluster_a) at_130).0.store.records
    ≡ some left_record
unfolding handle_pod withdraw_route commit_publication cancel_observation enqueue has_demand
    put_deferred commit_snapshot routing_changed revise next_revision new_publication notification
    unavailable cluster_ref routing_digest routing_view sort_by insert lookup delete new_store
    perform_all key_beq string_beq route_changed
stays_stored = refl

same_incarnation : left_record.publication.snapshot.cluster.uid ≡ cluster_a.uid
unfolding unavailable cluster_ref
same_incarnation = refl

handle_pod-IsWithdrawn_example : IsWithdrawn cluster_a pod_1 left_record.publication.snapshot
handle_pod-IsWithdrawn_example =
    handle_pod-IsWithdrawn short_hash observer_a cluster_a pod_1 at_130 none left_record
      (store-Inv short_hash "p" nothing_done) cached gone stays_stored same_incarnation
