-- ===== src/Observer/Work/Examples.antt =====
-- An urgent observation that fails (internal/observer/work.go).
use cnpg_connect_plugin.Prelude.{◌≡◌, refl, true, false, [], ◌∷◌, get_or, is_some, string_beq}
use cnpg_connect_plugin.Prelude.Map.{lookup}
use cnpg_connect_plugin.Key.{key_eq, key_beq}
use cnpg_connect_plugin.Queue.{PriorityQueue, is_urgent}
use cnpg_connect_plugin.Store.{Store, new_store, has_demand, cluster_identity}
use cnpg_connect_plugin.Observer.{Observer, Clock}
use cnpg_connect_plugin.CaCache.History.{empty_cache}
use cnpg_connect_plugin.Samples.{cluster_a, key_a, snapshot_a}

abbrev working_queue : PriorityQueue
working_queue = record {
  urgent = [];
  background = [];
  entries = [];
  dirty = [];
  processing = (key_a, true) ∷ [];
  promoted = [];
  burst = 0;
  shutting_down = false;
  drain = false;
  next_id = 1;
}

abbrev demanded_store : Store
demanded_store = record (new_store "p") {
  records =
      (
        key_a,
        record {
          publication = record { snapshot = snapshot_a; order = 1 };
          routing = [];
          expired = false;
        },
      )
      ∷ [];
  subscribers = (key_a, 0 ∷ []) ∷ [];
  unary_demand = [];
}

abbrev working : Observer
working = record {
  namespace = "";
  poll_interval = 10;
  ttl = 60;
  store = demanded_store;
  clusters = (key_a, cluster_a) ∷ [];
  queue = working_queue;
  delayed = [];
  demand_next = [];
  observations = (key_a, false) ∷ [];
  primaries = [];
  pods = [];
  ca = empty_cache;
}

abbrev at_150 : Clock
at_150 = record {
  observed = 150;
  before = 150;
  committed = 150;
  read = 150;
  asked = 150;
  paced = 150;
}

works_urgently : is_urgent working.queue key_a ≡ true
unfolding is_urgent lookup key_beq string_beq
works_urgently = refl

not_superseded : get_or (lookup key_a working.observations) false ≡ false
unfolding lookup key_beq string_beq
not_superseded = refl

demanded : (has_demand working.store key_a at_150.asked).1 ≡ true
unfolding has_demand lookup key_beq string_beq
demanded = refl

identified : is_some (cluster_identity (has_demand working.store key_a at_150.asked).0 key_a) ≡ true
unfolding has_demand cluster_identity lookup key_beq string_beq
identified = refl
