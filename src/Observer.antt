-- ===== src/Observer.antt =====
-- The observer's reaction to metadata: enqueue of internal/observer/observer.go, podEvent and
-- clusterDeleted of internal/observer/events.go, commitPublication of
-- internal/observer/publication.go and cancelObservationLocked of internal/observer/work.go. The
-- deliveries that a handler defers until it has unlocked are a list of notifications. Logs are left
-- out. The delaying queue of client-go is the list of the requests made of it.
pub mod Stored
pub mod Withdrawal
pub mod Work
pub mod Options
pub mod Closing
pub mod ClusterEvents
pub mod SecretEvents
pub mod CaWork
pub mod Collection
mod Examples
use cnpg_connect_plugin.Prelude.{
  ℕ, ◌+◌, ◌-◌, String, Bool, true, false, ◌&&◌, ◌||◌, not, Option, none, some, List, [], ◌∷◌, ◌++◌,
  map, ltb, if◌then◌else◌, string_beq, is_some,
}
use cnpg_connect_plugin.Prelude.Map.{Map, lookup, insert, delete, has}
use cnpg_connect_plugin.Key.{ClusterKey, key_eq, key_beq}
use cnpg_connect_plugin.Api.{Time, Snapshot, Member}
use cnpg_connect_plugin.Kube.{Pod, Cluster}
use cnpg_connect_plugin.Routing.{Digest}
use cnpg_connect_plugin.CaCache.{CaCache}
use cnpg_connect_plugin.Queue.{PriorityQueue, promote, add}
use cnpg_connect_plugin.Store.{
  Store, Notification, put_deferred, delete_deferred, read_publication, has_demand,
}
use cnpg_connect_plugin.Topology.{unavailable}
use cnpg_connect_plugin.Evidence.{PrimaryEvidence, key_of}
use cnpg_connect_plugin.Routes.{pod_cluster, same_pod_route, is_ignored}

pub record Observer : Type 0 where
  -- Options: the watched namespace, or the empty text; the poll interval and the lifetime.
  pub namespace : String
  pub poll_interval : ℕ
  pub ttl : ℕ
  pub store : Store
  -- The clusters in the informer's cache.
  pub clusters : Map ClusterKey Cluster
  -- The Pods in the informer's cache.
  pub pods : List Pod
  pub queue : PriorityQueue
  pub delayed : List (ClusterKey × ℕ)
  pub demand_next : Map ClusterKey Time
  -- The observations in flight, true if superseded.
  pub observations : Map ClusterKey Bool
  pub primaries : Map ClusterKey PrimaryEvidence
  pub ca : CaCache

-- The readings of the clock in a handler.
pub record Clock : Type 0 where
  pub observed : Time
  pub before : Time
  pub committed : Time
  pub read : Time
  pub asked : Time
  pub paced : Time

unfoldable pub cancel_observation : Observer → ClusterKey → Observer
cancel_observation o key = elim (lookup key o.observations) [
  | none ↦ o
  | some _ ↦ record o { observations = insert key true o.observations }
]

-- The pacing of demand that is not urgent; what the loop retries is the same step at a later time.
unfoldable pub pace : Observer → ClusterKey → Time → Observer
pace o key now = elim (lookup key o.demand_next) [
  | none ↦ record o {
    demand_next = insert key (now + o.poll_interval) o.demand_next;
    queue = add o.queue key;
  }
  | some deadline ↦
      if ltb now deadline
      then record o { delayed = o.delayed ++ ((key, deadline - now) ∷ []) }
      else record o {
        demand_next = insert key (now + o.poll_interval) o.demand_next;
        queue = add o.queue key;
      }
]

unfoldable pub enqueue : Observer → ClusterKey → Bool → Clock → Observer
unfolding pace
enqueue o key urgent t =
    if string_beq key.namespace ""
      || (string_beq key.name ""
          || (not (string_beq o.namespace "") && not (string_beq key.namespace o.namespace)))
    then o
    else (let (st, demanded) = has_demand o.store key t.asked in
        let o1 : Observer = record o { store = st } in
        if not demanded || not (has key o1.clusters)
        then o1
        else if urgent
        then record o1 { queue = add (promote o1.queue key) key }
        else pace o1 key t.paced)

unfoldable pub commit_publication :
    (Snapshot → Digest) → Observer → Snapshot → Clock → Observer × List Notification
commit_publication hash o s t =
    let (st, changed, n) = put_deferred hash o.store s t.before t.committed in
    (record o { store = st }, n ∷ [])

unfoldable pub withdraw_member : String → Member → Member
withdraw_member uid m =
    if string_beq m.id uid then record m { ready = false; reason = "member_changed" } else m

unfoldable pub withdraw : String → Snapshot → Snapshot
unfolding withdraw_member
withdraw uid s = record s { members = map (withdraw_member uid) s.members }

unfoldable pub route_changed : Pod → Option Pod → Bool
route_changed old none = true
route_changed old (some new) = not (same_pod_route old new)

-- What podEvent does to the store for one cluster of the cache and a Pod whose route changed.
unfoldable pub withdraw_route :
    (Snapshot → Digest)
    → Observer
    → Cluster
    → Pod
    → ClusterKey
    → Clock
    → Observer × List Notification
unfolding commit_publication cancel_observation withdraw
withdraw_route hash o c old key t =
    if string_beq old.name c.current_primary
    then commit_publication hash (cancel_observation o key)
        (unavailable c t.observed o.ttl "primary_changed") t
    else (let (st, found, n) = read_publication hash o.store key t.read in
        let o1 : Observer = record o { store = st } in
        elim found [
          | none ↦ (o1, n ∷ [])
          | some p ↦
              if string_beq p.snapshot.cluster.uid c.uid
              then (let (o2, ns) = commit_publication hash o1 (withdraw old.uid p.snapshot) t in
                  (o2, n ∷ ns))
              else (o1, n ∷ [])
        ])

-- One round of podEvent over the clusters of the old and the new Pod.
unfoldable pub handle_pod :
    (Snapshot → Digest)
    → Observer
    → Option Pod
    → Option Pod
    → ClusterKey
    → Clock
    → Observer × List Notification
unfolding withdraw_route enqueue
handle_pod hash o old new key t =
    let withdrawn : Observer × List Notification = elim (lookup key o.clusters) [
      | none ↦ (o, [])
      | some c ↦ elim old [
        | none ↦ (o, [])
        | some p ↦ if route_changed p new then withdraw_route hash o c p key t else (o, [])
      ]
    ] in
    (enqueue withdrawn.0 key true t, withdrawn.1)

pub key_of_pod : Option Pod → List ClusterKey
key_of_pod none = []
key_of_pod (some p) = elim (pod_cluster p.namespace p.owner_references) [
  | none ↦ []
  | some key ↦ key ∷ []
]

-- The keys of both Pods, once each.
pub event_keys : List ClusterKey → List ClusterKey → List ClusterKey
event_keys (a ∷ as') (b ∷ bs) = if key_beq a b then a ∷ [] else a ∷ b ∷ []
event_keys [] bs = bs
event_keys as' [] = as'

pub handle_keys :
    (Snapshot → Digest)
    → Observer
    → Option Pod
    → Option Pod
    → List ClusterKey
    → Clock
    → Observer × List Notification
unfolding handle_pod
handle_keys hash o old new [] t = (o, [])
handle_keys hash o old new (k ∷ ks) t =
    let (o1, ns) = handle_pod hash o old new k t in
    let (o2, ms) = handle_keys hash o1 old new ks t in (o2, ns ++ ms)

pub ignores : Option Pod → Option Pod → Bool
ignores (some old) (some new) = is_ignored old new
ignores _ _ = false

pub pod_event :
    (Snapshot → Digest) → Observer → Option Pod → Option Pod → Clock → Observer × List Notification
unfolding handle_keys key_of_pod event_keys ignores
pod_event hash o old new t =
    if ignores old new
    then (o, [])
    else handle_keys hash o old new (event_keys (key_of_pod old) (key_of_pod new)) t

pub cluster_deleted : Observer → Cluster → Observer × List Notification
unfolding cancel_observation
cluster_deleted o c =
    let key = key_of c in
    let gone : Observer × List Notification =
      (let o1 = cancel_observation o key in
        let (st, n) = delete_deferred o1.store key in
        (
          record o1 {
            store = st;
            primaries = delete key o1.primaries;
            demand_next = delete key o1.demand_next;
          },
          n ∷ [],
        )) in
    elim (lookup key o.clusters) [
      | none ↦ gone
      | some current ↦ if string_beq current.uid c.uid then gone else (o, [])
    ]
