-- ===== src/Store.antt =====
-- internal/discovery/store.go: the store of current publications, their watchers and their demand.
-- The state that the mutex guards is one record, with the mailboxes of the subscriptions as a heap
-- of numbered records. A method is its critical section: it takes the times that it reads from the
-- clock, and returns the notification that it delivers after unlocking. Counters of 64 bits wrap.
use cnpg_connect_plugin.Prelude.{
  ℕ, zero, suc, String, ◌+◌, ◌%◌, ◌^◌, ◌≡◌, Bool, true, false, ◌&&◌, ◌||◌, not, Option, none, some,
  List, [], ◌∷◌, ◌++◌, map, ltb, leb, if◌then◌else◌, get_or, is_some, nat_beq, nat_eq, contains,
  length,
}
use cnpg_connect_plugin.Prelude.Map.{Map, lookup, insert, delete, has}
pub mod Watchers
pub mod Sweep
pub mod Invariant
pub mod Expiry
pub mod Operations
pub mod Freshness
pub mod Notices
pub mod Issued
pub mod Mailed
pub mod Publishing
pub mod Rereading
pub mod Deleting
pub mod Expiring
pub mod Demand
mod Examples
use mathlib.Core.Option
use cnpg_connect_plugin.Key.{ClusterKey, key_eq}
use cnpg_connect_plugin.Api.{Snapshot, ClusterRef, Revision, numbered, Time, api_version}
use cnpg_connect_plugin.Routing.{Digest, digest_beq, invalidate, routing_digest}
use cnpg_connect_plugin.Mailbox.{
  Publication, Mailbox, Subscription, new_subscription, deliver, close,
}

abbrev pub u64 : ℕ → ℕ
u64 n = n % 2 ^ 64

pub record StoredRecord : Type 0 where
  pub publication : Publication
  pub routing : Digest
  pub expired : Bool

pub record Store : Type 0 where
  pub coalesced : ℕ
  pub expirations : ℕ
  pub records : Map ClusterKey StoredRecord
  -- The watchers of a cluster, by their numbers.
  pub subscribers : Map ClusterKey (List ℕ)
  pub unary_demand : Map ClusterKey Time
  -- Whether a demand handler is set.
  pub on_demand : Bool
  pub unary_lease : ℕ
  pub process_id : String
  pub sequence : ℕ
  pub publication_order : ℕ
  -- The subscriptions by number, and the next number.
  pub watchers : Map ℕ Subscription
  pub next_watcher : ℕ

unfoldable pub new_store : String → Store
new_store process_id = record {
  coalesced = 0;
  expirations = 0;
  records = [];
  subscribers = [];
  unary_demand = [];
  on_demand = false;
  unary_lease = 0;
  process_id = process_id;
  sequence = 0;
  publication_order = 0;
  watchers = [];
  next_watcher = 0;
}

unfoldable pub set_demand_handler : Store → ℕ → Store
set_demand_handler st lease = record st { on_demand = true; unary_lease = lease }

pub record Notification : Type 0 where
  pub publication : Option Publication
  pub watchers : List ℕ

abbrev pub no_notification : Notification
no_notification = record { publication = none; watchers = [] }

abbrev pub watchers_of : Store → ClusterKey → List ℕ
watchers_of st key = get_or (lookup key st.subscribers) []

unfoldable pub notification : Store → ClusterKey → Publication → Notification
notification st key p = record { publication = some p; watchers = watchers_of st key }

unfoldable pub next_revision : Store → Store × Revision
next_revision st =
    let n = u64 (st.sequence + 1) in (record st { sequence = n }, numbered st.process_id n)

unfoldable pub new_publication : Store → Snapshot → Store × Publication
new_publication st s =
    let n = u64 (st.publication_order + 1) in
    (record st { publication_order = n }, record { snapshot = s; order = n })

-- An absent lease reads as the zero time.
unfoldable pub has_demand : Store → ClusterKey → Time → Store × Bool
has_demand st key now =
    let unary = ltb now (get_or (lookup key st.unary_demand) 0) in
    let watched = ltb 0 (length (watchers_of st key)) in
    (
      if unary then st else record st { unary_demand = delete key st.unary_demand },
      watched || unary,
    )

-- The publication and record that replace one whose time is over.
unfoldable pub expire_record :
    (Snapshot → Digest) → Store → ClusterKey → StoredRecord → Time → Store × Notification
unfolding next_revision new_publication notification
expire_record hash st key current now =
    if current.expired || ltb now current.publication.snapshot.valid_until
    then (st, no_notification)
    else (let (st1, revision) = next_revision st in
        let expired : Snapshot = record (invalidate current.publication.snapshot) {
          revision = revision;
        } in
        let (st2, published) = new_publication st1 expired in
        let current' : StoredRecord = record {
          publication = published;
          routing = routing_digest hash expired;
          expired = true;
        } in
        (
          record st2 {
            records = insert key current' st2.records;
            expirations = u64 (st2.expirations + 1);
          },
          notification st2 key published,
        ))

abbrev pub cluster_key : Snapshot → ClusterKey
cluster_key s = record { namespace = s.cluster.namespace; name = s.cluster.name }

-- Whether the store holds other routing than this, or none.
unfoldable pub routing_changed : Store → ClusterKey → Digest → Bool
routing_changed st key routing = elim (lookup key st.records) [
  | none ↦ true
  | some previous ↦ not (digest_beq previous.routing routing)
]

-- The revision for a snapshot: a new one if routing changed, else that of the record.
unfoldable pub revise : Store → ClusterKey → Bool → Store × Option Revision
unfolding next_revision
revise st key true = let r = next_revision st in (r.0, some r.1)
revise st key false = (
  st,
  elim (lookup key st.records) [
    | none ↦ none
    | some previous ↦ some previous.publication.snapshot.revision
  ],
)

-- Everything of PutDeferred under the lock, for a snapshot that is known to be valid or not.
unfoldable pub commit_snapshot :
    (Snapshot → Digest) → Store → Snapshot → Bool → Store × Bool × Notification
unfolding routing_changed revise new_publication notification
commit_snapshot hash st snapshot expired =
    let key = cluster_key snapshot in
    let routing = routing_digest hash snapshot in
    let changed = routing_changed st key routing in
    let (st1, revision) = revise st key changed in
    let revised : Snapshot = record snapshot { revision = get_or revision snapshot.revision } in
    let (st2, published) = new_publication st1 revised in
    let current : StoredRecord = record {
      publication = published;
      routing = routing;
      expired = expired;
    } in
    let st3 : Store = record st2 { records = insert key current st2.records } in
    (st3, changed, notification st3 key published)

-- `before` is read before taking the lock, `now` under it.
unfoldable pub put_deferred :
    (Snapshot → Digest) → Store → Snapshot → Time → Time → Store × Bool × Notification
unfolding commit_snapshot
put_deferred hash st snapshot before now =
    let current : Snapshot = record snapshot { api_version = api_version } in
    let expired = not (ltb before snapshot.valid_until) || not (ltb now snapshot.valid_until) in
    commit_snapshot hash st (if expired then invalidate current else current) expired

unfoldable pub tombstone : Snapshot → Revision → Snapshot
tombstone s revision = record s {
  revision = revision;
  available = false;
  reason = "deleted";
  primary_id = "";
  transitioning = false;
  members = [];
}

unfoldable pub delete_deferred : Store → ClusterKey → Store × Notification
unfolding next_revision new_publication notification tombstone
delete_deferred st key =
    let st0 : Store = record st { unary_demand = delete key st.unary_demand } in
    elim (lookup key st0.records) [
      | none ↦ (st0, no_notification)
      | some previous ↦
          (let (st1, revision) = next_revision st0 in
            let deleted = tombstone previous.publication.snapshot revision in
            let st2 : Store = record st1 { records = delete key st1.records } in
            let (st3, published) = new_publication st2 deleted in
            (st3, notification st3 key published))
    ]

unfoldable pub cluster_identity : Store → ClusterKey → Option ClusterRef
cluster_identity st key = elim (lookup key st.records) [
  | none ↦ none
  | some current ↦ some current.publication.snapshot.cluster
]

unfoldable pub read_publication :
    (Snapshot → Digest) → Store → ClusterKey → Time → Store × Option Publication × Notification
unfolding expire_record
read_publication hash st key now = elim (lookup key st.records) [
  | none ↦ (st, none, no_notification)
  | some current ↦
      (let (st1, expiry) = expire_record hash st key current now in
        (st1, Option.map (λ (r : StoredRecord). r.publication) (lookup key st1.records), expiry))
]
