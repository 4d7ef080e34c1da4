-- ===== src/Discovery.antt =====
-- internal/discovery/grpc.go: the discovery server over the store. Whether a caller is authorized
-- and whether the names of a request are valid are arguments. Sending to the stream, its context
-- and the select between them are the events of WatchTopology's loop.
pub mod Watch
pub mod Stream
pub mod Notices
pub mod Proto
pub mod Requests
mod Examples
use cnpg_connect_plugin.Prelude.{
  ℕ, String, Bool, true, false, ◌&&◌, ◌||◌, not, Option, none, some, List, [], ◌∷◌, ltb, leb,
  if◌then◌else◌, string_beq, nat_eq,
}
use cnpg_connect_plugin.Prelude.Map.{lookup, insert, has}
use cnpg_connect_plugin.Key.{ClusterKey, key_eq}
use cnpg_connect_plugin.Api.{Snapshot, Time}
use cnpg_connect_plugin.Routing.{Digest}
use cnpg_connect_plugin.Mailbox.{
  Publication, Mailbox, publications, Received, publication, snapshot, blocked, closed_channel,
  receive,
}
use cnpg_connect_plugin.Store.{Store, cluster_key, read_publication}
use cnpg_connect_plugin.Store.Watchers.{
  Registration, deliver_notification, register, finish_registration, cancel,
}
use cnpg_connect_plugin.Store.Sweep.{Refresh, request_refresh}

pub data Status : Type 0 where
  ok : Status
  unauthenticated : Status
  invalid_argument : Status
  not_found : Status
  context_done : Status
  send_failed : Status

-- getPublication: a read, with the expiry it commits delivered at once.
unfoldable pub get_publication :
    (Snapshot → Digest) → Store → ClusterKey → Time → Store × Option Publication
unfolding read_publication deliver_notification
get_publication hash st key now =
    let (st1, found, expiry) = read_publication hash st key now in
    (deliver_notification st1 expiry, found)

-- The answer of GetTopology; the times are read for the refresh and for the read.
unfoldable pub get_topology :
    (Snapshot → Digest)
    → Store
    → Bool
    → Bool
    → ClusterKey
    → Time
    → Time
    → Store × Status × Option Publication
unfolding get_publication request_refresh
get_topology hash st authorized valid key now later =
    if not authorized
    then (st, unauthenticated, none)
    else if not valid
    then (st, invalid_argument, none)
    else (let (st1, found) = get_publication hash (request_refresh st key now).0 key later in
        elim found [ none ↦ (st1, not_found, none) | some p ↦ (st1, ok, some p) ])

-- A publication that was sent, with the times at which it was checked and, where its validity was
-- over, read again.
pub record Sent : Type 0 where
  pub published : Publication
  pub checked : Time
  pub reread : Time

-- A call of WatchTopology in its loop; what it sent last stands first.
pub record Watching : Type 0 where
  pub store : Store
  pub watcher : ℕ
  pub last_sent : ℕ
  pub sent : List Sent
  pub ended : Option Status

-- The recheck of a publication before it is sent; none where the loop waits for another.
unfoldable pub recheck :
    (Snapshot → Digest) → Store → Publication → Time → Time → Store × Option Publication
unfolding get_publication
recheck hash st p now later =
    if not (string_beq p.snapshot.reason "deleted") && not (ltb now p.snapshot.valid_until)
    then get_publication hash st (cluster_key p.snapshot) later
    else (st, some p)

unfoldable pub send : Watching → Option Publication → Time → Time → Bool → Watching
send w none now later succeeds = w
send w (some p) now later succeeds =
    if leb p.order w.last_sent
    then w
    else if succeeds
    then record w {
      last_sent = p.order;
      sent = record { published = p; checked = now; reread = later } ∷ w.sent;
    }
    else record w { ended = some send_failed }

unfoldable pub on_received :
    (Snapshot → Digest) → Watching → Received → Time → Time → Bool → Watching
unfolding recheck send
on_received hash w (publication p) now later succeeds =
    let (st, chosen) = recheck hash w.store p now later in
    send (record w { store = st }) chosen now later succeeds
on_received hash w closed_channel now later succeeds = record w { ended = some ok }
on_received hash w blocked now later succeeds = w
on_received hash w (snapshot s) now later succeeds = w

-- One turn of the loop that finds the updates ready.
unfoldable pub take_update : (Snapshot → Digest) → Watching → Time → Time → Bool → Watching
unfolding on_received
take_update hash w now later succeeds = elim (lookup w.watcher w.store.watchers) [
  | none ↦ w
  | some s ↦
      (let (s', r) = receive s in
        let st : Store = record w.store { watchers = insert w.watcher s' w.store.watchers } in
        on_received hash (record w { store = st }) r now later succeeds)
]

-- What WatchTopology does before its loop; the times are those of the registration.
unfoldable pub watch_topology :
    (Snapshot → Digest) → Store → Bool → Bool → ClusterKey → Time → Time → Watching
unfolding register finish_registration
watch_topology hash st authorized valid key now later =
    let idle : Store → Status → Watching = λ st1 status. record {
      store = st1;
      watcher = 0;
      last_sent = 0;
      sent = [];
      ended = some status;
    } in
    if not authorized
    then idle st unauthenticated
    else if not valid
    then idle st invalid_argument
    else (let (st1, registered) = register hash st key true (publications none) now later in
        elim registered [
          | none ↦ idle st1 not_found
          | some r ↦ record {
            store = finish_registration st1 r;
            watcher = r.watcher;
            last_sent = 0;
            sent = [];
            ended = none;
          }
        ])

-- The deferred cancellation of the subscription, once the loop has ended; a call that was refused
-- has none.
pub end_watch : Watching → ClusterKey → Watching
unfolding cancel
end_watch w key = elim w.ended [
  | none ↦ w
  | some ok ↦ record w { store = cancel w.store key w.watcher }
  | some context_done ↦ record w { store = cancel w.store key w.watcher }
  | some send_failed ↦ record w { store = cancel w.store key w.watcher }
  | some _ ↦ w
]
