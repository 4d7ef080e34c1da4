-- ===== src/Store/Watchers.antt =====
-- internal/discovery/store.go: delivery outside the lock, registration of a watcher and its
-- cancellation.
use cnpg_connect_plugin.Prelude.{
  ℕ, suc, ◌+◌, Bool, ◌&&◌, not, Option, none, some, List, [], ◌∷◌, if◌then◌else◌, nat_beq, nat_eq,
  filter_by,
}
use cnpg_connect_plugin.Prelude.Map.{lookup, insert, delete, has}
use cnpg_connect_plugin.Key.{ClusterKey, key_eq}
use cnpg_connect_plugin.Api.{Snapshot, Time}
use cnpg_connect_plugin.Routing.{Digest}
use cnpg_connect_plugin.Mailbox.{Publication, Mailbox, new_subscription, deliver, close}
use cnpg_connect_plugin.Store.{Store, Notification, watchers_of, u64, has_demand, read_publication}

-- One watcher's delivery; what it drops from the slot counts as coalesced.
unfoldable pub deliver_to : Store → Publication → ℕ → Store
deliver_to st p id = elim (lookup id st.watchers) [
  | none ↦ st
  | some watcher ↦
      (let (watcher', replaced) = deliver watcher p in
        record st {
          watchers = insert id watcher' st.watchers;
          coalesced = if replaced then u64 (st.coalesced + 1) else st.coalesced;
        })
]

unfoldable pub deliver_each : Store → Publication → List ℕ → Store
unfolding deliver_to
deliver_each st p [] = st
deliver_each st p (id ∷ ids) = deliver_each (deliver_to st p id) p ids

-- A notification without publication has no watchers.
unfoldable pub deliver_notification : Store → Notification → Store
unfolding deliver_each
deliver_notification st n = elim n.publication [ none ↦ st | some p ↦ deliver_each st p n.watchers ]

pub record Registration : Type 0 where
  pub watcher : ℕ
  -- The expiry to deliver, then the publication that the mailbox starts with.
  pub expired : Notification
  pub initial : Option Publication
  -- Whether the demand handler is called.
  pub demanded : Bool

-- The critical section of register; `none` where an unknown cluster is refused. The times are read
-- for the expiry and for the demand.
unfoldable pub register :
    (Snapshot → Digest)
    → Store
    → ClusterKey
    → Bool
    → Mailbox
    → Time
    → Time
    → Store × Option Registration
unfolding read_publication has_demand
register hash st key require_existing mailbox now later =
    if not (has key st.records) && require_existing
    then (st, none)
    else (let (st1, initial, expired) = read_publication hash st key now in
        let (st2, active) = has_demand st1 key later in
        let id = st2.next_watcher in
        (
          record st2 {
            subscribers = insert key (id ∷ watchers_of st2 key) st2.subscribers;
            watchers = insert id (new_subscription mailbox) st2.watchers;
            next_watcher = suc id;
          },
          some (record {
            watcher = id;
            expired = expired;
            initial = initial;
            demanded = not active && st2.on_demand;
          }),
        ))

-- What register does after unlocking, but for the call of the handler.
unfoldable pub finish_registration : Store → Registration → Store
unfolding deliver_notification deliver_to
finish_registration st r =
    let st1 = deliver_notification st r.expired in
    elim r.initial [ none ↦ st1 | some p ↦ deliver_to st1 p r.watcher ]

unfoldable pub drop_watcher : Store → ClusterKey → ℕ → Store
drop_watcher st key id =
    let left = filter_by (λ w. not (nat_beq w id)) (watchers_of st key) in
    record st {
      subscribers = elim left [
        | [] ↦ delete key st.subscribers
        | w ∷ ws ↦ insert key (w ∷ ws) st.subscribers
      ];
    }

-- Only the first call of a cancellation does something, and it closes the mailbox.
unfoldable pub cancel : Store → ClusterKey → ℕ → Store
unfolding drop_watcher
cancel st key id = elim (lookup id st.watchers) [
  | none ↦ st
  | some watcher ↦
      if watcher.closed
      then st
      else (let st1 = drop_watcher st key id in
          record st1 { watchers = insert id (close watcher) st1.watchers })
]
