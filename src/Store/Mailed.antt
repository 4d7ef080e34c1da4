-- ===== src/Store/Mailed.antt =====
-- What waits in the mailboxes of the store (internal/discovery/store.go).
use cnpg_connect_plugin.Prelude.{
  ℕ, ◌≡◌, ◌⊎◌, refl, sym, ◌∙◌, subst, Bool, true, false, ◌&&◌, not, none, some, List, [], ◌∷◌,
  arith, nat_beq, nat_eq, All, Bool-cases, Option-cases, inl, inr,
}
use cnpg_connect_plugin.Prelude.Map.{Map, lookup, insert, has, lookup-insert}
use cnpg_connect_plugin.Key.{ClusterKey, key_eq}
use cnpg_connect_plugin.Api.{Snapshot, Time}
use cnpg_connect_plugin.Routing.{Digest}
use cnpg_connect_plugin.Mailbox.{
  Publication, Mailbox, publications, snapshots, Subscription, new_subscription, deliver, close,
}
use cnpg_connect_plugin.Mailbox.Pending.{Holds, deliver-Holds, new_subscription-Holds, close-Holds}
use cnpg_connect_plugin.Store.{
  Store, StoredRecord, Notification, next_revision, new_publication, put_deferred, commit_snapshot,
  revise, delete_deferred, read_publication, expire_record, has_demand, set_demand_handler,
}
use cnpg_connect_plugin.Store.Watchers.{
  deliver_to, deliver_each, deliver_notification, register, cancel, drop_watcher,
}
use cnpg_connect_plugin.Store.Sweep.{request_refresh, expire, expire_keys, keys_of, active_clusters}
use cnpg_connect_plugin.Store.Operations.{
  Operation, handles, puts, deletes, reads, registers, cancels, delivers, refreshes, asks, lists,
  expires, perform,
}
use cnpg_connect_plugin.Store.Notices.{IsNotice, IsHonest, published_in}
use cnpg_connect_plugin.Store.Issued.{IsIssued, issued-IsNotice}

abbrev pub Watchers : Type 0
Watchers = Map ℕ Subscription

-- What waits under the reason "deleted" routes nobody.
abbrev pub AreMailed : Watchers → Type 0
AreMailed ws = (id : ℕ) (s : Subscription) → lookup id ws ≡ some s → Holds IsNotice s.pending

abbrev pub IsEmpty : Mailbox → Type 0
IsEmpty m = (m ≡ publications none) ⊎ (m ≡ snapshots none)

-- An operation as the program makes it: it puts nothing under the reason "deleted", delivers what
-- the store has given, and registers empty mailboxes.
abbrev pub IsOwn : (Snapshot → Digest) → Operation → Type 0
IsOwn hash (delivers p id) = IsIssued hash p
IsOwn hash (registers k known m now later) = IsEmpty m
IsOwn hash o = IsHonest o

pub insert-AreMailed :
    (id : ℕ) (w : Subscription) (ws : Watchers)
    → Holds IsNotice w.pending
    → AreMailed ws
    → AreMailed (insert id w ws)
insert-AreMailed id w ws h v j s found = elim (Bool-cases (nat_beq id j)) [
  | inl e ↦
      let same : w ≡ s = ground (arith, lookup-insert id j w ws, found, e) in
      subst (λ (x : Subscription). Holds IsNotice x.pending) same h
  | inr e ↦ v j s (ground (arith, lookup-insert id j w ws, found, e))
]

pub deliver_to-AreMailed :
    (st : Store) (p : Publication) (id : ℕ)
    → IsNotice p
    → AreMailed st.watchers
    → AreMailed (deliver_to st p id).watchers
unfolding deliver_to
deliver_to-AreMailed st p id h v = elim (Option-cases (lookup id st.watchers)) [
  | inl e ↦ rw (e, deliver_to) v
  | inr (w, e) ↦
      rw (e, deliver_to)
        (insert-AreMailed id (deliver w p).0 st.watchers (deliver-Holds IsNotice w p h (v id w e))
          v)
]

deliver_each-AreMailed :
    (st : Store) (p : Publication) (ids : List ℕ)
    → IsNotice p
    → AreMailed st.watchers
    → AreMailed (deliver_each st p ids).watchers
unfolding deliver_each
deliver_each-AreMailed st p [] h v = v
deliver_each-AreMailed st p (id ∷ ids) h v =
    deliver_each-AreMailed (deliver_to st p id) p ids h (deliver_to-AreMailed st p id h v)

pub deliver_notification-AreMailed :
    (st : Store) (n : Notification)
    → All IsNotice (published_in n)
    → AreMailed st.watchers
    → AreMailed (deliver_notification st n).watchers
unfolding deliver_notification
deliver_notification-AreMailed st n h v = elim (Option-cases n.publication) [
  | inl e ↦ rw (e, deliver_notification) v
  | inr (p, e) ↦
      let here : All IsNotice (p ∷ []) =
        subst (λ x. All IsNotice (elim x [ none ↦ [] | some q ↦ q ∷ [] ])) e h in
      rw (e, deliver_notification) (deliver_each-AreMailed st p n.watchers here.0 v)
]

revise-watchers :
    (st : Store) (k : ClusterKey) (b : Bool) → (revise st k b).0.watchers ≡ st.watchers
unfolding revise next_revision
revise-watchers st k true = refl
revise-watchers st k false = refl

module _ (hash : Snapshot → Digest) where
  put-watchers :
      (st : Store) (s : Snapshot) (before now : Time)
      → (put_deferred hash st s before now).0.watchers ≡ st.watchers
  unfolding put_deferred commit_snapshot new_publication
  put-watchers st s before now = revise-watchers st _ _

  delete-watchers : (st : Store) (k : ClusterKey) → (delete_deferred st k).0.watchers ≡ st.watchers
  unfolding delete_deferred next_revision new_publication
  delete-watchers st k = ground arith

  expire-watchers :
      (st : Store) (k : ClusterKey) (r : StoredRecord) (now : Time)
      → (expire_record hash st k r now).0.watchers ≡ st.watchers
  unfolding expire_record next_revision new_publication
  expire-watchers st k r now = ground arith

  pub read-watchers :
      (st : Store) (k : ClusterKey) (now : Time)
      → (read_publication hash st k now).0.watchers ≡ st.watchers
  unfolding read_publication
  read-watchers st k now = elim (Option-cases (lookup k st.records)) [
    | inl e ↦ rw (e, read_publication) refl
    | inr (r, e) ↦ rw (e, read_publication) (expire-watchers st k r now)
  ]

  expire_keys-watchers :
      (now : Time) (ks : List ClusterKey) (st : Store)
      → (expire_keys hash now ks st).0.watchers ≡ st.watchers
  unfolding expire_keys
  expire_keys-watchers now [] st = refl
  expire_keys-watchers now (k ∷ ks) st = elim (Option-cases (lookup k st.records)) [
    | inl e ↦ rw (e, expire_keys) (expire_keys-watchers now ks st)
    | inr (r, e) ↦
        rw (e, expire_keys)
          (expire_keys-watchers now ks (expire_record hash st k r now).0
            ∙ expire-watchers st k r now)
  ]

has_demand-watchers :
    (st : Store) (k : ClusterKey) (now : Time) → (has_demand st k now).0.watchers ≡ st.watchers
unfolding has_demand
has_demand-watchers st k now = ground arith

refresh-watchers :
    (st : Store) (k : ClusterKey) (now : Time) → (request_refresh st k now).0.watchers ≡ st.watchers
unfolding request_refresh has_demand
refresh-watchers st k now = ground arith

empty-Holds : (m : Mailbox) → IsEmpty m → Holds IsNotice m
empty-Holds m (inl e) = rw e tt
empty-Holds m (inr e) = rw e tt

pub cancel-AreMailed :
    (st : Store) (k : ClusterKey) (id : ℕ)
    → AreMailed st.watchers
    → AreMailed (cancel st k id).watchers
unfolding cancel drop_watcher close
cancel-AreMailed st k id v = elim (Option-cases (lookup id st.watchers)) [
  | inl e ↦ rw (e, cancel) v
  | inr (w, e) ↦ elim (Bool-cases w.closed) [
    | inl c ↦ rw (e, cancel, c) v
    | inr c ↦
        rw (e, cancel, c)
          (insert-AreMailed id (close w) st.watchers (close-Holds IsNotice w (v id w e)) v)
  ]
]

module _ (hash : Snapshot → Digest) where
  pub register-AreMailed :
      (st : Store) (k : ClusterKey) (known : Bool) (m : Mailbox) (now later : Time)
      → IsEmpty m
      → AreMailed st.watchers
      → AreMailed (register hash st k known m now later).0.watchers
  unfolding register
  register-AreMailed st k known m now later h v =
      let st1 = (read_publication hash st k now).0 in
      let same : (has_demand st1 k later).0.watchers ≡ st.watchers =
        has_demand-watchers st1 k later ∙ read-watchers hash st k now in
      elim (Bool-cases (not (has k st.records) && known)) [
        | inl refused ↦ rw refused v
        | inr taken ↦ rw taken (
            insert-AreMailed (has_demand st1 k later).0.next_watcher (new_subscription m) _
              (new_subscription-Holds IsNotice m (empty-Holds m h)) (subst AreMailed (sym same) v))
      ]

  pub perform-AreMailed :
      (st : Store) (o : Operation)
      → IsOwn hash o
      → AreMailed st.watchers
      → AreMailed (perform hash st o).watchers
  unfolding perform set_demand_handler expire active_clusters
  perform-AreMailed st (handles lease) h v = v
  perform-AreMailed st (puts s before now) h v = rw (put-watchers hash st s before now) v
  perform-AreMailed st (deletes k) h v = rw (delete-watchers hash st k) v
  perform-AreMailed st (reads k now) h v = rw (read-watchers hash st k now) v
  perform-AreMailed st (registers k known m now later) h v =
      register-AreMailed st k known m now later h v
  perform-AreMailed st (cancels k id) h v = cancel-AreMailed st k id v
  perform-AreMailed st (delivers p id) h v =
      deliver_to-AreMailed st p id (issued-IsNotice hash p h) v
  perform-AreMailed st (refreshes k now) h v = rw (refresh-watchers st k now) v
  perform-AreMailed st (asks k now) h v = rw (has_demand-watchers st k now) v
  perform-AreMailed st (lists now) h v = v
  perform-AreMailed st (expires now) h v =
      rw (expire_keys-watchers hash now (keys_of st.records) st) v

  pub own-IsHonest : (o : Operation) → IsOwn hash o → IsHonest o
  own-IsHonest (handles lease) h = tt
  own-IsHonest (puts s before now) h = h
  own-IsHonest (deletes k) h = tt
  own-IsHonest (reads k now) h = tt
  own-IsHonest (registers k known m now later) h = tt
  own-IsHonest (cancels k id) h = tt
  own-IsHonest (delivers p id) h = tt
  own-IsHonest (refreshes k now) h = tt
  own-IsHonest (asks k now) h = tt
  own-IsHonest (lists now) h = tt
  own-IsHonest (expires now) h = tt
