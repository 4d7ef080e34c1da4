-- ===== src/Store/Demand.antt =====
-- The demand that a unary reader makes, and the end of a watch (internal/discovery/store.go).
use cnpg_connect_plugin.Prelude.{
  ℕ, ◌+◌, ◌<◌, ◌≡◌, refl, ap, subst, ◌∙◌, true, false, not, some, List, [], ◌∷◌, arith, ltb, get_or,
  filter_by, contains, nat_beq, nat_beq_iff, nat_eq,
}
use cnpg_connect_plugin.Prelude.Map.{lookup, insert, delete, has, lookup-insert, lookup-delete}
use cnpg_connect_plugin.Key.{ClusterKey, key_eq, key_beq_iff}
use cnpg_connect_plugin.Api.{Time}
use cnpg_connect_plugin.Mailbox.{Subscription, close}
use cnpg_connect_plugin.Store.{Store, has_demand, watchers_of}
use cnpg_connect_plugin.Store.Watchers.{drop_watcher, cancel}
use cnpg_connect_plugin.Store.Sweep.{request_refresh}

lease_set :
    (st : Store) (key : ClusterKey) (now : Time)
    → has key st.records ≡ true
    → 0 < st.unary_lease
    → lookup key (request_refresh st key now).0.unary_demand ≡ some (now + st.unary_lease)
unfolding request_refresh has_demand
lease_set st key now known leased = ground (
  arith,
  key_beq_iff key key,
  lookup-insert key key (now + st.unary_lease) st.unary_demand,
  lookup-insert key key (now + st.unary_lease) (delete key st.unary_demand),
)

lease_kept :
    (st : Store) (key : ClusterKey) (now deadline : Time)
    → lookup key st.unary_demand ≡ some deadline
    → now < deadline
    → (has_demand st key now).0 ≡ st
unfolding has_demand
lease_kept st key now deadline e h =
    let live : ltb now (get_or (lookup key st.unary_demand) 0) ≡ true = ground arith in
    rw (live, has_demand) refl

lease_counts :
    (st : Store) (key : ClusterKey) (now deadline : Time)
    → lookup key st.unary_demand ≡ some deadline
    → now < deadline
    → (has_demand st key now).1 ≡ true
unfolding has_demand
lease_counts st key now deadline e h = ground arith

-- A unary reader's interest lasts for the lease: after a refresh of a known cluster under a
-- positive lease, the cluster has demand at every time before the refresh's time plus the lease,
-- watched or not, and not through a reading of demand in between either.
pub refreshed_demand :
    (st : Store) (key : ClusterKey) (now between later : Time)
    → has key st.records ≡ true
    → 0 < st.unary_lease
    → between < now + st.unary_lease
    → later < now + st.unary_lease
    → (has_demand (has_demand (request_refresh st key now).0 key between).0 key later).1 ≡ true
refreshed_demand st key now between later known leased h l =
    let lease = lease_set st key now known leased in
    let kept =
      lease_kept (request_refresh st key now).0 key between (now + st.unary_lease) lease h in
    ap (λ x. (has_demand x key later).1) kept
    ∙ lease_counts (request_refresh st key now).0 key later (now + st.unary_lease) lease l

without_itself :
    (id : ℕ) (ws : List ℕ) → contains (filter_by (λ w. not (nat_beq w id)) ws) id ≡ false
unfolding contains
without_itself id [] = refl
without_itself id (w ∷ ws) = ground (arith, without_itself id ws)

abbrev ended_store : Store → ClusterKey → ℕ → Subscription → Store
ended_store st key id s = record (drop_watcher st key id) {
  watchers = insert id (close s) (drop_watcher st key id).watchers;
}

cancel_runs :
    (st : Store) (key : ClusterKey) (id : ℕ) (s : Subscription)
    → lookup id st.watchers ≡ some s
    → s.closed ≡ false
    → cancel st key id ≡ ended_store st key id s
unfolding cancel
cancel_runs st key id s h o = rw (h, o, cancel) refl

cancel_stays :
    (st : Store) (key : ClusterKey) (id : ℕ) (s : Subscription)
    → lookup id st.watchers ≡ some s
    → s.closed ≡ true
    → cancel st key id ≡ st
unfolding cancel
cancel_stays st key id s h o = rw (h, o, cancel) refl

stored_closed :
    (st : Store) (key : ClusterKey) (id : ℕ) (s : Subscription)
    → lookup id (ended_store st key id s).watchers ≡ some (close s)
stored_closed st key id s =
    ground
      (arith, nat_beq_iff id id, lookup-insert id id (close s) (drop_watcher st key id).watchers)

gone_from :
    (st : Store) (key : ClusterKey) (id : ℕ)
    → contains (watchers_of (drop_watcher st key id) key) id ≡ false
unfolding drop_watcher contains
gone_from st key id = by_rest (filter_by (λ w. not (nat_beq w id)) (watchers_of st key)) refl
  where
    by_rest :
        (left : List ℕ)
        → filter_by (λ w. not (nat_beq w id)) (watchers_of st key) ≡ left
        → contains (watchers_of (drop_watcher st key id) key) id ≡ false
    by_rest [] e =
        rw (e, drop_watcher)
          (ground (arith, key_beq_iff key key, lookup-delete key key st.subscribers))
    by_rest (w ∷ ws) e =
        let f : contains (w ∷ ws) id ≡ false =
          subst (λ l. contains l id ≡ false) e (without_itself id (watchers_of st key)) in
        rw (e, drop_watcher)
          (ground (arith, key_beq_iff key key, lookup-insert key key (w ∷ ws) st.subscribers, f))

-- The end of a watch: cancelling a running subscription takes it from the cluster's watchers and
-- closes its mailbox, and cancelling it again changes nothing.
pub cancel_ends :
    (st : Store) (key : ClusterKey) (id : ℕ) (s : Subscription)
    → lookup id st.watchers ≡ some s
    → s.closed ≡ false
    → let st' = cancel st key id in
      (contains (watchers_of st' key) id ≡ false)
      × (lookup id st'.watchers ≡ some (close s))
      × (cancel st' key id ≡ st')
cancel_ends st key id s h o =
    let e = cancel_runs st key id s h o in
    let found = stored_closed st key id s in
    rw e (
      gone_from st key id,
      found,
      cancel_stays (ended_store st key id s) key id (close s) found (unfold close in refl),
    )
