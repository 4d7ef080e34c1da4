-- ===== src/Store/Deleting.antt =====
-- What Delete of the store (internal/discovery/store.go) removes and publishes.
use cnpg_connect_plugin.Prelude.{
  ◌+◌, ◌≡◌, refl, sym, subst, ◌⊎◌, inl, inr, false, none, some, [], arith, Option-cases,
  if◌then◌else◌,
}
use cnpg_connect_plugin.Prelude.Map.{Map, lookup, delete, lookup-delete}
use cnpg_connect_plugin.Key.{ClusterKey, key_eq, key_beq, key_beq_iff}
use cnpg_connect_plugin.Api.{numbered}
use cnpg_connect_plugin.Mailbox.{Publication}
use cnpg_connect_plugin.Store.{
  Store, StoredRecord, Notification, no_notification, watchers_of, notification, u64,
  delete_deferred,
}

-- The store after the deletion of a record.
deleted_store : Store → ClusterKey → Store
deleted_store st k = record st {
  unary_demand = delete k st.unary_demand;
  records = delete k st.records;
  sequence = u64 (st.sequence + 1);
  publication_order = u64 (st.publication_order + 1);
}

-- The tombstone that watchers are sent.
pub deleted_publication : Store → StoredRecord → Publication
deleted_publication st old = record {
  snapshot = record old.publication.snapshot {
    revision = numbered st.process_id (u64 (st.sequence + 1));
    available = false;
    reason = "deleted";
    primary_id = "";
    transitioning = false;
    members = [];
  };
  order = u64 (st.publication_order + 1);
}

delete_missing :
    (st : Store) (k : ClusterKey)
    → lookup k st.records ≡ none
    → delete_deferred st k
      ≡ (record st { unary_demand = delete k st.unary_demand }, no_notification)
unfolding delete_deferred
delete_missing st k e = rw (e, delete_deferred)

delete_present :
    (st : Store) (k : ClusterKey) (old : StoredRecord)
    → lookup k st.records ≡ some old
    → delete_deferred st k ≡ (deleted_store st k, notification st k (deleted_publication st old))
unfolding delete_deferred deleted_store deleted_publication
delete_present st k old e = rw (e, delete_deferred)

abbrev pub Deleted : Store → ClusterKey → Store × Notification → Type 0
Deleted st k r =
    (lookup k r.0.unary_demand ≡ none)
    × (r.0.subscribers ≡ st.subscribers)
    × ((j : ClusterKey)
        → lookup j r.0.records ≡ (if key_beq k j then none else lookup j st.records))
    × (((lookup k st.records ≡ none) × (r.1 ≡ no_notification))
        ⊎ ((old : StoredRecord) × (lookup k st.records ≡ some old)
            × (r.1 ≡ record {
              publication = some (deleted_publication st old);
              watchers = watchers_of st k;
            })))

-- A Delete, on both branches: the cluster has no record and no unary lease afterwards, its watchers
-- stay registered, and other clusters' records stay. If there was a record, exactly the watchers
-- are sent a tombstone with the next order and revision: the record's snapshot made unavailable,
-- with the reason "deleted", no primary and no members. If there was none, nothing is sent.
pub delete_deletes : (st : Store) (k : ClusterKey) → Deleted st k (delete_deferred st k)
delete_deletes st k = elim (Option-cases (lookup k st.records)) [
  | inl e ↦
      subst (Deleted st k) (sym (delete_missing st k e))
        (gone st.unary_demand, refl, λ j. ground (arith, e, key_beq_iff k j), inl (e, refl))
  | inr (old, e) ↦ subst (Deleted st k) (sym (delete_present st k old e)) (
      unfold deleted_store notification in
      (
        gone st.unary_demand,
        refl,
        λ j. ground (arith, lookup-delete k j st.records),
        inr (old, e, refl),
      ))
]
  where
    gone : {V : Type 0} (m : Map ClusterKey V) → lookup k (delete k m) ≡ none
    gone m = ground (arith, lookup-delete k k m, key_beq_iff k k)
