-- ===== src/Store/Expiry.antt =====
-- What the expiry check and a read of the store (internal/discovery/store.go) do, branch by branch.
use cnpg_connect_plugin.Prelude.{
  ◌+◌, ◌<◌, ◌≤◌, ◌≡◌, refl, ◌⊎◌, true, false, none, some, Option, Option-cases, inl, inr, arith,
}
use cnpg_connect_plugin.Prelude.Map.{lookup, insert, lookup-insert}
use cnpg_connect_plugin.Key.{ClusterKey, key_eq, key_beq_iff}
use cnpg_connect_plugin.Api.{Snapshot, Time}
use cnpg_connect_plugin.Routing.{Digest}
use cnpg_connect_plugin.Mailbox.{Publication}
use cnpg_connect_plugin.Store.{
  Store, StoredRecord, notification, u64, no_notification, expire_record, read_publication,
}
use cnpg_connect_plugin.Store.Invariant.{expired_record}

-- A record after the expiry check is marked expired or still valid.
abbrev pub Checked : Time → StoredRecord → Type 0
Checked now r = (r.expired ≡ true) ⊎ (now < r.publication.snapshot.valid_until)

-- The store after an expiry.
unfoldable pub expired_store : (Snapshot → Digest) → Store → ClusterKey → StoredRecord → Store
unfolding expired_record
expired_store hash st k r = record st {
  sequence = u64 (st.sequence + 1);
  publication_order = u64 (st.publication_order + 1);
  records = insert k (expired_record hash st r) st.records;
  expirations = u64 (st.expirations + 1);
}

pub stored_expired :
    (hash : Snapshot → Digest) (st : Store) (k : ClusterKey) (r : StoredRecord)
    → lookup k (expired_store hash st k r).records ≡ some (expired_record hash st r)
unfolding expired_store
stored_expired hash st k r =
    ground (arith, lookup-insert k k (expired_record hash st r) st.records, key_beq_iff k k)

module _ (hash : Snapshot → Digest) (st : Store) (k : ClusterKey) (r : StoredRecord)
    (now : Time) where
  pub expire_record_stays : Checked now r → expire_record hash st k r now ≡ (st, no_notification)
  unfolding expire_record
  expire_record_stays c = ground arith

  pub expire_record_over :
      r.expired ≡ false
      → r.publication.snapshot.valid_until ≤ now
      → expire_record hash st k r now
        ≡ (expired_store hash st k r, notification st k (expired_record hash st r).publication)
  unfolding expire_record expired_store expired_record notification
  expire_record_over e h = ground arith

  pub Checked-cases :
      Checked now r ⊎ ((r.expired ≡ false) × (r.publication.snapshot.valid_until ≤ now))
  Checked-cases = ground arith

  pub read_stays :
      lookup k st.records ≡ some r
      → Checked now r
      → read_publication hash st k now ≡ (st, some r.publication, no_notification)
  unfolding read_publication
  read_stays e c = rw (e, read_publication, expire_record_stays c, e) refl

  pub read_over :
      lookup k st.records ≡ some r
      → r.expired ≡ false
      → r.publication.snapshot.valid_until ≤ now
      → read_publication hash st k now ≡ (
        expired_store hash st k r,
        some (expired_record hash st r).publication,
        notification st k (expired_record hash st r).publication,
      )
  unfolding read_publication
  read_over e x o =
      rw (e, read_publication, expire_record_over x o) (rw (stored_expired hash st k r))

pub read_missing :
    (hash : Snapshot → Digest) (st : Store) (k : ClusterKey) (now : Time)
    → lookup k st.records ≡ none
    → read_publication hash st k now ≡ (st, none, no_notification)
unfolding read_publication
read_missing hash st k now e = rw (e, read_publication)

abbrev pub publication_of : Option StoredRecord → Option Publication
publication_of none = none
publication_of (some r) = some r.publication

-- A read finds what is then stored.
pub read_stored :
    (hash : Snapshot → Digest) (st : Store) (k : ClusterKey) (now : Time)
    → (read_publication hash st k now).1
      ≡ publication_of (lookup k (read_publication hash st k now).0.records)
unfolding read_publication
read_stored hash st k now = elim (Option-cases (lookup k st.records)) [
  | inl e ↦ rw (e, read_publication, e) refl
  | inr (x, e) ↦
      rw (e, read_publication)
        (elim (Option-cases (lookup k (expire_record hash st k x now).0.records)) [
          | inl f ↦ rw f refl
          | inr (r, f) ↦ rw f refl
        ])
]
