-- ===== src/Store/Freshness.antt =====
-- Reads of the store (internal/discovery/store.go) fail closed.
use cnpg_connect_plugin.Prelude.{◌<◌, ◌≡◌, ◌⊎◌, inl, inr, String, true, some, List, Option-cases}
use cnpg_connect_plugin.Prelude.Map.{lookup}
use cnpg_connect_plugin.Key.{ClusterKey, key_eq}
use cnpg_connect_plugin.Api.{Snapshot, Time}
use cnpg_connect_plugin.Routing.{Digest}
use cnpg_connect_plugin.Mailbox.{Publication}
use cnpg_connect_plugin.Store.{Store, StoredRecord, new_store, read_publication}
use cnpg_connect_plugin.Store.Invariant.{Inv, IsClosed, invalidate-IsClosed, expired_record}
use cnpg_connect_plugin.Store.Expiry.{Checked-cases, read_stays, read_over, read_missing}
use cnpg_connect_plugin.Store.Operations.{Operation, perform_all, store-Inv}

pub expired_record-IsClosed :
    (hash : Snapshot → Digest) (st : Store) (r : StoredRecord)
    → IsClosed (expired_record hash st r).publication.snapshot
unfolding expired_record
expired_record-IsClosed hash st r = invalidate-IsClosed r.publication.snapshot _

-- A snapshot that may still be routed by at a time, or that routes nobody.
abbrev pub Fresh : Time → Snapshot → Type 0
Fresh now s = (now < s.valid_until) ⊎ IsClosed s

module _ (hash : Snapshot → Digest) (st : Store) (k : ClusterKey) (now : Time) where
  read_present :
      (p : Publication) (r : StoredRecord)
      → Inv hash st.records
      → lookup k st.records ≡ some r
      → (read_publication hash st k now).1 ≡ some p
      → Fresh now p.snapshot
  read_present p r v e h = elim (Checked-cases hash st k r now) [
    | inl c ↦
        let q : r.publication ≡ p = cc (read_stays hash st k r now e c) in
        rw (← q) (still r.publication.snapshot (v k r e).closed c)
    | inr (x, o) ↦
        let q : (expired_record hash st r).publication ≡ p = cc (read_over hash st k r now e x o) in
        rw (← q) (inr (expired_record-IsClosed hash st r))
  ]
    where
      still :
          (s : Snapshot)
          → (r.expired ≡ true → IsClosed s)
          → ((r.expired ≡ true) ⊎ (now < s.valid_until))
          → Fresh now s
      still s c (inl x) = inr (c x)
      still s c (inr l) = inl l

pub read_Fresh :
    (hash : Snapshot → Digest) (st : Store) (k : ClusterKey) (now : Time) (p : Publication)
    → Inv hash st.records
    → (read_publication hash st k now).1 ≡ some p
    → Fresh now p.snapshot
read_Fresh hash st k now p v h = elim (Option-cases (lookup k st.records)) [
  | inl e ↦ let m = read_missing hash st k now e in cc
  | inr (r, e) ↦ read_present hash st k now p r v e h
]

-- Reads fail closed: after any operations on a new store, a read at any time, however late the
-- periodic expiry is, returns a snapshot whose validity has not ended at that time, or one that is
-- unavailable, names no primary and has no ready member.
pub read_fails_closed :
    (hash : Snapshot → Digest) (process_id : String) (os : List Operation) (k : ClusterKey)
    (now : Time) (p : Publication)
    → (read_publication hash (perform_all hash (new_store process_id) os) k now).1 ≡ some p
    → Fresh now p.snapshot
read_fails_closed hash process_id os k now p h =
    read_Fresh hash _ k now p (store-Inv hash process_id os) h
