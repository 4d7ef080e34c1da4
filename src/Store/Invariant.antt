-- ===== src/Store/Invariant.antt =====
-- What holds of every record of the store (internal/discovery/store.go) after any operations.
use cnpg_connect_plugin.Prelude.{
  ◌≡◌, refl, inl, inr, Bool, true, false, ◌||◌, not, some, List, [], ◌∷◌, map, arith, ltb,
  if◌then◌else◌, All, Bool-cases, Option-cases, get_or,
}
use cnpg_connect_plugin.Prelude.Map.{Map, lookup, insert, delete, lookup-insert, lookup-delete}
use cnpg_connect_plugin.Key.{ClusterKey, key_eq, key_beq, key_beq_iff}
use cnpg_connect_plugin.Api.{Snapshot, Member, Time, Revision, api_version}
use cnpg_connect_plugin.Routing.{
  Digest, invalidate, invalidate_member, routing_view, routing_digest,
}
use cnpg_connect_plugin.Store.{
  Store, StoredRecord, expire_record, cluster_key, commit_snapshot, revise, routing_changed,
  put_deferred, delete_deferred, read_publication, new_publication, next_revision,
}
use cnpg_connect_plugin.Store.Sweep.{expire_keys}

-- A snapshot that routes nobody anywhere.
pub record IsClosed (s : Snapshot) : Type 0 where
  pub unavailable : s.available ≡ false
  pub no_primary : s.primary_id ≡ ""
  pub none_ready : All (λ (m : Member). m.ready ≡ false) s.members

members-unready :
    (ms : List Member) → All (λ (m : Member). m.ready ≡ false) (map invalidate_member ms)
unfolding invalidate_member
members-unready [] = tt
members-unready (m ∷ ms) = (refl, members-unready ms)

pub invalidate-IsClosed :
    (s : Snapshot) (r : Revision) → IsClosed (record (invalidate s) { revision = r })
unfolding invalidate
invalidate-IsClosed s r = record {
  unavailable = refl;
  no_primary = refl;
  none_ready = members-unready s.members;
}

-- A record that is marked expired is closed, the digest is that of its snapshot, and the snapshot
-- is of the cluster under whose key it is stored.
pub record RecordInv (hash : Snapshot → Digest) (k : ClusterKey) (r : StoredRecord) : Type 0 where
  pub closed : r.expired ≡ true → IsClosed r.publication.snapshot
  pub hashed : r.routing ≡ routing_digest hash r.publication.snapshot
  pub keyed : cluster_key r.publication.snapshot ≡ k

abbrev pub Inv : (Snapshot → Digest) → Map ClusterKey StoredRecord → Type 0
Inv hash rs = (k : ClusterKey) (r : StoredRecord) → lookup k rs ≡ some r → RecordInv hash k r

revise-records : (st : Store) (k : ClusterKey) (b : Bool) → (revise st k b).0.records ≡ st.records
unfolding revise
revise-records st k true = refl
revise-records st k false = refl

-- The record that expiry puts in the place of another.
unfoldable pub expired_record : (Snapshot → Digest) → Store → StoredRecord → StoredRecord
unfolding next_revision new_publication
expired_record hash st r =
    let (st1, revision) = next_revision st in
    let s : Snapshot = record (invalidate r.publication.snapshot) { revision = revision } in
    record {
      publication = (new_publication st1 s).1;
      routing = routing_digest hash s;
      expired = true;
    }

module _ (hash : Snapshot → Digest) where
  insert-Inv :
      (k : ClusterKey) (r : StoredRecord) (rs : Map ClusterKey StoredRecord)
      → RecordInv hash k r
      → Inv hash rs
      → Inv hash (insert k r rs)
  insert-Inv k r rs ok v j x h = elim (Bool-cases (key_beq k j)) [
    | inl same ↦
        let e : k ≡ j = (key_beq_iff k j).0 same in
        let f : r ≡ x = ground (arith, lookup-insert k j r rs) in rw (← e, ← f) ok
    | inr other ↦ v j x (ground (arith, lookup-insert k j r rs))
  ]

  delete-Inv :
      (k : ClusterKey) (rs : Map ClusterKey StoredRecord) → Inv hash rs → Inv hash (delete k rs)
  delete-Inv k rs v j x h = v j x (ground (arith, lookup-delete k j rs))

  pub expire_record-Inv :
      (st : Store) (k : ClusterKey) (r : StoredRecord) (now : Time)
      → lookup k st.records ≡ some r
      → Inv hash st.records
      → Inv hash (expire_record hash st k r now).0.records
  unfolding expire_record expired_record
  expire_record-Inv st k r now h v =
      elim (Bool-cases (r.expired || ltb now r.publication.snapshot.valid_until)) [
        | inl stay ↦ rw stay v
        | inr over ↦ rw over (insert-Inv k _ st.records expired_ok v)
      ]
    where
      expired_ok : RecordInv hash k (expired_record hash st r)
      expired_ok = record {
        closed = λ _. invalidate-IsClosed r.publication.snapshot _;
        hashed = refl;
        keyed = unfold invalidate in (v k r h).keyed;
      }

  commit_snapshot-Inv :
      (st : Store) (s : Snapshot) (expired : Bool)
      → (expired ≡ true → IsClosed s)
      → Inv hash st.records
      → Inv hash (commit_snapshot hash st s expired).0.records
  unfolding commit_snapshot
  commit_snapshot-Inv st s expired c v =
      insert-Inv (cluster_key s) _ _ committed (rw (revise-records st (cluster_key s) changed) v)
    where
      changed : Bool
      changed = routing_changed st (cluster_key s) (routing_digest hash s)

      revision : Revision
      revision = get_or (revise st (cluster_key s) changed).1 s.revision

      committed : RecordInv hash (cluster_key s) (record {
        publication = record {
          snapshot = record s { revision = revision };
          order = (new_publication (revise st (cluster_key s) changed).0 s).1.order;
        };
        routing = routing_digest hash s;
        expired = expired;
      })
      committed = record {
        closed = λ e. record {
          unavailable = (c e).unavailable;
          no_primary = (c e).no_primary;
          none_ready = (c e).none_ready;
        };
        hashed = unfold routing_digest routing_view in refl;
        keyed = refl;
      }

  pub put_deferred-Inv :
      (st : Store) (s : Snapshot) (before now : Time)
      → Inv hash st.records
      → Inv hash (put_deferred hash st s before now).0.records
  unfolding put_deferred
  put_deferred-Inv st s before now v = commit_snapshot-Inv st _ over (closed_if over) v
    where
      over : Bool
      over = not (ltb before s.valid_until) || not (ltb now s.valid_until)

      current : Snapshot
      current = record s { api_version = api_version }

      closed_if : (b : Bool) → b ≡ true → IsClosed (if b then invalidate current else current)
      closed_if true e = invalidate-IsClosed current _
      closed_if false e = cc

  pub delete_deferred-Inv :
      (st : Store) (k : ClusterKey)
      → Inv hash st.records
      → Inv hash (delete_deferred st k).0.records
  unfolding delete_deferred
  delete_deferred-Inv st k v = elim (Option-cases (lookup k st.records)) [
    | inl e ↦ rw (e, delete_deferred) v
    | inr (r, e) ↦ rw (e, delete_deferred) (delete-Inv k st.records v)
  ]

  pub read_publication-Inv :
      (st : Store) (k : ClusterKey) (now : Time)
      → Inv hash st.records
      → Inv hash (read_publication hash st k now).0.records
  unfolding read_publication
  read_publication-Inv st k now v = elim (Option-cases (lookup k st.records)) [
    | inl e ↦ rw (e, read_publication) v
    | inr (r, e) ↦ rw (e, read_publication) (expire_record-Inv st k r now e v)
  ]

  pub expire_keys-Inv :
      (now : Time) (ks : List ClusterKey) (st : Store)
      → Inv hash st.records
      → Inv hash (expire_keys hash now ks st).0.records
  unfolding expire_keys
  expire_keys-Inv now [] st v = v
  expire_keys-Inv now (k ∷ ks) st v = elim (Option-cases (lookup k st.records)) [
    | inl e ↦ rw (e, expire_keys) (expire_keys-Inv now ks st v)
    | inr (r, e) ↦
        rw (e, expire_keys)
          (expire_keys-Inv now ks (expire_record hash st k r now).0
            (expire_record-Inv st k r now e v))
  ]
