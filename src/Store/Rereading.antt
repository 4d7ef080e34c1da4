-- ===== src/Store/Rereading.antt =====
-- What a Put (internal/discovery/store.go) changes, and what is read of it.
use cnpg_connect_plugin.Prelude.{
  ◌<◌, ◌≡◌, ◌↔◌, sym, ◌∙◌, ap, inl, inr, String, false, some, List, arith,
}
use cnpg_connect_plugin.Prelude.Map.{lookup}
use cnpg_connect_plugin.Key.{key_eq}
use cnpg_connect_plugin.Api.{Snapshot, Time, api_version}
use cnpg_connect_plugin.Routing.{Digest, routing_digest}
use cnpg_connect_plugin.Mailbox.{Publication}
use cnpg_connect_plugin.Store.{
  Store, StoredRecord, no_notification, new_store, put_deferred, read_publication, cluster_key,
}
use cnpg_connect_plugin.Store.Operations.{Operation, perform_all, store-Inv}
use cnpg_connect_plugin.Store.Expiry.{read_stays}
use cnpg_connect_plugin.Store.Publishing.{accepted, accepted_valid, Committed, put_commits}

-- On a reachable store a Put reports no change exactly if the cluster has a record whose snapshot
-- has the same routing digest as what is put: its revision, times, member order and replay
-- positions play no part.
pub put_unchanged_iff :
    (hash : Snapshot → Digest) (process_id : String) (os : List Operation) (s : Snapshot)
    (before now : Time)
    → let st = perform_all hash (new_store process_id) os in
      ((put_deferred hash st s before now).1 ≡ false) ↔ (
        (old : StoredRecord) × (lookup (cluster_key s) st.records ≡ some old)
        × (routing_digest hash old.publication.snapshot
            ≡ routing_digest hash (accepted s before now)))
put_unchanged_iff hash process_id os s before now = (unchanged, same)
  where
    st : Store
    st = perform_all hash (new_store process_id) os

    c :
        Committed hash st
          (cluster_key s)
          (accepted s before now)
          (put_deferred hash st s before now)
    c = put_commits hash st s before now

    unchanged :
        (put_deferred hash st s before now).1 ≡ false
        → (old : StoredRecord) × (lookup (cluster_key s) st.records ≡ some old)
          × (routing_digest hash old.publication.snapshot
              ≡ routing_digest hash (accepted s before now))
    unchanged h = elim c.revised [
      | inl (yes', _, _) ↦ cc
      | inr (_, (old, e, d, _)) ↦
          (old, e, sym (store-Inv hash process_id os (cluster_key s) old e).hashed ∙ d)
    ]

    same :
        ((old : StoredRecord) × (lookup (cluster_key s) st.records ≡ some old)
          × (routing_digest hash old.publication.snapshot
              ≡ routing_digest hash (accepted s before now)))
        → (put_deferred hash st s before now).1 ≡ false
    same (old, e, d) = elim c.revised [
      | inr (kept, _) ↦ kept
      | inl (_, _, inl missing) ↦ cc
      | inl (_, _, inr (other, f, ne)) ↦
          let q : other ≡ old = ground arith in
          absurd (
            ne (
              ap (λ (r : StoredRecord). r.routing) q
              ∙ (store-Inv hash process_id os (cluster_key s) old e).hashed
              ∙ d))
    ]

-- What was put can be read back: a snapshot that is valid when it is put and when it is read comes
-- back as it was put, but for the API version and the revision, which the store assigns.
pub read-put :
    (hash : Snapshot → Digest) (st : Store) (s : Snapshot) (before now later : Time)
    → before < s.valid_until
    → now < s.valid_until
    → later < s.valid_until
    → let st' = (put_deferred hash st s before now).0 in
      (p : Publication) × ((read_publication hash st' (cluster_key s) later).1 ≡ some p)
      × (p.snapshot ≡ record s { api_version = api_version; revision = p.snapshot.revision })
read-put hash st s before now later h0 h1 h2 =
    (c.published, ap (λ r. r.1) reads ∙ ap some c.shared, content)
  where
    c :
        Committed hash st
          (cluster_key s)
          (accepted s before now)
          (put_deferred hash st s before now)
    c = put_commits hash st s before now

    content :
        c.published.snapshot
        ≡ record s { api_version = api_version; revision = c.published.snapshot.revision }
    content =
        c.content
        ∙ ap (λ (a : Snapshot). record a { revision = c.published.snapshot.revision })
            (accepted_valid s before now h0 h1)

    lasts : c.stored.publication.snapshot.valid_until ≡ s.valid_until
    lasts =
        ap (λ (p : Publication). p.snapshot.valid_until) c.shared
        ∙ ap (λ (a : Snapshot). a.valid_until) content

    reads :
        read_publication hash (put_deferred hash st s before now).0 (cluster_key s) later
        ≡ ((put_deferred hash st s before now).0, some c.stored.publication, no_notification)
    reads = read_stays hash _ (cluster_key s) c.stored later c.kept (inr (rw lasts h2))
