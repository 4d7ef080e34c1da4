-- ===== src/Store/Publishing.antt =====
-- What Put of the store (internal/discovery/store.go) stores and publishes.
use cnpg_connect_plugin.Prelude.{
  ℕ, ◌+◌, ◌<◌, ◌≡◌, refl, ap, subst, ◌⊎◌, ◌≢◌, inl, inr, Bool, true, false, ◌||◌, not, none, some,
  List, [], arith, Bool-cases, Option-cases, ltb, if◌then◌else◌, get_or,
}
use cnpg_connect_plugin.Prelude.Map.{Map, lookup, lookup-insert}
use cnpg_connect_plugin.Key.{ClusterKey, key_eq, key_beq, key_beq_iff}
use cnpg_connect_plugin.Api.{Snapshot, Time, Revision, numbered, api_version}
use cnpg_connect_plugin.Routing.{Digest, invalidate, routing_digest, digest_beq, digest_beq_iff}
use cnpg_connect_plugin.Mailbox.{Publication}
use cnpg_connect_plugin.Store.{
  Store, StoredRecord, Notification, watchers_of, notification, u64, put_deferred, cluster_key,
  commit_snapshot, revise, routing_changed,
}

-- The snapshot that a Put stores, but for its revision.
abbrev pub accepted : Snapshot → Time → Time → Snapshot
accepted s before now =
    let current : Snapshot = record s { api_version = api_version } in
    if not (ltb before s.valid_until) || not (ltb now s.valid_until)
    then invalidate current
    else current

accepted_key :
    (s : Snapshot) (before now : Time) → cluster_key (accepted s before now) ≡ cluster_key s
unfolding invalidate
accepted_key s before now = ground arith

revise-fields :
    (st : Store) (k : ClusterKey) (b : Bool)
    → ((revise st k b).0.records ≡ st.records)
      × ((revise st k b).0.subscribers ≡ st.subscribers)
      × ((revise st k b).0.publication_order ≡ st.publication_order)
unfolding revise
revise-fields st k true = (refl, refl, refl)
revise-fields st k false = (refl, refl, refl)

revise_new :
    (st : Store) (k : ClusterKey) (b : Bool) (d : Revision)
    → b ≡ true
    → get_or (revise st k b).1 d ≡ numbered st.process_id (u64 (st.sequence + 1))
unfolding revise
revise_new st k true d h = refl
revise_new st k false d h = cc

revise_old :
    (st : Store) (k : ClusterKey) (b : Bool) (d : Revision) (old : StoredRecord)
    → lookup k st.records ≡ some old
    → b ≡ false
    → get_or (revise st k b).1 d ≡ old.publication.snapshot.revision
unfolding revise
revise_old st k true d old e h = cc
revise_old st k false d old e h = ground arith

-- The revision that a commit gives: that of the record while routing stays, else a new one.
abbrev pub Revised : (Snapshot → Digest) → Store → ClusterKey → Snapshot → Bool → Revision → Type 0
Revised hash st k a changed r =
    ((changed ≡ true)
      × (r ≡ numbered st.process_id (u64 (st.sequence + 1)))
      × ((lookup k st.records ≡ none)
          ⊎ ((old : StoredRecord) × (lookup k st.records ≡ some old)
              × (old.routing ≢ routing_digest hash a))))
    ⊎ ((changed ≡ false)
        × ((old : StoredRecord) × (lookup k st.records ≡ some old)
            × (old.routing ≡ routing_digest hash a)
            × (r ≡ old.publication.snapshot.revision)))

pub accepted_valid :
    (s : Snapshot) (before now : Time)
    → before < s.valid_until
    → now < s.valid_until
    → accepted s before now ≡ record s { api_version = api_version }
accepted_valid s before now h0 h1 = ground arith

-- What a commit of `a` under the key `k` leaves in the store and sends.
pub record Committed (hash : Snapshot → Digest) (st : Store) (k : ClusterKey) (a : Snapshot)
    (result : Store × Bool × Notification) : Type 0 where
  pub published : Publication
  pub stored : StoredRecord
  pub kept : lookup k result.0.records ≡ some stored
  pub shared : stored.publication ≡ published
  pub sent : result.2 ≡ record { publication = some published; watchers = watchers_of st k }
  pub content : published.snapshot ≡ record a { revision = published.snapshot.revision }
  pub numbered_next : published.order ≡ u64 (st.publication_order + 1)
  pub revised : Revised hash st k a result.1 published.snapshot.revision
  pub others :
      (j : ClusterKey)
      → lookup j result.0.records ≡ (if key_beq k j then some stored else lookup j st.records)

module _ (hash : Snapshot → Digest) (st : Store) (a : Snapshot) (expired : Bool) where
  abbrev key : ClusterKey
  key = cluster_key a

  abbrev changes : Bool
  changes = routing_changed st key (routing_digest hash a)

  abbrev kept_record : StoredRecord
  kept_record = record {
    publication = record {
      snapshot = record a { revision = get_or (revise st key changes).1 a.revision };
      order = u64 ((revise st key changes).0.publication_order + 1);
    };
    routing = routing_digest hash a;
    expired = expired;
  }

  commit-Revised : Revised hash st key a changes (get_or (revise st key changes).1 a.revision)
  commit-Revised = elim (Option-cases (lookup key st.records)) [
    | inl e ↦
        let c : changes ≡ true = unfold routing_changed in rw (e, routing_changed) in
        inl (c, revise_new st key changes a.revision c, inl e)
    | inr (old, e) ↦ elim (Bool-cases (digest_beq old.routing (routing_digest hash a))) [
      | inl same ↦
          let c : changes ≡ false = unfold routing_changed in rw (e, routing_changed, same) in
          inr (
            c,
            (
              old,
              e,
              (digest_beq_iff old.routing (routing_digest hash a)).0 same,
              revise_old st key changes a.revision old e c,
            ),
          )
      | inr other ↦
          let c : changes ≡ true = unfold routing_changed in rw (e, routing_changed, other) in
          inl (
            c,
            revise_new st key changes a.revision c,
            inr (old, e, λ q. ground (arith, digest_beq_iff old.routing (routing_digest hash a))),
          )
    ]
  ]

  pub commit_commits : Committed hash st key a (commit_snapshot hash st a expired)
  unfolding commit_snapshot notification
  commit_commits =
      let addressed : List ℕ → Notification =
        λ ws. record { publication = some kept_record.publication; watchers = ws } in
      let f = revise-fields st key changes in
      record {
        published = kept_record.publication;
        stored = kept_record;
        kept = ground (
          arith,
          key_beq_iff key key,
          lookup-insert key key kept_record (revise st key changes).0.records,
        );
        shared = refl;
        sent = ap (λ (w : Map ClusterKey (List ℕ)). addressed (get_or (lookup key w) [])) f.1;
        content = refl;
        numbered_next = ground (arith, f.2);
        revised = commit-Revised;
        others = λ j.
            ground (arith, f.0, lookup-insert key j kept_record (revise st key changes).0.records);
      }

-- A Put, on every branch. Under the snapshot's key the store then holds, and sends to exactly the
-- cluster's watchers, one publication with the next order, whose content is the snapshot, or its
-- invalidation if its validity ended before the commit. It has the next revision of the process,
-- and the call reports a change, if there was no record or the stored routing digest differs; else
-- it keeps the record's revision and reports none. Other clusters' records stay as they were.
pub put_commits :
    (hash : Snapshot → Digest) (st : Store) (s : Snapshot) (before now : Time)
    → Committed hash st (cluster_key s) (accepted s before now) (put_deferred hash st s before now)
unfolding put_deferred
put_commits hash st s before now =
    subst
      (λ k. Committed hash st k (accepted s before now) (
        commit_snapshot hash st (accepted s before now)
          (not (ltb before s.valid_until) || not (ltb now s.valid_until))))
      (accepted_key s before now) (commit_commits hash st (accepted s before now) _)
