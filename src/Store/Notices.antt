-- ===== src/Store/Notices.antt =====
-- What the store (internal/discovery/store.go) publishes under the reason "deleted".
use cnpg_connect_plugin.Prelude.{
  ◌≡◌, ◌≢◌, refl, sym, ◌∙◌, ap, subst, String, Bool, true, false, ◌&&◌, ◌||◌, not, Option, none,
  some, List, [], ◌∷◌, ◌++◌, arith, ltb, string_beq, string_beq_iff, if◌then◌else◌, is_some, All,
  Bool-cases, Option-cases, inl, inr,
}
use cnpg_connect_plugin.Prelude.Map.{Map, lookup, has, lookup-insert}
use cnpg_connect_plugin.Key.{ClusterKey, key_eq, key_beq}
use cnpg_connect_plugin.Api.{Snapshot, Time}
use cnpg_connect_plugin.Routing.{Digest, invalidate}
use cnpg_connect_plugin.Mailbox.{Publication, Mailbox}
use cnpg_connect_plugin.Store.{
  Store, StoredRecord, Notification, notification, new_publication, tombstone, put_deferred,
  delete_deferred, read_publication, expire_record, cluster_key,
}
use cnpg_connect_plugin.Store.Watchers.{Registration, register}
use cnpg_connect_plugin.Store.Sweep.{expire_keys}
use cnpg_connect_plugin.Store.Invariant.{IsClosed, expired_record}
use cnpg_connect_plugin.Store.Expiry.{
  read_stored, expired_store, Checked-cases, expire_record_stays, expire_record_over,
}
use cnpg_connect_plugin.Store.Freshness.{expired_record-IsClosed}
use cnpg_connect_plugin.Store.Publishing.{accepted, put_commits}
use cnpg_connect_plugin.Store.Deleting.{delete_deletes}
use cnpg_connect_plugin.Store.Operations.{Operation, puts, has_demand-records}

-- The notice of a deletion routes nobody.
abbrev pub IsNotice : Publication → Type 0
IsNotice p = p.snapshot.reason ≡ "deleted" → IsClosed p.snapshot

abbrev pub HasNotices : Map ClusterKey StoredRecord → Type 0
HasNotices rs = (k : ClusterKey) (r : StoredRecord) → lookup k rs ≡ some r → IsNotice r.publication

-- What is put is not itself called deleted; only DeleteDeferred gives that reason.
abbrev pub IsHonest : Operation → Type 0
IsHonest (puts s _ _) = s.reason ≢ "deleted"
IsHonest _ = Unit

abbrev pub published_in : Notification → List Publication
published_in n = elim n.publication [ none ↦ [] | some p ↦ p ∷ [] ]

abbrev pub all_published : List Notification → List Publication
all_published [] = []
all_published (n ∷ ns) = published_in n ++ all_published ns

abbrev pub registered : Option Registration → List Publication
registered none = []
registered (some r) = published_in r.expired ++ elim r.initial [ none ↦ [] | some p ↦ p ∷ [] ]

expired_reason : ◌≢◌ {A = String} "expired" "deleted"
unfolding string_beq
expired_reason h = let e : false ≡ true = (string_beq_iff "expired" "deleted").1 h in cc

accepted-reason :
    (s : Snapshot) (before now : Time)
    → s.reason ≢ "deleted"
    → (accepted s before now).reason ≢ "deleted"
unfolding invalidate
accepted-reason s before now h =
    elim (Bool-cases (not (ltb before s.valid_until) || not (ltb now s.valid_until))) [
      | inl over ↦ rw over expired_reason
      | inr valid ↦ rw valid h
    ]

append-All :
    (ps qs : List Publication) → All IsNotice ps → All IsNotice qs → All IsNotice (ps ++ qs)
append-All [] qs h k = k
append-All (p ∷ ps) qs h k = (h.0, append-All ps qs h.1 k)

module _ (hash : Snapshot → Digest) (st : Store) where
  pub put-IsNotice :
      (s : Snapshot) (before now : Time)
      → s.reason ≢ "deleted"
      → IsNotice (put_commits hash st s before now).published
  put-IsNotice s before now h d =
      let c = put_commits hash st s before now in
      absurd (accepted-reason s before now h (sym (ap (λ x. x.reason) c.content) ∙ d))

  pub put-HasNotices :
      (s : Snapshot) (before now : Time)
      → s.reason ≢ "deleted"
      → HasNotices st.records
      → HasNotices (put_deferred hash st s before now).0.records
  put-HasNotices s before now h v k r found =
      let c = put_commits hash st s before now in
      let stored : IsNotice c.stored.publication =
        subst IsNotice (sym c.shared) (put-IsNotice s before now h) in
      elim (Bool-cases (key_beq (cluster_key s) k)) [
        | inl e ↦
            let same : c.stored ≡ r = ground (arith, c.others k, found, e) in
            subst (λ x. IsNotice x.publication) same stored
        | inr e ↦ v k r (ground (arith, c.others k, found, e))
      ]

  pub delete-HasNotices :
      (j : ClusterKey) → HasNotices st.records → HasNotices (delete_deferred st j).0.records
  delete-HasNotices j v k r found = v k r (ground (arith, (delete_deletes st j).2 k, found))

  pub delete-issued : (j : ClusterKey) → All IsNotice (published_in (delete_deferred st j).1)
  unfolding delete_deferred notification new_publication tombstone
  delete-issued j = elim (Option-cases (lookup j st.records)) [
    | inl e ↦ rw (e, delete_deferred) tt
    | inr (r, e) ↦
        rw (e, delete_deferred)
          ((λ _. record { unavailable = refl; no_primary = refl; none_ready = tt }), tt)
  ]

  expired-HasNotices :
      (j : ClusterKey) (r : StoredRecord)
      → HasNotices st.records
      → HasNotices (expired_store hash st j r).records
  unfolding expired_store
  expired-HasNotices j r v k x found =
      let put = lookup-insert j k (expired_record hash st r) st.records in
      elim (Bool-cases (key_beq j k)) [
        | inl e ↦
            let same : expired_record hash st r ≡ x = ground (arith, put, found, e) in
            subst (λ y. IsNotice y.publication) same (λ _. expired_record-IsClosed hash st r)
        | inr e ↦ v k x (ground (arith, put, found, e))
      ]

  expire-HasNotices :
      (j : ClusterKey) (r : StoredRecord) (now : Time)
      → HasNotices st.records
      → HasNotices (expire_record hash st j r now).0.records
        × All IsNotice (published_in (expire_record hash st j r now).1)
  unfolding notification
  expire-HasNotices j r now v = elim (Checked-cases hash st j r now) [
    | inl c ↦ rw (expire_record_stays hash st j r now c) (v, tt)
    | inr (x, o) ↦
        rw (expire_record_over hash st j r now x o)
          (expired-HasNotices j r v, ((λ _. expired_record-IsClosed hash st r), tt))
  ]

  pub read-HasNotices :
      (j : ClusterKey) (now : Time)
      → HasNotices st.records
      → HasNotices (read_publication hash st j now).0.records
        × All IsNotice (published_in (read_publication hash st j now).2)
  unfolding read_publication
  read-HasNotices j now v = elim (Option-cases (lookup j st.records)) [
    | inl e ↦ rw (e, read_publication) (v, tt)
    | inr (r, e) ↦ rw (e, read_publication) (expire-HasNotices j r now v)
  ]

  -- What a read finds is stored.
  pub read_found-IsNotice :
      (j : ClusterKey) (now : Time) (p : Publication)
      → HasNotices st.records
      → (read_publication hash st j now).1 ≡ some p
      → IsNotice p
  read_found-IsNotice j now p v h =
      let after = (read_publication hash st j now).0.records in
      elim (Option-cases (lookup j after)) [
        | inl e ↦ absurd (ground (arith, read_stored hash st j now, e, h))
        | inr (r, e) ↦
            let same : r.publication ≡ p = ground (arith, read_stored hash st j now, e, h) in
            subst IsNotice same ((read-HasNotices j now v).0 j r e)
      ]

  initial-IsNotice :
      (j : ClusterKey) (now : Time)
      → HasNotices st.records
      → All IsNotice (elim (read_publication hash st j now).1 [ none ↦ [] | some p ↦ p ∷ [] ])
  initial-IsNotice j now v = elim (Option-cases (read_publication hash st j now).1) [
    | inl e ↦ rw e tt
    | inr (p, e) ↦ rw e (read_found-IsNotice j now p v e, tt)
  ]

  pub register-HasNotices :
      (j : ClusterKey) (known : Bool) (m : Mailbox) (now later : Time)
      → HasNotices st.records
      → HasNotices (register hash st j known m now later).0.records
        × All IsNotice (registered (register hash st j known m now later).1)
  unfolding register
  register-HasNotices j known m now later v = elim (Bool-cases (not (has j st.records) && known)) [
    | inl refused ↦ rw refused (v, tt)
    | inr taken ↦
        rw (taken, has_demand-records (read_publication hash st j now).0 j later)
          (
            (read-HasNotices j now v).0,
            append-All (published_in (read_publication hash st j now).2)
                (elim (read_publication hash st j now).1 [ none ↦ [] | some p ↦ p ∷ [] ])
                (read-HasNotices j now v).1 (initial-IsNotice j now v),
          )
  ]

published-All :
    (hash : Snapshot → Digest) (n : Notification) (ns : List Notification)
    → All IsNotice (published_in n)
    → All IsNotice (all_published ns)
    → All IsNotice (all_published (if is_some n.publication then n ∷ ns else ns))
published-All hash n ns h k = elim (Option-cases n.publication) [
  | inl e ↦ rw e k
  | inr (p, e) ↦
      let here : All IsNotice (p ∷ []) =
        subst (λ x. All IsNotice (elim x [ none ↦ [] | some q ↦ q ∷ [] ])) e h in
      rw e (here.0, k)
]

pub expire_keys-HasNotices :
    (hash : Snapshot → Digest) (now : Time) (ks : List ClusterKey) (st : Store)
    → HasNotices st.records
    → HasNotices (expire_keys hash now ks st).0.records
      × All IsNotice (all_published (expire_keys hash now ks st).1)
unfolding expire_keys
expire_keys-HasNotices hash now [] st v = (v, tt)
expire_keys-HasNotices hash now (k ∷ ks) st v = elim (Option-cases (lookup k st.records)) [
  | inl e ↦ rw (e, expire_keys) (expire_keys-HasNotices hash now ks st v)
  | inr (r, e) ↦
      let (kept, given) = expire-HasNotices hash st k r now v in
      let (later, others) =
        expire_keys-HasNotices hash now ks (expire_record hash st k r now).0 kept in
      rw (e, expire_keys)
        (later, published-All hash (expire_record hash st k r now).1 _ given others)
]
