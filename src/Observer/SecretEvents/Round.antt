-- ===== src/Observer/SecretEvents/Round.antt =====
-- What one round of secretEvent (internal/observer/connection.go) leaves of a Cluster in the store.
use cnpg_connect_plugin.Prelude.{
  ℕ, ◌≡◌, ◌⊎◌, refl, sym, ◌∙◌, subst, ap, true, false, Option, none, some, List, [], ◌∷◌, arith,
  Bool-cases, Option-cases, inl, inr,
}
use cnpg_connect_plugin.Prelude.Map.{lookup, lookup-insert}
use cnpg_connect_plugin.Key.{ClusterKey, key_eq, key_beq}
use cnpg_connect_plugin.Api.{Snapshot, Time}
use cnpg_connect_plugin.Kube.{Cluster}
use cnpg_connect_plugin.Routing.{Digest, invalidate}
use cnpg_connect_plugin.Mailbox.{Publication}
use cnpg_connect_plugin.Store.{Store, StoredRecord, read_publication}
use cnpg_connect_plugin.Store.Invariant.{expired_record}
use cnpg_connect_plugin.Store.Expiry.{
  read_stored, expired_store, Checked-cases, read_stays, read_over, read_missing,
}
use cnpg_connect_plugin.Store.Publishing.{accepted, put_commits}
use cnpg_connect_plugin.Topology.{unavailable, cluster_ref}
use cnpg_connect_plugin.Evidence.{key_of}
use cnpg_connect_plugin.Observer.{Observer, Clock, commit_publication}
use cnpg_connect_plugin.Observer.Stored.{accepted_closed, commit_stored}
use cnpg_connect_plugin.Observer.SecretEvents.{no_bytes, exposes_defaults, close_defaults}

-- The snapshot has neither a route nor the certificates of a CA.
abbrev pub HidesDefaults : Snapshot → Type 0
HidesDefaults s = (s.available ≡ false) × (s.connection.server_ca_pem ≡ [])

-- Whatever the store has of the cluster hides its connection defaults.
abbrev pub IsHidden : Store → ClusterKey → Type 0
IsHidden st k =
    (r : StoredRecord) → lookup k st.records ≡ some r → HidesDefaults r.publication.snapshot

no_bytes-empty : (bs : List ℕ) → no_bytes bs ≡ true → bs ≡ []
unfolding no_bytes
no_bytes-empty [] h = refl
no_bytes-empty (_ ∷ _) h = cc

hidden-HidesDefaults : (s : Snapshot) → exposes_defaults s ≡ false → HidesDefaults s
unfolding exposes_defaults
hidden-HidesDefaults s h = (ground arith, no_bytes-empty s.connection.server_ca_pem (ground arith))

accepted-HidesDefaults :
    (s : Snapshot) (before now : Time) → HidesDefaults s → HidesDefaults (accepted s before now)
unfolding invalidate
accepted-HidesDefaults s before now (a, ca) = (accepted_closed s before now a, ground arith)

expired-others :
    (hash : Snapshot → Digest) (st : Store) (j k : ClusterKey) (r : StoredRecord)
    → key_beq j k ≡ false
    → lookup k (expired_store hash st j r).records ≡ lookup k st.records
unfolding expired_store
expired-others hash st j k r h =
    ground (arith, lookup-insert j k (expired_record hash st r) st.records)

-- A read leaves the records of other clusters.
read-others :
    (hash : Snapshot → Digest) (st : Store) (j k : ClusterKey) (now : Time)
    → key_beq j k ≡ false
    → lookup k (read_publication hash st j now).0.records ≡ lookup k st.records
read-others hash st j k now h = elim (Option-cases (lookup j st.records)) [
  | inl e ↦ rw (read_missing hash st j now e)
  | inr (r, e) ↦ elim (Checked-cases hash st j r now) [
    | inl c ↦ rw (read_stays hash st j r now e c)
    | inr (x, o) ↦ rw (read_over hash st j r now e x o) (expired-others hash st j k r h)
  ]
]

module _ (hash : Snapshot → Digest) (o : Observer) (c : Cluster) (t : Clock) where
  abbrev key : ClusterKey
  key = key_of c

  abbrev found : Option Publication
  found = (read_publication hash o.store key t.read).1

  abbrev after_read : Observer
  after_read = record o { store = (read_publication hash o.store key t.read).0 }

  abbrev closed : Observer
  closed =
      (commit_publication hash after_read
        (unavailable c t.observed o.ttl "connection_defaults_changed") t).0

  -- What the round leaves, in its three cases.
  close-cases :
      (((found ≡ none) × ((close_defaults hash o c t).0 ≡ after_read))
        ⊎ ((p : Publication) × (found ≡ some p)
            × (exposes_defaults p.snapshot ≡ false)
            × ((close_defaults hash o c t).0 ≡ after_read)))
      ⊎ ((close_defaults hash o c t).0 ≡ closed)
  unfolding close_defaults
  close-cases = elim (Option-cases found) [
    | inl e ↦ inl (inl (e, rw (close_defaults, e) refl))
    | inr (p, e) ↦ elim (Bool-cases (exposes_defaults p.snapshot)) [
      | inl x ↦ inr (rw (close_defaults, e, x) refl)
      | inr x ↦ inl (inr (p, e, x, rw (close_defaults, e, x) refl))
    ]
  ]

  missing-IsHidden : found ≡ none → IsHidden after_read.store key
  missing-IsHidden e r h = absurd (ground (arith, read_stored hash o.store key t.read))

  found-IsHidden :
      (p : Publication)
      → found ≡ some p
      → exposes_defaults p.snapshot ≡ false
      → IsHidden after_read.store key
  found-IsHidden p e x r h =
      let same : p ≡ r.publication = ground (arith, read_stored hash o.store key t.read) in
      subst (λ (q : Publication). HidesDefaults q.snapshot) same (hidden-HidesDefaults p.snapshot x)

  closed-IsHidden : IsHidden closed.store key
  unfolding unavailable
  closed-IsHidden r h =
      let s = unavailable c t.observed o.ttl "connection_defaults_changed" in
      rw (commit_stored hash after_read t s r h)
        (accepted-HidesDefaults s t.before t.committed (refl, refl))

  pub close-IsHidden : IsHidden (close_defaults hash o c t).0.store key
  close-IsHidden =
      let hides : Observer → Type 0 = λ x. IsHidden x.store key in
      elim close-cases [
        | inl (inl (e, same)) ↦ subst hides (sym same) (missing-IsHidden e)
        | inl (inr (p, e, x, same)) ↦ subst hides (sym same) (found-IsHidden p e x)
        | inr same ↦ subst hides (sym same) closed-IsHidden
      ]

  closed-others :
      (k : ClusterKey)
      → key_beq key k ≡ false
      → lookup k closed.store.records ≡ lookup k after_read.store.records
  unfolding commit_publication unavailable cluster_ref
  closed-others k h =
      let s = unavailable c t.observed o.ttl "connection_defaults_changed" in
      ground (arith, (put_commits hash after_read.store s t.before t.committed).others k)

  pub close-others :
      (k : ClusterKey)
      → key_beq key k ≡ false
      → lookup k (close_defaults hash o c t).0.store.records ≡ lookup k o.store.records
  close-others k h =
      let here : Observer → Option StoredRecord = λ x. lookup k x.store.records in
      let read = read-others hash o.store key k t.read h in
      elim close-cases [
        | inl (inl (_, same)) ↦ ap here same ∙ read
        | inl (inr (_, _, _, same)) ↦ ap here same ∙ read
        | inr same ↦ ap here same ∙ closed-others k h ∙ read
      ]

  pub close-observations : (close_defaults hash o c t).0.observations ≡ o.observations
  unfolding close_defaults commit_publication
  close-observations = ground arith

  pub close-ca : (close_defaults hash o c t).0.ca ≡ o.ca
  unfolding close_defaults commit_publication
  close-ca = ground arith
