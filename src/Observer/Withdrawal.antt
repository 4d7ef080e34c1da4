-- ===== src/Observer/Withdrawal.antt =====
-- What podEvent (internal/observer/events.go) withdraws when the route of a Pod changes.
use cnpg_connect_plugin.Prelude.{
  ◌≡◌, refl, sym, ◌∙◌, ap, subst, String, true, false, ◌&&◌, ◌||◌, not, Option, none, some, List,
  [], ◌∷◌, map, arith, ltb, string_beq, string_beq_iff, All, Bool-cases, Option-cases, inl, inr,
}
use cnpg_connect_plugin.Prelude.Map.{lookup}
use cnpg_connect_plugin.Key.{key_eq}
use cnpg_connect_plugin.Api.{Time, Snapshot, Member}
use cnpg_connect_plugin.Kube.{Pod, Cluster}
use cnpg_connect_plugin.Routing.{Digest, invalidate, invalidate_member}
use cnpg_connect_plugin.Mailbox.{Publication}
use cnpg_connect_plugin.Store.{StoredRecord, cluster_key, read_publication}
use cnpg_connect_plugin.Store.Invariant.{Inv}
use cnpg_connect_plugin.Store.Publishing.{accepted}
use cnpg_connect_plugin.Store.Expiry.{publication_of, read_stored}
use cnpg_connect_plugin.Topology.{unavailable, cluster_ref}
use cnpg_connect_plugin.Evidence.{key_of}
use cnpg_connect_plugin.Observer.Stored.{enqueue-records, commit_stored, read_keyed}
use cnpg_connect_plugin.Observer.{
  Observer, Clock, cancel_observation, enqueue, commit_publication, withdraw_member, withdraw,
  route_changed, withdraw_route, handle_pod,
}

-- No member with this identity is ready.
abbrev pub Blocked : String → List Member → Type 0
Blocked uid = All (λ (m : Member). (string_beq m.id uid && m.ready) ≡ false)

invalidate-Blocked : (uid : String) (ms : List Member) → Blocked uid (map invalidate_member ms)
unfolding invalidate_member
invalidate-Blocked uid [] = tt
invalidate-Blocked uid (m ∷ ms) = (ground arith, invalidate-Blocked uid ms)

withdraw-Blocked : (uid : String) (ms : List Member) → Blocked uid (map (withdraw_member uid) ms)
unfolding withdraw_member
withdraw-Blocked uid [] = tt
withdraw-Blocked uid (m ∷ ms) = (ground arith, withdraw-Blocked uid ms)

accepted-Blocked :
    (uid : String) (s : Snapshot) (before now : Time)
    → Blocked uid s.members
    → Blocked uid (accepted s before now).members
unfolding invalidate
accepted-Blocked uid s before now h =
    elim (Bool-cases (not (ltb before s.valid_until) || not (ltb now s.valid_until))) [
      | inl over ↦ rw over (invalidate-Blocked uid s.members)
      | inr valid ↦ rw valid h
    ]

-- What is stored for the cluster that a Pod's changed route belongs to: nothing routes to the Pod,
-- and if it was the primary, the cluster has none.
abbrev pub IsWithdrawn : Cluster → Pod → Snapshot → Type 0
IsWithdrawn c old s =
    Blocked old.uid s.members × ((string_beq old.name c.current_primary && s.available) ≡ false)

module _ (hash : Snapshot → Digest) (o : Observer) (t : Clock) where
  commit-IsWithdrawn :
      (c : Cluster) (old : Pod) (s : Snapshot) (r : StoredRecord)
      → Blocked old.uid s.members
      → (string_beq old.name c.current_primary && s.available) ≡ false
      → lookup (cluster_key s) (commit_publication hash o s t).0.store.records ≡ some r
      → IsWithdrawn c old r.publication.snapshot
  commit-IsWithdrawn c old s r b a h =
      let e = commit_stored hash o t s r h in
      rw e
        (accepted-Blocked old.uid s t.before t.committed b, unfold invalidate in ground (arith, a))

module _ (hash : Snapshot → Digest) (o : Observer) (c : Cluster) (old : Pod) (t : Clock) where
  abbrev after_read : Observer
  after_read = record o { store = (read_publication hash o.store (key_of c) t.read).0 }

  abbrev Stores : Observer → StoredRecord → Type 0
  Stores x r = lookup (key_of c) x.store.records ≡ some r

  route_primary :
      string_beq old.name c.current_primary ≡ true
      → (withdraw_route hash o c old (key_of c) t).0
        ≡ (commit_publication hash
            (cancel_observation o (key_of c))
            (unavailable c t.observed o.ttl "primary_changed")
            t).0
  unfolding withdraw_route
  route_primary primary = rw (primary, withdraw_route) refl

  route_member :
      (p : Publication)
      → string_beq old.name c.current_primary ≡ false
      → (read_publication hash o.store (key_of c) t.read).1 ≡ some p
      → string_beq p.snapshot.cluster.uid c.uid ≡ true
      → (withdraw_route hash o c old (key_of c) t).0
        ≡ (commit_publication hash after_read (withdraw old.uid p.snapshot) t).0
  unfolding withdraw_route
  route_member p other found same = rw (other, found, same, withdraw_route) refl

  route_other :
      (p : Publication)
      → string_beq old.name c.current_primary ≡ false
      → (read_publication hash o.store (key_of c) t.read).1 ≡ some p
      → string_beq p.snapshot.cluster.uid c.uid ≡ false
      → (withdraw_route hash o c old (key_of c) t).0 ≡ after_read
  unfolding withdraw_route
  route_other p other found different = rw (other, found, different, withdraw_route) refl

  route_missing :
      string_beq old.name c.current_primary ≡ false
      → (read_publication hash o.store (key_of c) t.read).1 ≡ none
      → (withdraw_route hash o c old (key_of c) t).0 ≡ after_read
  unfolding withdraw_route
  route_missing other found = rw (other, found, withdraw_route) refl

  found_in :
      (r : StoredRecord)
      → lookup (key_of c) after_read.store.records ≡ some r
      → (read_publication hash o.store (key_of c) t.read).1 ≡ some r.publication
  found_in r h = read_stored hash o.store (key_of c) t.read ∙ ap publication_of h

  withdraw_primary :
      (r : StoredRecord)
      → string_beq old.name c.current_primary ≡ true
      → Stores (withdraw_route hash o c old (key_of c) t).0 r
      → IsWithdrawn c old r.publication.snapshot
  unfolding unavailable cluster_ref
  withdraw_primary r primary h =
      commit-IsWithdrawn hash (cancel_observation o (key_of c)) t c old
        (unavailable c t.observed o.ttl "primary_changed") r tt (ground arith)
        (subst (λ x. Stores x r) (route_primary primary) h)

  withdraw_other :
      (p : Publication) (r : StoredRecord)
      → Inv hash o.store.records
      → string_beq old.name c.current_primary ≡ false
      → (read_publication hash o.store (key_of c) t.read).1 ≡ some p
      → string_beq p.snapshot.cluster.uid c.uid ≡ true
      → Stores (withdraw_route hash o c old (key_of c) t).0 r
      → IsWithdrawn c old r.publication.snapshot
  unfolding withdraw
  withdraw_other p r v other found same h =
      let key : cluster_key (withdraw old.uid p.snapshot) ≡ key_of c =
        read_keyed hash o.store (key_of c) t.read p v found in
      let there : Stores (commit_publication hash after_read (withdraw old.uid p.snapshot) t).0 r =
        subst (λ x. Stores x r) (route_member p other found same) h in
      commit-IsWithdrawn hash after_read t c old (withdraw old.uid p.snapshot) r
        (withdraw-Blocked old.uid p.snapshot.members) (ground arith)
        (subst
          (λ k.
            lookup k
              (commit_publication hash after_read (withdraw old.uid p.snapshot) t).0.store.records
            ≡ some r)
          (sym key) there)

  withdraw_route-IsWithdrawn :
      (r : StoredRecord)
      → Inv hash o.store.records
      → Stores (withdraw_route hash o c old (key_of c) t).0 r
      → r.publication.snapshot.cluster.uid ≡ c.uid
      → IsWithdrawn c old r.publication.snapshot
  withdraw_route-IsWithdrawn r v h u = elim (Bool-cases (string_beq old.name c.current_primary)) [
    | inl primary ↦ withdraw_primary r primary h
    | inr other ↦ elim (Option-cases (read_publication hash o.store (key_of c) t.read).1) [
      | inl e ↦
          let f = found_in r (subst (λ x. Stores x r) (route_missing other e) h) in
          absurd (ground (arith, f, e))
      | inr (p, e) ↦ elim (Bool-cases (string_beq p.snapshot.cluster.uid c.uid)) [
        | inl same ↦ withdraw_other p r v other e same h
        | inr different ↦
            let f = found_in r (subst (λ x. Stores x r) (route_other p other e different) h) in
            let q : p ≡ r.publication = ground (arith, e, f) in
            let uid : p.snapshot.cluster.uid ≡ c.uid = ap (λ x. x.snapshot.cluster.uid) q ∙ u in
            absurd (ground (arith, string_beq_iff p.snapshot.cluster.uid c.uid))
      ]
    ]
  ]

  round :
      (new : Option Pod)
      → lookup (key_of c) o.clusters ≡ some c
      → route_changed old new ≡ true
      → (handle_pod hash o (some old) new (key_of c) t).0
        ≡ enqueue (withdraw_route hash o c old (key_of c) t).0 (key_of c) true t
  unfolding handle_pod
  round new cached changed = rw (cached, changed, handle_pod) refl

  -- A changed route is withdrawn before anything is observed again: when the route of a Pod of a
  -- cached Cluster changed, or the Pod is gone, and whether or not anyone asks for the cluster, the
  -- record that is stored for this incarnation of the Cluster after the round of podEvent has no
  -- ready member with the Pod's UID, and is unavailable if the Pod was the current primary.
  pub handle_pod-IsWithdrawn :
      (new : Option Pod) (r : StoredRecord)
      → Inv hash o.store.records
      → lookup (key_of c) o.clusters ≡ some c
      → route_changed old new ≡ true
      → lookup (key_of c) (handle_pod hash o (some old) new (key_of c) t).0.store.records ≡ some r
      → r.publication.snapshot.cluster.uid ≡ c.uid
      → IsWithdrawn c old r.publication.snapshot
  handle_pod-IsWithdrawn new r v cached changed h u =
      let moved = (withdraw_route hash o c old (key_of c) t).0 in
      let there : Stores (enqueue moved (key_of c) true t) r =
        subst (λ x. Stores x r) (round new cached changed) h in
      withdraw_route-IsWithdrawn r v
        (subst (λ rs. lookup (key_of c) rs ≡ some r) (enqueue-records moved (key_of c) true t)
          there)
        u
