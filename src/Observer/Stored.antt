-- ===== src/Observer/Stored.antt =====
-- What the store has after a commit, after a read and after a key was enqueued (commitPublication of
-- internal/observer/publication.go and enqueue of internal/observer/observer.go).
use cnpg_connect_plugin.Prelude.{
  ◌≡◌, sym, ◌∙◌, ap, subst, Bool, false, some, arith, Option-cases, inl, inr,
}
use cnpg_connect_plugin.Prelude.Map.{lookup}
use cnpg_connect_plugin.Key.{ClusterKey, key_eq}
use cnpg_connect_plugin.Api.{Time, Snapshot}
use cnpg_connect_plugin.Routing.{Digest, invalidate}
use cnpg_connect_plugin.Mailbox.{Publication}
use cnpg_connect_plugin.Store.{Store, StoredRecord, cluster_key, read_publication}
use cnpg_connect_plugin.Store.Invariant.{Inv, read_publication-Inv}
use cnpg_connect_plugin.Store.Expiry.{read_stored}
use cnpg_connect_plugin.Store.Operations.{has_demand-records}
use cnpg_connect_plugin.Store.Publishing.{accepted, put_commits}
use cnpg_connect_plugin.Observer.{Observer, Clock, pace, enqueue, commit_publication}

pub enqueue-records :
    (o : Observer) (key : ClusterKey) (urgent : Bool) (t : Clock)
    → (enqueue o key urgent t).store.records ≡ o.store.records
unfolding enqueue pace
enqueue-records o key urgent t = ground (arith, has_demand-records o.store key t.asked)

pub accepted_closed :
    (s : Snapshot) (before now : Time)
    → s.available ≡ false
    → (accepted s before now).available ≡ false
unfolding invalidate
accepted_closed s before now h = ground arith

-- A commit stores what it accepts, under a revision.
module _ (hash : Snapshot → Digest) (o : Observer) (t : Clock) where
  pub commit_stored :
      (s : Snapshot) (r : StoredRecord)
      → lookup (cluster_key s) (commit_publication hash o s t).0.store.records ≡ some r
      → r.publication.snapshot
        ≡ record (accepted s t.before t.committed) { revision = r.publication.snapshot.revision }
  unfolding commit_publication
  commit_stored s r h =
      let c = put_commits hash o.store s t.before t.committed in
      let same : c.stored ≡ r = let e = c.kept in cc in
      let q : c.published ≡ r.publication = sym c.shared ∙ ap (λ x. x.publication) same in
      subst
        (λ p.
          p.snapshot ≡ record (accepted s t.before t.committed) { revision = p.snapshot.revision })
        q c.content

pub read_keyed :
    (hash : Snapshot → Digest) (st : Store) (k : ClusterKey) (now : Time) (p : Publication)
    → Inv hash st.records
    → (read_publication hash st k now).1 ≡ some p
    → cluster_key p.snapshot ≡ k
read_keyed hash st k now p v h =
    elim (Option-cases (lookup k (read_publication hash st k now).0.records)) [
      | inl e ↦ absurd (ground (arith, read_stored hash st k now))
      | inr (r, e) ↦
          let same : r.publication ≡ p = ground (arith, read_stored hash st k now) in
          let keyed = (read_publication-Inv hash st k now v k r e).keyed in
          subst (λ x. cluster_key x.snapshot ≡ k) same keyed
    ]
