-- ===== src/Observer/Closing.antt =====
-- Commits that close a cluster, and the cancellation of its observation (publication.go and work.go
-- of internal/observer).
use cnpg_connect_plugin.Prelude.{
  ℕ, ◌≡◌, refl, sym, subst, ◌∙◌, ap, String, Bool, true, false, ◌||◌, not, some, List, [], ◌∷◌, map,
  arith, ltb, get_or, All, Bool-cases, inl, inr,
}
use cnpg_connect_plugin.Prelude.Map.{lookup, lookup-insert}
use cnpg_connect_plugin.Key.{ClusterKey, key_eq, key_beq_iff}
use cnpg_connect_plugin.Api.{Time, Snapshot, Member, ClusterRef}
use cnpg_connect_plugin.Kube.{Cluster}
use cnpg_connect_plugin.Routing.{Digest, invalidate, invalidate_member}
use cnpg_connect_plugin.Store.{StoredRecord, cluster_key}
use cnpg_connect_plugin.Store.Publishing.{accepted, put_commits}
use cnpg_connect_plugin.Topology.{unavailable, cluster_ref}
use cnpg_connect_plugin.Evidence.{key_of}
use cnpg_connect_plugin.Observer.{
  Observer, Clock, cancel_observation, pace, enqueue, commit_publication,
}
use cnpg_connect_plugin.Observer.Stored.{accepted_closed, commit_stored}

-- No observation of the cluster is in flight that may still publish.
abbrev pub IsSuperseded : Observer → ClusterKey → Type 0
IsSuperseded o key = get_or (lookup key o.observations) true ≡ true

-- The store has this incarnation of the cluster as unavailable.
abbrev pub IsClosed : Observer → ClusterKey → ClusterRef → Type 0
IsClosed o key cluster =
    (r : StoredRecord) × (lookup key o.store.records ≡ some r)
    × (r.publication.snapshot.available ≡ false)
    × (r.publication.snapshot.cluster ≡ cluster)

pub cancel-IsSuperseded :
    (o : Observer) (key : ClusterKey) → IsSuperseded (cancel_observation o key) key
unfolding cancel_observation
cancel-IsSuperseded o key =
    ground (arith, lookup-insert key key true o.observations, key_beq_iff key key)

accepted_cluster : (s : Snapshot) (before now : Time) → (accepted s before now).cluster ≡ s.cluster
unfolding invalidate
accepted_cluster s before now = ground arith

-- A commit of an unavailable snapshot leaves one.
pub commit-IsClosed :
    (hash : Snapshot → Digest) (o : Observer) (s : Snapshot) (t : Clock)
    → s.available ≡ false
    → IsClosed (commit_publication hash o s t).0 (cluster_key s) s.cluster
unfolding commit_publication
commit-IsClosed hash o s t h =
    let c = put_commits hash o.store s t.before t.committed in
    let closed : c.published.snapshot.available ≡ false =
      ap (λ x. x.available) c.content ∙ accepted_closed s t.before t.committed h in
    let same : c.published.snapshot.cluster ≡ s.cluster =
      ap (λ x. x.cluster) c.content ∙ accepted_cluster s t.before t.committed in
    (
      c.stored,
      c.kept,
      ap (λ x. x.snapshot.available) c.shared ∙ closed,
      ap (λ x. x.snapshot.cluster) c.shared ∙ same,
    )

pub unavailable-IsClosed :
    (hash : Snapshot → Digest) (o : Observer) (c : Cluster) (at : Time) (ttl : ℕ) (reason : String)
    (t : Clock)
    → IsClosed
        (commit_publication hash o (unavailable c at ttl reason) t).0
        (key_of c)
        (cluster_ref c)
unfolding unavailable cluster_ref
unavailable-IsClosed hash o c at ttl reason t =
    commit-IsClosed hash o (unavailable c at ttl reason) t refl

pub enqueue-observations :
    (o : Observer) (key : ClusterKey) (urgent : Bool) (t : Clock)
    → (enqueue o key urgent t).observations ≡ o.observations
unfolding enqueue pace
enqueue-observations o key urgent t = ground arith

pub enqueue-ca :
    (o : Observer) (key : ClusterKey) (urgent : Bool) (t : Clock)
    → (enqueue o key urgent t).ca ≡ o.ca
unfolding enqueue pace
enqueue-ca o key urgent t = ground arith

-- No member is ready.
abbrev pub NoneReady : List Member → Type 0
NoneReady = All (λ (m : Member). m.ready ≡ false)

-- Closed, without a ready member.
abbrev pub IsShut : Observer → ClusterKey → ClusterRef → Type 0
IsShut o key cluster =
    (r : StoredRecord) × (lookup key o.store.records ≡ some r)
    × (r.publication.snapshot.available ≡ false)
    × (r.publication.snapshot.cluster ≡ cluster)
    × NoneReady r.publication.snapshot.members

invalidate-NoneReady : (ms : List Member) → NoneReady ms → NoneReady (map invalidate_member ms)
unfolding invalidate_member
invalidate-NoneReady [] h = tt
invalidate-NoneReady (m ∷ ms) (e, h) = (ground arith, invalidate-NoneReady ms h)

accepted-NoneReady :
    (s : Snapshot) (before now : Time)
    → NoneReady s.members
    → NoneReady (accepted s before now).members
unfolding invalidate
accepted-NoneReady s before now h =
    elim (Bool-cases (not (ltb before s.valid_until) || not (ltb now s.valid_until))) [
      | inl over ↦ rw over (invalidate-NoneReady s.members h)
      | inr valid ↦ rw valid h
    ]

-- A commit of a snapshot without a primary and without a ready member leaves the cluster so.
pub commit-IsShut :
    (hash : Snapshot → Digest) (o : Observer) (s : Snapshot) (t : Clock)
    → s.available ≡ false
    → NoneReady s.members
    → IsShut (commit_publication hash o s t).0 (cluster_key s) s.cluster
commit-IsShut hash o s t h n =
    let (r, kept, closed, same) = commit-IsClosed hash o s t h in
    let unready : NoneReady r.publication.snapshot.members =
      subst (λ x. NoneReady x.members) (sym (commit_stored hash o t s r kept))
        (accepted-NoneReady s t.before t.committed n) in
    (r, kept, closed, same, unready)

pub unavailable-IsShut :
    (hash : Snapshot → Digest) (o : Observer) (c : Cluster) (at : Time) (ttl : ℕ) (reason : String)
    (t : Clock)
    → IsShut
        (commit_publication hash o (unavailable c at ttl reason) t).0
        (key_of c)
        (cluster_ref c)
unfolding unavailable cluster_ref
unavailable-IsShut hash o c at ttl reason t =
    commit-IsShut hash o (unavailable c at ttl reason) t refl tt
