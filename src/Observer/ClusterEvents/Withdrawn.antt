-- ===== src/Observer/ClusterEvents/Withdrawn.antt =====
-- What clusterEvent (internal/observer/events.go) withdraws.
use cnpg_connect_plugin.Prelude.{
  ◌≡◌, ◌⊎◌, refl, sym, ◌∙◌, subst, Bool, true, false, ◌||◌, not, Option, none, some, List, arith,
  get_or, Bool-cases, inl, inr,
}
use cnpg_connect_plugin.Prelude.Map.{lookup, lookup-delete}
use cnpg_connect_plugin.Key.{ClusterKey, key_eq, key_beq_iff}
use cnpg_connect_plugin.Api.{Snapshot}
use cnpg_connect_plugin.Kube.{Cluster}
use cnpg_connect_plugin.Routing.{Digest}
use cnpg_connect_plugin.Store.{StoredRecord, Notification, has_demand}
use cnpg_connect_plugin.Store.Operations.{has_demand-records}
use cnpg_connect_plugin.Store.Deleting.{delete_deletes}
use cnpg_connect_plugin.Topology.{cluster_ref}
use cnpg_connect_plugin.Evidence.{key_of}
use cnpg_connect_plugin.Config.{Library}
use cnpg_connect_plugin.Config.Enrollment.{parameters}
use cnpg_connect_plugin.ClusterRoutes.{same_cluster_route}
use cnpg_connect_plugin.Observer.{Observer, Clock, cancel_observation, commit_publication}
use cnpg_connect_plugin.Observer.Stored.{enqueue-records}
use cnpg_connect_plugin.Observer.ClusterEvents.{
  forget_cluster, withdraw_cluster, is_registered, register_cluster, close_route, demand_cluster,
  compare_routes, cluster_event,
}
use cnpg_connect_plugin.Observer.Closing.{
  IsSuperseded, IsClosed, cancel-IsSuperseded, unavailable-IsClosed, enqueue-observations,
}

-- The demand of a cluster changes neither its record nor its observation.
demand_keeps :
    (o : Observer) (key : ClusterKey) (t u : Clock)
    → ((demand_cluster o key t u).store.records ≡ o.store.records)
      × ((demand_cluster o key t u).observations ≡ o.observations)
unfolding demand_cluster
demand_keeps o key t u =
    let asked : Observer = record o { store = (has_demand o.store key t.asked).0 } in
    let records = enqueue-records asked key true u in
    let flights = enqueue-observations asked key true u in
    elim (Bool-cases (has_demand o.store key t.asked).1) [
      | inl e ↦ rw e (records ∙ has_demand-records o.store key t.asked, flights)
      | inr e ↦ rw e (has_demand-records o.store key t.asked, refl)
    ]

-- Closed, and about to stay so until a new observation.
abbrev pub IsHalted : Observer → Cluster → Type 0
IsHalted o c = IsClosed o (key_of c) (cluster_ref c) × IsSuperseded o (key_of c)

demand-IsHalted :
    (o : Observer) (c : Cluster) (t u : Clock)
    → IsHalted o c
    → IsHalted (demand_cluster o (key_of c) t u) c
demand-IsHalted o c t u (closed, superseded) =
    let (records, flights) = demand_keeps o (key_of c) t u in
    (
      subst
          (λ rs.
            (r : StoredRecord) × (lookup (key_of c) rs ≡ some r)
            × (r.publication.snapshot.available ≡ false)
            × (r.publication.snapshot.cluster ≡ cluster_ref c))
          (sym records) closed,
      subst (λ os. get_or (lookup (key_of c) os) true ≡ true) (sym flights) superseded,
    )

close-IsHalted :
    (hash : Snapshot → Digest) (o : Observer) (c : Cluster) (t : Clock)
    → IsHalted (close_route hash o c t).0 c
unfolding close_route commit_publication
close-IsHalted hash o c t = (
  unavailable-IsClosed hash (cancel_observation o (key_of c)) c t.observed o.ttl "topology_changed"
      t,
  cancel-IsSuperseded o (key_of c),
)

register-IsHalted :
    (hash : Snapshot → Digest) (o : Observer) (c : Cluster) (t : Clock)
    → is_registered o c ≡ false
    → IsHalted (register_cluster hash o c t).0 c
unfolding register_cluster commit_publication forget_cluster
register-IsHalted hash o c t e = rw e (
  unavailable-IsClosed hash (forget_cluster o (key_of c)) c t.observed o.ttl "awaiting_observation"
      t,
  cancel-IsSuperseded o (key_of c),
)

abbrev pub route_differs : Library → Option Cluster → Cluster → Bool
route_differs library none c = false
route_differs library (some old) c = not (same_cluster_route library old c)

compare-IsHalted :
    (hash : Snapshot → Digest) (library : Library) (o : Observer) (ns : List Notification)
    (old : Option Cluster) (c : Cluster) (t u : Clock)
    → IsHalted o c ⊎ (route_differs library old c ≡ true)
    → IsHalted (compare_routes hash library (o, ns) old c t u).0 c
unfolding compare_routes
compare-IsHalted hash library o ns none c t u (inl settled) = demand-IsHalted o c t u settled
compare-IsHalted hash library o ns none c t u (inr differs) = cc
compare-IsHalted hash library o ns (some old) c t u h =
    elim (Bool-cases (same_cluster_route library old c)) [
      | inr e ↦ rw e (demand-IsHalted (close_route hash o c u).0 c t u (close-IsHalted hash o c u))
      | inl e ↦ elim h [
        | inl settled ↦ rw e settled
        | inr differs ↦ absurd (ground (arith, e, differs))
      ]
    ]

withdraw_gone :
    (o : Observer) (key : ClusterKey)
    → let o' = (withdraw_cluster o key).0 in
      (lookup key o'.store.records ≡ none) × (lookup key o'.primaries ≡ none) × IsSuperseded o' key
unfolding withdraw_cluster forget_cluster
withdraw_gone o key =
    let o1 = cancel_observation o key in
    let deleted = delete_deletes o1.store key in
    (
      ground (arith, deleted.2 key, key_beq_iff key key),
      ground (arith, lookup-delete key key o1.primaries, key_beq_iff key key),
      cancel-IsSuperseded o key,
    )

-- A Cluster that is disabled or being deleted has nothing left: no record to read and no claims of
-- primaries, and an observation of it in flight is superseded, so that nothing of it is published.
pub disabled_withdrawn :
    (hash : Snapshot → Digest) (library : Library) (o : Observer) (old : Option Cluster)
    (c : Cluster) (t u : Clock)
    → (not (parameters library c).0 || c.deleting) ≡ true
    → let o' = (cluster_event hash library o old c t u).0 in
      (lookup (key_of c) o'.store.records ≡ none)
      × (lookup (key_of c) o'.primaries ≡ none)
      × IsSuperseded o' (key_of c)
unfolding cluster_event
disabled_withdrawn hash library o old c t u h = rw (h, cluster_event) (withdraw_gone o (key_of c))

-- An incarnation of a Cluster that the store does not have, or one whose routes have changed, is
-- unavailable in the store after its event, whether or not anyone asks for it, and an observation
-- of it in flight is superseded.
pub changed_withdrawn :
    (hash : Snapshot → Digest) (library : Library) (o : Observer) (old : Option Cluster)
    (c : Cluster) (t u : Clock)
    → (not (parameters library c).0 || c.deleting) ≡ false
    → (not (is_registered o c) || route_differs library old c) ≡ true
    → IsHalted (cluster_event hash library o old c t u).0 c
unfolding cluster_event
changed_withdrawn hash library o old c t u live changed =
    let first = register_cluster hash o c t in
    let reason : IsHalted first.0 c ⊎ (route_differs library old c ≡ true) =
      elim (Bool-cases (is_registered o c)) [
        | inl e ↦ inr (ground (arith, e))
        | inr e ↦ inl (register-IsHalted hash o c t e)
      ] in
    rw (live, cluster_event) (compare-IsHalted hash library first.0 first.1 old c t u reason)
