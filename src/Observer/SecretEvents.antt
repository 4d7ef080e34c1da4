-- ===== src/Observer/SecretEvents.antt =====
-- secretEvent of internal/observer/connection.go and the index of Clusters by their CA Secret
-- (internal/observer/watch.go). Each Cluster that is handled has its own readings of the clock.
pub mod Round
pub mod Rotation
mod Examples
use cnpg_connect_plugin.Prelude.{
  String, Bool, true, false, ◌&&◌, ◌||◌, not, Option, none, some, List, [], ◌∷◌, ◌++◌,
  if◌then◌else◌, string_beq, ℕ,
}
use cnpg_connect_plugin.Prelude.Map.{Map}
use cnpg_connect_plugin.Key.{ClusterKey, key_beq}
use cnpg_connect_plugin.Api.{Snapshot}
use cnpg_connect_plugin.Kube.{Cluster}
use cnpg_connect_plugin.Routing.{Digest}
use cnpg_connect_plugin.Store.{Notification, read_publication}
use cnpg_connect_plugin.Topology.{unavailable}
use cnpg_connect_plugin.Evidence.{key_of}
use cnpg_connect_plugin.Config.{Library}
use cnpg_connect_plugin.Config.Enrollment.{parameters}
use cnpg_connect_plugin.CaCache.{ca_key, forget_ca}
use cnpg_connect_plugin.Observer.{Observer, Clock, cancel_observation, enqueue, commit_publication}

unfoldable pub index_server_ca : Library → Cluster → List ClusterKey
unfolding ca_key
index_server_ca library c =
    if (parameters library c).0 && (not c.deleting && not (string_beq c.server_ca_secret ""))
    then ca_key c ∷ []
    else []

-- Whether the index lists a Cluster under this Secret.
unfoldable pub listed_under : List ClusterKey → ClusterKey → Bool
listed_under [] key = false
listed_under (k ∷ ks) key = key_beq k key || listed_under ks key

unfoldable pub clusters_using_ca : Library → Map ClusterKey Cluster → ClusterKey → List Cluster
unfolding index_server_ca listed_under
clusters_using_ca library [] key = []
clusters_using_ca library ((_, c) ∷ rest) key =
    let others = clusters_using_ca library rest key in
    if listed_under (index_server_ca library c) key then c ∷ others else others

unfoldable pub no_bytes : List ℕ → Bool
no_bytes [] = true
no_bytes (_ ∷ _) = false

-- Whether what is published has a route, or the certificates of a CA.
unfoldable pub exposes_defaults : Snapshot → Bool
unfolding no_bytes
exposes_defaults s = s.available || not (no_bytes s.connection.server_ca_pem)

unfoldable pub close_defaults :
    (Snapshot → Digest) → Observer → Cluster → Clock → Observer × List Notification
unfolding exposes_defaults
close_defaults hash o c t =
    let (st, found, n) = read_publication hash o.store (key_of c) t.read in
    let o1 : Observer = record o { store = st } in
    elim found [
      | none ↦ (o1, n ∷ [])
      | some p ↦
          if exposes_defaults p.snapshot
          then (let (o2, ns) =
                commit_publication hash o1
                  (unavailable c t.observed o1.ttl "connection_defaults_changed") t in
              (o2, n ∷ ns))
          else (o1, n ∷ [])
    ]

-- One round of secretEvent over the Clusters of the Secret.
unfoldable pub renew_defaults :
    (Snapshot → Digest) → Observer → Cluster → Clock → Observer × List Notification
unfolding close_defaults
renew_defaults hash o c t =
    let (o1, ns) = close_defaults hash (cancel_observation o (key_of c)) c t in
    (enqueue o1 (key_of c) true t, ns)

unfoldable pub renew_all :
    (Snapshot → Digest)
    → Observer
    → List Cluster
    → (ClusterKey → Clock)
    → Observer × List Notification
unfolding renew_defaults
renew_all hash o [] clock = (o, [])
renew_all hash o (c ∷ cs) clock =
    let (o1, ns) = renew_defaults hash o c (clock (key_of c)) in
    let (o2, ms) = renew_all hash o1 cs clock in (o2, ns ++ ms)

unfoldable pub secret_event :
    (Snapshot → Digest)
    → Library
    → Observer
    → ClusterKey
    → (ClusterKey → Clock)
    → Observer × List Notification
unfolding renew_all clusters_using_ca
secret_event hash library o key clock =
    let (ca, stale) = forget_ca o.ca key in
    let o1 : Observer = record o { ca = ca } in
    if stale then renew_all hash o1 (clusters_using_ca library o1.clusters key) clock else (o, [])
