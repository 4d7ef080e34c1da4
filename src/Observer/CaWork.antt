-- ===== src/Observer/CaWork.antt =====
-- workCA and fetchCA of internal/observer/connection.go over the observer. A worker takes a key
-- (begin_ca_work), reads the Secret without the lock, and enters what it read (end_ca_work); other
-- steps come between. What it asks of the rate-limiting queue of client-go is its answer.
pub mod Fetch
pub mod Outcome
mod Examples
use cnpg_connect_plugin.Prelude.{
  Bool, true, false, not, Option, none, some, List, [], ◌∷◌, if◌then◌else◌, is_some,
}
use cnpg_connect_plugin.Prelude.Map.{Map, lookup, insert, delete, has}
use cnpg_connect_plugin.Key.{ClusterKey, key_eq}
use cnpg_connect_plugin.Kube.{Cluster}
use cnpg_connect_plugin.Store.{has_demand}
use cnpg_connect_plugin.Evidence.{key_of}
use cnpg_connect_plugin.Config.{Library}
use cnpg_connect_plugin.CaCache.{SecretMeta, ReadSecret, begin_fetch, finish_fetch}
use cnpg_connect_plugin.Observer.{Observer, Clock, enqueue}
use cnpg_connect_plugin.Observer.SecretEvents.{clusters_using_ca}

pub data CaAnswer : Type 0 where
  -- The worker ends.
  ends : CaAnswer
  -- The key is added again after the poll interval.
  waits : CaAnswer
  -- The key is forgotten by the queue.
  forgets : CaAnswer
  -- The key is added again at its rate limit.
  retries : CaAnswer
  -- The Secret is to be read.
  reads : SecretMeta → CaAnswer

unfoldable pub keep_asked : Observer → List Cluster → (ClusterKey → Clock) → Observer × List Cluster
keep_asked o [] clock = (o, [])
keep_asked o (c ∷ cs) clock =
    let (st, demanded) = has_demand o.store (key_of c) (clock (key_of c)).asked in
    let (o1, rest) = keep_asked (record o { store = st }) cs clock in
    (o1, if demanded then c ∷ rest else rest)

unfoldable pub demanded_ca_clusters :
    Library → Observer → ClusterKey → (ClusterKey → Clock) → Observer × List Cluster
unfolding keep_asked
demanded_ca_clusters library o key clock =
    keep_asked o (clusters_using_ca library o.clusters key) clock

unfoldable pub any_cluster : List Cluster → Bool
any_cluster [] = false
any_cluster (_ ∷ _) = true

-- Demand is asked for only where the informer has the Secret.
unfoldable pub start_fetch :
    Library → Observer → ClusterKey → (ClusterKey → Clock) → Observer × Option SecretMeta
unfolding demanded_ca_clusters any_cluster
start_fetch library o key clock =
    let (o1, demanded) : Observer × Bool =
      if has key o.ca.secrets
      then (let (o2, cs) = demanded_ca_clusters library o key clock in (o2, any_cluster cs))
      else (o, false) in
    let (ca, meta) = begin_fetch o1.ca key demanded in (record o1 { ca = ca }, meta)

unfoldable pub notify_all : Observer → List Cluster → (ClusterKey → Clock) → Observer
notify_all o [] clock = o
notify_all o (c ∷ cs) clock = notify_all (enqueue o (key_of c) true (clock (key_of c))) cs clock

-- `found` is none where the read failed. Demand is asked for only where the read passes the checks,
-- which is where finish_fetch settles a key without demand.
unfoldable pub end_fetch :
    Library
    → Observer
    → ClusterKey
    → SecretMeta
    → Option ReadSecret
    → Bool
    → Bool
    → (ClusterKey → Clock)
    → Observer × Bool
unfolding demanded_ca_clusters any_cluster notify_all
end_fetch library o key meta found stopped ready clock =
    if (finish_fetch o.ca key meta found stopped ready false).1
    then (let (o1, cs) = demanded_ca_clusters library o key clock in
        let (ca, settled) = finish_fetch o1.ca key meta found stopped ready (any_cluster cs) in
        (notify_all (record o1 { ca = ca }) cs clock, settled))
    else (record o { ca = (finish_fetch o.ca key meta found stopped ready false).0 }, false)

unfoldable pub begin_ca_work :
    Library → Observer → ClusterKey → Bool → Bool → (ClusterKey → Clock) → Observer × CaAnswer
unfolding start_fetch
begin_ca_work library o key stopped ready clock =
    if stopped
    then (o, ends)
    else if not ready
    then (o, waits)
    else (let (o1, meta) = start_fetch library o key clock in
        elim meta [ none ↦ (o1, forgets) | some m ↦ (o1, reads m) ])

unfoldable pub end_ca_work :
    Library
    → Observer
    → ClusterKey
    → SecretMeta
    → Option ReadSecret
    → Bool
    → Bool
    → (ClusterKey → Clock)
    → Observer × CaAnswer
unfolding end_fetch
end_ca_work library o key meta found stopped ready clock =
    let (o1, settled) = end_fetch library o key meta found stopped ready clock in
    (o1, if settled then forgets else retries)
