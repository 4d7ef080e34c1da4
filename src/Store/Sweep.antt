-- ===== src/Store/Sweep.antt =====
-- internal/discovery/store.go: the sweeps over all clusters, and the demand of unary readers.
use cnpg_connect_plugin.Prelude.{
  Bool, true, false, ◌&&◌, not, none, some, List, [], ◌∷◌, ◌++◌, map, ltb, if◌then◌else◌, is_some,
  filter_by, contains, string_beq, ◌+◌,
}
use cnpg_connect_plugin.Prelude.Map.{Map, lookup, insert, has}
use cnpg_connect_plugin.Prelude.Text.{string_less}
use cnpg_connect_plugin.Prelude.Sort.{sort_by}
use cnpg_connect_plugin.Key.{ClusterKey, key_eq}
use cnpg_connect_plugin.Api.{Snapshot, ClusterRef, Time}
use cnpg_connect_plugin.Routing.{Digest}
use cnpg_connect_plugin.Store.{Store, Notification, expire_record, has_demand, cluster_identity}

-- What RequestRefresh reports, and whether it calls the demand handler.
pub record Refresh : Type 0 where
  pub known : Bool
  pub demanded : Bool

unfoldable pub request_refresh : Store → ClusterKey → Time → Store × Refresh
unfolding has_demand
request_refresh st key now =
    if has key st.records
    then (let (st1, active) = has_demand st key now in
        (
          if ltb 0 st1.unary_lease
              then record st1 { unary_demand = insert key (now + st1.unary_lease) st1.unary_demand }
              else st1,
          record { known = true; demanded = not active && st1.on_demand },
        ))
    else (st, record { known = false; demanded = false })

-- The loop of Expire over the records, in the order in which the range visits their keys.
unfoldable pub expire_keys :
    (Snapshot → Digest) → Time → List ClusterKey → Store → Store × List Notification
unfolding expire_record
expire_keys hash now [] st = (st, [])
expire_keys hash now (key ∷ keys) st = elim (lookup key st.records) [
  | none ↦ expire_keys hash now keys st
  | some current ↦
      (let (st1, n) = expire_record hash st key current now in
        let (st2, ns) = expire_keys hash now keys st1 in
        (st2, if is_some n.publication then n ∷ ns else ns))
]

abbrev pub keys_of : {V : Type 0} → Map ClusterKey V → List ClusterKey
keys_of = map (λ e. e.0)

unfoldable pub live_leases : Time → Map ClusterKey Time → Map ClusterKey Time
live_leases now = filter_by (λ e. ltb now e.1)

unfoldable pub expire : (Snapshot → Digest) → Store → Time → Store × List Notification
unfolding expire_keys live_leases
expire hash st now =
    let (st1, ns) = expire_keys hash now (keys_of st.records) st in
    (record st1 { unary_demand = live_leases now st1.unary_demand }, ns)

unfoldable pub ref_less : ClusterRef → ClusterRef → Bool
ref_less a b =
    if string_beq a.namespace b.namespace
    then string_less a.name b.name
    else string_less a.namespace b.namespace

-- The clusters with watchers, and those with live leases that have none.
unfoldable pub active_keys : Store → Time → List ClusterKey
unfolding live_leases
active_keys st now =
    let watched = keys_of st.subscribers in
    watched ++ filter_by (λ k. not (contains watched k)) (keys_of (live_leases now st.unary_demand))

unfoldable pub identities : Store → List ClusterKey → List ClusterRef
unfolding cluster_identity
identities st [] = []
identities st (k ∷ ks) =
    let rest = identities st ks in elim (cluster_identity st k) [ none ↦ rest | some r ↦ r ∷ rest ]

unfoldable pub active_clusters : Store → Time → Store × List ClusterRef
unfolding active_keys live_leases identities ref_less
active_clusters st now = (
  record st { unary_demand = live_leases now st.unary_demand },
  sort_by ref_less (identities st (active_keys st now)),
)
