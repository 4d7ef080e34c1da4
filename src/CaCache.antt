-- ===== src/CaCache.antt =====
-- internal/observer/connection.go: the cache of the public CA certificates of PostgreSQL servers,
-- by the name of their Secret. A pointer to an entry is the entry with the number that it was made
-- with. What the Kubernetes API and the certificate parsers give is an argument of the steps; the
-- queue of reads is the list of the additions to it.
pub mod Certificates
pub mod History
pub mod Reads
pub mod Invariant
pub mod Current
mod Examples
use cnpg_connect_plugin.Prelude.{
  ℕ, ◌+◌, String, string_eq, Bool, true, false, ◌&&◌, ◌||◌, not, Option, none, some, List, [], ◌∷◌,
  ◌++◌, if◌then◌else◌, get_or, or_else, string_beq, nat_beq, is_some,
}
use cnpg_connect_plugin.Prelude.Map.{Map, lookup, insert, delete, has}
use cnpg_connect_plugin.Key.{ClusterKey, key_eq}
use cnpg_connect_plugin.Api.{ConnectionParameters}
use cnpg_connect_plugin.Kube.{Cluster}

-- What the informer keeps of a Secret.
pub record SecretMeta : Type 0 where
  pub uid : String
  pub resource_version : String

pub record CachedCa : Type 0 where
  pub id : ℕ
  pub key : ClusterKey
  pub uid : String
  pub resource_version : String
  pub public : List ℕ

pub record CaCache : Type 0 where
  pub secrets : Map ClusterKey SecretMeta
  pub cas : Map ClusterKey CachedCa
  -- The reads in flight, true if cancelled.
  pub reads : Map ClusterKey Bool
  pub pending : Map ClusterKey Bool
  pub queue : List ClusterKey
  pub next_id : ℕ

-- The database of the bootstrap methods, in the order of the source.
unfoldable pub application_database : Cluster → String
application_database c =
    let name : String → String = λ method. get_or (lookup method c.databases) "" in
    if not (string_beq (name "recovery") "")
    then name "recovery"
    else if not (string_beq (name "pg_basebackup") "")
    then name "pg_basebackup"
    else name "initdb"

unfoldable pub ca_key : Cluster → ClusterKey
ca_key c = record { namespace = c.namespace; name = c.server_ca_secret }

unfoldable pub same_version : SecretMeta → CachedCa → Bool
same_version meta ca =
    string_beq meta.uid ca.uid && string_beq meta.resource_version ca.resource_version

unfoldable pub current_ca : CaCache → Option CachedCa → Bool
unfolding same_version
current_ca cache none = false
current_ca cache (some ca) = elim (lookup ca.key cache.cas) [
  | none ↦ false
  | some entry ↦
      if nat_beq entry.id ca.id
      then elim (lookup ca.key cache.secrets) [ none ↦ false | some meta ↦ same_version meta ca ]
      else false
]

-- A read is asked for once, until it is done.
unfoldable pub request_read : CaCache → ClusterKey → CaCache
request_read cache key =
    if get_or (lookup key cache.pending) false
    then cache
    else record cache { pending = insert key true cache.pending; queue = cache.queue ++ (key ∷ []) }

-- The parameters and the entry that they come from, none for the errors; `stopped` tells whether
-- the context is done.
unfoldable pub cached_connection :
    CaCache → Cluster → Bool → CaCache × Option (ConnectionParameters × CachedCa)
unfolding request_read application_database ca_key
cached_connection cache c stopped =
    let key = ca_key c in
    let found = lookup key cache.cas in
    if stopped
    then (cache, none)
    else if current_ca cache found
    then elim found [
      | none ↦ (cache, none)
      | some ca ↦ (
        cache,
        some (record { database = application_database c; server_ca_pem = ca.public }, ca),
      )
    ]
    else if not (has key cache.secrets)
    then (cache, none)
    else (request_read cache key, none)

-- What secretEvent does to the cache; true where the entry was not current.
unfoldable pub forget_ca : CaCache → ClusterKey → CaCache × Bool
forget_ca cache key = if current_ca cache (lookup key cache.cas) then (cache, false) else (
  record cache {
    cas = delete key cache.cas;
    reads = if has key cache.reads then insert key true cache.reads else cache.reads;
    queue =
        if get_or (lookup key cache.pending) false then cache.queue ++ (key ∷ []) else cache.queue;
  },
  true,
)

-- The first half of fetchCA: the Secret to be read, none where nothing is left to do.
unfoldable pub begin_fetch : CaCache → ClusterKey → Bool → CaCache × Option SecretMeta
begin_fetch cache key demanded =
    let settled : CaCache = record cache { pending = delete key cache.pending } in
    elim (lookup key cache.secrets) [
      | none ↦ (settled, none)
      | some meta ↦
          if not demanded || current_ca cache (lookup key cache.cas)
          then (settled, none)
          else (record cache { reads = insert key false cache.reads }, some meta)
    ]

-- A Secret that was read, with its public certificates.
pub record ReadSecret : Type 0 where
  pub uid : String
  pub resource_version : String
  pub public : List ℕ

unfoldable pub entry_of : ℕ → ClusterKey → ReadSecret → CachedCa
entry_of id key secret = record {
  id = id;
  key = key;
  uid = secret.uid;
  resource_version = secret.resource_version;
  public = secret.public;
}

-- Whether the Secret was at one version from the start of the read to its end.
unfoldable pub unmoved : SecretMeta → Option SecretMeta → CachedCa → Bool
unfolding same_version
unmoved meta none ca = false
unmoved meta (some current) ca =
    string_beq current.uid meta.uid
    && (string_beq current.resource_version meta.resource_version && same_version current ca)

-- The second half of fetchCA, true where the key is done with. `found` is none where the read
-- failed, `stopped` tells whether its context is done but for a cancellation by secretEvent.
unfoldable pub finish_fetch :
    CaCache → ClusterKey → SecretMeta → Option ReadSecret → Bool → Bool → Bool → CaCache × Bool
unfolding entry_of unmoved
finish_fetch cache key meta found stopped ready demanded =
    let cancelled = get_or (lookup key cache.reads) false in
    let c1 : CaCache = record cache { reads = delete key cache.reads } in
    elim found [
      | none ↦ (c1, false)
      | some secret ↦
          (let ca = entry_of cache.next_id key secret in
            let settled : CaCache = record c1 {
              pending = delete key cache.pending;
              next_id = cache.next_id + 1;
            } in
            if stopped
              || (cancelled || (not ready || not (unmoved meta (lookup key c1.secrets) ca)))
            then (record c1 { next_id = cache.next_id + 1 }, false)
            else if not demanded
            then (settled, true)
            else (record settled { cas = insert key ca c1.cas }, true))
    ]

unfoldable pub keep_demanded :
    (ClusterKey → Bool) → Map ClusterKey CachedCa → Map ClusterKey CachedCa
keep_demanded demanded [] = []
keep_demanded demanded ((key, ca) ∷ rest) =
    let later = keep_demanded demanded rest in if demanded key then (key, ca) ∷ later else later

-- pruneConnections of internal/observer/status.go: the entries of the demanded keys stay.
unfoldable pub prune_cas : (ClusterKey → Bool) → CaCache → CaCache
unfolding keep_demanded
prune_cas demanded cache = record cache { cas = keep_demanded demanded cache.cas }
