-- ===== src/CaCache/History.antt =====
-- Histories of the CA cache of internal/observer/connection.go: its steps in any order, among the
-- changes of Secrets that the informer sees. It is assumed of the Kubernetes API that a Secret has
-- one content at one version.
use cnpg_connect_plugin.Prelude.{
  ℕ, ◌<◌, ◌≡◌, refl, ap, String, Bool, Option, none, some, List, [], ◌∷◌, arith, if◌then◌else◌,
  Bool-cases, inl, inr,
}
use cnpg_connect_plugin.Prelude.Map.{Map, lookup, insert, delete, lookup-delete}
use cnpg_connect_plugin.Key.{ClusterKey, key_eq, key_beq, key_beq_iff}
use cnpg_connect_plugin.Kube.{Cluster}
use cnpg_connect_plugin.CaCache.{
  SecretMeta, CachedCa, CaCache, ReadSecret, cached_connection, request_read, forget_ca,
  begin_fetch, finish_fetch, keep_demanded, prune_cas,
}

pub data CaEvent : Type 0 where
  -- The informer's store changes, before its handler is called.
  informs : ClusterKey → Option SecretMeta → CaEvent
  forgets : ClusterKey → CaEvent
  asks : Cluster → Bool → CaEvent
  begins : ClusterKey → Bool → CaEvent
  finishes : ClusterKey → SecretMeta → Option ReadSecret → Bool → Bool → Bool → CaEvent
  prunes : (ClusterKey → Bool) → CaEvent

unfoldable pub ca_step : CaCache → CaEvent → CaCache
ca_step cache (informs key none) = record cache { secrets = delete key cache.secrets }
ca_step cache (informs key (some meta)) = record cache { secrets = insert key meta cache.secrets }
ca_step cache (forgets key) = (forget_ca cache key).0
ca_step cache (asks c stopped) = (cached_connection cache c stopped).0
ca_step cache (begins key demanded) = (begin_fetch cache key demanded).0
ca_step cache (finishes key meta found stopped ready demanded) =
    (finish_fetch cache key meta found stopped ready demanded).0
ca_step cache (prunes demanded) = prune_cas demanded cache

unfoldable pub ca_steps : CaCache → List CaEvent → CaCache
unfolding ca_step
ca_steps cache [] = cache
ca_steps cache (e ∷ es) = ca_steps (ca_step cache e) es

abbrev pub empty_cache : CaCache
empty_cache = record { secrets = []; cas = []; reads = []; pending = []; queue = []; next_id = 0 }

-- The content of a Secret by its UID and version, and that a read gives it.
abbrev pub Contents : Type 0
Contents = ClusterKey → String → String → List ℕ

abbrev pub FromApi : Contents → CaEvent → Type 0
FromApi content (finishes key meta (some secret) stopped ready demanded) =
    secret.public ≡ content key secret.uid secret.resource_version
FromApi content _ = Unit {0}

-- What holds of an entry with respect to the numbers that were given.
pub record EntryInv (content : Contents) (key : ClusterKey) (next : ℕ) (ca : CachedCa)
    : Type 0 where
  pub keyed : ca.key ≡ key
  pub true_content : ca.public ≡ content key ca.uid ca.resource_version
  pub numbered : ca.id < next

abbrev pub CacheInv : Contents → CaCache → Type 0
CacheInv content cache =
    (key : ClusterKey) (ca : CachedCa)
    → lookup key cache.cas ≡ some ca
    → EntryInv content key cache.next_id ca

-- Only finish_fetch adds an entry; the others keep the numbers and some of the entries.
pub record Keeps (old new : CaCache) : Type 0 where
  pub count : new.next_id ≡ old.next_id
  pub kept :
      (key : ClusterKey) (ca : CachedCa)
      → lookup key new.cas ≡ some ca
      → lookup key old.cas ≡ some ca

lookup-keep_demanded :
    (demanded : ClusterKey → Bool) (m : Map ClusterKey CachedCa) (key : ClusterKey)
    → lookup key (keep_demanded demanded m) ≡ (if demanded key then lookup key m else none)
unfolding lookup keep_demanded
lookup-keep_demanded demanded [] key = ground arith
lookup-keep_demanded demanded ((k, x) ∷ rest) key = elim (Bool-cases (key_beq k key)) [
  | inl e ↦
      let same : k ≡ key = (key_beq_iff k key).0 e in
      let sure : demanded k ≡ demanded key = ap demanded same in
      ground (arith, lookup-keep_demanded demanded rest key)
  | inr e ↦ ground (arith, lookup-keep_demanded demanded rest key)
]

pub forget-Keeps : (cache : CaCache) (key : ClusterKey) → Keeps cache (forget_ca cache key).0
unfolding forget_ca
forget-Keeps cache key = record {
  count = ground arith;
  kept = λ k ca h. ground (arith, lookup-delete key k cache.cas);
}

pub asks-Keeps :
    (cache : CaCache) (c : Cluster) (stopped : Bool)
    → Keeps cache (cached_connection cache c stopped).0
unfolding cached_connection request_read
asks-Keeps cache c stopped = record { count = ground arith; kept = λ k ca h. ground arith }

pub begin-Keeps :
    (cache : CaCache) (key : ClusterKey) (demanded : Bool)
    → Keeps cache (begin_fetch cache key demanded).0
unfolding begin_fetch
begin-Keeps cache key demanded = record { count = ground arith; kept = λ k ca h. ground arith }

pub prune-Keeps :
    (cache : CaCache) (demanded : ClusterKey → Bool) → Keeps cache (prune_cas demanded cache)
unfolding prune_cas
prune-Keeps cache demanded = record {
  count = refl;
  kept = λ k ca h. ground (arith, lookup-keep_demanded demanded cache.cas k);
}
