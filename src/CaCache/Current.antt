-- ===== src/CaCache/Current.antt =====
-- currentCA and cachedConnection of internal/observer/connection.go never let a CA of an old
-- version of a Secret through.
use cnpg_connect_plugin.Prelude.{
  ◌≡◌, ◌∙◌, subst, ap, Bool, true, some, List, arith, string_beq_iff, All, Option-cases, inl, inr,
}
use cnpg_connect_plugin.Prelude.Map.{lookup}
use cnpg_connect_plugin.Key.{key_eq}
use cnpg_connect_plugin.Api.{ConnectionParameters}
use cnpg_connect_plugin.Kube.{Cluster}
use cnpg_connect_plugin.CaCache.{
  SecretMeta, CachedCa, CaCache, application_database, ca_key, same_version, current_ca,
  cached_connection,
}
use cnpg_connect_plugin.CaCache.History.{
  CaEvent, ca_steps, empty_cache, Contents, FromApi, CacheInv,
}
use cnpg_connect_plugin.CaCache.Invariant.{steps-CacheInv}

-- The informer has the Secret at the version of the entry.
current_version :
    (cache : CaCache) (ca : CachedCa)
    → current_ca cache (some ca) ≡ true
    → (meta : SecretMeta) × (lookup ca.key cache.secrets ≡ some meta)
      × (meta.uid ≡ ca.uid)
      × (meta.resource_version ≡ ca.resource_version)
unfolding current_ca same_version
current_version cache ca h = elim (Option-cases (lookup ca.key cache.secrets)) [
  | inl e ↦ absurd (ground (arith, e))
  | inr (meta, e) ↦ (
    meta,
    e,
    (string_beq_iff _ _).0 (ground (arith, e)),
    (string_beq_iff _ _).0 (ground (arith, e)),
  )
]

-- What is served is an entry of the cache, with the database of the Cluster.
served_entry :
    (cache : CaCache) (c : Cluster) (stopped : Bool) (conn : ConnectionParameters) (ca : CachedCa)
    → (cached_connection cache c stopped).1 ≡ some (conn, ca)
    → (lookup (ca_key c) cache.cas ≡ some ca)
      × (current_ca cache (some ca) ≡ true)
      × (conn.server_ca_pem ≡ ca.public)
      × (conn.database ≡ application_database c)
unfolding cached_connection ca_key application_database
served_entry cache c stopped conn ca h = elim (Option-cases (lookup (ca_key c) cache.cas)) [
  | inl e ↦ absurd (ground (arith, e))
  | inr (x, e) ↦
      let same : x ≡ ca = ground (arith, e) in
      let current : current_ca cache (some x) ≡ true = ground (arith, e) in
      let pem : conn.server_ca_pem ≡ x.public = ground (arith, e) in
      (
        e ∙ ap some same,
        subst (λ y. current_ca cache (some y) ≡ true) same current,
        pem ∙ ap (λ y. y.public) same,
        ground (arith, e),
      )
]

empty-CacheInv : (content : Contents) → CacheInv content empty_cache
unfolding lookup
empty-CacheInv content key ca h = cc

-- A CA that was served is of the Secret that the Cluster names, and whenever currentCA holds of it
-- later, as publishObservation demands, its content is that of the version of the Secret that the
-- informer has then. The steps before are any; it is assumed that what the API gives for a version
-- is the content of that version.
pub served_ca_current :
    (content : Contents) (events : List CaEvent) (c : Cluster) (stopped : Bool)
    (conn : ConnectionParameters) (ca : CachedCa) (later : CaCache)
    → All (FromApi content) events
    → (cached_connection (ca_steps empty_cache events) c stopped).1 ≡ some (conn, ca)
    → current_ca later (some ca) ≡ true
    → (meta : SecretMeta) × (lookup (ca_key c) later.secrets ≡ some meta)
      × (conn.server_ca_pem ≡ content (ca_key c) meta.uid meta.resource_version)
served_ca_current content events c stopped conn ca later f served h =
    let cache = ca_steps empty_cache events in
    let (stored, _, pem, _) = served_entry cache c stopped conn ca served in
    let entry =
      steps-CacheInv content events empty_cache f (empty-CacheInv content) (ca_key c) ca stored in
    let (meta, found, uid, version) = current_version later ca h in
    let content_then : ca.public ≡ content (ca_key c) meta.uid meta.resource_version =
      rw (uid, version) entry.true_content in
    (meta, subst (λ k. lookup k later.secrets ≡ some meta) entry.keyed found, pem ∙ content_then)
