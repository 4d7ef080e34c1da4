-- ===== src/CaCache/Reads.antt =====
-- What a finished read adds to the CA cache (fetchCA of internal/observer/connection.go).
use cnpg_connect_plugin.Prelude.{
  ◌+◌, ◌≡◌, ◌⊎◌, refl, subst, Bool, none, some, arith, Bool-cases, inl, inr,
}
use cnpg_connect_plugin.Prelude.Map.{lookup, insert, lookup-insert}
use cnpg_connect_plugin.Key.{ClusterKey, key_eq, key_beq, key_beq_iff}
use cnpg_connect_plugin.CaCache.{SecretMeta, CachedCa, CaCache, ReadSecret, finish_fetch, entry_of}
use cnpg_connect_plugin.CaCache.History.{Contents, Keeps}

-- A read adds at most the entry of its own number.
pub record Adds (content : Contents) (old new : CaCache) : Type 0 where
  pub count : new.next_id ≡ old.next_id + 1
  pub kept :
      (key : ClusterKey) (ca : CachedCa)
      → lookup key new.cas ≡ some ca
      → (lookup key old.cas ≡ some ca)
        ⊎ ((ca.key ≡ key)
            × (ca.public ≡ content key ca.uid ca.resource_version)
            × (ca.id ≡ old.next_id))

finish_cas :
    (cache : CaCache) (key : ClusterKey) (meta : SecretMeta) (secret : ReadSecret)
    (stopped ready demanded : Bool)
    → let after = (finish_fetch cache key meta (some secret) stopped ready demanded).0 in
      (after.cas ≡ cache.cas)
      ⊎ (after.cas ≡ insert key (entry_of cache.next_id key secret) cache.cas)
unfolding finish_fetch
finish_cas cache key meta secret stopped ready demanded = ground arith

added :
    (content : Contents) (cache : CaCache) (key k : ClusterKey) (secret : ReadSecret)
    (ca : CachedCa)
    → secret.public ≡ content key secret.uid secret.resource_version
    → lookup k (insert key (entry_of cache.next_id key secret) cache.cas) ≡ some ca
    → (lookup k cache.cas ≡ some ca)
      ⊎ ((ca.key ≡ k)
          × (ca.public ≡ content k ca.uid ca.resource_version)
          × (ca.id ≡ cache.next_id))
unfolding entry_of
added content cache key k secret ca c h =
    let entry = entry_of cache.next_id key secret in
    let found = lookup-insert key k entry cache.cas in
    elim (Bool-cases (key_beq key k)) [
      | inl e ↦
          let same : key ≡ k = (key_beq_iff key k).0 e in
          let here : entry ≡ ca = ground (arith, found, h, e) in
          inr (
            subst
              (λ x.
                (x.key ≡ k)
                × (x.public ≡ content k x.uid x.resource_version)
                × (x.id ≡ cache.next_id))
              here
              (
                same,
                subst (λ j. secret.public ≡ content j secret.uid secret.resource_version) same c,
                refl,
              ))
      | inr e ↦ inl (ground (arith, found, h, e))
    ]

pub finish-Adds :
    (content : Contents) (cache : CaCache) (key : ClusterKey) (meta : SecretMeta)
    (secret : ReadSecret) (stopped ready demanded : Bool)
    → secret.public ≡ content key secret.uid secret.resource_version
    → Adds content cache (finish_fetch cache key meta (some secret) stopped ready demanded).0
unfolding finish_fetch
finish-Adds content cache key meta secret stopped ready demanded c = record {
  count = ground arith;
  kept = λ k ca h. elim (finish_cas cache key meta secret stopped ready demanded) [
    | inl same ↦ inl (subst (λ m. lookup k m ≡ some ca) same h)
    | inr more ↦ added content cache key k secret ca c (subst (λ m. lookup k m ≡ some ca) more h)
  ];
}

-- A read that fails adds nothing.
pub failed-Keeps :
    (cache : CaCache) (key : ClusterKey) (meta : SecretMeta) (stopped ready demanded : Bool)
    → Keeps cache (finish_fetch cache key meta none stopped ready demanded).0
unfolding finish_fetch
failed-Keeps cache key meta stopped ready demanded = record { count = refl; kept = λ k ca h. h }
