-- ===== src/Observer/CaWork/Fetch.antt =====
-- What the two halves of fetchCA (internal/observer/connection.go) do to the cache.
use cnpg_connect_plugin.Prelude.{
  ◌≡◌, ◌⊎◌, refl, Bool, true, false, Option, none, some, arith, Bool-cases, Option-cases, inl, inr,
  nat_beq_iff,
}
use cnpg_connect_plugin.Prelude.Map.{lookup, has, lookup-insert, lookup-delete}
use cnpg_connect_plugin.Key.{ClusterKey, key_eq, key_beq_iff}
use cnpg_connect_plugin.CaCache.{
  CaCache, SecretMeta, ReadSecret, begin_fetch, finish_fetch, current_ca, unmoved, entry_of,
}

-- The cache serves the certificates of the current version of the Secret.
abbrev pub IsServed : CaCache → ClusterKey → Type 0
IsServed cache key = current_ca cache (lookup key cache.cas) ≡ true

-- Neither the pending keys nor the entries are changed.
abbrev pub IsUntouched : CaCache → CaCache → Type 0
IsUntouched before after = (after.pending ≡ before.pending) × (after.cas ≡ before.cas)

-- A key that is settled is not pending, so that the next use of the Secret asks for it again.
abbrev pub IsSettled : CaCache → ClusterKey → Type 0
IsSettled cache key = lookup key cache.pending ≡ none

module _ (cache : CaCache) (key : ClusterKey) where
  pub begin-IsSettled :
      (demanded : Bool)
      → (begin_fetch cache key demanded).1 ≡ none
      → IsSettled (begin_fetch cache key demanded).0 key
        × ((has key (begin_fetch cache key demanded).0.secrets ≡ false)
            ⊎ IsServed (begin_fetch cache key demanded).0 key
            ⊎ (demanded ≡ false))
  unfolding begin_fetch current_ca
  begin-IsSettled demanded h =
      let gone = lookup-delete key key cache.pending in
      elim (Option-cases (lookup key cache.secrets)) [
        | inl e ↦ (ground (arith, e, gone, key_beq_iff key key), inl (ground (arith, e)))
        | inr (m, e) ↦ elim (Bool-cases (current_ca cache (lookup key cache.cas))) [
          | inl served ↦ (
            ground (arith, e, h, gone, key_beq_iff key key),
            inr (inl (ground (arith, e, served))),
          )
          | inr stale ↦ (
            ground (arith, e, h, stale, gone, key_beq_iff key key),
            inr (inr (ground (arith, e, h, stale))),
          )
        ]
      ]

  pub begin-IsUntouched :
      (demanded : Bool) (meta : SecretMeta)
      → (begin_fetch cache key demanded).1 ≡ some meta
      → IsUntouched cache (begin_fetch cache key demanded).0
  unfolding begin_fetch
  begin-IsUntouched demanded meta h = ground arith

  module _ (meta : SecretMeta) (stopped ready : Bool) where
    pub finish-IsSettled :
        (found : Option ReadSecret) (demanded : Bool)
        → (finish_fetch cache key meta found stopped ready demanded).1 ≡ true
        → IsSettled (finish_fetch cache key meta found stopped ready demanded).0 key
    unfolding finish_fetch
    finish-IsSettled none demanded h = cc
    finish-IsSettled (some secret) demanded h =
        ground (arith, lookup-delete key key cache.pending, key_beq_iff key key)

    pub finish-IsServed :
        (found : Option ReadSecret)
        → (finish_fetch cache key meta found stopped ready true).1 ≡ true
        → IsServed (finish_fetch cache key meta found stopped ready true).0 key
    unfolding finish_fetch current_ca unmoved entry_of
    finish-IsServed none h = cc
    finish-IsServed (some secret) h =
        let entry = entry_of cache.next_id key secret in
        let put = lookup-insert key key entry cache.cas in
        elim (Option-cases (lookup key cache.secrets)) [
          | inl e ↦ absurd (ground (arith, e, h))
          | inr (m, e) ↦
              ground (arith, e, h, put, key_beq_iff key key, nat_beq_iff entry.id entry.id)
        ]

    pub finish-IsUntouched :
        (found : Option ReadSecret) (demanded : Bool)
        → (finish_fetch cache key meta found stopped ready demanded).1 ≡ false
        → IsUntouched cache (finish_fetch cache key meta found stopped ready demanded).0
    unfolding finish_fetch
    finish-IsUntouched none demanded h = (refl, refl)
    finish-IsUntouched (some secret) demanded h = ground arith

    -- Whether a read settles its key does not depend on demand.
    pub finish-settles :
        (found : Option ReadSecret) (demanded : Bool)
        → (finish_fetch cache key meta found stopped ready demanded).1
          ≡ (finish_fetch cache key meta found stopped ready false).1
    unfolding finish_fetch
    finish-settles none demanded = refl
    finish-settles (some secret) demanded = ground arith

  pub begin-secrets : (demanded : Bool) → (begin_fetch cache key demanded).0.secrets ≡ cache.secrets
  unfolding begin_fetch
  begin-secrets demanded = ground arith
