-- ===== src/Observer/SecretEvents/Rotation.antt =====
-- What a rotated or deleted CA Secret withdraws (secretEvent of internal/observer/connection.go).
use cnpg_connect_plugin.Prelude.{
  ◌≡◌, ◌≢◌, string_beq, string_beq_iff, some, refl, sym, ◌∙◌, subst, ap, true, false, none, List,
  [], ◌∷◌, arith, get_or, All, Bool-cases, inl, inr,
}
use cnpg_connect_plugin.Prelude.Map.{Map, lookup, lookup-insert, lookup-delete}
use cnpg_connect_plugin.Key.{ClusterKey, key_eq, key_beq, key_beq_iff}
use cnpg_connect_plugin.Api.{Snapshot}
use cnpg_connect_plugin.Kube.{Cluster}
use cnpg_connect_plugin.Routing.{Digest}
use cnpg_connect_plugin.Store.{Store}
use cnpg_connect_plugin.Evidence.{key_of}
use cnpg_connect_plugin.Config.{Library}
use cnpg_connect_plugin.Config.Enrollment.{parameters}
use cnpg_connect_plugin.CaCache.{CaCache, ca_key, forget_ca, current_ca}
use cnpg_connect_plugin.Observer.{Observer, Clock, cancel_observation, enqueue}
use cnpg_connect_plugin.Observer.Stored.{enqueue-records}
use cnpg_connect_plugin.Observer.Closing.{
  IsSuperseded, cancel-IsSuperseded, enqueue-observations, enqueue-ca,
}
use cnpg_connect_plugin.Observer.SecretEvents.{
  close_defaults, renew_defaults, renew_all, index_server_ca, listed_under, clusters_using_ca,
  secret_event,
}
use cnpg_connect_plugin.Observer.SecretEvents.Round.{
  IsHidden, close-IsHidden, close-others, close-observations, close-ca,
}

-- The store has nothing of the cluster that shows its connection defaults, and no observation of it
-- may publish them.
abbrev pub IsCleared : Observer → ClusterKey → Type 0
IsCleared o k = IsHidden o.store k × IsSuperseded o k

along-IsHidden :
    (st st' : Store) (k : ClusterKey)
    → lookup k st'.records ≡ lookup k st.records
    → IsHidden st k
    → IsHidden st' k
along-IsHidden st st' k e h r found = h r (sym e ∙ found)

cancel-keeps :
    (o : Observer) (j k : ClusterKey) → IsSuperseded o k → IsSuperseded (cancel_observation o j) k
unfolding cancel_observation
cancel-keeps o j k h = ground (arith, lookup-insert j k true o.observations)

cancel-fields :
    (o : Observer) (j : ClusterKey)
    → ((cancel_observation o j).store ≡ o.store) × ((cancel_observation o j).ca ≡ o.ca)
unfolding cancel_observation
cancel-fields o j = ground arith

module _ (hash : Snapshot → Digest) (o : Observer) (c : Cluster) (t : Clock) where
  abbrev cancelled : Observer
  cancelled = cancel_observation o (key_of c)

  abbrev closed : Observer
  closed = (close_defaults hash cancelled c t).0

  -- What is asked of the queue changes neither records nor observations.
  renew_along :
      (k : ClusterKey)
      → IsHidden closed.store k
      → IsSuperseded cancelled k
      → IsCleared (renew_defaults hash o c t).0 k
  unfolding renew_defaults
  renew_along k hidden superseded =
      let records = enqueue-records closed (key_of c) true t in
      let flights = enqueue-observations closed (key_of c) true t in
      (
        along-IsHidden closed.store (enqueue closed (key_of c) true t).store k
            (ap (λ rs. lookup k rs) records) hidden,
        subst (λ os. get_or (lookup k os) true ≡ true)
            (sym (flights ∙ close-observations hash cancelled c t)) superseded,
      )

  renew-IsCleared : IsCleared (renew_defaults hash o c t).0 (key_of c)
  renew-IsCleared =
      renew_along (key_of c) (close-IsHidden hash cancelled c t) (cancel-IsSuperseded o (key_of c))

  renew-keeps : (k : ClusterKey) → IsCleared o k → IsCleared (renew_defaults hash o c t).0 k
  renew-keeps k (hidden, superseded) = elim (Bool-cases (key_beq (key_of c) k)) [
    | inl e ↦
        subst (λ j. IsCleared (renew_defaults hash o c t).0 j) ((key_beq_iff (key_of c) k).0 e)
          renew-IsCleared
    | inr e ↦
        let before : IsHidden cancelled.store k =
          subst (λ st. IsHidden st k) (sym (cancel-fields o (key_of c)).0) hidden in
        renew_along k
          (along-IsHidden cancelled.store closed.store k (close-others hash cancelled c t k e)
            before)
          (cancel-keeps o (key_of c) k superseded)
  ]

  renew-ca : (renew_defaults hash o c t).0.ca ≡ o.ca
  unfolding renew_defaults
  renew-ca =
      enqueue-ca closed (key_of c) true t
      ∙ close-ca hash cancelled c t
      ∙ (cancel-fields o (key_of c)).1

renew_all-keeps :
    (hash : Snapshot → Digest) (o : Observer) (cs : List Cluster) (clock : ClusterKey → Clock)
    (k : ClusterKey)
    → IsCleared o k
    → IsCleared (renew_all hash o cs clock).0 k
unfolding renew_all
renew_all-keeps hash o [] clock k h = h
renew_all-keeps hash o (c ∷ cs) clock k h =
    renew_all-keeps hash (renew_defaults hash o c (clock (key_of c))).0 cs clock k
      (renew-keeps hash o c (clock (key_of c)) k h)

renew_all-IsCleared :
    (hash : Snapshot → Digest) (o : Observer) (cs : List Cluster) (clock : ClusterKey → Clock)
    → All (λ (c : Cluster). IsCleared (renew_all hash o cs clock).0 (key_of c)) cs
unfolding renew_all
renew_all-IsCleared hash o [] clock = tt
renew_all-IsCleared hash o (c ∷ cs) clock =
    let o1 = (renew_defaults hash o c (clock (key_of c))).0 in
    (
      renew_all-keeps hash o1 cs clock (key_of c) (renew-IsCleared hash o c (clock (key_of c))),
      renew_all-IsCleared hash o1 cs clock,
    )

renew_all-ca :
    (hash : Snapshot → Digest) (o : Observer) (cs : List Cluster) (clock : ClusterKey → Clock)
    → (renew_all hash o cs clock).0.ca ≡ o.ca
unfolding renew_all
renew_all-ca hash o [] clock = refl
renew_all-ca hash o (c ∷ cs) clock =
    renew_all-ca hash (renew_defaults hash o c (clock (key_of c))).0 cs clock
    ∙ renew-ca hash o c (clock (key_of c))

-- Neither an entry of the Secret nor a read of it that could make one.
abbrev pub IsForgotten : CaCache → ClusterKey → Type 0
IsForgotten cache key =
    (lookup key cache.cas ≡ none) × (get_or (lookup key cache.reads) true ≡ true)

forget-IsForgotten :
    (cache : CaCache) (key : ClusterKey)
    → current_ca cache (lookup key cache.cas) ≡ false
    → IsForgotten (forget_ca cache key).0 key
unfolding forget_ca
forget-IsForgotten cache key h = (
  ground (arith, h, lookup-delete key key cache.cas, key_beq_iff key key),
  ground (arith, h, lookup-insert key key true cache.reads, key_beq_iff key key),
)

forget_stale :
    (cache : CaCache) (key : ClusterKey)
    → current_ca cache (lookup key cache.cas) ≡ false
    → (forget_ca cache key).1 ≡ true
unfolding forget_ca
forget_stale cache key h = ground (arith, h)

event-IsCleared :
    (hash : Snapshot → Digest) (library : Library) (o : Observer) (key : ClusterKey)
    (clock : ClusterKey → Clock)
    → current_ca o.ca (lookup key o.ca.cas) ≡ false
    → let o' = (secret_event hash library o key clock).0 in
      IsForgotten o'.ca key
      × All (λ (c : Cluster). IsCleared o' (key_of c)) (clusters_using_ca library o.clusters key)
unfolding secret_event
event-IsCleared hash library o key clock h =
    let o1 : Observer = record o { ca = (forget_ca o.ca key).0 } in
    let cs = clusters_using_ca library o.clusters key in
    rw (secret_event, forget_stale o.ca key h)
      (
        subst (λ ca. IsForgotten ca key) (sym (renew_all-ca hash o1 cs clock))
            (forget-IsForgotten o.ca key h),
        renew_all-IsCleared hash o1 cs clock,
      )

listed_first :
    (library : Library) (j : ClusterKey) (d : Cluster) (m : Map ClusterKey Cluster)
    (key : ClusterKey)
    → listed_under (index_server_ca library d) key ≡ true
    → clusters_using_ca library ((j, d) ∷ m) key ≡ d ∷ clusters_using_ca library m key
unfolding clusters_using_ca
listed_first library j d m key h = rw h refl

rest_listed :
    (library : Library) (P : Cluster → Type 0) (j : ClusterKey) (d : Cluster)
    (m : Map ClusterKey Cluster) (key : ClusterKey)
    → All P (clusters_using_ca library ((j, d) ∷ m) key)
    → All P (clusters_using_ca library m key)
unfolding clusters_using_ca
rest_listed library P j d m key h =
    elim (Bool-cases (listed_under (index_server_ca library d) key)) [
      | inl e ↦ (subst (All P) (listed_first library j d m key e) h).1
      | inr e ↦
          let skipped : clusters_using_ca library ((j, d) ∷ m) key
              ≡ clusters_using_ca library m key =
            rw (clusters_using_ca, e) refl in
          subst (All P) skipped h
    ]

-- The index lists an enabled Cluster under the Secret that it names.
names-listed :
    (library : Library) (c : Cluster) (key : ClusterKey)
    → (parameters library c).0 ≡ true
    → c.deleting ≡ false
    → c.server_ca_secret ≢ ""
    → record { namespace = c.namespace; name = c.server_ca_secret } ≡ key
    → listed_under (index_server_ca library c) key ≡ true
unfolding index_server_ca listed_under ca_key
names-listed library c key enabled alive named same =
    let present : string_beq c.server_ca_secret "" ≡ false =
      elim (Bool-cases (string_beq c.server_ca_secret "")) [
        | inl e ↦ absurd (named ((string_beq_iff c.server_ca_secret "").0 e))
        | inr e ↦ e
      ] in
    rw (enabled, alive, present) (ground (arith, (key_beq_iff (ca_key c) key).1 same))

listed-All :
    (library : Library) (P : Cluster → Type 0) (m : Map ClusterKey Cluster) (k : ClusterKey)
    (key : ClusterKey) (c : Cluster)
    → All P (clusters_using_ca library m key)
    → lookup k m ≡ some c
    → listed_under (index_server_ca library c) key ≡ true
    → P c
unfolding clusters_using_ca lookup
listed-All library P [] k key c h found uses = cc
listed-All library P ((j, d) ∷ m) k key c h found uses = elim (Bool-cases (key_beq j k)) [
  | inl same ↦
      let here : d ≡ c = ground (arith, found, same) in
      let listed : listed_under (index_server_ca library d) key ≡ true =
        subst (λ x. listed_under (index_server_ca library x) key ≡ true) (sym here) uses in
      subst P here (subst (All P) (listed_first library j d m key listed) h).0
  | inr differs ↦
      listed-All library P m k key c (rest_listed library P j d m key h)
        (ground (arith, found, differs)) uses
]

-- After the event of a Secret whose cached entry is not of its current version, the entry is gone
-- and a read of the Secret in flight is cancelled. Every Cluster in the informer's cache that is
-- enabled, is not being deleted and names the Secret of its namespace as its server CA then has no
-- available snapshot and no CA certificates in the store, whether or not anyone asks for it, and an
-- observation of it in flight is superseded.
pub rotation-IsCleared :
    (hash : Snapshot → Digest) (library : Library) (o : Observer) (key : ClusterKey)
    (clock : ClusterKey → Clock) (k : ClusterKey) (c : Cluster)
    → current_ca o.ca (lookup key o.ca.cas) ≡ false
    → lookup k o.clusters ≡ some c
    → (parameters library c).0 ≡ true
    → c.deleting ≡ false
    → c.server_ca_secret ≢ ""
    → record { namespace = c.namespace; name = c.server_ca_secret } ≡ key
    → let o' = (secret_event hash library o key clock).0 in
      IsForgotten o'.ca key × IsCleared o' (key_of c)
rotation-IsCleared hash library o key clock k c h found enabled alive named same =
    let (forgotten, cleared) = event-IsCleared hash library o key clock h in
    let o' = (secret_event hash library o key clock).0 in
    (
      forgotten,
      listed-All library (λ x. IsCleared o' (key_of x)) o.clusters k key c cleared found
          (names-listed library c key enabled alive named same),
    )
