-- ===== src/Observer/CaWork/Outcome.antt =====
-- What a worker of the CA queue leaves (workCA and fetchCA of internal/observer/connection.go).
use cnpg_connect_plugin.Prelude.{
  ◌≡◌, ◌≢◌, ◌⊎◌, refl, sym, ◌∙◌, subst, ap, Bool, true, false, Option, none, some, List, [], ◌∷◌,
  Bool-cases, Option-cases, inl, inr,
}
use cnpg_connect_plugin.Prelude.Map.{has}
use cnpg_connect_plugin.Key.{ClusterKey, key_eq}
use cnpg_connect_plugin.Kube.{Cluster}
use cnpg_connect_plugin.Store.{has_demand}
use cnpg_connect_plugin.Evidence.{key_of}
use cnpg_connect_plugin.Config.{Library}
use cnpg_connect_plugin.CaCache.{CaCache, SecretMeta, ReadSecret, begin_fetch, finish_fetch}
use cnpg_connect_plugin.Observer.{Observer, Clock, enqueue}
use cnpg_connect_plugin.Observer.Closing.{enqueue-ca}
use cnpg_connect_plugin.Observer.SecretEvents.{clusters_using_ca}
use cnpg_connect_plugin.Observer.CaWork.{
  CaAnswer, forgets, reads, keep_asked, demanded_ca_clusters, any_cluster, start_fetch, notify_all,
  end_fetch, begin_ca_work, end_ca_work,
}
use cnpg_connect_plugin.Observer.CaWork.Fetch.{
  IsServed, IsUntouched, IsSettled, begin-IsSettled, begin-IsUntouched, finish-IsSettled,
  finish-IsServed, finish-IsUntouched, finish-settles, begin-secrets,
}

keep_asked-ca :
    (o : Observer) (cs : List Cluster) (clock : ClusterKey → Clock)
    → (keep_asked o cs clock).0.ca ≡ o.ca
unfolding keep_asked
keep_asked-ca o [] clock = refl
keep_asked-ca o (c ∷ cs) clock =
    keep_asked-ca (record o { store = (has_demand o.store (key_of c) (clock (key_of c)).asked).0 })
      cs clock

notify_all-ca :
    (o : Observer) (cs : List Cluster) (clock : ClusterKey → Clock)
    → (notify_all o cs clock).ca ≡ o.ca
unfolding notify_all
notify_all-ca o [] clock = refl
notify_all-ca o (c ∷ cs) clock =
    notify_all-ca (enqueue o (key_of c) true (clock (key_of c))) cs clock
    ∙ enqueue-ca o (key_of c) true (clock (key_of c))

any_cluster-empty : (cs : List Cluster) → any_cluster cs ≡ false → cs ≡ []
unfolding any_cluster
any_cluster-empty [] h = refl
any_cluster-empty (_ ∷ _) h = cc

module _ (library : Library) (o : Observer) (key : ClusterKey) (clock : ClusterKey → Clock) where
  abbrev demanded_clusters : List Cluster
  demanded_clusters = (demanded_ca_clusters library o key clock).1

  demanded_clusters-ca : (demanded_ca_clusters library o key clock).0.ca ≡ o.ca
  unfolding demanded_ca_clusters
  demanded_clusters-ca = keep_asked-ca o (clusters_using_ca library o.clusters key) clock

  -- Why a read is not worth while: there is no Secret, it is served, or no Cluster of it is
  -- demanded.
  abbrev pub IsIdle : CaCache → Type 0
  IsIdle cache = (has key cache.secrets ≡ false) ⊎ IsServed cache key ⊎ (demanded_clusters ≡ [])

  -- A key that the queue forgets is settled and idle; for any other answer, the pending keys and
  -- the entries are as before.
  abbrev pub Answered : Observer × CaAnswer → Type 0
  Answered (o', answer) =
      ((answer ≡ forgets) × IsSettled o'.ca key × IsIdle o'.ca)
      ⊎ ((answer ≢ forgets) × IsUntouched o.ca o'.ca)

  started :
      (d : Bool) × ((start_fetch library o key clock).0.ca ≡ (begin_fetch o.ca key d).0)
      × ((start_fetch library o key clock).1 ≡ (begin_fetch o.ca key d).1)
      × ((d ≡ true) ⊎ (has key o.ca.secrets ≡ false) ⊎ (demanded_clusters ≡ []))
  unfolding start_fetch
  started = elim (Bool-cases (has key o.ca.secrets)) [
    | inr e ↦ (false, rw e refl, rw e refl, inr (inl e))
    | inl e ↦
        let d = any_cluster demanded_clusters in
        (
          d,
          rw e (ap (λ x. (begin_fetch x key d).0) demanded_clusters-ca),
          rw e (ap (λ x. (begin_fetch x key d).1) demanded_clusters-ca),
          elim (Bool-cases d) [
            | inl y ↦ inl y
            | inr n ↦ inr (inr (any_cluster-empty demanded_clusters n))
          ],
        )
  ]

  begin-IsIdle :
      (d : Bool)
      → (d ≡ true) ⊎ (has key o.ca.secrets ≡ false) ⊎ (demanded_clusters ≡ [])
      → (has key (begin_fetch o.ca key d).0.secrets ≡ false)
        ⊎ IsServed (begin_fetch o.ca key d).0 key
        ⊎ (d ≡ false)
      → IsIdle (begin_fetch o.ca key d).0
  begin-IsIdle d why (inl missing) = inl missing
  begin-IsIdle d why (inr (inl served)) = inr (inl served)
  begin-IsIdle d (inl asked) (inr (inr unasked)) = absurd cc
  begin-IsIdle d (inr (inl missing)) (inr (inr unasked)) =
      inl (ap (λ ss. has key ss) (begin-secrets o.ca key d) ∙ missing)
  begin-IsIdle d (inr (inr nobody)) (inr (inr unasked)) = inr (inr nobody)

  start-Answered : Answered (elim (start_fetch library o key clock).1 [
    | none ↦ ((start_fetch library o key clock).0, forgets)
    | some m ↦ ((start_fetch library o key clock).0, reads m)
  ])
  start-Answered =
      let (d, cache, meta, why) = started in
      elim (Option-cases (begin_fetch o.ca key d).1) [
        | inl e ↦
            let (settled, reasons) = begin-IsSettled o.ca key d e in
            rw (meta ∙ e) (
              subst
                (λ x.
                  ((forgets ≡ forgets) × IsSettled x key × IsIdle x)
                  ⊎ ((forgets ≢ forgets) × IsUntouched o.ca x))
                (sym cache) (inl (refl, settled, begin-IsIdle d why reasons)))
        | inr (m, e) ↦ rw (meta ∙ e) (
            inr (
              λ q. cc,
              subst (λ x. IsUntouched o.ca x) (sym cache) (begin-IsUntouched o.ca key d m e),
            ))
      ]

  begin-Answered :
      (stopped ready : Bool) → Answered (begin_ca_work library o key stopped ready clock)
  unfolding begin_ca_work
  begin-Answered stopped ready = elim (Bool-cases stopped) [
    | inl e ↦ rw e (inr (λ q. cc, (refl, refl)))
    | inr e ↦ elim (Bool-cases ready) [
      | inr n ↦ rw (e, n) (inr (λ q. cc, (refl, refl)))
      | inl y ↦ rw (e, y) start-Answered
    ]
  ]

  module _ (meta : SecretMeta) (found : Option ReadSecret) (stopped ready : Bool) where
    abbrev finished : Bool → CaCache × Bool
    finished demanded = finish_fetch o.ca key meta found stopped ready demanded

    finished-IsIdle :
        (finished false).1 ≡ true
        → IsSettled (finished (any_cluster demanded_clusters)).0 key
          × IsIdle (finished (any_cluster demanded_clusters)).0
    finished-IsIdle h =
        let settles = finish-settles o.ca key meta stopped ready found in
        elim (Bool-cases (any_cluster demanded_clusters)) [
          | inl e ↦ rw e (
            finish-IsSettled o.ca key meta stopped ready found true (settles true ∙ h),
            inr (inl (finish-IsServed o.ca key meta stopped ready found (settles true ∙ h))),
          )
          | inr e ↦ rw e (
            finish-IsSettled o.ca key meta stopped ready found false h,
            inr (inr (any_cluster-empty demanded_clusters e)),
          )
        ]

    end_parts :
        (finished false).1 ≡ true
        → ((end_fetch library o key meta found stopped ready clock).1 ≡ true)
          × ((end_fetch library o key meta found stopped ready clock).0.ca
              ≡ (finished (any_cluster demanded_clusters)).0)
    unfolding end_fetch
    end_parts h =
        let asked = demanded_ca_clusters library o key clock in
        let read : CaCache → CaCache × Bool =
          λ x. finish_fetch x key meta found stopped ready (any_cluster asked.1) in
        let settles = finish-settles o.ca key meta stopped ready found (any_cluster asked.1) in
        let woken = notify_all-ca (record asked.0 { ca = (read asked.0.ca).0 }) asked.1 clock in
        (
          rw h (ap (λ x. (read x).1) demanded_clusters-ca ∙ settles ∙ h),
          rw h (woken ∙ ap (λ x. (read x).0) demanded_clusters-ca),
        )

    end-Answered : Answered (end_ca_work library o key meta found stopped ready clock)
    unfolding end_ca_work
    end-Answered = elim (Bool-cases (finished false).1) [
      | inl h ↦
          let (settled, cache) = end_parts h in
          let done : IsSettled (end_fetch library o key meta found stopped ready clock).0.ca key
              × IsIdle (end_fetch library o key meta found stopped ready clock).0.ca =
            subst (λ x. IsSettled x key × IsIdle x) (sym cache) (finished-IsIdle h) in
          rw settled (inl (refl, done.0, done.1))
      | inr h ↦
          unfold end_fetch in
          rw (end_fetch, h)
            (inr (λ q. cc, finish-IsUntouched o.ca key meta stopped ready found false h))
    ]

-- The CA of a Secret is never lost by its workers. When the queue forgets a key, before the read or
-- after it, the key is not pending, so that it can be asked for again, and there is no Secret, or
-- its current version is served, or none of its Clusters is demanded. Otherwise the pending keys
-- and the served entries stay as they were.
pub ca_work-Answered :
    (library : Library) (o o' : Observer) (key : ClusterKey) (clock clock' : ClusterKey → Clock)
    (meta : SecretMeta) (found : Option ReadSecret) (stopped ready stopped' ready' : Bool)
    → Answered library o key clock (begin_ca_work library o key stopped ready clock)
      × Answered library o' key clock'
          (end_ca_work library o' key meta found stopped' ready' clock')
ca_work-Answered library o o' key clock clock' meta found stopped ready stopped' ready' = (
  begin-Answered library o key clock stopped ready,
  end-Answered library o' key clock' meta found stopped' ready',
)
