-- ===== src/Discovery/Watch.antt =====
-- What WatchTopology (internal/discovery/grpc.go) sends while the store goes on working.
use cnpg_connect_plugin.Prelude.{
  ℕ, ◌<◌, ◌≡◌, refl, ◌∙◌, ◌⊎◌, inl, inr, Bool, Option, none, some, List, [], ◌∷◌, arith, ltb, leb,
  if◌then◌else◌, string_beq, string_beq_iff, nat_eq, is_some, All, Bool-cases, Option-cases,
}
use cnpg_connect_plugin.Key.{ClusterKey, key_eq}
use cnpg_connect_plugin.Api.{Snapshot, Time}
use cnpg_connect_plugin.Routing.{Digest}
use cnpg_connect_plugin.Mailbox.{Publication}
use cnpg_connect_plugin.Store.{Store, Notification, cluster_key, read_publication}
use cnpg_connect_plugin.Store.Watchers.{deliver_to, deliver_each, deliver_notification}
use cnpg_connect_plugin.Store.Invariant.{Inv, read_publication-Inv}
use cnpg_connect_plugin.Store.Operations.{Operation, perform, deliver_to-records}
use cnpg_connect_plugin.Store.Freshness.{Fresh, read_Fresh}
use cnpg_connect_plugin.Discovery.{
  context_done, get_publication, Sent, Watching, recheck, send, take_update,
}

-- What happens during a watch: another operation on the store, a turn of the loop that finds the
-- updates ready, with its times and whether the transport accepts the message, or the end of the
-- stream's context.
pub data Event : Type 0 where
  operates : Operation → Event
  updates : Time → Time → Bool → Event
  cancels : Event

unfoldable pub watch_step : (Snapshot → Digest) → Watching → Event → Watching
watch_step hash w (operates o) = record w { store = perform hash w.store o }
watch_step hash w (updates now later succeeds) =
    if is_some w.ended then w else take_update hash w now later succeeds
watch_step hash w cancels = if is_some w.ended then w else record w { ended = some context_done }

unfoldable pub watch_all : (Snapshot → Digest) → Watching → List Event → Watching
watch_all hash w [] = w
watch_all hash w (e ∷ es) = watch_all hash (watch_step hash w e) es

-- Newest first, each publication is newer than the one before it.
abbrev pub Rising : List Sent → Type 0
Rising [] = Unit
Rising (a ∷ []) = Unit
Rising (a ∷ b ∷ rest) = (b.published.order < a.published.order) × Rising (b ∷ rest)

abbrev newest_sent : List Sent → ℕ
newest_sent [] = 0
newest_sent (a ∷ rest) = a.published.order

-- What the recheck before a message leaves: it is valid or closed, or under the reason "deleted".
abbrev pub IsChecked : Sent → Type 0
IsChecked e =
    Fresh e.checked e.published.snapshot
    ⊎ Fresh e.reread e.published.snapshot
    ⊎ (e.published.snapshot.reason ≡ "deleted")

pub record WatchInv (hash : Snapshot → Digest) (w : Watching) : Type 0 where
  pub stored : Inv hash w.store.records
  pub rising : Rising w.sent
  pub last : w.last_sent ≡ newest_sent w.sent
  pub safe : All IsChecked w.sent

Rising-push :
    (e : Sent) (rest : List Sent)
    → Rising rest
    → newest_sent rest < e.published.order
    → Rising (e ∷ rest)
Rising-push e [] r h = tt
Rising-push e (a ∷ rest) r h = (h, r)

deliver_each-records :
    (st : Store) (p : Publication) (ids : List ℕ) → (deliver_each st p ids).records ≡ st.records
unfolding deliver_each
deliver_each-records st p [] = refl
deliver_each-records st p (id ∷ ids) =
    deliver_each-records (deliver_to st p id) p ids ∙ deliver_to-records st p id

pub deliver_notification-records :
    (st : Store) (n : Notification) → (deliver_notification st n).records ≡ st.records
unfolding deliver_notification
deliver_notification-records st n = elim (Option-cases n.publication) [
  | inl e ↦ rw (e, deliver_notification) refl
  | inr (p, e) ↦ rw (e, deliver_notification) (deliver_each-records st p n.watchers)
]

module _ (hash : Snapshot → Digest) where
  get_publication-Inv :
      (st : Store) (k : ClusterKey) (now : Time)
      → Inv hash st.records
      → Inv hash (get_publication hash st k now).0.records
  unfolding get_publication
  get_publication-Inv st k now v =
      let (st1, found, expiry) = read_publication hash st k now in
      rw (deliver_notification-records st1 expiry) (read_publication-Inv hash st k now v)

  pub recheck_sound :
      (st : Store) (p : Publication) (now later : Time)
      → Inv hash st.records
      → Inv hash (recheck hash st p now later).0.records
        × ((q : Publication)
            → (recheck hash st p now later).1 ≡ some q
            → IsChecked (record { published = q; checked = now; reread = later }))
  unfolding recheck
  recheck_sound st p now later v = elim (Bool-cases (string_beq p.snapshot.reason "deleted")) [
    | inl deleted ↦
        rw (deleted, recheck)
          (v, λ q e. inr (inr (ground (arith, string_beq_iff p.snapshot.reason "deleted"))))
    | inr current ↦ elim (Bool-cases (ltb now p.snapshot.valid_until)) [
      | inl valid ↦ rw (current, valid, recheck) (v, λ q e. inl (inl (ground arith)))
      | inr over ↦
          rw (current, over, recheck)
            (
              get_publication-Inv st (cluster_key p.snapshot) later v,
              λ q e. inr (
                  inl (
                    read_Fresh hash st (cluster_key p.snapshot) later q v
                      (unfold get_publication in e))),
            )
    ]
  ]

  pub send-Inv :
      (w : Watching) (chosen : Option Publication) (now later : Time) (succeeds : Bool)
      → WatchInv hash w
      → ((q : Publication)
          → chosen ≡ some q
          → IsChecked (record { published = q; checked = now; reread = later }))
      → WatchInv hash (send w chosen now later succeeds)
  unfolding send
  send-Inv w none now later succeeds v safe = v
  send-Inv w (some p) now later succeeds v safe = elim (Bool-cases (leb p.order w.last_sent)) [
    | inl old ↦ rw (old, send) v
    | inr newer ↦ elim (Bool-cases succeeds) [
      | inr failed ↦
          rw (newer, failed, send)
            (record { stored = v.stored; rising = v.rising; last = v.last; safe = v.safe })
      | inl sent ↦
          rw (newer, sent, send)
            (record {
              stored = v.stored;
              rising =
                  Rising-push (record { published = p; checked = now; reread = later }) w.sent
                    v.rising (ground (arith, v.last));
              last = refl;
              safe = (safe p refl, v.safe);
            })
    ]
  ]
