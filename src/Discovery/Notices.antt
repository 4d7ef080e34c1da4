-- ===== src/Discovery/Notices.antt =====
-- The notices of deletions that a call of WatchTopology (internal/discovery/grpc.go) sends.
use cnpg_connect_plugin.Prelude.{
  ◌≡◌, ◌⊎◌, refl, sym, subst, String, Bool, true, false, ◌&&◌, not, Option, none, some, List, [],
  ◌∷◌, ◌++◌, is_some, leb, ltb, string_beq, All, Bool-cases, Option-cases, inl, inr, nat_eq, arith,
}
use cnpg_connect_plugin.Prelude.Map.{lookup, insert}
use cnpg_connect_plugin.Key.{ClusterKey, key_eq}
use cnpg_connect_plugin.Api.{Snapshot, Time}
use cnpg_connect_plugin.Routing.{Digest}
use cnpg_connect_plugin.Mailbox.{
  Publication, publications, Received, publication, snapshot, blocked, closed_channel, receive,
}
use cnpg_connect_plugin.Mailbox.Pending.{Gives, receive-Gives}
use cnpg_connect_plugin.Store.{Store, new_store, cluster_key, read_publication}
use cnpg_connect_plugin.Store.Watchers.{
  deliver_notification, register, finish_registration, Registration,
}
use cnpg_connect_plugin.Store.Operations.{Operation, perform, perform_all}
use cnpg_connect_plugin.Store.Freshness.{Fresh}
use cnpg_connect_plugin.Store.Notices.{
  IsNotice, HasNotices, published_in, registered, read-HasNotices, read_found-IsNotice,
  register-HasNotices,
}
use cnpg_connect_plugin.Store.Issued.{perform-HasNotices}
use cnpg_connect_plugin.Store.Mailed.{
  AreMailed, IsOwn, own-IsHonest, insert-AreMailed, deliver_to-AreMailed,
  deliver_notification-AreMailed, read-watchers, register-AreMailed, perform-AreMailed,
}
use cnpg_connect_plugin.Discovery.{
  Sent, Watching, get_publication, recheck, send, on_received, take_update, watch_topology,
}
use cnpg_connect_plugin.Discovery.Watch.{
  Event, operates, updates, cancels, watch_step, watch_all, IsChecked, deliver_notification-records,
}
use cnpg_connect_plugin.Discovery.Stream.{watched, watched-IsChecked, finish_registration-records}

-- A publication that routes nobody past its validity when it is sent: it is valid at the check or
-- at the second read, or unavailable with no primary and no ready member.
abbrev pub IsSafe : Sent → Type 0
IsSafe e = Fresh e.checked e.published.snapshot ⊎ Fresh e.reread e.published.snapshot

abbrev pub IsOwnEvent : (Snapshot → Digest) → Event → Type 0
IsOwnEvent hash (operates o) = IsOwn hash o
IsOwnEvent hash _ = Unit

-- Whatever is stored, waits or was sent under the reason "deleted" routes nobody.
record IsQuiet (st : Store) : Type 0 where
  stored : HasNotices st.records
  mailed : AreMailed st.watchers

abbrev SentNotices : List Sent → Type 0
SentNotices = All (λ (e : Sent). IsNotice e.published)

split-All : (ps qs : List Publication) → All IsNotice (ps ++ qs) → All IsNotice ps × All IsNotice qs
split-All [] qs h = (tt, h)
split-All (p ∷ ps) qs h = let (left, right) = split-All ps qs h.1 in ((h.0, left), right)

module _ (hash : Snapshot → Digest) where
  get-IsQuiet :
      (st : Store) (k : ClusterKey) (now : Time)
      → IsQuiet st
      → IsQuiet (get_publication hash st k now).0
  unfolding get_publication
  get-IsQuiet st k now q =
      let (st1, found, expiry) = read_publication hash st k now in
      let (kept, given) = read-HasNotices hash st k now q.stored in
      record {
        stored = rw (deliver_notification-records st1 expiry) kept;
        mailed =
            deliver_notification-AreMailed st1 expiry given
              (subst AreMailed (sym (read-watchers hash st k now)) q.mailed);
      }

  recheck-IsQuiet :
      (st : Store) (p : Publication) (now later : Time)
      → IsQuiet st
      → IsNotice p
      → IsQuiet (recheck hash st p now later).0
        × ((r : Publication) → (recheck hash st p now later).1 ≡ some r → IsNotice r)
  unfolding recheck
  recheck-IsQuiet st p now later q h =
      elim (Bool-cases
        (not (string_beq p.snapshot.reason "deleted") && not (ltb now p.snapshot.valid_until))) [
          | inl over ↦
              rw (over, recheck)
                (
                  get-IsQuiet st (cluster_key p.snapshot) later q,
                  λ r e.
                      unfold get_publication in
                      read_found-IsNotice hash st (cluster_key p.snapshot) later r q.stored e,
                )
          | inr valid ↦
              rw (valid, recheck)
                (q, λ r e. let same : p ≡ r = ground (arith, e) in subst IsNotice same h)
        ]

  send-SentNotices :
      (w : Watching) (chosen : Option Publication) (now later : Time) (succeeds : Bool)
      → ((r : Publication) → chosen ≡ some r → IsNotice r)
      → SentNotices w.sent
      → SentNotices (send w chosen now later succeeds).sent
  unfolding send
  send-SentNotices w none now later succeeds h v = v
  send-SentNotices w (some p) now later succeeds h v = elim (Bool-cases (leb p.order w.last_sent)) [
    | inl old ↦ rw (old, send) v
    | inr newer ↦ elim (Bool-cases succeeds) [
      | inr failed ↦ rw (newer, failed, send) v
      | inl sent ↦ rw (newer, sent, send) (h p refl, v)
    ]
  ]

  send-store :
      (w : Watching) (chosen : Option Publication) (now later : Time) (succeeds : Bool)
      → (send w chosen now later succeeds).store ≡ w.store
  unfolding send
  send-store w none now later succeeds = refl
  send-store w (some p) now later succeeds = ground arith

  abbrev IsQuietWatch : Watching → Type 0
  IsQuietWatch w = IsQuiet w.store × SentNotices w.sent

  sent-IsQuietWatch :
      (w : Watching) (chosen : Option Publication) (now later : Time) (succeeds : Bool)
      → ((r : Publication) → chosen ≡ some r → IsNotice r)
      → IsQuietWatch w
      → IsQuietWatch (send w chosen now later succeeds)
  sent-IsQuietWatch w chosen now later succeeds h (q, v) = (
    subst IsQuiet (sym (send-store w chosen now later succeeds)) q,
    send-SentNotices w chosen now later succeeds h v,
  )

  received-IsQuietWatch :
      (w : Watching) (r : Received) (now later : Time) (succeeds : Bool)
      → Gives IsNotice r
      → IsQuietWatch w
      → IsQuietWatch (on_received hash w r now later succeeds)
  unfolding on_received
  received-IsQuietWatch w (publication p) now later succeeds h (q, v) =
      let (st, chosen) = recheck hash w.store p now later in
      let (quiet, notice) = recheck-IsQuiet w.store p now later q h in
      sent-IsQuietWatch (record w { store = st }) chosen now later succeeds notice (quiet, v)
  received-IsQuietWatch w closed_channel now later succeeds h (q, v) = (q, v)
  received-IsQuietWatch w blocked now later succeeds h v = v
  received-IsQuietWatch w (snapshot s) now later succeeds h v = v

  update-IsQuietWatch :
      (w : Watching) (now later : Time) (succeeds : Bool)
      → IsQuietWatch w
      → IsQuietWatch (take_update hash w now later succeeds)
  unfolding take_update
  update-IsQuietWatch w now later succeeds (q, v) =
      elim (Option-cases (lookup w.watcher w.store.watchers)) [
        | inl e ↦ rw (e, take_update) (q, v)
        | inr (s, e) ↦
            let (left, given) = receive-Gives IsNotice s (q.mailed w.watcher s e) in
            let st : Store = record w.store {
              watchers = insert w.watcher (receive s).0 w.store.watchers;
            } in
            let quiet : IsQuiet st = record {
              stored = q.stored;
              mailed = insert-AreMailed w.watcher (receive s).0 w.store.watchers left q.mailed;
            } in
            rw (e, take_update)
              (received-IsQuietWatch (record w { store = st }) (receive s).1 now later succeeds
                given (quiet, v))
      ]

  step-IsQuietWatch :
      (w : Watching) (e : Event)
      → IsOwnEvent hash e
      → IsQuietWatch w
      → IsQuietWatch (watch_step hash w e)
  unfolding watch_step
  step-IsQuietWatch w (operates o) h (q, v) = (
    record {
      stored = perform-HasNotices hash w.store o (own-IsHonest hash o h) q.stored;
      mailed = perform-AreMailed hash w.store o h q.mailed;
    },
    v,
  )
  step-IsQuietWatch w (updates now later succeeds) h v = elim (Bool-cases (is_some w.ended)) [
    | inl over ↦ rw (over, watch_step) v
    | inr runs ↦ rw (runs, watch_step) (update-IsQuietWatch w now later succeeds v)
  ]
  step-IsQuietWatch w cancels h v = elim (Bool-cases (is_some w.ended)) [
    | inl over ↦ rw (over, watch_step) v
    | inr runs ↦ rw (runs, watch_step) v
  ]

  steps-IsQuietWatch :
      (w : Watching) (es : List Event)
      → All (IsOwnEvent hash) es
      → IsQuietWatch w
      → IsQuietWatch (watch_all hash w es)
  unfolding watch_all
  steps-IsQuietWatch w [] h v = v
  steps-IsQuietWatch w (e ∷ es) h v =
      steps-IsQuietWatch (watch_step hash w e) es h.1 (step-IsQuietWatch w e h.0 v)

  finish-IsQuiet :
      (st : Store) (r : Registration)
      → All IsNotice (registered (some r))
      → IsQuiet st
      → IsQuiet (finish_registration st r)
  unfolding finish_registration
  finish-IsQuiet st r h q =
      let rest : List Publication = elim r.initial [ none ↦ [] | some p ↦ p ∷ [] ] in
      let (expired, initial) = split-All (published_in r.expired) rest h in
      let st1 = deliver_notification st r.expired in
      let mailed = deliver_notification-AreMailed st r.expired expired q.mailed in
      record {
        stored = rw (finish_registration-records st r) q.stored;
        mailed = elim (Option-cases r.initial) [
          | inl e ↦ rw (e, finish_registration) mailed
          | inr (p, e) ↦
              let here : All IsNotice (p ∷ []) =
                subst (λ x. All IsNotice (elim x [ none ↦ [] | some y ↦ y ∷ [] ])) e initial in
              rw (e, finish_registration) (deliver_to-AreMailed st1 p r.watcher here.0 mailed)
        ];
      }

  begun-IsQuietWatch :
      (st : Store) (authorized valid : Bool) (key : ClusterKey) (now later : Time)
      → IsQuiet st
      → IsQuietWatch (watch_topology hash st authorized valid key now later)
  unfolding watch_topology
  begun-IsQuietWatch st false valid key now later q = (q, tt)
  begun-IsQuietWatch st true false key now later q = (q, tt)
  begun-IsQuietWatch st true true key now later q =
      let (kept, given) =
        register-HasNotices hash st key true (publications none) now later q.stored in
      let (st1, answer) = register hash st key true (publications none) now later in
      let quiet : IsQuiet st1 = record {
        stored = kept;
        mailed =
            register-AreMailed hash st key true (publications none) now later (inl refl) q.mailed;
      } in
      elim (Option-cases answer) [
        | inl e ↦ rw (e, watch_topology) (quiet, tt)
        | inr (r, e) ↦
            rw (e, watch_topology)
              (finish-IsQuiet st1 r (subst (λ x. All IsNotice (registered x)) e given) quiet, tt)
      ]

  operated-IsQuiet :
      (st : Store) (os : List Operation)
      → All (IsOwn hash) os
      → IsQuiet st
      → IsQuiet (perform_all hash st os)
  unfolding perform_all
  operated-IsQuiet st [] h q = q
  operated-IsQuiet st (o ∷ os) h q = operated-IsQuiet (perform hash st o) os h.1 (record {
    stored = perform-HasNotices hash st o (own-IsHonest hash o h.0) q.stored;
    mailed = perform-AreMailed hash st o h.0 q.mailed;
  })

  new-IsQuiet : (process_id : String) → IsQuiet (new_store process_id)
  unfolding new_store lookup
  new-IsQuiet process_id = record { stored = λ k r e. cc; mailed = λ id s e. cc }

  sent-IsSafe : (sent : List Sent) → All IsChecked sent → SentNotices sent → All IsSafe sent
  sent-IsSafe [] c n = tt
  sent-IsSafe (e ∷ sent) c n = (
    elim c.0 [
      | inl fresh ↦ inl fresh
      | inr (inl fresh) ↦ inr fresh
      | inr (inr deleted) ↦ inl (inr (n.0 deleted))
    ],
    sent-IsSafe sent c.1 n.1,
  )

  -- A watch stream routes nobody by what is over, however late the loop turns: each publication that
  -- it sends, the notice of a deletion included, is valid when it is checked or read again, or it is
  -- unavailable with no primary and no ready member. The operations before the call and between the
  -- turns of its loop are any that put nothing under the reason "deleted", which DeleteDeferred gives,
  -- that deliver, in any order and however late, publications that calls of the store have given, and
  -- that register empty mailboxes.
  pub watch_sends-IsSafe :
      (process_id : String) (os : List Operation) (authorized valid : Bool) (key : ClusterKey)
      (now later : Time) (es : List Event)
      → All (IsOwn hash) os
      → All (IsOwnEvent hash) es
      → All IsSafe (watched hash process_id os authorized valid key now later es).sent
  watch_sends-IsSafe process_id os authorized valid key now later es own own' =
      let w = watched hash process_id os authorized valid key now later es in
      let st = perform_all hash (new_store process_id) os in
      let start = operated-IsQuiet (new_store process_id) os own (new-IsQuiet process_id) in
      let quiet =
        steps-IsQuietWatch (watch_topology hash st authorized valid key now later) es own'
          (begun-IsQuietWatch st authorized valid key now later start) in
      sent-IsSafe w.sent (watched-IsChecked hash process_id os authorized valid key now later es)
        quiet.1
