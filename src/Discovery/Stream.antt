-- ===== src/Discovery/Stream.antt =====
-- The publications that a call of WatchTopology (internal/discovery/grpc.go) sends, from its
-- registration on.
use cnpg_connect_plugin.Prelude.{
  ◌≡◌, refl, ◌∙◌, String, Bool, true, false, none, some, List, [], ◌∷◌, is_some, All, Bool-cases,
  Option-cases, inl, inr, nat_eq,
}
use cnpg_connect_plugin.Prelude.Map.{lookup}
use cnpg_connect_plugin.Key.{ClusterKey, key_eq}
use cnpg_connect_plugin.Api.{Snapshot, Time}
use cnpg_connect_plugin.Routing.{Digest}
use cnpg_connect_plugin.Mailbox.{
  publications, Received, publication, snapshot, blocked, closed_channel, receive,
}
use cnpg_connect_plugin.Store.{Store, new_store}
use cnpg_connect_plugin.Store.Watchers.{
  deliver_notification, register, finish_registration, Registration,
}
use cnpg_connect_plugin.Store.Invariant.{Inv}
use cnpg_connect_plugin.Store.Operations.{
  Operation, perform, perform_all, perform-Inv, store-Inv, deliver_to-records, register-Inv,
}
use cnpg_connect_plugin.Discovery.{
  Status, Watching, recheck, on_received, take_update, watch_topology,
}
use cnpg_connect_plugin.Discovery.Watch.{
  Event, operates, updates, cancels, watch_step, watch_all, Rising, IsChecked, WatchInv,
  recheck_sound, send-Inv, deliver_notification-records,
}

pub finish_registration-records :
    (st : Store) (r : Registration) → (finish_registration st r).records ≡ st.records
unfolding finish_registration
finish_registration-records st r = elim (Option-cases r.initial) [
  | inl e ↦ rw (e, finish_registration) (deliver_notification-records st r.expired)
  | inr (p, e) ↦
      rw (e, finish_registration)
        (deliver_to-records (deliver_notification st r.expired) p r.watcher
          ∙ deliver_notification-records st r.expired)
]

module _ (hash : Snapshot → Digest) where
  move_store :
      (w : Watching) (st : Store)
      → WatchInv hash w
      → Inv hash st.records
      → WatchInv hash (record w { store = st })
  move_store w st v i = record { stored = i; rising = v.rising; last = v.last; safe = v.safe }

  end_with :
      (w : Watching) (status : Status)
      → WatchInv hash w
      → WatchInv hash (record w { ended = some status })
  end_with w status v = record {
    stored = v.stored;
    rising = v.rising;
    last = v.last;
    safe = v.safe;
  }

  on_received-Inv :
      (w : Watching) (r : Received) (now later : Time) (succeeds : Bool)
      → WatchInv hash w
      → WatchInv hash (on_received hash w r now later succeeds)
  unfolding on_received
  on_received-Inv w (publication p) now later succeeds v =
      let (i, safe) = recheck_sound hash w.store p now later v.stored in
      send-Inv hash _ (recheck hash w.store p now later).1 now later succeeds
        (move_store w (recheck hash w.store p now later).0 v i) safe
  on_received-Inv w closed_channel now later succeeds v = end_with w _ v
  on_received-Inv w blocked now later succeeds v = v
  on_received-Inv w (snapshot s) now later succeeds v = v

  take_update-Inv :
      (w : Watching) (now later : Time) (succeeds : Bool)
      → WatchInv hash w
      → WatchInv hash (take_update hash w now later succeeds)
  unfolding take_update
  take_update-Inv w now later succeeds v = elim (Option-cases (lookup w.watcher w.store.watchers)) [
    | inl e ↦ rw (e, take_update) v
    | inr (s, e) ↦
        rw (e, take_update)
          (on_received-Inv _ (receive s).1 now later succeeds (move_store w _ v v.stored))
  ]

  watch_step-Inv :
      (w : Watching) (e : Event) → WatchInv hash w → WatchInv hash (watch_step hash w e)
  unfolding watch_step
  watch_step-Inv w (operates o) v =
      move_store w (perform hash w.store o) v (perform-Inv hash w.store o v.stored)
  watch_step-Inv w (updates now later succeeds) v = elim (Bool-cases (is_some w.ended)) [
    | inl over ↦ rw (over, watch_step) v
    | inr runs ↦ rw (runs, watch_step) (take_update-Inv w now later succeeds v)
  ]
  watch_step-Inv w cancels v = elim (Bool-cases (is_some w.ended)) [
    | inl over ↦ rw (over, watch_step) v
    | inr runs ↦ rw (runs, watch_step) (end_with w _ v)
  ]

  watch_all-Inv :
      (w : Watching) (es : List Event) → WatchInv hash w → WatchInv hash (watch_all hash w es)
  unfolding watch_all
  watch_all-Inv w [] v = v
  watch_all-Inv w (e ∷ es) v = watch_all-Inv (watch_step hash w e) es (watch_step-Inv w e v)

  watch_topology-Inv :
      (st : Store) (authorized valid : Bool) (key : ClusterKey) (now later : Time)
      → Inv hash st.records
      → WatchInv hash (watch_topology hash st authorized valid key now later)
  unfolding watch_topology
  watch_topology-Inv st false valid key now later v = record {
    stored = v;
    rising = tt;
    last = refl;
    safe = tt;
  }
  watch_topology-Inv st true false key now later v = record {
    stored = v;
    rising = tt;
    last = refl;
    safe = tt;
  }
  watch_topology-Inv st true true key now later v =
      elim (Option-cases (register hash st key true (publications none) now later).1) [
        | inl e ↦
            rw (e, watch_topology) (record { stored = kept; rising = tt; last = refl; safe = tt })
        | inr (r, e) ↦
            rw (e, watch_topology)
              (record {
                stored = rw (finish_registration-records _ r) kept;
                rising = tt;
                last = refl;
                safe = tt;
              })
      ]
    where
      kept : Inv hash (register hash st key true (publications none) now later).0.records
      kept = register-Inv hash st key true (publications none) now later v

  abbrev pub watched :
      String → List Operation → Bool → Bool → ClusterKey → Time → Time → List Event → Watching
  watched process_id os authorized valid key now later es =
      watch_all hash
        (watch_topology hash (perform_all hash (new_store process_id) os) authorized valid key now
          later)
        es

  watched-Inv :
      (process_id : String) (os : List Operation) (authorized valid : Bool) (key : ClusterKey)
      (now later : Time) (es : List Event)
      → WatchInv hash (watched process_id os authorized valid key now later es)
  watched-Inv process_id os authorized valid key now later es =
      watch_all-Inv _ es
        (watch_topology-Inv _ authorized valid key now later (store-Inv hash process_id os))

  -- A watch stream never goes back: whatever the store did before, whatever operations, deliveries
  -- and sweeps run between the turns of the loop, and whichever messages the transport refuses, each
  -- publication that a call of WatchTopology sends is newer than the one it sent before.
  pub watch_sends-Rising :
      (process_id : String) (os : List Operation) (authorized valid : Bool) (key : ClusterKey)
      (now later : Time) (es : List Event)
      → Rising (watched process_id os authorized valid key now later es).sent
  watch_sends-Rising process_id os authorized valid key now later es =
      (watched-Inv process_id os authorized valid key now later es).rising

  pub watched-IsChecked :
      (process_id : String) (os : List Operation) (authorized valid : Bool) (key : ClusterKey)
      (now later : Time) (es : List Event)
      → All IsChecked (watched process_id os authorized valid key now later es).sent
  watched-IsChecked process_id os authorized valid key now later es =
      (watched-Inv process_id os authorized valid key now later es).safe
