-- ===== src/Store/Issued.antt =====
-- Which publications the store (internal/discovery/store.go) gives to be delivered.
use cnpg_connect_plugin.Prelude.{◌≡◌, ◌⊎◌, sym, subst, String, List, [], ◌∷◌, All, inl, inr}
use cnpg_connect_plugin.Prelude.Map.{lookup}
use cnpg_connect_plugin.Key.{key_eq}
use cnpg_connect_plugin.Api.{Snapshot}
use cnpg_connect_plugin.Routing.{Digest}
use cnpg_connect_plugin.Mailbox.{Publication}
use cnpg_connect_plugin.Store.{
  Store, new_store, put_deferred, delete_deferred, read_publication, set_demand_handler,
}
use cnpg_connect_plugin.Store.Watchers.{register}
use cnpg_connect_plugin.Store.Sweep.{expire, keys_of, active_clusters}
use cnpg_connect_plugin.Store.Publishing.{put_commits}
use cnpg_connect_plugin.Store.Operations.{
  Operation, handles, puts, deletes, reads, registers, cancels, delivers, refreshes, asks, lists,
  expires, perform, perform_all, has_demand-records, cancel-records, deliver_to-records,
  request_refresh-records,
}
use cnpg_connect_plugin.Store.Notices.{
  IsNotice, HasNotices, IsHonest, published_in, all_published, registered, put-IsNotice,
  put-HasNotices, delete-HasNotices, delete-issued, read-HasNotices, register-HasNotices,
  expire_keys-HasNotices,
}

-- The publications that a call of the store gives to be delivered.
unfoldable pub issued : (Snapshot → Digest) → Store → Operation → List Publication
issued hash st (puts s before now) = published_in (put_deferred hash st s before now).2
issued hash st (deletes k) = published_in (delete_deferred st k).1
issued hash st (reads k now) = published_in (read_publication hash st k now).2
issued hash st (registers k known m now later) = registered (register hash st k known m now later).1
issued hash st (expires now) = all_published (expire hash st now).1
issued hash st _ = []

module _ (hash : Snapshot → Digest) where
  -- An operation keeps the notices, and gives none but notices.
  pub perform-HasNotices :
      (st : Store) (o : Operation)
      → IsHonest o
      → HasNotices st.records
      → HasNotices (perform hash st o).records
  unfolding perform set_demand_handler expire active_clusters
  perform-HasNotices st (handles lease) h v = v
  perform-HasNotices st (puts s before now) h v = put-HasNotices hash st s before now h v
  perform-HasNotices st (deletes k) h v = delete-HasNotices hash st k v
  perform-HasNotices st (reads k now) h v = (read-HasNotices hash st k now v).0
  perform-HasNotices st (registers k known m now later) h v =
      (register-HasNotices hash st k known m now later v).0
  perform-HasNotices st (cancels k id) h v = rw (cancel-records st k id) v
  perform-HasNotices st (delivers p id) h v = rw (deliver_to-records st p id) v
  perform-HasNotices st (refreshes k now) h v = rw (request_refresh-records st k now) v
  perform-HasNotices st (asks k now) h v = rw (has_demand-records st k now) v
  perform-HasNotices st (lists now) h v = v
  perform-HasNotices st (expires now) h v =
      (expire_keys-HasNotices hash now (keys_of st.records) st v).0

  pub issued-All :
      (st : Store) (o : Operation)
      → IsHonest o
      → HasNotices st.records
      → All IsNotice (issued hash st o)
  unfolding issued expire
  issued-All st (handles lease) h v = tt
  issued-All st (puts s before now) h v =
      subst (λ n. All IsNotice (published_in n)) (sym (put_commits hash st s before now).sent)
        (put-IsNotice hash st s before now h, tt)
  issued-All st (deletes k) h v = delete-issued hash st k
  issued-All st (reads k now) h v = (read-HasNotices hash st k now v).1
  issued-All st (registers k known m now later) h v =
      (register-HasNotices hash st k known m now later v).1
  issued-All st (cancels k id) h v = tt
  issued-All st (delivers p id) h v = tt
  issued-All st (refreshes k now) h v = tt
  issued-All st (asks k now) h v = tt
  issued-All st (lists now) h v = tt
  issued-All st (expires now) h v = (expire_keys-HasNotices hash now (keys_of st.records) st v).1

  pub perform_all-HasNotices :
      (st : Store) (os : List Operation)
      → All IsHonest os
      → HasNotices st.records
      → HasNotices (perform_all hash st os).records
  unfolding perform_all
  perform_all-HasNotices st [] h v = v
  perform_all-HasNotices st (o ∷ os) h v =
      perform_all-HasNotices (perform hash st o) os h.1 (perform-HasNotices st o h.0 v)

  pub store-HasNotices :
      (process_id : String) (os : List Operation)
      → All IsHonest os
      → HasNotices (perform_all hash (new_store process_id) os).records
  unfolding new_store lookup
  store-HasNotices process_id os h =
      perform_all-HasNotices (new_store process_id) os h (λ k r e. cc)

-- One of the publications.
abbrev pub Among : Publication → List Publication → Type 0
Among p [] = ⊥
Among p (q ∷ qs) = (q ≡ p) ⊎ Among p qs

-- A publication that a call on some store has given to be delivered.
abbrev pub IsIssued : (Snapshot → Digest) → Publication → Type 0
IsIssued hash p =
    (process_id : String) × (os : List Operation) × (o : Operation) × All IsHonest (o ∷ os)
    × Among p (issued hash (perform_all hash (new_store process_id) os) o)

Among-IsNotice :
    (p : Publication) (qs : List Publication) → All IsNotice qs → Among p qs → IsNotice p
Among-IsNotice p [] h a = absurd a
Among-IsNotice p (q ∷ qs) h (inl e) = subst IsNotice e h.0
Among-IsNotice p (q ∷ qs) h (inr a) = Among-IsNotice p qs h.1 a

pub issued-IsNotice : (hash : Snapshot → Digest) (p : Publication) → IsIssued hash p → IsNotice p
issued-IsNotice hash p (process_id, os, o, h, a) =
    Among-IsNotice p (issued hash (perform_all hash (new_store process_id) os) o)
      (issued-All hash (perform_all hash (new_store process_id) os) o h.0
        (store-HasNotices hash process_id os h.1))
      a
