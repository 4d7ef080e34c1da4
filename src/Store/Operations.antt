-- ===== src/Store/Operations.antt =====
-- Any sequence of operations on the store (internal/discovery/store.go), each as its critical
-- section; deliveries outside the lock are operations of their own, so they interleave freely.
use cnpg_connect_plugin.Prelude.{
  ℕ, ◌≡◌, inl, inr, String, Bool, List, [], ◌∷◌, arith, Bool-cases, not, ◌&&◌,
}
use cnpg_connect_plugin.Prelude.Map.{lookup, has}
use cnpg_connect_plugin.Key.{ClusterKey, key_eq}
use cnpg_connect_plugin.Api.{Snapshot, Time}
use cnpg_connect_plugin.Routing.{Digest}
use cnpg_connect_plugin.Mailbox.{Publication, Mailbox}
use cnpg_connect_plugin.Store.{
  Store, new_store, put_deferred, delete_deferred, read_publication, has_demand, set_demand_handler,
}
use cnpg_connect_plugin.Store.Watchers.{deliver_to, register, cancel}
use cnpg_connect_plugin.Store.Sweep.{request_refresh, expire, active_clusters}
use cnpg_connect_plugin.Store.Invariant.{
  Inv, put_deferred-Inv, delete_deferred-Inv, read_publication-Inv, expire_keys-Inv,
}

pub data Operation : Type 0 where
  handles : ℕ → Operation
  puts : Snapshot → Time → Time → Operation
  deletes : ClusterKey → Operation
  reads : ClusterKey → Time → Operation
  registers : ClusterKey → Bool → Mailbox → Time → Time → Operation
  cancels : ClusterKey → ℕ → Operation
  delivers : Publication → ℕ → Operation
  refreshes : ClusterKey → Time → Operation
  asks : ClusterKey → Time → Operation
  lists : Time → Operation
  expires : Time → Operation

unfoldable pub perform : (Snapshot → Digest) → Store → Operation → Store
perform hash st (handles lease) = set_demand_handler st lease
perform hash st (puts s before now) = (put_deferred hash st s before now).0
perform hash st (deletes k) = (delete_deferred st k).0
perform hash st (reads k now) = (read_publication hash st k now).0
perform hash st (registers k known m now later) = (register hash st k known m now later).0
perform hash st (cancels k id) = cancel st k id
perform hash st (delivers p id) = deliver_to st p id
perform hash st (refreshes k now) = (request_refresh st k now).0
perform hash st (asks k now) = (has_demand st k now).0
perform hash st (lists now) = (active_clusters st now).0
perform hash st (expires now) = (expire hash st now).0

unfoldable pub perform_all : (Snapshot → Digest) → Store → List Operation → Store
perform_all hash st [] = st
perform_all hash st (o ∷ os) = perform_all hash (perform hash st o) os

pub has_demand-records :
    (st : Store) (k : ClusterKey) (now : Time) → (has_demand st k now).0.records ≡ st.records
unfolding has_demand
has_demand-records st k now = ground arith

pub cancel-records : (st : Store) (k : ClusterKey) (id : ℕ) → (cancel st k id).records ≡ st.records
unfolding cancel
cancel-records st k id = ground arith

pub deliver_to-records :
    (st : Store) (p : Publication) (id : ℕ) → (deliver_to st p id).records ≡ st.records
unfolding deliver_to
deliver_to-records st p id = ground arith

pub request_refresh-records :
    (st : Store) (k : ClusterKey) (now : Time) → (request_refresh st k now).0.records ≡ st.records
unfolding request_refresh
request_refresh-records st k now = ground arith

module _ (hash : Snapshot → Digest) where
  pub register-Inv :
      (st : Store) (k : ClusterKey) (known : Bool) (m : Mailbox) (now later : Time)
      → Inv hash st.records
      → Inv hash (register hash st k known m now later).0.records
  unfolding register
  register-Inv st k known m now later v = elim (Bool-cases (not (has k st.records) && known)) [
    | inl refused ↦ rw refused v
    | inr taken ↦
        rw (taken, has_demand-records (read_publication hash st k now).0 k later)
          (read_publication-Inv hash st k now v)
  ]

  pub perform-Inv :
      (st : Store) (o : Operation) → Inv hash st.records → Inv hash (perform hash st o).records
  unfolding perform set_demand_handler expire active_clusters
  perform-Inv st (handles lease) v = v
  perform-Inv st (puts s before now) v = put_deferred-Inv hash st s before now v
  perform-Inv st (deletes k) v = delete_deferred-Inv hash st k v
  perform-Inv st (reads k now) v = read_publication-Inv hash st k now v
  perform-Inv st (registers k known m now later) v = register-Inv st k known m now later v
  perform-Inv st (cancels k id) v = rw (cancel-records st k id) v
  perform-Inv st (delivers p id) v = rw (deliver_to-records st p id) v
  perform-Inv st (refreshes k now) v = rw (request_refresh-records st k now) v
  perform-Inv st (asks k now) v = rw (has_demand-records st k now) v
  perform-Inv st (lists now) v = v
  perform-Inv st (expires now) v = expire_keys-Inv hash now _ st v

  perform_all-Inv :
      (st : Store) (os : List Operation)
      → Inv hash st.records
      → Inv hash (perform_all hash st os).records
  unfolding perform_all
  perform_all-Inv st [] v = v
  perform_all-Inv st (o ∷ os) v = perform_all-Inv (perform hash st o) os (perform-Inv st o v)

  -- After any operations on a new store, whatever the hash function: a record that is marked
  -- expired is unavailable with no primary and no ready member, the stored digest is that of the
  -- stored snapshot, and each record stands under its own cluster's key.
  pub store-Inv :
      (process_id : String) (os : List Operation)
      → Inv hash (perform_all hash (new_store process_id) os).records
  unfolding new_store lookup
  store-Inv process_id os = perform_all-Inv (new_store process_id) os (λ k r h. cc)
