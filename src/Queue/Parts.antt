-- ===== src/Queue/Parts.antt =====
-- The invariant of the observation queue (internal/observer/queue.go), and the pieces of its
-- operations that keep it.
use cnpg_connect_plugin.Prelude.{
  ℕ, ◌≡◌, refl, Bool, true, false, ◌&&◌, not, none, some, [], ◌∷◌, arith, if◌then◌else◌, is_some,
  or_else, inl, inr, Bool-cases,
}
use cnpg_connect_plugin.Prelude.Map.{lookup, insert, has, lookup-insert, lookup-delete}
use cnpg_connect_plugin.Key.{ClusterKey, key_eq, key_beq, key_beq_iff}
use cnpg_connect_plugin.Queue.Elements.{
  Element, remove_element, find, WellFormed, find-append, WellFormed-suc, WellFormed-push,
  find-remove_element, remove_element-WellFormed,
}
use cnpg_connect_plugin.Queue.{
  PriorityQueue, new_queue, is_promoted, push_urgent, push_background, push, dequeued,
}

-- The map of elements lists what stands in the two lists, the promoted keys stand in the urgent
-- one, and a key is queued exactly if it is dirty and not being processed.
pub record Inv (q : PriorityQueue) : Type 0 where
  pub listed :
      (k : ClusterKey) → lookup k q.entries ≡ or_else (find k q.urgent) (find k q.background)
  pub urgent_promoted : (k : ClusterKey) → is_some (find k q.urgent) ≡ true → is_promoted q k ≡ true
  pub background_plain :
      (k : ClusterKey) → is_some (find k q.background) ≡ true → is_promoted q k ≡ false
  pub pending : (k : ClusterKey) → has k q.entries ≡ (has k q.dirty && not (has k q.processing))
  pub urgent_formed : WellFormed q.next_id q.urgent
  pub background_formed : WellFormed q.next_id q.background

pub new_queue-Inv : Inv new_queue
unfolding new_queue lookup find
new_queue-Inv = record {
  listed = λ k. refl;
  urgent_promoted = λ k h. cc;
  background_plain = λ k h. cc;
  pending = λ k. refl;
  urgent_formed = tt;
  background_formed = tt;
}

-- The invariant of all keys but one, which stands in neither list.
pub record Without (key : ClusterKey) (q : PriorityQueue) : Type 0 where
  pub listed :
      (k : ClusterKey)
      → key_beq key k ≡ false
      → lookup k q.entries ≡ or_else (find k q.urgent) (find k q.background)
  pub not_urgent : find key q.urgent ≡ none
  pub not_background : find key q.background ≡ none
  pub urgent_promoted : (k : ClusterKey) → is_some (find k q.urgent) ≡ true → is_promoted q k ≡ true
  pub background_plain :
      (k : ClusterKey) → is_some (find k q.background) ≡ true → is_promoted q k ≡ false
  pub pending :
      (k : ClusterKey)
      → key_beq key k ≡ false
      → has k q.entries ≡ (has k q.dirty && not (has k q.processing))
  pub urgent_formed : WellFormed q.next_id q.urgent
  pub background_formed : WellFormed q.next_id q.background

module _ (q : PriorityQueue) (key : ClusterKey) (v : Inv q) where
  pub not_listed : has key q.dirty ≡ false → lookup key q.entries ≡ none
  not_listed h = ground (arith, v.pending key)

  pub not_listed_active : has key q.processing ≡ true → lookup key q.entries ≡ none
  not_listed_active h = ground (arith, v.pending key)

  pub Inv-Without : lookup key q.entries ≡ none → Without key q
  Inv-Without h = record {
    listed = λ k _. v.listed k;
    not_urgent = ground (arith, v.listed key);
    not_background = ground (arith, v.listed key);
    urgent_promoted = v.urgent_promoted;
    background_plain = v.background_plain;
    pending = λ k _. v.pending k;
    urgent_formed = v.urgent_formed;
    background_formed = v.background_formed;
  }

  pub remove_urgent-Without :
      (e : Element) (b : ℕ)
      → find key q.urgent ≡ some e
      → Without key (record q { urgent = remove_element e q.urgent; burst = b })
  remove_urgent-Without e b h = record {
    listed = λ k ne. ground (arith, removed k, v.listed k);
    not_urgent = ground (arith, removed key, key_beq_iff key key);
    not_background = ground (arith, v.urgent_promoted key, v.background_plain key);
    urgent_promoted = λ k m. ground (arith, removed k, v.urgent_promoted k);
    background_plain = v.background_plain;
    pending = λ k _. v.pending k;
    urgent_formed = remove_element-WellFormed q.next_id e q.urgent v.urgent_formed;
    background_formed = v.background_formed;
  }
    where
      removed :
          (k : ClusterKey)
          → find k (remove_element e q.urgent) ≡ (if key_beq key k then none else find k q.urgent)
      removed k = find-remove_element q.next_id key k e q.urgent v.urgent_formed h

  pub remove_background-Without :
      (e : Element) (b : ℕ)
      → find key q.background ≡ some e
      → Without key (record q { background = remove_element e q.background; burst = b })
  remove_background-Without e b h = record {
    listed = λ k ne. ground (arith, removed k, v.listed k);
    not_urgent = ground (arith, v.urgent_promoted key, v.background_plain key);
    not_background = ground (arith, removed key, key_beq_iff key key);
    urgent_promoted = v.urgent_promoted;
    background_plain = λ k m. ground (arith, removed k, v.background_plain k);
    pending = λ k _. v.pending k;
    urgent_formed = v.urgent_formed;
    background_formed = remove_element-WellFormed q.next_id e q.background v.background_formed;
  }
    where
      removed :
          (k : ClusterKey)
          → find k (remove_element e q.background)
            ≡ (if key_beq key k then none else find k q.background)
      removed k = find-remove_element q.next_id key k e q.background v.background_formed h

module _ (q : PriorityQueue) (key : ClusterKey) (w : Without key q) where
  pub promoted-Without : Without key (record q { promoted = insert key true q.promoted })
  promoted-Without = record {
    listed = w.listed;
    not_urgent = w.not_urgent;
    not_background = w.not_background;
    urgent_promoted =
        λ k h. ground (arith, w.urgent_promoted k, lookup-insert key k true q.promoted);
    background_plain = λ k h. ground (
      arith,
      w.background_plain k,
      w.not_background,
      key_beq_iff key k,
      lookup-insert key k true q.promoted,
    );
    pending = w.pending;
    urgent_formed = w.urgent_formed;
    background_formed = w.background_formed;
  }

  pub dequeued-Inv : (e : Element) (u : Bool) → e.value ≡ key → Inv (dequeued q e u).0
  unfolding dequeued
  dequeued-Inv e u h = rw h (record {
    listed = λ k. ground (
      arith,
      w.listed k,
      w.not_urgent,
      w.not_background,
      key_beq_iff key k,
      lookup-delete key k q.entries,
    );
    urgent_promoted = λ k m. ground (
      arith,
      w.urgent_promoted k,
      w.not_urgent,
      key_beq_iff key k,
      lookup-delete key k q.promoted,
    );
    background_plain = λ k m. ground (arith, w.background_plain k, lookup-delete key k q.promoted);
    pending = λ k. ground (
      arith,
      w.pending k,
      lookup-delete key k q.entries,
      lookup-delete key k q.dirty,
      lookup-insert key k u q.processing,
    );
    urgent_formed = w.urgent_formed;
    background_formed = w.background_formed;
  })

  module _ (dirty : has key q.dirty ≡ true) (idle : has key q.processing ≡ false) where
    pub push_urgent-Inv : is_promoted q key ≡ true → Inv (push_urgent q key)
    unfolding push_urgent find
    push_urgent-Inv p =
        let e : Element = record { id = q.next_id; value = key } in
        record {
          listed = λ k. ground (
            arith,
            w.listed k,
            w.not_urgent,
            w.not_background,
            key_beq_iff key k,
            lookup-insert key k e q.entries,
            find-append k q.urgent (e ∷ []),
          );
          urgent_promoted = λ k m.
              ground
                (arith, w.urgent_promoted k, key_beq_iff key k, find-append k q.urgent (e ∷ []));
          background_plain = w.background_plain;
          pending =
              λ k. ground (arith, w.pending k, key_beq_iff key k, lookup-insert key k e q.entries);
          urgent_formed = WellFormed-push q.next_id key q.urgent w.urgent_formed w.not_urgent;
          background_formed = WellFormed-suc q.next_id q.background w.background_formed;
        }

    push_background-Inv : is_promoted q key ≡ false → Inv (push_background q key)
    unfolding push_background find
    push_background-Inv p =
        let e : Element = record { id = q.next_id; value = key } in
        record {
          listed = λ k. ground (
            arith,
            w.listed k,
            w.not_urgent,
            w.not_background,
            key_beq_iff key k,
            lookup-insert key k e q.entries,
            find-append k q.background (e ∷ []),
          );
          urgent_promoted = w.urgent_promoted;
          background_plain = λ k m.
              ground (
                arith,
                w.background_plain k,
                key_beq_iff key k,
                find-append k q.background (e ∷ []),
              );
          pending =
              λ k. ground (arith, w.pending k, key_beq_iff key k, lookup-insert key k e q.entries);
          urgent_formed = WellFormed-suc q.next_id q.urgent w.urgent_formed;
          background_formed =
              WellFormed-push q.next_id key q.background w.background_formed w.not_background;
        }

    pub push-Inv : Inv (push q key)
    unfolding push
    push-Inv = elim (Bool-cases (is_promoted q key)) [
      | inl p ↦ rw p (push_urgent-Inv p)
      | inr p ↦ rw p (push_background-Inv p)
    ]
