-- ===== src/Queue/Invariant.antt =====
-- Every call of the observation queue (internal/observer/queue.go) keeps its invariant.
use cnpg_connect_plugin.Prelude.{
  ◌≡◌, refl, Bool, true, false, ◌||◌, none, some, List, [], ◌∷◌, arith, Option-cases, inl, inr,
  Bool-cases,
}
use cnpg_connect_plugin.Prelude.Map.{lookup, insert, delete, has, lookup-insert, lookup-delete}
use cnpg_connect_plugin.Key.{ClusterKey, key_eq, key_beq_iff}
use cnpg_connect_plugin.Queue.Elements.{Element, find, front_found}
use cnpg_connect_plugin.Queue.{
  PriorityQueue, new_queue, is_promoted, move_entry, promote, add, take_urgent, take_background,
  get, done, shut_down, shut_down_with_drain, Call, promotes, adds, gets, finishes, shuts, drains,
  step, run,
}
use cnpg_connect_plugin.Queue.Parts.{
  Inv, Without, not_listed, not_listed_active, Inv-Without, remove_urgent-Without,
  remove_background-Without, promoted-Without, dequeued-Inv, push_urgent-Inv, push-Inv,
  new_queue-Inv,
}

queued_dirty :
    (q : PriorityQueue) (key : ClusterKey)
    → Inv q
    → has key q.entries ≡ true
    → (has key q.dirty ≡ true) × (has key q.processing ≡ false)
queued_dirty q key v h = ground (arith, v.pending key)

marked-Inv :
    (q : PriorityQueue) (key : ClusterKey)
    → Inv q
    → lookup key q.entries ≡ none
    → Inv (record q { promoted = insert key true q.promoted })
marked-Inv q key v h =
    let w = Inv-Without q key v h in
    let p = promoted-Without q key w in
    record {
      listed = v.listed;
      urgent_promoted = p.urgent_promoted;
      background_plain = p.background_plain;
      pending = v.pending;
      urgent_formed = v.urgent_formed;
      background_formed = v.background_formed;
    }

moved-Inv :
    (q : PriorityQueue) (key : ClusterKey) (x : Element)
    → Inv q
    → is_promoted q key ≡ false
    → lookup key q.entries ≡ some x
    → Inv (move_entry (some x) (record q { promoted = insert key true q.promoted }) key)
unfolding move_entry
moved-Inv q key x v plain h =
    push_urgent-Inv _ key
      (promoted-Without _ key (remove_background-Without q key v x q.burst held)) queued.0 queued.1
      (ground (arith, lookup-insert key key true q.promoted, key_beq_iff key key))
  where
    held : find key q.background ≡ some x
    held = ground (arith, v.listed key, v.urgent_promoted key)

    queued : (has key q.dirty ≡ true) × (has key q.processing ≡ false)
    queued = queued_dirty q key v (rw h)

promote-Inv : (q : PriorityQueue) (key : ClusterKey) → Inv q → Inv (promote q key)
unfolding promote
promote-Inv q key v = elim (Bool-cases (q.shutting_down || is_promoted q key)) [
  | inl stop ↦ rw stop v
  | inr go ↦ elim (Option-cases (lookup key q.entries)) [
    | inl e ↦ rw (go, e, move_entry) (marked-Inv q key v e)
    | inr (x, e) ↦ rw (go, e) (moved-Inv q key x v (ground arith) e)
  ]
]

pub add-Inv : (q : PriorityQueue) (key : ClusterKey) → Inv q → Inv (add q key)
unfolding add
add-Inv q key v = elim (Bool-cases (q.shutting_down || has key q.dirty)) [
  | inl stop ↦ rw stop v
  | inr go ↦ elim (Bool-cases (has key q.processing)) [
    | inl active ↦
        rw (go, active)
          (record {
            listed = v.listed;
            urgent_promoted = v.urgent_promoted;
            background_plain = v.background_plain;
            pending =
                λ k. ground (arith, v.pending k, key_beq_iff key k, lookup-insert key k tt q.dirty);
            urgent_formed = v.urgent_formed;
            background_formed = v.background_formed;
          })
    | inr idle ↦
        rw (go, idle)
          (push-Inv _ key (marked go)
            (ground (arith, lookup-insert key key tt q.dirty, key_beq_iff key key)) idle)
  ]
]
  where
    marked :
        (q.shutting_down || has key q.dirty) ≡ false
        → Without key (record q { dirty = insert key tt q.dirty })
    marked go =
        let w = Inv-Without q key v (not_listed q key v (ground arith)) in
        record {
          listed = w.listed;
          not_urgent = w.not_urgent;
          not_background = w.not_background;
          urgent_promoted = w.urgent_promoted;
          background_plain = w.background_plain;
          pending = λ k ne. ground (arith, v.pending k, lookup-insert key k tt q.dirty);
          urgent_formed = w.urgent_formed;
          background_formed = w.background_formed;
        }

done-Inv : (q : PriorityQueue) (key : ClusterKey) → Inv q → Inv (done q key)
unfolding done
done-Inv q key v = elim (Bool-cases (has key q.processing)) [
  | inr idle ↦ rw idle v
  | inl active ↦ elim (Bool-cases (has key q.dirty)) [
    | inl dirty ↦
        rw (active, dirty)
          (push-Inv _ key (released active) dirty
            (ground (arith, lookup-delete key key q.processing, key_beq_iff key key)))
    | inr clean ↦
        rw (active, clean)
          (record {
            listed = v.listed;
            urgent_promoted = v.urgent_promoted;
            background_plain = v.background_plain;
            pending = λ k.
                ground (arith, v.pending k, key_beq_iff key k, lookup-delete key k q.processing);
            urgent_formed = v.urgent_formed;
            background_formed = v.background_formed;
          })
  ]
]
  where
    released :
        has key q.processing ≡ true
        → Without key (record q { processing = delete key q.processing })
    released active =
        let w = Inv-Without q key v (not_listed_active q key v active) in
        record {
          listed = w.listed;
          not_urgent = w.not_urgent;
          not_background = w.not_background;
          urgent_promoted = w.urgent_promoted;
          background_plain = w.background_plain;
          pending = λ k ne. ground (arith, v.pending k, lookup-delete key k q.processing);
          urgent_formed = w.urgent_formed;
          background_formed = w.background_formed;
        }

take_urgent-Inv :
    (q : PriorityQueue) (urgent_only : Bool) (es : List Element)
    → Inv q
    → q.urgent ≡ es
    → Inv (take_urgent es urgent_only q).0
unfolding take_urgent
take_urgent-Inv q urgent_only [] v e = v
take_urgent-Inv q urgent_only (x ∷ es) v e =
    dequeued-Inv _ x.value (remove_urgent-Without q x.value v x _ held) x true refl
  where
    held : find x.value q.urgent ≡ some x
    held = rw e (front_found x es)

take_background-Inv :
    (q : PriorityQueue) (es : List Element)
    → Inv q
    → q.background ≡ es
    → Inv (take_background es q).0
unfolding take_background
take_background-Inv q [] v e = v
take_background-Inv q (x ∷ es) v e =
    dequeued-Inv _ x.value (remove_background-Without q x.value v x 0 held) x false refl
  where
    held : find x.value q.background ≡ some x
    held = rw e (front_found x es)

get-Inv : (q : PriorityQueue) (urgent_only : Bool) → Inv q → Inv (get q urgent_only).0
unfolding get
get-Inv q urgent_only v = ground (
  arith,
  take_urgent-Inv q urgent_only q.urgent v refl,
  take_background-Inv q q.background v refl,
)

flags-Inv :
    (q : PriorityQueue) (d : Bool) → Inv q → Inv (record q { drain = d; shutting_down = true })
flags-Inv q d v = record {
  listed = v.listed;
  urgent_promoted = v.urgent_promoted;
  background_plain = v.background_plain;
  pending = v.pending;
  urgent_formed = v.urgent_formed;
  background_formed = v.background_formed;
}

-- Every call keeps the invariant.
pub step-Inv : (q : PriorityQueue) (c : Call) → Inv q → Inv (step q c)
unfolding step shut_down shut_down_with_drain
step-Inv q (promotes key) v = promote-Inv q key v
step-Inv q (adds key) v = add-Inv q key v
step-Inv q (gets urgent_only) v = get-Inv q urgent_only v
step-Inv q (finishes key) v = done-Inv q key v
step-Inv q shuts v = flags-Inv q false v
step-Inv q drains v = flags-Inv q true v

pub run-Inv : (q : PriorityQueue) (cs : List Call) → Inv q → Inv (run q cs)
unfolding run
run-Inv q [] v = v
run-Inv q (c ∷ cs) v = run-Inv (step q c) cs (step-Inv q c v)

-- Whatever calls are made of a new queue, in any order, the map of elements lists exactly the two
-- lists, promoted keys stand in the urgent list and others in the background list, and a key is
-- queued exactly if it is dirty and not being processed.
pub reachable-Inv : (cs : List Call) → Inv (run new_queue cs)
reachable-Inv cs = run-Inv new_queue cs new_queue-Inv
