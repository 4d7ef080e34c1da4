-- ===== src/Queue/Handling.antt =====
-- Work in the observation queue (internal/observer/queue.go) is neither lost nor doubled.
use cnpg_connect_plugin.Prelude.{
  ◌≡◌, refl, ◌⊎◌, Bool, true, false, ◌&&◌, ◌||◌, List, [], ◌∷◌, arith, is_some, inl, inr,
  Bool-cases,
}
use cnpg_connect_plugin.Prelude.Map.{has, lookup-insert, lookup-delete}
use cnpg_connect_plugin.Key.{ClusterKey, key_beq, key_beq_iff, key_eq}
use cnpg_connect_plugin.Queue.Elements.{find, front_found}
use cnpg_connect_plugin.Queue.{
  PriorityQueue, Fetched, waits, shut_out, took, faults, is_urgent, promote, push, add, get, done,
  shut_down, shut_down_with_drain, dequeued, new_queue, Call, promotes, adds, gets, finishes, shuts,
  drains, step, run,
}
use cnpg_connect_plugin.Queue.Outcomes.{Outcome, get-Outcome}
use cnpg_connect_plugin.Queue.Parts.{Inv}
use cnpg_connect_plugin.Queue.Invariant.{step-Inv, run-Inv, add-Inv, reachable-Inv}

-- The key that a call hands out.
abbrev pub handed : Fetched → ClusterKey → Bool
handed waits k = false
handed shut_out k = false
handed (took j) k = key_beq j k
handed faults k = false

abbrev pub hands_out : PriorityQueue → Call → ClusterKey → Bool
hands_out q (promotes j) k = false
hands_out q (adds j) k = false
hands_out q (gets u) k = handed (get q u).1 k
hands_out q (finishes j) k = false
hands_out q shuts k = false
hands_out q drains k = false

get_keeps_dirty :
    (q : PriorityQueue) (u : Bool) (k : ClusterKey)
    → Outcome q u
    → has k q.dirty ≡ true
    → (has k (get q u).0.dirty ≡ true) ⊎ (handed (get q u).1 k ≡ true)
unfolding dequeued
get_keeps_dirty q u k (Outcome.empty _ _ r) h = ground arith
get_keeps_dirty q u k (Outcome.from_urgent x es _ _ r) h =
    ground (arith, lookup-delete x.value k q.dirty)
get_keeps_dirty q u k (Outcome.from_background x es _ _ _ r) h =
    ground (arith, lookup-delete x.value k q.dirty)

-- Work that was asked for stays asked for until a worker is handed it.
step_keeps_dirty :
    (q : PriorityQueue) (c : Call) (k : ClusterKey)
    → has k q.dirty ≡ true
    → (has k (step q c).dirty ≡ true) ⊎ (hands_out q c k ≡ true)
unfolding step promote add done shut_down shut_down_with_drain
step_keeps_dirty q (promotes j) k h = ground arith
step_keeps_dirty q (adds j) k h = ground (arith, lookup-insert j k tt q.dirty)
step_keeps_dirty q (gets u) k h = get_keeps_dirty q u k (get-Outcome q u) h
step_keeps_dirty q (finishes j) k h = ground arith
step_keeps_dirty q shuts k h = inl h
step_keeps_dirty q drains k h = inl h

-- Whether a sequence of calls hands the key to a worker.
pub handed_in : PriorityQueue → List Call → ClusterKey → Bool
handed_in q [] k = false
handed_in q (c ∷ cs) k = hands_out q c k || handed_in (step q c) cs k

run_keeps_dirty :
    (q : PriorityQueue) (cs : List Call) (k : ClusterKey)
    → has k q.dirty ≡ true
    → handed_in q cs k ≡ false
    → has k (run q cs).dirty ≡ true
unfolding run handed_in
run_keeps_dirty q [] k h n = h
run_keeps_dirty q (c ∷ cs) k h n = elim (step_keeps_dirty q c k h) [
  | inl d ↦ run_keeps_dirty (step q c) cs k d (ground arith)
  | inr d ↦ ground arith
]

add_marks :
    (q : PriorityQueue) (k : ClusterKey) → q.shutting_down ≡ false → has k (add q k).dirty ≡ true
unfolding add push
add_marks q k h = ground (arith, lookup-insert k k tt q.dirty, key_beq_iff k k)

dirty_queued :
    (q : PriorityQueue) (k : ClusterKey)
    → Inv q
    → has k q.dirty ≡ true
    → ((is_some (find k q.urgent) || is_some (find k q.background)) ≡ true)
      ⊎ ((has k q.processing && has k q.dirty) ≡ true)
dirty_queued q k v h = ground (arith, v.listed k, v.pending k)

-- A request added to a reachable queue that is not shutting down is not lost: after any further
-- calls, either a worker was handed the key in them, or the key stands in one of the two lists,
-- or it is being processed and marked for another turn.
pub added_work_kept :
    (before after : List Call) (k : ClusterKey)
    → (run new_queue before).shutting_down ≡ false
    → let q = run (add (run new_queue before) k) after in
      (handed_in (add (run new_queue before) k) after k ≡ true)
      ⊎ ((is_some (find k q.urgent) || is_some (find k q.background)) ≡ true)
      ⊎ ((has k q.processing && has k q.dirty) ≡ true)
added_work_kept before after k h =
    let q = add (run new_queue before) k in
    let v = run-Inv q after (add-Inv (run new_queue before) k (reachable-Inv before)) in
    elim (Bool-cases (handed_in q after k)) [
      | inl given ↦ inl given
      | inr kept ↦
          inr (dirty_queued (run q after) k v (run_keeps_dirty q after k (add_marks _ k h) kept))
    ]

handed_idle :
    (q : PriorityQueue) (u : Bool) (k : ClusterKey)
    → Inv q
    → Outcome q u
    → handed (get q u).1 k ≡ true
    → (has k q.processing ≡ false)
      × (has k (get q u).0.processing ≡ true)
      × (has k (get q u).0.dirty ≡ false)
      × (is_urgent (get q u).0 k ≡ is_some (find k q.urgent))
unfolding dequeued is_urgent
handed_idle q u k v (Outcome.empty _ _ r) h = ground arith
handed_idle q u k v (Outcome.from_urgent x es e _ r) h = ground (
  arith,
  v.listed k,
  v.pending k,
  front_found x es,
  key_beq_iff x.value k,
  lookup-insert x.value k true q.processing,
  lookup-delete x.value k q.dirty,
)
handed_idle q u k v (Outcome.from_background x es e _ _ r) h = ground (
  arith,
  v.listed k,
  v.pending k,
  v.urgent_promoted k,
  v.background_plain k,
  front_found x es,
  key_beq_iff x.value k,
  lookup-insert x.value k false q.processing,
  lookup-delete x.value k q.dirty,
)

-- A worker that is handed a key by a reachable queue is the only one that holds it: the key was
-- not being processed, it is now, it waits for no further turn, and it counts as urgent exactly if
-- it stood in the urgent list.
pub handed_exclusively :
    (cs : List Call) (u : Bool) (k : ClusterKey)
    → handed (get (run new_queue cs) u).1 k ≡ true
    → let q = run new_queue cs in
      (has k q.processing ≡ false)
      × (has k (get q u).0.processing ≡ true)
      × (has k (get q u).0.dirty ≡ false)
      × (is_urgent (get q u).0 k ≡ is_some (find k q.urgent))
handed_exclusively cs u k h =
    let q = run new_queue cs in handed_idle q u k (reachable-Inv cs) (get-Outcome q u) h

-- Whether a worker reports the key done.
unfoldable pub finished_in : List Call → ClusterKey → Bool
finished_in [] k = false
finished_in (finishes j ∷ cs) k = key_beq j k || finished_in cs k
finished_in (_ ∷ cs) k = finished_in cs k

get_keeps_active :
    (q : PriorityQueue) (u : Bool) (k : ClusterKey)
    → Outcome q u
    → has k q.processing ≡ true
    → has k (get q u).0.processing ≡ true
unfolding dequeued
get_keeps_active q u k (Outcome.empty _ _ r) h = ground arith
get_keeps_active q u k (Outcome.from_urgent x es _ _ r) h =
    ground (arith, lookup-insert x.value k true q.processing)
get_keeps_active q u k (Outcome.from_background x es _ _ _ r) h =
    ground (arith, lookup-insert x.value k false q.processing)

step_keeps_active :
    (q : PriorityQueue) (c : Call) (k : ClusterKey)
    → finished_in (c ∷ []) k ≡ false
    → has k q.processing ≡ true
    → has k (step q c).processing ≡ true
unfolding step promote add done shut_down shut_down_with_drain finished_in
step_keeps_active q (promotes j) k n h = ground arith
step_keeps_active q (adds j) k n h = ground arith
step_keeps_active q (gets u) k n h = get_keeps_active q u k (get-Outcome q u) h
step_keeps_active q (finishes j) k n h = ground (arith, lookup-delete j k q.processing)
step_keeps_active q shuts k n h = h
step_keeps_active q drains k n h = h

active_not_handed :
    (q : PriorityQueue) (c : Call) (k : ClusterKey)
    → Inv q
    → has k q.processing ≡ true
    → hands_out q c k ≡ false
active_not_handed q (gets u) k v h = elim (Bool-cases (handed (get q u).1 k)) [
  | inl given ↦ ground (arith, handed_idle q u k v (get-Outcome q u) given)
  | inr kept ↦ kept
]
active_not_handed q _ k v h = refl

finished_head :
    (c : Call) (cs : List Call) (k : ClusterKey)
    → finished_in (c ∷ cs) k ≡ false
    → (finished_in (c ∷ []) k ≡ false) × (finished_in cs k ≡ false)
unfolding finished_in
finished_head (finishes j) cs k h = ground arith
finished_head _ cs k h = (refl, h)

active_until_done :
    (q : PriorityQueue) (cs : List Call) (k : ClusterKey)
    → Inv q
    → has k q.processing ≡ true
    → finished_in cs k ≡ false
    → handed_in q cs k ≡ false
unfolding handed_in
active_until_done q [] k v h n = refl
active_until_done q (c ∷ cs) k v h n =
    let (n0, n1) = finished_head c cs k n in
    ground (
      arith,
      active_not_handed q c k v h,
      active_until_done (step q c) cs k (step-Inv q c v) (step_keeps_active q c k n0 h) n1,
    )

-- At most one observation of a cluster is in flight: once a reachable queue has handed a key to a
-- worker, no later call hands it out again before the key is reported done.
pub single_flight :
    (before after : List Call) (u : Bool) (k : ClusterKey)
    → handed (get (run new_queue before) u).1 k ≡ true
    → finished_in after k ≡ false
    → handed_in (get (run new_queue before) u).0 after k ≡ false
unfolding step
single_flight before after u k h n =
    let q = run new_queue before in
    active_until_done (get q u).0 after k (step-Inv q (gets u) (reachable-Inv before))
      (handed_exclusively before u k h).1 n
