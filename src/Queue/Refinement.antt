-- ===== src/Queue/Refinement.antt =====
-- The observation queue (internal/observer/queue.go) does what Spec says.
use mathlib.Core.List.{map-append}
use cnpg_connect_plugin.Prelude.{
  ℕ, ◌≡◌, refl, ap, ◌∙◌, Bool, true, false, some, List, [], ◌∷◌, ◌++◌, arith, inl, inr,
  Option-cases,
}
use cnpg_connect_plugin.Prelude.Map.{insert}
use cnpg_connect_plugin.Key.{ClusterKey, key_beq_iff, key_eq}
use cnpg_connect_plugin.Queue.Elements.{
  Element, remove_element, find, WellFormed, find-has_id, values, contains-values,
}
use cnpg_connect_plugin.Queue.{
  PriorityQueue, new_queue, Fetched, promote, push, add, get, done, shut_down, shut_down_with_drain,
  Call, promotes, adds, gets, finishes, shuts, drains, step, run,
}
use cnpg_connect_plugin.Queue.Parts.{Inv, new_queue-Inv}
use cnpg_connect_plugin.Queue.Invariant.{step-Inv}
use cnpg_connect_plugin.Queue.Spec.{
  Spec, view, remove_key, spec_promote, spec_push, spec_add, spec_done, spec_get, spec_step,
  spec_run,
}

values-remove_element :
    (n : ℕ) (k : ClusterKey) (e : Element) (xs : List Element)
    → WellFormed n xs
    → find k xs ≡ some e
    → values (remove_element e xs) ≡ remove_key k (values xs)
unfolding find remove_element remove_key
values-remove_element n k e [] w h = cc
values-remove_element n k e (x ∷ xs) w h =
    ground (arith, key_beq_iff x.value k, find-has_id k xs e, values-remove_element n k e xs w.3)

values-push :
    (xs : List Element) (e : Element) → values (xs ++ (e ∷ [])) ≡ values xs ++ (e.value ∷ [])
values-push xs e = map-append _ xs (e ∷ [])

push-view : (q : PriorityQueue) (k : ClusterKey) → view (push q k) ≡ spec_push (view q) k
unfolding push spec_push
push-view q k =
    let e : Element = record { id = q.next_id; value = k } in
    ground (arith, values-push q.urgent e, values-push q.background e)

promote-view :
    (q : PriorityQueue) (k : ClusterKey) → Inv q → view (promote q k) ≡ spec_promote (view q) k
unfolding promote spec_promote
promote-view q k v = elim (Option-cases (find k q.background)) [
  | inl e ↦ ground (arith, v.listed k, v.urgent_promoted k, contains-values k q.background)
  | inr (x, e) ↦ ground (
    arith,
    v.listed k,
    v.urgent_promoted k,
    contains-values k q.background,
    values-remove_element q.next_id k x q.background v.background_formed,
    values-push q.urgent (record { id = q.next_id; value = k }),
  )
]

add-view : (q : PriorityQueue) (k : ClusterKey) → view (add q k) ≡ spec_add (view q) k
unfolding add spec_add
add-view q k = ground (arith, push-view (record q { dirty = insert k tt q.dirty }) k)

done-view : (q : PriorityQueue) (k : ClusterKey) → view (done q k) ≡ spec_done (view q) k
unfolding done spec_done
done-view q k = ground (arith, push-view q k)

Agrees : PriorityQueue × Fetched → Spec × Fetched → Type 0
Agrees r s = (view r.0 ≡ s.0) × (r.1 ≡ s.1)

get_lists :
    (q : PriorityQueue) (u : Bool) (us bs : List Element)
    → q.urgent ≡ us
    → q.background ≡ bs
    → Agrees (get q u) (spec_get (view q) u)
unfolding Agrees get spec_get remove_element
get_lists q u [] [] e f = ground arith
get_lists q true [] (b ∷ bs) e f = ground arith
get_lists q false [] (b ∷ bs) e f = ground arith
get_lists q true (x ∷ us) bs e f = ground arith
get_lists q false (x ∷ us) [] e f = ground arith
get_lists q false (x ∷ us) (b ∷ bs) e f = ground arith

-- What a worker is given is what the specification gives.
pub get-view : (q : PriorityQueue) (u : Bool) → (get q u).1 ≡ (spec_get (view q) u).1
unfolding Agrees
get-view q u = (get_lists q u q.urgent q.background refl refl).1

pub step-view : (q : PriorityQueue) (c : Call) → Inv q → view (step q c) ≡ spec_step (view q) c
unfolding step spec_step shut_down shut_down_with_drain Agrees
step-view q (promotes k) v = promote-view q k v
step-view q (adds k) v = add-view q k
step-view q (gets u) v = (get_lists q u q.urgent q.background refl refl).0
step-view q (finishes k) v = done-view q k
step-view q shuts v = refl
step-view q drains v = refl

run-view : (q : PriorityQueue) (cs : List Call) → Inv q → view (run q cs) ≡ spec_run (view q) cs
unfolding run spec_run
run-view q [] v = refl
run-view q (c ∷ cs) v =
    run-view (step q c) cs (step-Inv q c v) ∙ ap (λ s. spec_run s cs) (step-view q c v)

-- After any calls on a new queue, the queue with its list elements and its map of them shows the
-- state that the specification over two lists of keys reaches by the same calls, and the next
-- request of a worker, urgent or not, gets the answer that the specification gives.
pub queue_refines_Spec :
    (cs : List Call) (u : Bool)
    → (view (run new_queue cs) ≡ spec_run (view new_queue) cs)
      × ((get (run new_queue cs) u).1 ≡ (spec_get (spec_run (view new_queue) cs) u).1)
queue_refines_Spec cs u =
    let e = run-view new_queue cs new_queue-Inv in
    (e, get-view (run new_queue cs) u ∙ ap (λ s. (spec_get s u).1) e)
