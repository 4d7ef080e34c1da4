-- ===== src/Queue/Shutdown.antt =====
-- A shutdown of the observation queue (internal/observer/queue.go) leaves no accepted work behind.
use cnpg_connect_plugin.Prelude.{
  ℕ, zero, suc, ◌+◌, ◌≡◌, refl, ap, ◌∙◌, true, false, ◌&&◌, not, List, [], ◌∷◌, arith, length,
  contains,
}
use cnpg_connect_plugin.Prelude.Map.{has, lookup-delete}
use cnpg_connect_plugin.Key.{ClusterKey, key_beq, key_beq_iff, key_eq}
use cnpg_connect_plugin.Queue.Elements.{Element, find, front_found}
use cnpg_connect_plugin.Queue.{
  PriorityQueue, new_queue, Fetched, shut_out, took, dequeued, get, Call, gets, step, run,
}
use cnpg_connect_plugin.Queue.Outcomes.{Outcome, get-Outcome}
use cnpg_connect_plugin.Queue.Parts.{Inv}
use cnpg_connect_plugin.Queue.Invariant.{step-Inv, reachable-Inv}

abbrev pub queued : PriorityQueue → ℕ
queued q = length q.urgent + length q.background

-- What an ordinary worker collects in at most `n` requests before one ends otherwise, and how the
-- next request ends.
pub drained : ℕ → PriorityQueue → List ClusterKey × Fetched
drained zero q = ([], (get q false).1)
drained (suc n) q = elim (get q false).1 [
  | took k ↦ (let rest = drained n (get q false).0 in (k ∷ rest.0, rest.1))
  | other ↦ ([], other)
]

get_empty :
    (q : PriorityQueue)
    → Outcome q false
    → queued q ≡ 0
    → q.shutting_down ≡ true
    → (get q false).1 ≡ shut_out
get_empty q (Outcome.empty e f r) n s = ground arith
get_empty q (Outcome.from_urgent x es e g r) n s = ground arith
get_empty q (Outcome.from_background x es e f g r) n s = ground arith

record Served (q : PriorityQueue) (k : ClusterKey) : Type 0 where
  given : (get q false).1 ≡ took k
  fewer : queued q ≡ suc (queued (get q false).0)
  still : (get q false).0.shutting_down ≡ q.shutting_down
  listed : has k q.entries ≡ true
  left : (j : ClusterKey) → has j (get q false).0.entries ≡ (not (key_beq k j) && has j q.entries)

get_serves :
    (q : PriorityQueue) (n : ℕ)
    → Inv q
    → Outcome q false
    → queued q ≡ suc n
    → (k : ClusterKey) × Served q k
unfolding dequeued
get_serves q n v (Outcome.empty e f r) h = absurd (ground arith)
get_serves q n v (Outcome.from_urgent x es e g r) h = (
  x.value,
  record {
    given = ground arith;
    fewer = ground arith;
    still = ground arith;
    listed = ground (arith, v.listed x.value, front_found x es);
    left = λ j. ground (arith, lookup-delete x.value j q.entries);
  },
)
get_serves q n v (Outcome.from_background x es e f g r) h = (
  x.value,
  record {
    given = ground arith;
    fewer = ground arith;
    still = ground arith;
    listed = ground (arith, v.listed x.value, front_found x es);
    left = λ j. ground (arith, lookup-delete x.value j q.entries);
  },
)

drained_took :
    (n : ℕ) (q : PriorityQueue) (k : ClusterKey)
    → (get q false).1 ≡ took k
    → drained (suc n) q ≡ (k ∷ (drained n (get q false).0).0, (drained n (get q false).0).1)
unfolding drained
drained_took n q k e = rw (e, drained)

abbrev DrainsAll : ℕ → PriorityQueue → Type 0
DrainsAll n q =
    ((drained n q).1 ≡ shut_out)
    × (length (drained n q).0 ≡ n)
    × ((k : ClusterKey) → contains (drained n q).0 k ≡ has k q.entries)

nothing_queued :
    (q : PriorityQueue) (us bs : List Element)
    → Inv q
    → q.urgent ≡ us
    → q.background ≡ bs
    → queued q ≡ 0
    → (k : ClusterKey) → false ≡ has k q.entries
unfolding find
nothing_queued q [] [] v e f h k = ground (arith, v.listed k)
nothing_queued q (x ∷ us) bs v e f h k = absurd (ground arith)
nothing_queued q [] (x ∷ bs) v e f h k = absurd (ground arith)

drain_queued :
    (n : ℕ) (q : PriorityQueue) → Inv q → q.shutting_down ≡ true → queued q ≡ n → DrainsAll n q
unfolding contains step
drain_queued zero q v s h =
    unfold drained in
    (
      get_empty q (get-Outcome q false) h s,
      refl,
      nothing_queued q q.urgent q.background v refl refl h,
    )
drain_queued (suc n) q v s h =
    let (x, t) = get_serves q n v (get-Outcome q false) h in
    let rest =
      drain_queued n (get q false).0 (step-Inv q (gets false) v) (t.still ∙ s)
        (ground (arith, t.fewer)) in
    rw (drained_took n q x t.given)
      (rest.0, ap suc rest.1, λ k. ground (arith, rest.2 k, t.left k, key_beq_iff x k, t.listed))

-- Work accepted before a shutdown stays available: of a reachable queue that is shutting down, an
-- ordinary worker collects exactly the queued keys, in as many requests as elements stand in the
-- two lists, and only then is it turned away.
pub shutdown_drains :
    (cs : List Call)
    → (run new_queue cs).shutting_down ≡ true
    → let q = run new_queue cs in
      let collected = drained (queued q) q in
      (collected.1 ≡ shut_out)
      × (length collected.0 ≡ queued q)
      × ((k : ClusterKey) → contains collected.0 k ≡ has k q.entries)
shutdown_drains cs s =
    let q = run new_queue cs in drain_queued (queued q) q (reachable-Inv cs) s refl
