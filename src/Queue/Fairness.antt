-- ===== src/Queue/Fairness.antt =====
-- Urgent work cannot starve background work in the observation queue
-- (internal/observer/queue.go), and a shutdown leaves no accepted work behind.
use cnpg_connect_plugin.Prelude.{
  ℕ, ◌+◌, ◌*◌, ◌≤◌, ◌≡◌, Bool, true, false, List, [], ◌∷◌, arith, if◌then◌else◌,
}
use cnpg_connect_plugin.Prelude.Map.{lookup-insert}
use cnpg_connect_plugin.Key.{ClusterKey, key_beq_iff, key_eq}
use cnpg_connect_plugin.Queue.Elements.{is_empty}
use cnpg_connect_plugin.Queue.{
  PriorityQueue, urgent_burst_limit, new_queue, Fetched, took, dequeued, is_urgent, promote, push,
  add, get, done, shut_down, shut_down_with_drain, Call, promotes, adds, gets, finishes, shuts,
  drains, step, run,
}
use cnpg_connect_plugin.Queue.Outcomes.{Outcome, get-Outcome}

-- What an ordinary worker is given counts for its class.
abbrev pub weigh : Bool → PriorityQueue × Fetched → ℕ
weigh class (q, took k) =
    if is_urgent q k then (if class then 1 else 0) else (if class then 0 else 1)
weigh class (q, _) = 0

-- How many keys of a class the ordinary workers are handed in a sequence of calls.
pub served : Bool → PriorityQueue → List Call → ℕ
served class q [] = 0
served class q (gets false ∷ cs) = weigh class (get q false) + served class (get q false).0 cs
served class q (c ∷ cs) = served class (step q c) cs

-- Background work waits whenever an ordinary worker asks.
abbrev pub BackgroundWaits : PriorityQueue → List Call → Type 0
BackgroundWaits q [] = Unit
BackgroundWaits q (gets false ∷ cs) =
    (is_empty q.background ≡ false) × BackgroundWaits (get q false).0 cs
BackgroundWaits q (c ∷ cs) = BackgroundWaits (step q c) cs

get_burst :
    (q : PriorityQueue)
    → Outcome q false
    → is_empty q.background ≡ false
    → q.burst ≤ urgent_burst_limit
    → (weigh true (get q false) + q.burst ≤ 8 * weigh false (get q false) + (get q false).0.burst)
      × ((get q false).0.burst ≤ urgent_burst_limit)
unfolding dequeued is_urgent
get_burst q (Outcome.empty e f r) h b = ground arith
get_burst q (Outcome.from_urgent x es e g r) h b =
    ground (arith, lookup-insert x.value x.value true q.processing, key_beq_iff x.value x.value)
get_burst q (Outcome.from_background x es e f g r) h b =
    ground (arith, lookup-insert x.value x.value false q.processing, key_beq_iff x.value x.value)

get_urgent_burst : (q : PriorityQueue) → Outcome q true → (get q true).0.burst ≡ q.burst
unfolding dequeued
get_urgent_burst q (Outcome.empty e f r) = ground arith
get_urgent_burst q (Outcome.from_urgent x es e g r) = ground arith
get_urgent_burst q (Outcome.from_background x es e f g r) = ground arith

promote_burst : (q : PriorityQueue) (k : ClusterKey) → (promote q k).burst ≡ q.burst
unfolding promote
promote_burst q k = ground arith

push_burst : (q : PriorityQueue) (k : ClusterKey) → (push q k).burst ≡ q.burst
unfolding push
push_burst q k = ground arith

add_burst : (q : PriorityQueue) (k : ClusterKey) → (add q k).burst ≡ q.burst
unfolding add push
add_burst q k = ground arith

done_burst : (q : PriorityQueue) (k : ClusterKey) → (done q k).burst ≡ q.burst
unfolding done push
done_burst q k = ground arith

-- `burst` pays for the urgent keys served since the last background key.
served_burst :
    (q : PriorityQueue) (cs : List Call)
    → BackgroundWaits q cs
    → q.burst ≤ urgent_burst_limit
    → (served true q cs + q.burst ≤ 8 * served false q cs + (run q cs).burst)
      × ((run q cs).burst ≤ urgent_burst_limit)
unfolding served run step shut_down shut_down_with_drain
served_burst q [] w b = (omega arith, b)
served_burst q (promotes k ∷ cs) w b =
    let e = promote_burst q k in
    let r = served_burst (promote q k) cs w (omega arith) in (omega arith, r.1)
served_burst q (adds k ∷ cs) w b =
    let e = add_burst q k in let r = served_burst (add q k) cs w (omega arith) in (omega arith, r.1)
served_burst q (gets true ∷ cs) w b =
    let e = get_urgent_burst q (get-Outcome q true) in
    let r = served_burst (get q true).0 cs w (omega arith) in (omega arith, r.1)
served_burst q (gets false ∷ cs) w b =
    let e = get_burst q (get-Outcome q false) w.0 b in
    let r = served_burst (get q false).0 cs w.1 e.1 in (omega arith, r.1)
served_burst q (finishes k ∷ cs) w b =
    let e = done_burst q k in
    let r = served_burst (done q k) cs w (omega arith) in (omega arith, r.1)
served_burst q (shuts ∷ cs) w b = served_burst (shut_down q) cs w b
served_burst q (drains ∷ cs) w b = served_burst (shut_down_with_drain q) cs w b

get_in_range :
    (q : PriorityQueue)
    → Outcome q false
    → q.burst ≤ urgent_burst_limit
    → (get q false).0.burst ≤ urgent_burst_limit
unfolding dequeued
get_in_range q (Outcome.empty e f r) b = ground arith
get_in_range q (Outcome.from_urgent x es e g r) b = ground arith
get_in_range q (Outcome.from_background x es e f g r) b = ground arith

step_in_range :
    (q : PriorityQueue) (c : Call)
    → q.burst ≤ urgent_burst_limit
    → (step q c).burst ≤ urgent_burst_limit
unfolding step shut_down shut_down_with_drain
step_in_range q (promotes k) b = omega (arith, promote_burst q k)
step_in_range q (adds k) b = omega (arith, add_burst q k)
step_in_range q (gets true) b = omega (arith, get_urgent_burst q (get-Outcome q true))
step_in_range q (gets false) b = get_in_range q (get-Outcome q false) b
step_in_range q (finishes k) b = omega (arith, done_burst q k)
step_in_range q shuts b = b
step_in_range q drains b = b

run_in_range :
    (q : PriorityQueue) (cs : List Call)
    → q.burst ≤ urgent_burst_limit
    → (run q cs).burst ≤ urgent_burst_limit
unfolding run
run_in_range q [] b = b
run_in_range q (c ∷ cs) b = run_in_range (step q c) cs (step_in_range q c b)

-- No starvation: over any calls on a reachable queue during which background work waits whenever
-- an ordinary worker asks, ordinary workers are handed at most eight urgent keys for each
-- background key, and eight more.
pub urgent_bounded :
    (before cs : List Call)
    → BackgroundWaits (run new_queue before) cs
    → served true (run new_queue before) cs ≤ 8 * served false (run new_queue before) cs + 8
unfolding new_queue
urgent_bounded before cs w =
    let q = run new_queue before in
    omega (arith, served_burst q cs w (run_in_range new_queue before (omega arith)))
