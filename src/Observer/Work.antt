-- ===== src/Observer/Work.antt =====
-- The work loop of internal/observer/work.go: workNext up to the observation, which is I/O that
-- other events interleave with, and from its end on. Whether contexts are done and whether the
-- informers are ready are arguments, and so is the delay that the rate limiter of client-go gives.
pub mod Retry
mod Examples
use cnpg_connect_plugin.Prelude.{
  ℕ, Bool, true, false, ◌&&◌, ◌||◌, not, Option, none, some, List, [], ◌∷◌, ◌++◌, if◌then◌else◌,
  get_or, is_some,
}
use cnpg_connect_plugin.Prelude.Map.{lookup, insert, delete, has}
use cnpg_connect_plugin.Key.{ClusterKey, key_eq}
use cnpg_connect_plugin.Queue.{
  PriorityQueue, Fetched, waits, shut_out, took, faults, get, done, promote, is_urgent,
}
use cnpg_connect_plugin.Store.{Store, has_demand, cluster_identity}
use cnpg_connect_plugin.Observer.{Observer, Clock}

-- Nothing to do yet, the end of the worker, a turn without an observation, or an observation.
pub data Started : Type 0 where
  blocks : Started
  stops : Started
  skips : Started
  observes : ClusterKey → Started

unfoldable pub needs_observation : Observer → ClusterKey → Clock → Observer × Bool
needs_observation o key t =
    let (st, demanded) = has_demand o.store key t.asked in
    (record o { store = st }, demanded && is_some (cluster_identity st key))

unfoldable pub begin_observation : Observer → ClusterKey → Observer
begin_observation o key = record o { observations = insert key false o.observations }

unfoldable pub add_after : Observer → ClusterKey → ℕ → Observer
add_after o key delay = record o { delayed = o.delayed ++ ((key, delay) ∷ []) }

-- Work that is urgent keeps its urgency for its next turn.
unfoldable pub keep_urgency : Observer → ClusterKey → Observer
keep_urgency o key = if is_urgent o.queue key then record o { queue = promote o.queue key } else o

unfoldable pub done_with : Observer → ClusterKey → Observer
done_with o key = record o { queue = done o.queue key }

-- The key that a worker was handed, up to its observation.
unfoldable pub start_key : Observer → ClusterKey → Bool → Bool → Clock → Observer × Started
unfolding needs_observation begin_observation add_after keep_urgency done_with
start_key o key stopping ready t =
    if stopping
    then (done_with o key, stops)
    else (let (o1, needed) = needs_observation o key t in
        if not needed
        then (done_with o1 key, skips)
        else if not ready
        then (done_with (add_after (keep_urgency o1 key) key o1.poll_interval) key, skips)
        else (begin_observation o1 key, observes key))

unfoldable pub start_work : Observer → Bool → Bool → Bool → Clock → Observer × Started
unfolding start_key
start_work o urgent_only stopping ready t =
    let (q, fetched) = get o.queue urgent_only in
    let o1 : Observer = record o { queue = q } in
    elim fetched [
      | waits ↦ (o1, blocks)
      | shut_out ↦ (o1, stops)
      | faults ↦ (o1, stops)
      | took key ↦ start_key o1 key stopping ready t
    ]

-- What an observation that was not superseded is followed by.
unfoldable pub conclude_work : Observer → ClusterKey → Bool → ℕ → Clock → Observer
unfolding needs_observation add_after keep_urgency
conclude_work o key observed backoff t =
    let (o1, needed) = needs_observation o key t in
    if not needed
    then o1
    else if observed
    then add_after o1 key o1.poll_interval
    else add_after (keep_urgency o1 key) key backoff

unfoldable pub finish_work : Observer → ClusterKey → Bool → ℕ → Clock → Observer
unfolding conclude_work done_with
finish_work o key observed backoff t =
    let superseded = get_or (lookup key o.observations) false in
    let o1 : Observer = record o { observations = delete key o.observations } in
    done_with (if superseded then o1 else conclude_work o1 key observed backoff t) key
