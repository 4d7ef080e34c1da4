-- ===== src/Queue.antt =====
-- internal/observer/queue.go: the work queue of cluster observations. A pointer to a list element
-- is the number of its allocation; a call that would block on the condition variable returns
-- `waits` and changes nothing.
pub mod Elements
pub mod Parts
pub mod Invariant
pub mod Spec
pub mod Refinement
pub mod Outcomes
pub mod Handling
pub mod Fairness
pub mod Shutdown
pub mod Turns
mod Examples
use cnpg_connect_plugin.Prelude.{
  ℕ, suc, ◌+◌, ◌≡◌, Bool, true, false, ◌&&◌, ◌||◌, not, Option, none, some, List, [], ◌∷◌, ◌++◌,
  arith, ltb, if◌then◌else◌, get_or, length,
}
use cnpg_connect_plugin.Prelude.Map.{Map, lookup, insert, delete, has}
use cnpg_connect_plugin.Key.{ClusterKey, key_eq}
use Elements.{Element, remove_element, is_empty}

abbrev pub urgent_burst_limit : ℕ
urgent_burst_limit = 8

pub record PriorityQueue : Type 0 where
  pub urgent : List Element
  pub background : List Element
  pub entries : Map ClusterKey Element
  pub dirty : Map ClusterKey (Unit {0})
  pub processing : Map ClusterKey Bool
  pub promoted : Map ClusterKey Bool
  pub burst : ℕ
  pub shutting_down : Bool
  pub drain : Bool
  -- The number of the next list element to be allocated.
  pub next_id : ℕ

pub new_queue : PriorityQueue
new_queue = record {
  urgent = [];
  background = [];
  entries = [];
  dirty = [];
  processing = [];
  promoted = [];
  burst = 0;
  shutting_down = false;
  drain = false;
  next_id = 0;
}

-- Reading a map of Booleans at a missing key gives false.
abbrev pub is_promoted : PriorityQueue → ClusterKey → Bool
is_promoted q key = get_or (lookup key q.promoted) false

-- `p.entries[key] = p.urgent.PushBack(key)`
pub push_urgent : PriorityQueue → ClusterKey → PriorityQueue
push_urgent q key =
    let e : Element = record { id = q.next_id; value = key } in
    record q {
      urgent = q.urgent ++ (e ∷ []);
      entries = insert key e q.entries;
      next_id = suc q.next_id;
    }

-- `p.entries[key] = p.background.PushBack(key)`
pub push_background : PriorityQueue → ClusterKey → PriorityQueue
push_background q key =
    let e : Element = record { id = q.next_id; value = key } in
    record q {
      background = q.background ++ (e ∷ []);
      entries = insert key e q.entries;
      next_id = suc q.next_id;
    }

pub move_entry : Option Element → PriorityQueue → ClusterKey → PriorityQueue
unfolding push_urgent
move_entry none q key = q
move_entry (some e) q key =
    push_urgent (record q { background = remove_element e q.background }) key

pub promote : PriorityQueue → ClusterKey → PriorityQueue
unfolding move_entry
promote q key =
    if q.shutting_down || is_promoted q key
    then q
    else move_entry (lookup key q.entries) (record q { promoted = insert key true q.promoted }) key

pub push : PriorityQueue → ClusterKey → PriorityQueue
unfolding push_urgent push_background
push q key = if is_promoted q key then push_urgent q key else push_background q key

pub add : PriorityQueue → ClusterKey → PriorityQueue
unfolding push
add q key =
    if q.shutting_down || has key q.dirty
    then q
    else (let q' = record q { dirty = insert key tt q.dirty } in
        if has key q.processing then q' else push q' key)

pub len : PriorityQueue → ℕ
len q = length q.entries

-- What a call of get finds: nothing yet, the shutdown, or work. `faults` is the read through the
-- nil element of an empty list.
pub data Fetched : Type 0 where
  waits : Fetched
  shut_out : Fetched
  took : ClusterKey → Fetched
  faults : Fetched

pub dequeued : PriorityQueue → Element → Bool → PriorityQueue × Fetched
dequeued q e urgent = (
  record q {
    entries = delete e.value q.entries;
    dirty = delete e.value q.dirty;
    promoted = delete e.value q.promoted;
    processing = insert e.value urgent q.processing;
  },
  took e.value,
)

pub take_urgent : List Element → Bool → PriorityQueue → PriorityQueue × Fetched
unfolding dequeued
take_urgent [] urgent_only q = (q, faults)
take_urgent (e ∷ rest) urgent_only q =
    dequeued
      (record q {
        urgent = remove_element e q.urgent;
        burst = if not urgent_only && ltb q.burst urgent_burst_limit then q.burst + 1 else q.burst;
      })
      e true

pub take_background : List Element → PriorityQueue → PriorityQueue × Fetched
unfolding dequeued
take_background [] q = (q, faults)
take_background (e ∷ rest) q =
    dequeued (record q { background = remove_element e q.background; burst = 0 }) e false

-- Whether the next item comes from the urgent list.
pub picks_urgent : PriorityQueue → Bool → Bool
picks_urgent q urgent_only =
    not (is_empty q.urgent)
    && (urgent_only || (ltb q.burst urgent_burst_limit || is_empty q.background))

pub get : PriorityQueue → Bool → PriorityQueue × Fetched
unfolding take_urgent take_background picks_urgent
get q urgent_only =
    if is_empty q.urgent && (urgent_only || is_empty q.background)
    then (q, if q.shutting_down then shut_out else waits)
    else if picks_urgent q urgent_only
    then take_urgent q.urgent urgent_only q
    else take_background q.background q

unfoldable pub is_urgent : PriorityQueue → ClusterKey → Bool
is_urgent q key = get_or (lookup key q.processing) false

pub done : PriorityQueue → ClusterKey → PriorityQueue
unfolding push
done q key =
    if not (has key q.processing)
    then q
    else (let q' = record q { processing = delete key q.processing } in
        if has key q.dirty then push q' key else q')

pub shut_down : PriorityQueue → PriorityQueue
shut_down q = record q { drain = false; shutting_down = true }

-- The flags that ShutDownWithDrain sets, and the test on which it goes on waiting.
pub shut_down_with_drain : PriorityQueue → PriorityQueue
shut_down_with_drain q = record q { drain = true; shutting_down = true }

pub drain_waits : PriorityQueue → Bool
unfolding len
drain_waits q = q.drain && (ltb 0 (len q) || ltb 0 (length q.processing))

-- The calls that change the queue, as one step.
pub data Call : Type 0 where
  promotes : ClusterKey → Call
  adds : ClusterKey → Call
  gets : Bool → Call
  finishes : ClusterKey → Call
  shuts : Call
  drains : Call

pub step : PriorityQueue → Call → PriorityQueue
step q (promotes key) = promote q key
step q (adds key) = add q key
step q (gets urgent_only) = (get q urgent_only).0
step q (finishes key) = done q key
step q shuts = shut_down q
step q drains = shut_down_with_drain q

pub run : PriorityQueue → List Call → PriorityQueue
run q [] = q
run q (c ∷ cs) = run (step q c) cs
