-- ===== src/Queue/Spec.antt =====
-- What the observation queue (internal/observer/queue.go) promises, without its list elements and
-- its map of them: two lists of keys, oldest first.
use cnpg_connect_plugin.Prelude.{
  ℕ, ◌+◌, Bool, true, false, ◌||◌, List, [], ◌∷◌, ◌++◌, ltb, if◌then◌else◌, get_or, contains,
}
use cnpg_connect_plugin.Prelude.Map.{Map, lookup, insert, delete, has}
use cnpg_connect_plugin.Key.{ClusterKey, key_beq, key_eq}
use cnpg_connect_plugin.Queue.Elements.{values}
use cnpg_connect_plugin.Queue.{
  PriorityQueue, urgent_burst_limit, Fetched, waits, shut_out, took, Call, promotes, adds, gets,
  finishes, shuts, drains,
}

pub record Spec : Type 0 where
  pub urgent : List ClusterKey
  pub background : List ClusterKey
  pub dirty : Map ClusterKey (Unit {0})
  pub processing : Map ClusterKey Bool
  pub promoted : Map ClusterKey Bool
  pub burst : ℕ
  pub shutting_down : Bool
  pub drain : Bool

-- The queue as a client sees it.
abbrev pub view : PriorityQueue → Spec
view q = record {
  urgent = values q.urgent;
  background = values q.background;
  dirty = q.dirty;
  processing = q.processing;
  promoted = q.promoted;
  burst = q.burst;
  shutting_down = q.shutting_down;
  drain = q.drain;
}

unfoldable pub remove_key : ClusterKey → List ClusterKey → List ClusterKey
remove_key k [] = []
remove_key k (x ∷ xs) = if key_beq x k then xs else x ∷ remove_key k xs

-- A key that waits in the background goes to the end of the urgent list, one that does not is
-- remembered for its next turn.
unfoldable pub spec_promote : Spec → ClusterKey → Spec
spec_promote s k =
    if s.shutting_down || get_or (lookup k s.promoted) false
    then s
    else if contains s.background k
    then record s {
      promoted = insert k true s.promoted;
      background = remove_key k s.background;
      urgent = s.urgent ++ (k ∷ []);
    }
    else record s { promoted = insert k true s.promoted }

unfoldable pub spec_push : Spec → ClusterKey → Spec
spec_push s k =
    if get_or (lookup k s.promoted) false
    then record s { urgent = s.urgent ++ (k ∷ []) }
    else record s { background = s.background ++ (k ∷ []) }

unfoldable pub spec_add : Spec → ClusterKey → Spec
unfolding spec_push
spec_add s k =
    if s.shutting_down || has k s.dirty
    then s
    else (let s' = record s { dirty = insert k tt s.dirty } in
        if has k s.processing then s' else spec_push s' k)

unfoldable pub spec_done : Spec → ClusterKey → Spec
unfolding spec_push
spec_done s k =
    if has k s.processing
    then (let s' = record s { processing = delete k s.processing } in
        if has k s.dirty then spec_push s' k else s')
    else s

-- The key leaves the queue and is in process, with the urgency of its list.
unfoldable pub hand_out : Spec → ClusterKey → Bool → Spec × Fetched
hand_out s k u = (
  record s {
    dirty = delete k s.dirty;
    promoted = delete k s.promoted;
    processing = insert k u s.processing;
  },
  took k,
)

-- An urgent worker takes the oldest urgent key; another takes the oldest background key after
-- eight urgent ones, or if there is no urgent key.
unfoldable pub spec_fetch : List ClusterKey → List ClusterKey → Spec → Bool → Spec × Fetched
unfolding hand_out
spec_fetch [] [] s u = (s, if s.shutting_down then shut_out else waits)
spec_fetch [] (b ∷ bs) s true = (s, if s.shutting_down then shut_out else waits)
spec_fetch [] (b ∷ bs) s false = hand_out (record s { background = bs; burst = 0 }) b false
spec_fetch (k ∷ us) bs s true = hand_out (record s { urgent = us }) k true
spec_fetch (k ∷ us) [] s false =
    hand_out
      (record s {
        urgent = us;
        burst = if ltb s.burst urgent_burst_limit then s.burst + 1 else s.burst;
      })
      k true
spec_fetch (k ∷ us) (b ∷ bs) s false =
    if ltb s.burst urgent_burst_limit
    then hand_out (record s { urgent = us; burst = s.burst + 1 }) k true
    else hand_out (record s { background = bs; burst = 0 }) b false

unfoldable pub spec_get : Spec → Bool → Spec × Fetched
unfolding spec_fetch
spec_get s u = spec_fetch s.urgent s.background s u

unfoldable pub spec_step : Spec → Call → Spec
spec_step s (promotes k) = spec_promote s k
spec_step s (adds k) = spec_add s k
spec_step s (gets u) = (spec_get s u).0
spec_step s (finishes k) = spec_done s k
spec_step s shuts = record s { drain = false; shutting_down = true }
spec_step s drains = record s { drain = true; shutting_down = true }

unfoldable pub spec_run : Spec → List Call → Spec
spec_run s [] = s
spec_run s (c ∷ cs) = spec_run (spec_step s c) cs
