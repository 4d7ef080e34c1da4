-- ===== src/Queue/Turns.antt =====
-- What the end of a turn and a promotion leave of a key (internal/observer/queue.go).
use cnpg_connect_plugin.Prelude.{◌≡◌, true, false, arith, get_or, Option-cases, inl, inr}
use cnpg_connect_plugin.Prelude.Map.{lookup, has, lookup-delete, lookup-insert}
use cnpg_connect_plugin.Key.{ClusterKey, key_eq, key_beq_iff}
use cnpg_connect_plugin.Queue.{
  PriorityQueue, done, promote, push, push_urgent, push_background, move_entry,
}

pub done-idle : (q : PriorityQueue) (k : ClusterKey) → has k (done q k).processing ≡ false
unfolding done push push_urgent push_background
done-idle q k = ground (arith, lookup-delete k k q.processing, key_beq_iff k k)

pub done-promoted : (q : PriorityQueue) (k : ClusterKey) → (done q k).promoted ≡ q.promoted
unfolding done push push_urgent push_background
done-promoted q k = ground arith

pub promote-promoted :
    (q : PriorityQueue) (k : ClusterKey)
    → q.shutting_down ≡ false
    → get_or (lookup k (promote q k).promoted) false ≡ true
unfolding promote push_urgent move_entry
promote-promoted q k h = elim (Option-cases (lookup k q.entries)) [
  | inl e ↦ ground (arith, lookup-insert k k true q.promoted, key_beq_iff k k)
  | inr (x, e) ↦ ground (arith, lookup-insert k k true q.promoted, key_beq_iff k k)
]
