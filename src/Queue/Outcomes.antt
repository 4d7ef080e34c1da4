-- ===== src/Queue/Outcomes.antt =====
-- The ways in which a worker's request to the observation queue can end (get of
-- internal/observer/queue.go).
use cnpg_connect_plugin.Prelude.{
  ℕ, ◌+◌, ◌≡◌, refl, ◌⊎◌, inl, inr, Bool, true, false, ◌&&◌, ◌||◌, not, List, [], ◌∷◌, arith, ltb,
  if◌then◌else◌, Bool-cases,
}
use cnpg_connect_plugin.Queue.Elements.{Element, remove_element, is_empty}
use cnpg_connect_plugin.Queue.{PriorityQueue, urgent_burst_limit, waits, shut_out, dequeued, get}

abbrev pub next_burst : PriorityQueue → Bool → ℕ
next_burst q u = if not u && ltb q.burst urgent_burst_limit then q.burst + 1 else q.burst

pub data Outcome (q : PriorityQueue) (u : Bool) : Type 0 where
  empty :
      q.urgent ≡ []
      → (u ≡ true) ⊎ (q.background ≡ [])
      → get q u ≡ (q, if q.shutting_down then shut_out else waits)
      → Outcome q u
  from_urgent :
      (x : Element) (es : List Element)
      → q.urgent ≡ x ∷ es
      → (u || (ltb q.burst urgent_burst_limit || is_empty q.background)) ≡ true
      → get q u ≡ dequeued (record q { urgent = es; burst = next_burst q u }) x true
      → Outcome q u
  from_background :
      (x : Element) (es : List Element)
      → q.background ≡ x ∷ es
      → u ≡ false
      → (q.urgent ≡ []) ⊎ (ltb q.burst urgent_burst_limit ≡ false)
      → get q u ≡ dequeued (record q { background = es; burst = 0 }) x false
      → Outcome q u

outcome :
    (q : PriorityQueue) (u : Bool) (us bs : List Element)
    → q.urgent ≡ us
    → q.background ≡ bs
    → Outcome q u
unfolding get remove_element
outcome q u [] [] e f = Outcome.empty e (inr f) (ground arith)
outcome q true [] (b ∷ bs) e f = Outcome.empty e (inl refl) (ground arith)
outcome q false [] (b ∷ bs) e f = Outcome.from_background b bs f refl (inl e) (ground arith)
outcome q true (x ∷ us) bs e f = Outcome.from_urgent x us e refl (ground arith)
outcome q false (x ∷ us) [] e f = Outcome.from_urgent x us e (ground arith) (ground arith)
outcome q false (x ∷ us) (b ∷ bs) e f = elim (Bool-cases (ltb q.burst urgent_burst_limit)) [
  | inl low ↦ Outcome.from_urgent x us e (ground arith) (ground arith)
  | inr full ↦ Outcome.from_background b bs f refl (inr full) (ground arith)
]

pub get-Outcome : (q : PriorityQueue) (u : Bool) → Outcome q u
get-Outcome q u = outcome q u q.urgent q.background refl refl
