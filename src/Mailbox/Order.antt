-- ===== src/Mailbox/Order.antt =====
-- What a watcher receives from its mailbox (internal/discovery/publication.go), whatever the order
-- in which concurrent commits deliver to it.
use cnpg_connect_plugin.Prelude.{
  ℕ, ◌<◌, ◌≤◌, ◌≡◌, refl, inl, inr, Bool, true, false, none, some, List, [], ◌∷◌, arith, leb,
  Bool-cases, ◌||◌,
}
use cnpg_connect_plugin.Mailbox.{
  Publication, Mailbox, publications, snapshots, Subscription, new_subscription, put_pending,
  deliver, close, Received, publication, take_pending, settle, receive,
}

-- What happens at a mailbox.
pub data Event : Type 0 where
  delivers : Publication → Event
  receives : Event
  closes : Event

pub after : Subscription → Event → Subscription
after s (delivers p) = (deliver s p).0
after s receives = (receive s).0
after s closes = close s

pub after_all : Subscription → List Event → Subscription
after_all s [] = s
after_all s (e ∷ es) = after_all (after s e) es

abbrev pub orders_of : Received → List ℕ → List ℕ
orders_of (publication p) os = p.order ∷ os
orders_of _ os = os

-- The orders of the publications that the watcher takes out, first to last.
pub received : Subscription → List Event → List ℕ
received s [] = []
received s (receives ∷ es) = let rest = received (receive s).0 es in orders_of (receive s).1 rest
received s (e ∷ es) = received (after s e) es

abbrev pub Increasing : ℕ → List ℕ → Type 0
Increasing n [] = Unit
Increasing n (m ∷ ms) = (n < m) × Increasing m ms

-- Orders above `n` that rise along the list are above any smaller number too.
weaken : (m n : ℕ) (os : List ℕ) → m ≤ n → Increasing n os → Increasing m os
weaken m n [] h i = tt
weaken m n (o ∷ os) h i = (omega arith, i.1)

-- What was taken out so far is older than what is pending, and that is the newest delivered.
abbrev Above : ℕ → Mailbox → ℕ → Type 0
Above n (publications none) o = n ≤ o
Above n (publications (some p)) o = (n < p.order) × (p.order ≡ o)
Above n (snapshots m) o = Unit

put-Above :
    (n : ℕ) (m : Mailbox) (p : Publication) (o : ℕ)
    → Above n m o
    → o < p.order
    → Above n (put_pending m p).0 p.order
unfolding put_pending
put-Above n (publications none) p o a h = (omega arith, refl)
put-Above n (publications (some q)) p o a h = (omega arith, refl)
put-Above n (snapshots m) p o a h = tt

deliver-Above :
    (n : ℕ) (s : Subscription) (p : Publication)
    → Above n s.pending s.order
    → Above n (deliver s p).0.pending (deliver s p).0.order
unfolding deliver
deliver-Above n s p a = elim (Bool-cases (s.closed || leb p.order s.order)) [
  | inl stop ↦ rw stop a
  | inr go ↦ rw go (put-Above n s.pending p s.order a (ground arith))
]

-- The bound after something was taken out.
abbrev bound : ℕ → Received → ℕ
bound n (publication p) = p.order
bound n _ = n

take-Above :
    (n : ℕ) (m : Mailbox) (o : ℕ) (c : Bool) (es : List ℕ)
    → Above n m o
    → Above (bound n (settle c (take_pending m).1)) (take_pending m).0 o
      × (Increasing (bound n (settle c (take_pending m).1)) es
          → Increasing n (orders_of (settle c (take_pending m).1) es))
unfolding take_pending settle
take-Above n (publications none) o true es a = (a, λ i. i)
take-Above n (publications none) o false es a = (a, λ i. i)
take-Above n (publications (some p)) o c es a = (omega arith, λ i. (a.0, i))
take-Above n (snapshots none) o true es a = (tt, λ i. i)
take-Above n (snapshots none) o false es a = (tt, λ i. i)
take-Above n (snapshots (some s)) o c es a = (tt, λ i. i)

received-Above :
    (n : ℕ) (s : Subscription) (es : List Event)
    → Above n s.pending s.order
    → Increasing n (received s es)
unfolding received after receive close
received-Above n s [] a = tt
received-Above n s (delivers p ∷ es) a = received-Above n (deliver s p).0 es (deliver-Above n s p a)
received-Above n s (closes ∷ es) a = received-Above n (close s) es a
received-Above n s (receives ∷ es) a =
    let t = take-Above n s.pending s.order s.closed (received (receive s).0 es) a in
    t.1 (received-Above _ (receive s).0 es t.0)

-- A watcher never goes back in time: whatever publications concurrent commits deliver, in whatever
-- order and however often, and whenever the watcher reads or the subscription closes, the orders
-- of the publications that it takes out of a new mailbox strictly increase.
pub received-Increasing :
    (es : List Event) → Increasing 0 (received (new_subscription (publications none)) es)
unfolding new_subscription
received-Increasing es = received-Above 0 (new_subscription (publications none)) es (omega arith)
