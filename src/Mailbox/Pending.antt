-- ===== src/Mailbox/Pending.antt =====
-- What holds of the publication that waits in a mailbox (internal/discovery/publication.go).
use cnpg_connect_plugin.Prelude.{Bool, true, false, ◌||◌, none, some, leb, Bool-cases, inl, inr}
use cnpg_connect_plugin.Mailbox.{
  Publication, Mailbox, publications, snapshots, Subscription, new_subscription, deliver,
  put_pending, close, Received, publication, take_pending, settle, receive,
}

-- The publication that waits, if any, has the property.
abbrev pub Holds : (Publication → Type 0) → Mailbox → Type 0
Holds P (publications none) = Unit
Holds P (publications (some p)) = P p
Holds P (snapshots _) = Unit

abbrev pub Gives : (Publication → Type 0) → Received → Type 0
Gives P (publication p) = P p
Gives P _ = Unit

module _ (P : Publication → Type 0) where
  put_pending-Holds : (m : Mailbox) (p : Publication) → P p → Holds P (put_pending m p).0
  unfolding put_pending
  put_pending-Holds (publications old) p h = h
  put_pending-Holds (snapshots old) p h = tt

  pub deliver-Holds :
      (s : Subscription) (p : Publication)
      → P p
      → Holds P s.pending
      → Holds P (deliver s p).0.pending
  unfolding deliver
  deliver-Holds s p new old = elim (Bool-cases (s.closed || leb p.order s.order)) [
    | inl e ↦ rw e old
    | inr e ↦ rw e (put_pending-Holds s.pending p new)
  ]

  pub new_subscription-Holds : (m : Mailbox) → Holds P m → Holds P (new_subscription m).pending
  unfolding new_subscription
  new_subscription-Holds m h = h

  pub close-Holds : (s : Subscription) → Holds P s.pending → Holds P (close s).pending
  unfolding close
  close-Holds s h = h

  taken-Holds : (m : Mailbox) → Holds P (take_pending m).0
  unfolding take_pending
  taken-Holds (publications none) = tt
  taken-Holds (publications (some p)) = tt
  taken-Holds (snapshots none) = tt
  taken-Holds (snapshots (some s)) = tt

  settled-Gives :
      (m : Mailbox) (closed : Bool) → Holds P m → Gives P (settle closed (take_pending m).1)
  unfolding take_pending settle
  settled-Gives (publications none) true h = tt
  settled-Gives (publications none) false h = tt
  settled-Gives (publications (some p)) true h = h
  settled-Gives (publications (some p)) false h = h
  settled-Gives (snapshots none) true h = tt
  settled-Gives (snapshots none) false h = tt
  settled-Gives (snapshots (some s)) true h = tt
  settled-Gives (snapshots (some s)) false h = tt

  -- A receiver gets what waited, and leaves nothing.
  pub receive-Gives :
      (s : Subscription) → Holds P s.pending → Holds P (receive s).0.pending × Gives P (receive s).1
  unfolding receive
  receive-Gives s h = (taken-Holds s.pending, settled-Gives s.pending s.closed h)
