-- ===== src/Mailbox.antt =====
-- internal/discovery/publication.go: publications, and the one-place mailbox of a subscription.
-- Copies of snapshots are the snapshots themselves, and the lazily built protobuf message is a
-- function of the snapshot, so neither is part of the state.
pub mod Order
pub mod Latest
pub mod Pending
mod Examples
use cnpg_connect_plugin.Prelude.{
  ℕ, ◌≡◌, Bool, true, false, ◌||◌, Option, none, some, List, [], ◌∷◌, ◌++◌, leb, if◌then◌else◌,
  is_some,
}
use cnpg_connect_plugin.Api.{Snapshot}

pub record Publication : Type 0 where
  pub snapshot : Snapshot
  pub order : ℕ

-- The two channels of capacity one; a subscription uses one of them.
pub data Mailbox : Type 0 where
  publications : Option Publication → Mailbox
  snapshots : Option Snapshot → Mailbox

pub record Subscription : Type 0 where
  pub order : ℕ
  pub closed : Bool
  pub pending : Mailbox

pub new_subscription : Mailbox → Subscription
new_subscription m = record { order = 0; closed = false; pending = m }

-- The slot is drained, then filled: the result says whether something was dropped.
abbrev pub replace_pending : {A : Type 0} → Option A → A → Option A × Bool
replace_pending old latest = (some latest, is_some old)

put_pending : Mailbox → Publication → Mailbox × Bool
put_pending (publications old) p = let r = replace_pending old p in (publications r.0, r.1)
put_pending (snapshots old) p = let r = replace_pending old p.snapshot in (snapshots r.0, r.1)

-- The result says whether a pending publication was coalesced.
pub deliver : Subscription → Publication → Subscription × Bool
unfolding put_pending
deliver s published =
    if s.closed || leb published.order s.order
    then (s, false)
    else (let r = put_pending s.pending published in
        (record s { order = published.order; pending = r.0 }, r.1))

unfoldable pub close : Subscription → Subscription
close s = record s { closed = true }

-- What a receiver finds: nothing yet, a value, or a channel that is closed and drained.
pub data Received : Type 0 where
  blocked : Received
  publication : Publication → Received
  snapshot : Snapshot → Received
  closed_channel : Received

take_pending : Mailbox → Mailbox × Option Received
take_pending (publications none) = (publications none, none)
take_pending (publications (some p)) = (publications none, some (publication p))
take_pending (snapshots none) = (snapshots none, none)
take_pending (snapshots (some s)) = (snapshots none, some (snapshot s))

settle : Bool → Option Received → Received
settle closed (some r) = r
settle true none = closed_channel
settle false none = blocked

pub receive : Subscription → Subscription × Received
unfolding take_pending settle
receive s = let r = take_pending s.pending in (record s { pending = r.0 }, settle s.closed r.1)
