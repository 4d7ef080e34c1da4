-- ===== src/Watches.antt =====
-- internal/observer/watch.go: the health of the watches of one informer, and Ready of
-- internal/observer/observer.go. A flag of a watch is a number, and a watch its flag; the answer of
-- the API and what comes out of a watch are events. The proxy passes on every event unchanged.
pub mod Health
mod Examples
use cnpg_connect_plugin.Prelude.{
  ℕ, ◌+◌, ◌/◌, Bool, true, false, ◌&&◌, ◌||◌, not, Option, none, some, List, [], ◌∷◌, get_or,
  if◌then◌else◌, nat_eq, ltb,
}
use cnpg_connect_plugin.Prelude.Map.{Map, lookup, insert}

pub record WatchHealth : Type 0 where
  pub flags : Map ℕ Bool
  pub current : Option ℕ
  pub next : ℕ

unfoldable pub new_health : WatchHealth
new_health = record { flags = []; current = none; next = 0 }

unfoldable pub begin_watch : WatchHealth → WatchHealth
begin_watch h = record {
  flags = insert h.next false h.flags;
  current = some h.next;
  next = h.next + 1;
}

unfoldable pub load_health : WatchHealth → Bool
load_health h = elim h.current [ none ↦ false | some flag ↦ get_or (lookup flag h.flags) false ]

pub data WatchEvent : Type 0 where
  -- startWatch, before it asks the API.
  begins : WatchEvent
  -- The API has answered in time, and trackWatch begins.
  starts : ℕ → WatchEvent
  -- The watch gives an error.
  errors : ℕ → WatchEvent
  -- The watch is over: its time, its consumer or its source has ended.
  ends : ℕ → WatchEvent

unfoldable pub health_step : WatchHealth → WatchEvent → WatchHealth
unfolding begin_watch
health_step h begins = begin_watch h
health_step h (starts flag) = record h { flags = insert flag true h.flags }
health_step h (errors flag) = record h { flags = insert flag false h.flags }
health_step h (ends flag) = record h { flags = insert flag false h.flags }

-- The state after a history, whose newest event stands first.
unfoldable pub health_after : List WatchEvent → WatchHealth
unfolding health_step new_health
health_after [] = new_health
health_after (e ∷ older) = health_step (health_after older) e

-- The duration of a watch and the seconds that the API is asked for; a second is 10^9 nanoseconds.
unfoldable pub lifetime : ℕ → ℕ
lifetime ttl = let half = ttl / 2 in if ltb half 30000000000 then half else 30000000000

unfoldable pub timeout_seconds : ℕ → ℕ
unfolding lifetime
timeout_seconds ttl =
    let seconds = lifetime ttl / 1000000000 in if ltb seconds 1 then 1 else seconds

unfoldable pub observer_ready : Bool → WatchHealth → WatchHealth → WatchHealth → Bool
unfolding load_health
observer_ready synced clusters pods secrets =
    synced && (load_health clusters && (load_health pods && load_health secrets))
