-- ===== src/Admission.antt =====
-- internal/server/admission.go: the limits of the discovery server and the reservation of capacity
-- for a request. A channel that is used as a semaphore is the number of tokens in it, with the
-- capacity that it was made with; a counter of 64 bits wraps. Authorization is the argument
-- `authorize`, none where it is not configured.
pub mod Capacity
mod Examples
use cnpg_connect_plugin.Prelude.{
  ℕ, zero, suc, ◌+◌, ◌-◌, ◌%◌, ◌^◌, ◌≡◌, String, Bool, true, false, ◌&&◌, ◌||◌, not, Option, none,
  some, List, [], ◌∷◌, ltb, if◌then◌else◌, nat_beq,
}

-- Times are nanoseconds. The fields are signed in the source; a negative field is refused there as
-- a value below 1 is, and has no counterpart.
pub record Limits : Type 0 where
  pub max_concurrent_streams : ℕ
  pub max_connections : ℕ
  pub max_rpcs : ℕ
  pub max_watches : ℕ
  pub initial_request_timeout : ℕ

unfoldable pub default_limits : Limits
default_limits = record {
  max_concurrent_streams = 128;
  max_connections = 1024;
  max_rpcs = 4096;
  max_watches = 2048;
  initial_request_timeout = 5000000000;
}

abbrev pub or_default : ℕ → ℕ → ℕ
or_default value fallback = if nat_beq value 0 then fallback else value

abbrev pub in_range : ℕ → ℕ → ℕ → Bool
in_range low high value = not (ltb value low) && not (ltb high value)

-- The limits with defaults in place of zeros, none where one is out of its range.
unfoldable pub normalized : Limits → Option Limits
unfolding default_limits
normalized l =
    let d = default_limits in
    let streams = or_default l.max_concurrent_streams d.max_concurrent_streams in
    let connections = or_default l.max_connections d.max_connections in
    let rpcs = or_default l.max_rpcs d.max_rpcs in
    let watches = or_default l.max_watches d.max_watches in
    let timeout = or_default l.initial_request_timeout d.initial_request_timeout in
    if in_range 1 1000000 streams
      && (in_range 1 1000000 connections
          && (in_range 1 1000000 rpcs
              && (in_range 1 1000000 watches && in_range 1000000 60000000000 timeout)))
    then some (record {
      max_concurrent_streams = streams;
      max_connections = connections;
      max_rpcs = rpcs;
      max_watches = watches;
      initial_request_timeout = timeout;
    })
    else none

pub record Admission : Type 0 where
  -- Whether the server's context is done.
  pub stopped : Bool
  pub limits : Limits
  -- The tokens in the two channels, of capacity max_rpcs and max_watches.
  pub rpcs : ℕ
  pub watches : ℕ
  pub rejected_auth : ℕ
  pub rejected_capacity : ℕ
  pub timed_out : ℕ

unfoldable pub new_admission : Limits → Option Admission
unfolding normalized
new_admission l = elim (normalized l) [
  | none ↦ none
  | some limits ↦ some (record {
    stopped = false;
    limits = limits;
    rpcs = 0;
    watches = 0;
    rejected_auth = 0;
    rejected_capacity = 0;
    timed_out = 0;
  })
]

-- Why a request is refused, or the reservation that its handler owns.
pub data Admitted : Type 0 where
  server_done : Admitted
  request_done : Admitted
  unauthorized : Admitted
  rpcs_exhausted : Admitted
  watches_exhausted : Admitted
  admitted : Bool → Admitted

abbrev count : ℕ → ℕ
count n = (n + 1) % 2 ^ 64

-- The reservation of a watch's second token, which gives the first one back where it fails.
unfoldable pub reserve_watch : Admission → Admission × Admitted
reserve_watch a =
    if ltb a.watches a.limits.max_watches
    then (record a { watches = a.watches + 1 }, admitted true)
    else (
      record a { rpcs = a.rpcs - 1; rejected_capacity = count a.rejected_capacity },
      watches_exhausted,
    )

unfoldable pub reserve : Admission → Bool → Admission × Admitted
unfolding reserve_watch
reserve a watch =
    if ltb a.rpcs a.limits.max_rpcs
    then (let a1 : Admission = record a { rpcs = a.rpcs + 1 } in
        if watch then reserve_watch a1 else (a1, admitted false))
    else (record a { rejected_capacity = count a.rejected_capacity }, rpcs_exhausted)

-- `cancelled` tells whether the request's context is done, `watch` whether the method is
-- WatchTopology.
unfoldable pub admit : Admission → Bool → Option Bool → Bool → Admission × Admitted
unfolding reserve
admit a cancelled authorize watch =
    if a.stopped
    then (a, server_done)
    else if cancelled
    then (a, request_done)
    else elim authorize [
      | some false ↦ (record a { rejected_auth = count a.rejected_auth }, unauthorized)
      | some true ↦ reserve a watch
      | none ↦ reserve a watch
    ]

-- What the reservation of a handler gives back.
unfoldable pub finish : Admission → Bool → Admission
finish a watch = record a {
  watches = if watch then a.watches - 1 else a.watches;
  rpcs = a.rpcs - 1;
}

unfoldable pub time_out : Admission → Admission
time_out a = record a { timed_out = count a.timed_out }
