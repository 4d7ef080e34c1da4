-- ===== src/Probes.antt =====
-- internal/observer/work.go: the two semaphores that bound status probes, and acquireProbe. A
-- channel is the number of tokens in it and its capacity. A call of acquireProbe is the stage that
-- it has reached; what its selects do, and the release that it returns, are events. Counters of 64
-- bits wrap.
pub mod Reserve
mod Examples
use cnpg_connect_plugin.Prelude.{
  ℕ, zero, suc, ◌+◌, ◌-◌, ◌/◌, ◌%◌, ◌^◌, max, Bool, true, false, not, Option, none, some, List, [],
  ◌∷◌, ltb, if◌then◌else◌,
}

unfoldable pub reserved_capacity : ℕ → ℕ
reserved_capacity limit = if ltb limit 2 then 0 else max 1 (limit / 8)

-- The stages of a call, with whether it is urgent: it waits for a background slot, it waits for a
-- slot and holds its background slot, or it probes.
pub data Stage : Type 0 where
  wants_background : Stage
  wants_probe : Bool → Stage
  probes : Bool → Stage

pub record Slots : Type 0 where
  pub limit : ℕ
  pub background_limit : ℕ
  -- The tokens in probeSlots and backgroundProbeSlots.
  pub taken : ℕ
  pub background_taken : ℕ
  pub saturation : ℕ
  pub cancellations : ℕ
  pub calls : List Stage

unfoldable pub configure_limits : ℕ → Slots
unfolding reserved_capacity
configure_limits limit = record {
  limit = limit;
  background_limit = limit - reserved_capacity limit;
  taken = 0;
  background_taken = 0;
  saturation = 0;
  cancellations = 0;
  calls = [];
}

abbrev pub count_up : ℕ → ℕ
count_up n = (n + 1) % 2 ^ 64

abbrev pub call_at : ℕ → List Stage → Option Stage
call_at i [] = none
call_at zero (c ∷ cs) = some c
call_at (suc i) (c ∷ cs) = call_at i cs

abbrev pub without_call : ℕ → List Stage → List Stage
without_call i [] = []
without_call zero (c ∷ cs) = cs
without_call (suc i) (c ∷ cs) = c ∷ without_call i cs

-- The second select, where `fresh` is its first attempt.
unfoldable pub take_probe : Bool → Bool → Slots → List Stage → Slots
take_probe urgent fresh s others =
    if ltb s.taken s.limit
    then record s { taken = s.taken + 1; calls = probes urgent ∷ others }
    else record s {
      saturation = if fresh then count_up s.saturation else s.saturation;
      calls = wants_probe urgent ∷ others;
    }

-- The first select of a call that is not urgent.
unfoldable pub take_background_slot : Bool → Slots → List Stage → Slots
unfolding take_probe
take_background_slot fresh s others =
    if ltb s.background_taken s.background_limit
    then take_probe false true (record s { background_taken = s.background_taken + 1 }) others
    else record s {
      saturation = if fresh then count_up s.saturation else s.saturation;
      calls = wants_background ∷ others;
    }

unfoldable pub acquire_probe : Slots → Bool → Bool → Slots
unfolding take_probe take_background_slot
acquire_probe s cancelled urgent =
    if cancelled
    then record s { cancellations = count_up s.cancellations }
    else if urgent
    then take_probe true true s s.calls
    else take_background_slot true s s.calls

-- A call that waits tries again.
unfoldable pub retry : Slots → Stage → List Stage → Slots
unfolding take_probe take_background_slot
retry s wants_background others = take_background_slot false s others
retry s (wants_probe urgent) others = take_probe urgent false s others
retry s (probes urgent) others = s

-- The context of a call that waits is done; it gives back the background slot that it holds.
unfoldable pub give_up : Slots → Stage → List Stage → Slots
give_up s wants_background others = record s {
  cancellations = count_up s.cancellations;
  calls = others;
}
give_up s (wants_probe urgent) others = record s {
  background_taken = if urgent then s.background_taken else s.background_taken - 1;
  cancellations = count_up s.cancellations;
  calls = others;
}
give_up s (probes urgent) others = s

unfoldable pub release : Slots → Stage → List Stage → Slots
release s (probes urgent) others = record s {
  taken = s.taken - 1;
  background_taken = if urgent then s.background_taken else s.background_taken - 1;
  calls = others;
}
release s _ others = s

-- A new call, or what happens to the call at an index.
pub data Event : Type 0 where
  starts : Bool → Bool → Event
  retries : ℕ → Event
  gives_up : ℕ → Event
  releases : ℕ → Event

abbrev on_call : (Slots → Stage → List Stage → Slots) → Slots → ℕ → Slots
on_call f s i = elim (call_at i s.calls) [ none ↦ s | some c ↦ f s c (without_call i s.calls) ]

unfoldable pub probe_step : Slots → Event → Slots
unfolding acquire_probe retry give_up release
probe_step s (starts cancelled urgent) = acquire_probe s cancelled urgent
probe_step s (retries i) = on_call retry s i
probe_step s (gives_up i) = on_call give_up s i
probe_step s (releases i) = on_call release s i

unfoldable pub probe_all : Slots → List Event → Slots
probe_all s [] = s
probe_all s (e ∷ es) = probe_all (probe_step s e) es
