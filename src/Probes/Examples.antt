-- ===== src/Probes/Examples.antt =====
-- Probes under a limit of sixteen, two of which are reserved (internal/observer/work.go).
use cnpg_connect_plugin.Prelude.{◌<◌, ◌≡◌, true, false, List, [], ◌∷◌, arith}
use cnpg_connect_plugin.Probes.{
  probes, reserved_capacity, configure_limits, acquire_probe, take_probe, take_background_slot,
  Event, starts, probe_step, probe_all,
}
use cnpg_connect_plugin.Probes.Reserve.{is_probing, count, urgent_never_waits}

abbrev three_calls : List Event
three_calls = starts false false ∷ starts false true ∷ starts false false ∷ []

one_urgent :
    count (is_probing true) (probe_all (configure_limits 16) three_calls).calls
    < reserved_capacity 16
unfolding probe_all probe_step acquire_probe take_probe take_background_slot configure_limits
    reserved_capacity
one_urgent = omega arith

urgent_never_waits_example :
    (acquire_probe (probe_all (configure_limits 16) three_calls) false true).calls
    ≡ probes true ∷ (probe_all (configure_limits 16) three_calls).calls
urgent_never_waits_example = urgent_never_waits 16 three_calls one_urgent
