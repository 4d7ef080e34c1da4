-- ===== src/Admission/Examples.antt =====
-- Requests to the discovery server (internal/server/admission.go).
use cnpg_connect_plugin.Prelude.{◌≡◌, refl, true, false, none, some, List, [], ◌∷◌}
use cnpg_connect_plugin.Admission.{Limits, Admission, default_limits, normalized, new_admission}
use cnpg_connect_plugin.Admission.Capacity.{
  Event, arrives, returns, serve_all, Balanced, capacity_exact,
}

abbrev zero_limits : Limits
zero_limits = record {
  max_concurrent_streams = 0;
  max_connections = 0;
  max_rpcs = 0;
  max_watches = 0;
  initial_request_timeout = 0;
}

abbrev started : Admission
started = record {
  stopped = false;
  limits = default_limits;
  rpcs = 0;
  watches = 0;
  rejected_auth = 0;
  rejected_capacity = 0;
  timed_out = 0;
}

starts : new_admission zero_limits ≡ some started
unfolding new_admission normalized default_limits
starts = refl

abbrev requests : List Event
requests = arrives false none true ∷ arrives false (some true) false ∷ returns 1 ∷ []

capacity_exact_example :
    Balanced default_limits (serve_all (record { admission = started; handlers = [] }) requests)
capacity_exact_example = capacity_exact zero_limits started requests starts

becomes_default : normalized zero_limits ≡ some default_limits
unfolding normalized default_limits
becomes_default = refl
