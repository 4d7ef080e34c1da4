-- ===== src/Supervision/Examples.antt =====
-- A server that ends by itself, and a shutdown that takes too long.
use cnpg_connect_plugin.Prelude.{◌≡◌, refl, true, false, some, string_beq}
use cnpg_connect_plugin.Supervision.{
  stopped_unexpectedly, shutdown_timed_out, server_closed, asked, worker, first_result,
  worker_result, Shutdown, run_result, health_status,
}

abbrev orderly : Shutdown
orderly = record { done_at_once = false; done_in_time = true; forced = false }

abbrev late : Shutdown
late = record { done_at_once = false; done_in_time = false; forced = true }

closes_early :
    (run_result (worker "discovery API" server_closed false) orderly).0
    ≡ some (stopped_unexpectedly "discovery API")
unfolding run_result first_result worker_result
closes_early = refl

times_out : (run_result asked late).0 ≡ some shutdown_timed_out
unfolding run_result first_result
times_out = refl

pending_collection : health_status false "/readyz" ≡ some 503
unfolding health_status string_beq
pending_collection = refl
