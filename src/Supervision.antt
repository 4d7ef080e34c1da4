-- ===== src/Supervision.antt =====
-- internal/server/run.go: what Run makes of the ends of its workers, and HealthHandler. The workers, the
-- context and the shutdown of the servers are concurrent; a run of them is the order of what Run can
-- see. The errors that Run returns before its workers start are not modelled.
mod Examples
use cnpg_connect_plugin.Prelude.{
  ℕ, String, Bool, true, false, ◌&&◌, ◌||◌, not, Option, none, some, if◌then◌else◌, is_some,
  string_beq,
}

pub data RunError : Type 0 where
  -- A worker has failed, with its name and its error.
  worker_failed : String → String → RunError
  stopped_unexpectedly : String → RunError
  shutdown_timed_out : RunError

-- How a worker ends.
pub data WorkerEnd : Type 0 where
  clean : WorkerEnd
  -- http.ErrServerClosed or grpc.ErrServerStopped.
  server_closed : WorkerEnd
  failed : String → WorkerEnd

-- What a worker reports; `stopping` tells whether its context is done when it ends.
unfoldable pub worker_result : String → WorkerEnd → Bool → Option RunError
worker_result name (failed e) stopping = some (worker_failed name e)
worker_result name clean stopping = if stopping then none else some (stopped_unexpectedly name)
worker_result name server_closed stopping =
    if stopping then none else some (stopped_unexpectedly name)

-- What ends the wait of Run. A worker may end while the context is done already.
pub data FirstEnd : Type 0 where
  asked : FirstEnd
  worker : String → WorkerEnd → Bool → FirstEnd

unfoldable pub first_result : FirstEnd → Option RunError
unfolding worker_result
first_result asked = none
first_result (worker name end stopping) = worker_result name end stopping

-- How the shutdown ends: whether the observer is done when the servers are, whether it is done when
-- the deadline passes or the later of the two comes, and whether a server was stopped by force.
pub record Shutdown : Type 0 where
  pub done_at_once : Bool
  pub done_in_time : Bool
  pub forced : Bool

-- The result, and whether Run has waited for all workers.
unfoldable pub run_result : FirstEnd → Shutdown → Option RunError × Bool
unfolding first_result
run_result first s =
    let result = first_result first in
    if s.done_at_once || s.done_in_time
    then (result, not s.forced)
    else (if is_some result then result else some shutdown_timed_out, false)

-- The status of the answer to a GET of a path: none where there is no such page.
unfoldable pub health_status : Bool → String → Option ℕ
health_status ready path =
    if string_beq path "/metrics" || (string_beq path "/healthz" || string_beq path "/livez")
    then some 200
    else if string_beq path "/readyz"
    then some (if ready then 200 else 503)
    else none
