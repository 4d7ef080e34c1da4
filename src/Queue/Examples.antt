-- ===== src/Queue/Examples.antt =====
-- Runs of the observation queue (internal/observer/queue.go).
use cnpg_connect_plugin.Prelude.{
  ◌+◌, ◌*◌, ◌≤◌, ◌≡◌, refl, true, false, ◌&&◌, ◌||◌, List, [], ◌∷◌, is_some, ◌⊎◌, contains, length,
  string_beq,
}
use cnpg_connect_plugin.Prelude.Map.{lookup, has, insert, delete}
use cnpg_connect_plugin.Key.{ClusterKey, key_eq, key_beq}
use cnpg_connect_plugin.Queue.{
  new_queue, Call, promotes, adds, gets, drains, run, step, promote, push, move_entry, push_urgent,
  push_background, take_urgent, take_background, picks_urgent, dequeued, done, shut_down,
  shut_down_with_drain, get, add, shut_out,
}
use cnpg_connect_plugin.Queue.Elements.{find, remove_element}
use cnpg_connect_plugin.Queue.Parts.{Inv}
use cnpg_connect_plugin.Queue.Invariant.{reachable-Inv}
use cnpg_connect_plugin.Queue.Spec.{view, spec_run, spec_get}
use cnpg_connect_plugin.Queue.Refinement.{queue_refines_Spec}
use cnpg_connect_plugin.Queue.Handling.{
  handed, handed_in, finished_in, added_work_kept, single_flight,
}
use cnpg_connect_plugin.Queue.Fairness.{BackgroundWaits, served, urgent_bounded}
use cnpg_connect_plugin.Queue.Shutdown.{queued, drained, shutdown_drains}
use cnpg_connect_plugin.Samples.{key_a, key_b}

-- One background cluster, then an urgent one.
abbrev two_added : List Call
two_added = adds key_a ∷ promotes key_b ∷ adds key_b ∷ []

abbrev both_shut : List Call
both_shut = adds key_a ∷ promotes key_b ∷ adds key_b ∷ drains ∷ []

-- The urgent cluster comes again while it is processed.
abbrev added_again : List Call
added_again = adds key_b ∷ gets false ∷ gets true ∷ []

queue_refines_Spec_example :
    (view (run new_queue two_added) ≡ spec_run (view new_queue) two_added)
    × ((get (run new_queue two_added) false).1
        ≡ (spec_get (spec_run (view new_queue) two_added) false).1)
queue_refines_Spec_example = queue_refines_Spec two_added false

reachable-Inv_example : Inv (run new_queue two_added)
reachable-Inv_example = reachable-Inv two_added

urgent_first : handed (get (run new_queue two_added) false).1 key_b ≡ true
unfolding run step new_queue promote add push move_entry push_urgent push_background get take_urgent
    take_background picks_urgent dequeued done shut_down shut_down_with_drain key_beq string_beq
    lookup insert delete remove_element
urgent_first = refl

not_finished : finished_in added_again key_b ≡ false
unfolding finished_in
not_finished = refl

single_flight_example : handed_in (get (run new_queue two_added) false).0 added_again key_b ≡ false
single_flight_example = single_flight two_added added_again false key_b urgent_first not_finished

runs_on : (run new_queue two_added).shutting_down ≡ false
unfolding run step new_queue promote add push move_entry push_urgent push_background get take_urgent
    take_background picks_urgent dequeued done shut_down shut_down_with_drain key_beq string_beq
    lookup insert delete remove_element
runs_on = refl

added_work_kept_example :
    let q = run (add (run new_queue two_added) key_a) added_again in
    (handed_in (add (run new_queue two_added) key_a) added_again key_a ≡ true)
    ⊎ ((is_some (find key_a q.urgent) || is_some (find key_a q.background)) ≡ true)
    ⊎ ((has key_a q.processing && has key_a q.dirty) ≡ true)
added_work_kept_example = added_work_kept two_added added_again key_a runs_on

stays_waiting : BackgroundWaits (run new_queue two_added) added_again
unfolding run step new_queue promote add push move_entry push_urgent push_background get take_urgent
    take_background picks_urgent dequeued done shut_down shut_down_with_drain key_beq string_beq
    lookup insert delete remove_element
stays_waiting = (refl, tt)

urgent_bounded_example :
    served true (run new_queue two_added) added_again
    ≤ 8 * served false (run new_queue two_added) added_again + 8
urgent_bounded_example = urgent_bounded two_added added_again stays_waiting

shuts_down : (run new_queue both_shut).shutting_down ≡ true
unfolding run step new_queue promote add push move_entry push_urgent push_background get take_urgent
    take_background picks_urgent dequeued done shut_down shut_down_with_drain key_beq string_beq
    lookup insert delete remove_element
shuts_down = refl

shutdown_drains_example :
    let q = run new_queue both_shut in
    let collected = drained (queued q) q in
    (collected.1 ≡ shut_out)
    × (length collected.0 ≡ queued q)
    × ((k : ClusterKey) → contains collected.0 k ≡ has k q.entries)
shutdown_drains_example = shutdown_drains both_shut shuts_down
