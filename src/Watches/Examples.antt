-- ===== src/Watches/Examples.antt =====
-- Watches that are renewed, and the theorem at them.
use cnpg_connect_plugin.Prelude.{◌≡◌, ◌↔◌, refl, true, false, List, [], ◌∷◌, nat_eq}
use cnpg_connect_plugin.Prelude.Map.{lookup, insert}
use cnpg_connect_plugin.Watches.{
  WatchEvent, begins, starts, errors, ends, health_step, begin_watch, new_health, health_after,
  load_health, observer_ready, lifetime, timeout_seconds,
}
use cnpg_connect_plugin.Watches.Health.{IsHealthy, observer_ready-IsHealthy}

-- The old watch ends after its successor has started; the newest event stands first.
abbrev renewed : List WatchEvent
renewed = ends 0 ∷ starts 1 ∷ begins ∷ starts 0 ∷ begins ∷ []

abbrev failed : List WatchEvent
failed = errors 0 ∷ starts 0 ∷ begins ∷ []

renewed_loads : load_health (health_after renewed) ≡ true
unfolding load_health health_after health_step begin_watch new_health lookup insert
renewed_loads = refl

failed_not : load_health (health_after failed) ≡ false
unfolding load_health health_after health_step begin_watch new_health lookup insert
failed_not = refl

-- A lifetime of 45 seconds for snapshots renews watches after 22.5, and asks the API for 22.
renews : timeout_seconds 45000000000 ≡ 22
unfolding timeout_seconds lifetime
renews = refl

is_ready :
    observer_ready true (health_after renewed) (health_after renewed) (health_after renewed) ≡ true
unfolding observer_ready load_health health_after health_step begin_watch new_health lookup insert
is_ready = refl

observer_ready-IsHealthy_example :
    (observer_ready true (health_after renewed) (health_after renewed) (health_after failed) ≡ true)
    ↔ ((true ≡ true) × IsHealthy renewed × IsHealthy renewed × IsHealthy failed)
observer_ready-IsHealthy_example = observer_ready-IsHealthy true renewed renewed failed
