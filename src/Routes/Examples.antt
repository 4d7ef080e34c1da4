-- ===== src/Routes/Examples.antt =====
-- An update of a Pod that podEvent ignores (internal/observer/events.go).
use cnpg_connect_plugin.Prelude.{◌≡◌, refl, true, [], ◌∷◌, string_beq}
use cnpg_connect_plugin.Prelude.Map.{lookup}
use cnpg_connect_plugin.Kube.{Pod}
use cnpg_connect_plugin.Topology.{pod_ready, condition_ready}
use cnpg_connect_plugin.Routes.{
  is_ignored, same_pod_route, same_bool, status_scheme, postgres_container_id, owners_beq,
}
use cnpg_connect_plugin.Samples.{pod_1}

-- Another label, and another condition after that of readiness.
abbrev relabelled : Pod
relabelled = record pod_1 {
  labels = ("app", "orders") ∷ [];
  conditions =
      record { type = "Ready"; status = "True" }
      ∷ record { type = "Scheduled"; status = "True" }
      ∷ [];
}

relabelling_ignored : is_ignored pod_1 relabelled ≡ true
unfolding is_ignored same_pod_route same_bool status_scheme postgres_container_id owners_beq
    pod_ready condition_ready lookup string_beq
relabelling_ignored = refl
