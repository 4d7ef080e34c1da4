-- ===== src/PodCache/Examples.antt =====
-- A Pod with more than discovery reads, and the theorems at it.
use cnpg_connect_plugin.Prelude.{
  ◌≡◌, refl, false, true, ◌||◌, ◌&&◌, [], ◌∷◌, string_beq, string_eq, contains,
}
use cnpg_connect_plugin.Prelude.Map.{lookup, insert}
use cnpg_connect_plugin.Kube.{Pod, Container}
use cnpg_connect_plugin.Topology.{member_of, reported_role}
use cnpg_connect_plugin.Routes.{same_pod_route}
use cnpg_connect_plugin.PodCache.{
  transform_pod_cache, keep_labels, keep_container, keep_condition, keep_status, keep_flag,
}
use cnpg_connect_plugin.PodCache.Projection.{projected_same}
use cnpg_connect_plugin.Samples.{pod_1, pod_2, no_parameters, reports}

abbrev postgres_a : Container
postgres_a = record {
  name = "postgres";
  command = "run" ∷ "--status-port-tls" ∷ [];
  args = "-v" ∷ [];
}

abbrev full_pod : Pod
full_pod = record pod_1 {
  labels = ("app", "shop") ∷ ("topology.kubernetes.io/zone", "z1") ∷ [];
  containers = record { name = "sidecar"; command = []; args = [] } ∷ postgres_a ∷ [];
}

keeps_little : transform_pod_cache full_pod ≡ record pod_1 {
  labels = ("topology.kubernetes.io/zone", "z1") ∷ [];
  containers = record { name = "postgres"; command = "--status-port-tls" ∷ []; args = [] } ∷ [];
}
unfolding transform_pod_cache keep_labels keep_container keep_condition keep_status keep_flag
    contains lookup insert string_beq
keeps_little = refl

one_postgres :
    ((string_beq "sidecar" "postgres" && (string_beq "postgres" "postgres" || false)) ≡ false)
    × ((string_beq "postgres" "postgres" && false) ≡ false)
unfolding string_beq
one_postgres = (refl, refl)

projected_same_example :
    (member_of [] no_parameters "rw" (transform_pod_cache full_pod, reports true [])
      ≡ member_of [] no_parameters "rw" (full_pod, reports true []))
    × (reported_role [] (transform_pod_cache full_pod, reports true [])
        ≡ reported_role [] (full_pod, reports true []))
    × (same_pod_route (transform_pod_cache full_pod) (transform_pod_cache pod_2)
        ≡ same_pod_route full_pod pod_2)
projected_same_example =
    projected_same full_pod pod_2 [] no_parameters "rw" (reports true [])
      (one_postgres.0, (one_postgres.1, tt)) tt
