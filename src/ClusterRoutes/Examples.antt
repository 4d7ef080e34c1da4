-- ===== src/ClusterRoutes/Examples.antt =====
-- What changes the routes of a Cluster, and what does not.
use cnpg_connect_plugin.Prelude.{◌≡◌, refl, string_eq, true, false, [], ◌∷◌, string_beq}
use cnpg_connect_plugin.Prelude.Map.{lookup}
use cnpg_connect_plugin.Config.{parse_parameters}
use cnpg_connect_plugin.Config.Enrollment.{parameters}
use cnpg_connect_plugin.CaCache.{application_database}
use cnpg_connect_plugin.ClusterRoutes.{same_cluster_route}
use cnpg_connect_plugin.Samples.{no_library, cluster_a}

ignores_labels :
    same_cluster_route no_library cluster_a (record cluster_a { annotations = ("note", "x") ∷ [] })
    ≡ true
unfolding same_cluster_route parameters parse_parameters application_database lookup string_beq
ignores_labels = refl

sees_fencing :
    same_cluster_route no_library cluster_a
      (record cluster_a { annotations = ("cnpg.io/fencedInstances", "[]") ∷ [] })
    ≡ false
unfolding same_cluster_route parameters parse_parameters application_database lookup string_beq
sees_fencing = refl

sees_certificates :
    same_cluster_route no_library cluster_a (record cluster_a { certificates = "{ca}" }) ≡ false
unfolding same_cluster_route parameters parse_parameters application_database lookup string_beq
sees_certificates = refl
