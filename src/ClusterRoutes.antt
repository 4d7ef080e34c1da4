-- ===== src/ClusterRoutes.antt =====
-- sameClusterRoute of internal/observer/events.go: which changes of a Cluster leave its routes as
-- they were. The maps of endpoints are equal as maps, without the difference of nil and empty.
mod Examples
use cnpg_connect_plugin.Prelude.{
  ℕ, String, string_eq, Bool, true, false, ◌&&◌, ◌||◌, not, Option, none, some, List, [], ◌∷◌,
  if◌then◌else◌, string_beq, nat_beq, length,
}
use cnpg_connect_plugin.Prelude.Result.{Result, ok, err}
use cnpg_connect_plugin.Prelude.Map.{Map, lookup}
use cnpg_connect_plugin.Api.{Endpoint}
use cnpg_connect_plugin.Kube.{Cluster, Parameters}
use cnpg_connect_plugin.Topology.{fenced_annotation}
use cnpg_connect_plugin.Config.{Library, ConfigError}
use cnpg_connect_plugin.Config.Enrollment.{parameters, annotation}
use cnpg_connect_plugin.Routes.{same_bool}
use cnpg_connect_plugin.CaCache.{application_database}

unfoldable pub endpoint_beq : Endpoint → Endpoint → Bool
endpoint_beq a b =
    string_beq a.host b.host && (nat_beq a.port b.port && string_beq a.server_name b.server_name)

unfoldable pub has_endpoint : Map String Endpoint → String → Endpoint → Bool
unfolding endpoint_beq
has_endpoint m name e = elim (lookup name m) [ none ↦ false | some f ↦ endpoint_beq e f ]

unfoldable pub all_in : Map String Endpoint → Map String Endpoint → Bool
unfolding has_endpoint
all_in m [] = true
all_in m ((name, e) ∷ rest) = has_endpoint m name e && all_in m rest

unfoldable pub parameters_beq : Parameters → Parameters → Bool
unfolding all_in
parameters_beq a b =
    string_beq a.server_name b.server_name
    && (nat_beq (length a.external_endpoints) (length b.external_endpoints)
        && all_in b.external_endpoints a.external_endpoints)

unfoldable pub same_enrollment :
    Bool × Result ConfigError Parameters → Bool × Result ConfigError Parameters → Bool
unfolding parameters_beq same_bool
same_enrollment (enabled, ok p) (enabled', ok q) = same_bool enabled enabled' && parameters_beq p q
same_enrollment _ _ = false

unfoldable pub same_cluster_route : Library → Cluster → Cluster → Bool
unfolding same_enrollment
same_cluster_route library a b =
    if not (string_beq a.uid b.uid) || (a.deleting || b.deleting)
    then false
    else if not (string_beq a.current_primary b.current_primary)
        || not (string_beq a.target_primary b.target_primary)
    then false
    else if not (same_enrollment (parameters library a) (parameters library b))
    then false
    else if not (string_beq (annotation a fenced_annotation) (annotation b fenced_annotation))
    then false
    else if not (string_beq (application_database a) (application_database b))
    then false
    else string_beq a.certificates b.certificates
