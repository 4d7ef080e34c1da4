-- ===== src/Routes.antt =====
-- The comparisons of Pods in internal/observer/events.go and statusScheme of
-- internal/observer/status.go: which changes of a Pod leave its route as it was. `reflect.DeepEqual`
-- of owner references is equality of their lists, without the difference of nil and empty.
mod Examples
use cnpg_connect_plugin.Prelude.{
  String, string_eq, ◌≡◌, refl, sym, ◌∙◌, ap, Bool, true, false, ◌&&◌, ◌||◌, not, Option, none,
  some, List, [], ◌∷◌, arith, if◌then◌else◌, string_beq, string_beq_iff, contains, get_or,
  Bool-cases, inl, inr,
}
use cnpg_connect_plugin.Prelude.Map.{Map, lookup, insert}
use cnpg_connect_plugin.Key.{ClusterKey}
use cnpg_connect_plugin.Api.{Member, Endpoint}
use cnpg_connect_plugin.Kube.{Pod, OwnerReference, Container, ContainerStatus, Parameters}
use cnpg_connect_plugin.Status.{StatusResult}
use cnpg_connect_plugin.Topology.{
  pod_ready, label, is_fenced, member_of, base_member, endpoints, internal_endpoint, reported_role,
  healthy_member,
}

unfoldable pub pod_cluster : String → List OwnerReference → Option ClusterKey
pod_cluster namespace [] = none
pod_cluster namespace (o ∷ os) =
    let rest = pod_cluster namespace os in
    if string_beq o.kind "Cluster" && string_beq o.api_version "postgresql.cnpg.io/v1"
    then some (record { namespace = namespace; name = o.name })
    else rest

unfoldable pub status_scheme : List Container → String
status_scheme [] = "http"
status_scheme (c ∷ cs) =
    let rest = status_scheme cs in
    if string_beq c.name "postgres"
      && (contains c.command "--status-port-tls" || contains c.args "--status-port-tls")
    then "https"
    else rest

unfoldable pub postgres_container_id : List ContainerStatus → String
postgres_container_id [] = ""
postgres_container_id (s ∷ ss) =
    let rest = postgres_container_id ss in
    if string_beq s.name "postgres" then s.container_id else rest

unfoldable pub same_bool : Bool → Bool → Bool
same_bool true b = b
same_bool false b = not b

-- Two pointers to flags, absent or equal.
unfoldable pub same_flag : Option Bool → Option Bool → Bool
unfolding same_bool
same_flag none none = true
same_flag (some a) (some b) = same_bool a b
same_flag _ _ = false

unfoldable pub owners_beq : List OwnerReference → List OwnerReference → Bool
unfolding same_flag
owners_beq [] [] = true
owners_beq (a ∷ as') (b ∷ bs) =
    string_beq a.api_version b.api_version
    && (string_beq a.kind b.kind
        && (string_beq a.name b.name
            && (string_beq a.uid b.uid
                && (same_flag a.controller b.controller
                    && (same_flag a.block_owner_deletion b.block_owner_deletion
                        && owners_beq as' bs)))))
owners_beq _ _ = false

unfoldable pub same_pod_route : Pod → Pod → Bool
unfolding same_bool
same_pod_route a b =
    if not (string_beq a.name b.name)
      || (not (string_beq a.uid b.uid) || not (string_beq a.pod_ip b.pod_ip))
    then false
    else if not (same_bool (pod_ready a) (pod_ready b)) || not (string_beq a.node_name b.node_name)
    then false
    else if not (string_beq (status_scheme a.containers) (status_scheme b.containers))
        || not (
            string_beq (postgres_container_id a.container_statuses)
              (postgres_container_id b.container_statuses))
    then false
    else owners_beq a.owner_references b.owner_references

-- The test on which podEvent ignores an update.
unfoldable pub is_ignored : Pod → Pod → Bool
unfolding same_pod_route
is_ignored old new =
    same_pod_route old new
    && (string_beq (label old "topology.kubernetes.io/zone")
          (label new "topology.kubernetes.io/zone")
        && string_beq (label old "topology.kubernetes.io/region")
            (label new "topology.kubernetes.io/region"))

same_bool_eq : (a b : Bool) → same_bool a b ≡ true → a ≡ b
unfolding same_bool
same_bool_eq a b h = ground arith

ignored_fields :
    (old new : Pod)
    → is_ignored old new ≡ true
    → (old.name ≡ new.name)
      × (old.uid ≡ new.uid)
      × (old.pod_ip ≡ new.pod_ip)
      × (pod_ready old ≡ pod_ready new)
      × (old.node_name ≡ new.node_name)
      × (label old "topology.kubernetes.io/zone" ≡ label new "topology.kubernetes.io/zone")
      × (label old "topology.kubernetes.io/region" ≡ label new "topology.kubernetes.io/region")
unfolding is_ignored same_pod_route
ignored_fields old new h = (
  (string_beq_iff _ _).0 (ground arith),
  (string_beq_iff _ _).0 (ground arith),
  (string_beq_iff _ _).0 (ground arith),
  same_bool_eq _ _ (ground arith),
  (string_beq_iff _ _).0 (ground arith),
  (string_beq_iff _ _).0 (ground arith),
  (string_beq_iff _ _).0 (ground arith),
)

-- The endpoints of a Pod by its name and address.
endpoints_at : Parameters → String → String → String → Map String Endpoint
endpoints_at params server name ip =
    let inside : Map String Endpoint =
      if string_beq ip ""
      then []
      else insert "internal" (record { host = ip; port = 5432; server_name = server }) [] in
    elim (lookup name params.external_endpoints) [
      | none ↦ inside
      | some e ↦
          insert "external"
            (if string_beq e.server_name "" then record e { server_name = server } else e) inside
    ]

-- The member of a Pod by what it is without its probe.
member_from : Member → Bool → Bool → StatusResult → Member
member_from m fenced ready r =
    if fenced
    then record m { reason = "fenced" }
    else if not ready
    then record m { reason = "pod_not_ready" }
    else if r.failed
    then record m { reason = "status_unavailable" }
    else elim r.status.is_primary [
      | none ↦ record m { reason = "status_unavailable" }
      | some primary ↦
          if r.status.unavailable || r.status.rewinding
          then record m { reason = "instance_unavailable" }
          else healthy_member m r.status primary
    ]

member_of_from :
    (fenced : List String) (params : Parameters) (server : String) (pod : Pod) (r : StatusResult)
    → member_of fenced params server (pod, r)
      ≡ member_from (base_member params server pod) (is_fenced fenced pod) (pod_ready pod) r
unfolding member_of member_from
member_of_from fenced params server pod r = refl

module _ (old new : Pod) (h : is_ignored old new ≡ true) where
  same_fenced : (fenced : List String) → is_fenced fenced old ≡ is_fenced fenced new
  unfolding is_fenced
  same_fenced fenced = rw (ignored_fields old new h).0 refl

  same_endpoints :
      (params : Parameters) (server : String)
      → endpoints params server old ≡ endpoints params server new
  unfolding endpoints internal_endpoint endpoints_at
  same_endpoints params server =
      let (name, _, ip, _, _, _, _) = ignored_fields old new h in
      let there : endpoints_at params server old.name old.pod_ip
          ≡ endpoints_at params server new.name new.pod_ip =
        cc in
      there

  same_base :
      (params : Parameters) (server : String)
      → base_member params server old ≡ base_member params server new
  unfolding base_member
  same_base params server =
      let (name, uid, _, _, node, zone, region) = ignored_fields old new h in
      let routes = same_endpoints params server in cc

-- An ignored update changes nothing that is published of a Pod: whatever the fencing, the
-- parameters and the result of its probe, the old and the new object give the same member and the
-- same reported role.
pub ignored_update_same_member :
    (old new : Pod) (fenced : List String) (params : Parameters) (server : String)
    (r : StatusResult)
    → is_ignored old new ≡ true
    → (member_of fenced params server (old, r) ≡ member_of fenced params server (new, r))
      × (reported_role fenced (old, r) ≡ reported_role fenced (new, r))
unfolding reported_role
ignored_update_same_member old new fenced params server r h =
    let ready = (ignored_fields old new h).3 in
    let fence = same_fenced old new h fenced in
    let base = same_base old new h params server in
    let there : member_from (base_member params server old) (is_fenced fenced old) (pod_ready old) r
        ≡ member_from (base_member params server new) (is_fenced fenced new) (pod_ready new) r =
      cc in
    (
      member_of_from fenced params server old r
          ∙ (there ∙ sym (member_of_from fenced params server new r)),
      rw (fence, ready) refl,
    )
