-- ===== src/Kube.antt =====
-- The Kubernetes objects that internal/observer reads, by the fields that it reads. The Cluster is
-- unstructured JSON in the source: a field here is what the accessor of the Kubernetes library
-- returns for it, the empty text where it is absent or of another type.
use cnpg_connect_plugin.Prelude.{String, Bool, List, Option}
use cnpg_connect_plugin.Prelude.Map.{Map}
use cnpg_connect_plugin.Api.{Endpoint}

pub record OwnerReference : Type 0 where
  pub api_version : String
  pub kind : String
  pub name : String
  pub uid : String
  pub controller : Option Bool
  pub block_owner_deletion : Option Bool

pub record Condition : Type 0 where
  pub type : String
  pub status : String

pub record Container : Type 0 where
  pub name : String
  pub command : List String
  pub args : List String

pub record ContainerStatus : Type 0 where
  pub name : String
  pub container_id : String

pub record Pod : Type 0 where
  pub namespace : String
  pub name : String
  pub uid : String
  -- Whether a deletion timestamp is set.
  pub deleting : Bool
  pub labels : Map String String
  pub owner_references : List OwnerReference
  pub node_name : String
  pub containers : List Container
  pub phase : String
  pub pod_ip : String
  pub conditions : List Condition
  pub container_statuses : List ContainerStatus

-- A field that is read with a type: absent, of another type, or its value.
pub data Reading (A : Type 0) : Type 0 where
  absent malformed : Reading A
  reads : A → Reading A

-- An entry of spec.plugins.
pub record PluginEntry : Type 0 where
  pub name : Reading String
  pub enabled : Reading Bool
  pub parameters : Reading (Map String String)

pub record Cluster : Type 0 where
  pub namespace : String
  pub name : String
  pub uid : String
  pub deleting : Bool
  pub annotations : Map String String
  pub current_primary : String
  pub target_primary : String
  -- spec.plugins, an entry of another type than an object being none.
  pub plugins : Reading (List (Option PluginEntry))
  -- spec.bootstrap.<method>.database by the method.
  pub databases : Map String String
  -- status.certificates, as one text of the JSON value, and serverCASecret in it.
  pub certificates : String
  pub server_ca_secret : String

-- config.Parameters
pub record Parameters : Type 0 where
  pub external_endpoints : Map String Endpoint
  pub server_name : String
