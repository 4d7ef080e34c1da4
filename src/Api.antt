-- ===== src/Api.antt =====
-- api/v1/types.go: the discovery protocol's data. A time is a number of nanoseconds since the zero
-- time. A revision is kept as the process and the number that it is printed from.
use cnpg_connect_plugin.Prelude.{ℕ, String, Bool, List}
use cnpg_connect_plugin.Prelude.Map.{Map}

abbrev pub Time : Type 0
Time = ℕ

pub record ClusterRef : Type 0 where
  pub namespace : String
  pub name : String
  pub uid : String

pub record Endpoint : Type 0 where
  pub host : String
  pub port : ℕ
  pub server_name : String

pub record Member : Type 0 where
  pub id : String
  pub name : String
  pub role : String
  pub sync_state : String
  pub ready : Bool
  pub reason : String
  pub endpoints : Map String Endpoint
  pub node : String
  pub zone : String
  pub region : String
  pub timeline : ℕ
  pub replay_lsn : String

pub record ConnectionParameters : Type 0 where
  pub database : String
  pub server_ca_pem : List ℕ

-- The empty text, or what `fmt.Sprintf("%s:%d", processID, sequence)` prints.
pub data Revision : Type 0 where
  blank : Revision
  numbered : String → ℕ → Revision

pub record Snapshot : Type 0 where
  pub api_version : String
  pub cluster : ClusterRef
  pub revision : Revision
  pub observed_at : Time
  pub valid_until : Time
  pub available : Bool
  pub reason : String
  pub primary_id : String
  pub transitioning : Bool
  pub members : List Member
  pub connection : ConnectionParameters

abbrev pub api_version : String
api_version = "connect.cnpg.io/v1alpha1"
