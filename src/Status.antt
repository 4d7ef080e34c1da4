-- ===== src/Status.antt =====
-- internal/observer/status.go: what an instance manager reports.
pub mod Clients
use cnpg_connect_plugin.Prelude.{ℕ, String, Bool, Option, List}

pub record ReplicationStatus : Type 0 where
  pub application_name : String
  pub state : String
  pub sync_state : String

pub record InstanceStatus : Type 0 where
  pub is_primary : Option Bool
  pub system_id : String
  pub timeline : ℕ
  pub replay_lsn : String
  pub replay_paused : Bool
  pub wal_receiver_active : Bool
  pub rewinding : Bool
  pub unavailable : Bool
  pub replication : List ReplicationStatus

pub record StatusResult : Type 0 where
  pub status : InstanceStatus
  -- Whether the error is set.
  pub failed : Bool
