-- ===== src/Discovery/Proto.antt =====
-- internal/discovery/grpc.go: toProto, from a snapshot to the message that clients decode. `stamp`
-- is timestamppb.New.
use cnpg_connect_plugin.Prelude.{
  ℕ, ◌<◌, ◌%◌, ◌^◌, ◌≡◌, refl, ◌⊎◌, inl, inr, String, Bool, List, [], ◌∷◌, map, arith,
  if◌then◌else◌, string_beq, All,
}
use cnpg_connect_plugin.Prelude.Map.{Map}
use cnpg_connect_plugin.Api.{
  Snapshot, Member, Endpoint, ClusterRef, ConnectionParameters, Revision, Time,
}

pub data Role : Type 0 where
  role_unknown : Role
  role_primary : Role
  role_standby : Role

pub data SyncState : Type 0 where
  sync_unknown : SyncState
  sync_sync : SyncState
  sync_quorum : SyncState
  sync_potential : SyncState
  sync_async : SyncState

pub role_to_proto : String → Role
role_to_proto role =
    if string_beq role "primary"
    then role_primary
    else if string_beq role "standby"
    then role_standby
    else role_unknown

pub sync_to_proto : String → SyncState
sync_to_proto state =
    if string_beq state "sync"
    then sync_sync
    else if string_beq state "quorum"
    then sync_quorum
    else if string_beq state "potential"
    then sync_potential
    else if string_beq state "async"
    then sync_async
    else sync_unknown

pub record ProtoMember : Type 0 where
  pub id : String
  pub name : String
  pub role : Role
  pub sync_state : SyncState
  pub ready : Bool
  pub reason : String
  pub endpoints : Map String Endpoint
  pub node : String
  pub zone : String
  pub region : String
  pub timeline : ℕ
  pub replay_lsn : String

pub record ProtoSnapshot (Stamp : Type 0) : Type 0 where
  pub api_version : String
  pub cluster : ClusterRef
  pub revision : Revision
  pub observed_at : Stamp
  pub valid_until : Stamp
  pub available : Bool
  pub reason : String
  pub primary_id : String
  pub transitioning : Bool
  pub members : List ProtoMember
  pub connection : ConnectionParameters

-- The port is narrowed to 32 bits.
pub endpoint_to_proto : String × Endpoint → String × Endpoint
endpoint_to_proto (network, e) = (network, record e { port = e.port % 2 ^ 32 })

pub member_to_proto : Member → ProtoMember
unfolding role_to_proto sync_to_proto endpoint_to_proto
member_to_proto m = record {
  id = m.id;
  name = m.name;
  role = role_to_proto m.role;
  sync_state = sync_to_proto m.sync_state;
  ready = m.ready;
  reason = m.reason;
  endpoints = map endpoint_to_proto m.endpoints;
  node = m.node;
  zone = m.zone;
  region = m.region;
  timeline = m.timeline;
  replay_lsn = m.replay_lsn;
}

pub to_proto : {Stamp : Type 0} → (Time → Stamp) → Snapshot → ProtoSnapshot Stamp
unfolding member_to_proto
to_proto stamp s = record {
  api_version = s.api_version;
  cluster = s.cluster;
  revision = s.revision;
  observed_at = stamp s.observed_at;
  valid_until = stamp s.valid_until;
  available = s.available;
  reason = s.reason;
  primary_id = s.primary_id;
  transitioning = s.transitioning;
  members = map member_to_proto s.members;
  connection = s.connection;
}

-- What a client makes of a message.
role_text : Role → String
role_text role_unknown = "unknown"
role_text role_primary = "primary"
role_text role_standby = "standby"

sync_text : SyncState → String
sync_text sync_unknown = "unknown"
sync_text sync_sync = "sync"
sync_text sync_quorum = "quorum"
sync_text sync_potential = "potential"
sync_text sync_async = "async"

member_of_proto : ProtoMember → Member
unfolding role_text sync_text
member_of_proto m = record {
  id = m.id;
  name = m.name;
  role = role_text m.role;
  sync_state = sync_text m.sync_state;
  ready = m.ready;
  reason = m.reason;
  endpoints = m.endpoints;
  node = m.node;
  zone = m.zone;
  region = m.region;
  timeline = m.timeline;
  replay_lsn = m.replay_lsn;
}

pub of_proto : {Stamp : Type 0} → (Stamp → Time) → ProtoSnapshot Stamp → Snapshot
unfolding member_of_proto
of_proto unstamp p = record {
  api_version = p.api_version;
  cluster = p.cluster;
  revision = p.revision;
  observed_at = unstamp p.observed_at;
  valid_until = unstamp p.valid_until;
  available = p.available;
  reason = p.reason;
  primary_id = p.primary_id;
  transitioning = p.transitioning;
  members = map member_of_proto p.members;
  connection = p.connection;
}

-- A member whose role, synchronization and ports have a place in the message.
pub record IsSendable (m : Member) : Type 0 where
  pub role : (m.role ≡ "unknown") ⊎ (m.role ≡ "primary") ⊎ (m.role ≡ "standby")
  pub sync_state :
      (m.sync_state ≡ "unknown")
      ⊎ (m.sync_state ≡ "sync")
      ⊎ (m.sync_state ≡ "quorum")
      ⊎ (m.sync_state ≡ "potential")
      ⊎ (m.sync_state ≡ "async")
  pub ports : All (λ (e : String × Endpoint). e.1.port < 2 ^ 32) m.endpoints

role-literals :
    (role_text (role_to_proto "unknown") ≡ "unknown")
    × (role_text (role_to_proto "primary") ≡ "primary")
    × (role_text (role_to_proto "standby") ≡ "standby")
unfolding role_text role_to_proto string_beq
role-literals = (refl, refl, refl)

role_back :
    (r : String)
    → (r ≡ "unknown") ⊎ (r ≡ "primary") ⊎ (r ≡ "standby")
    → role_text (role_to_proto r) ≡ r
role_back r (inl e) = rw e role-literals.0
role_back r (inr (inl e)) = rw e role-literals.1
role_back r (inr (inr e)) = rw e role-literals.2

sync-literals :
    (sync_text (sync_to_proto "unknown") ≡ "unknown")
    × (sync_text (sync_to_proto "sync") ≡ "sync")
    × (sync_text (sync_to_proto "quorum") ≡ "quorum")
    × (sync_text (sync_to_proto "potential") ≡ "potential")
    × (sync_text (sync_to_proto "async") ≡ "async")
unfolding sync_text sync_to_proto string_beq
sync-literals = (refl, refl, refl, refl, refl)

sync_back :
    (r : String)
    → (r ≡ "unknown") ⊎ (r ≡ "sync") ⊎ (r ≡ "quorum") ⊎ (r ≡ "potential") ⊎ (r ≡ "async")
    → sync_text (sync_to_proto r) ≡ r
sync_back r (inl e) = rw e sync-literals.0
sync_back r (inr (inl e)) = rw e sync-literals.1
sync_back r (inr (inr (inl e))) = rw e sync-literals.2
sync_back r (inr (inr (inr (inl e)))) = rw e sync-literals.3
sync_back r (inr (inr (inr (inr e)))) = rw e sync-literals.4

ports_back :
    (es : Map String Endpoint)
    → All (λ (e : String × Endpoint). e.1.port < 2 ^ 32) es
    → map endpoint_to_proto es ≡ es
unfolding endpoint_to_proto
ports_back [] h = refl
ports_back ((network, e) ∷ es) h =
    let same : e.port % 2 ^ 32 ≡ e.port = omega arith in rw (same, ports_back es h.1) refl

members_back :
    (ms : List Member) → All IsSendable ms → map member_of_proto (map member_to_proto ms) ≡ ms
unfolding member_to_proto member_of_proto
members_back [] h = refl
members_back (m ∷ ms) (ok, h) =
    rw
      (
        role_back m.role ok.role,
        sync_back m.sync_state ok.sync_state,
        ports_back m.endpoints ok.ports,
        members_back ms h,
      )
      refl

-- The message loses nothing that a client routes by: where the timestamps can be read back and each
-- member's role and synchronization are among the protocol's values and its ports below 2 ^ 32, a
-- client that reads the message's values back by their names has the snapshot that was sent.
pub of_proto-to_proto :
    {Stamp : Type 0} (stamp : Time → Stamp) (unstamp : Stamp → Time) (s : Snapshot)
    → ((t : Time) → unstamp (stamp t) ≡ t)
    → All IsSendable s.members
    → of_proto unstamp (to_proto stamp s) ≡ s
unfolding of_proto to_proto
of_proto-to_proto stamp unstamp s back ok =
    rw (back s.observed_at, back s.valid_until, members_back s.members ok) refl
