-- ===== src/Status/Clients.antt =====
-- internal/observer/status.go: the HTTP clients of the status endpoint, by the name of the server that
-- they verify, and the checks of what it answers. A client is its number with the roots that it
-- trusts; the hash function and the parsing of PEM are arguments.
pub mod Trusted
mod Examples
use cnpg_connect_plugin.Prelude.{
  ℕ, ◌+◌, ◌-◌, String, string_eq, Bool, true, false, ◌&&◌, ◌||◌, not, Option, none, some, List, [],
  ◌∷◌, ◌++◌, leb, ltb, if◌then◌else◌, string_beq, nat_beq, is_some,
}
use cnpg_connect_plugin.Prelude.Map.{Map, lookup, insert}
use cnpg_connect_plugin.Api.{Time}
use cnpg_connect_plugin.Routing.{Digest, digest_beq}
use cnpg_connect_plugin.Status.{InstanceStatus}

pub record StatusClient : Type 0 where
  pub id : ℕ
  pub roots : List ℕ
  pub server_name : String

pub record StatusClientEntry : Type 0 where
  pub digest : Digest
  pub client : StatusClient
  pub last_used : Time

pub record StatusClients : Type 0 where
  pub entries : Map String StatusClientEntry
  pub next_id : ℕ
  -- The clients whose idle connections were closed.
  pub retired : List ℕ

unfoldable pub touch : StatusClients → String → StatusClientEntry → Time → StatusClients
touch s name e now = record s { entries = insert name (record e { last_used = now }) s.entries }

-- The first part of statusClient, under the lock of readers.
unfoldable pub find_client :
    (List ℕ → Digest) → StatusClients → List ℕ → String → Time → StatusClients × Option StatusClient
unfolding touch
find_client sha256 s pem name now = elim (lookup name s.entries) [
  | none ↦ (s, none)
  | some e ↦
      if digest_beq e.digest (sha256 pem) then (touch s name e now, some e.client) else (s, none)
]

-- What is made between the locks, none where the certificates do not parse.
unfoldable pub new_client :
    StatusClients → List ℕ → String → Bool → StatusClients × Option StatusClient
new_client s pem name true = (
  record s { next_id = s.next_id + 1 },
  some (record { id = s.next_id; roots = pem; server_name = name }),
)
new_client s pem name false = (s, none)

unfoldable pub enter :
    (List ℕ → Digest)
    → StatusClients
    → List ℕ
    → String
    → StatusClient
    → Time
    → List ℕ
    → StatusClients
enter sha256 s pem name client now closed = record s {
  entries =
      insert name (record { digest = sha256 pem; client = client; last_used = now }) s.entries;
  retired = closed ++ s.retired;
}

-- The last part of statusClient, under the lock of writers, with what was made between the locks: the
-- client of another probe that was entered meanwhile is used instead of the new one.
unfoldable pub enter_client :
    (List ℕ → Digest)
    → StatusClients
    → List ℕ
    → String
    → Option StatusClient
    → Time
    → StatusClients × Option StatusClient
unfolding touch enter
enter_client sha256 s pem name none now = (s, none)
enter_client sha256 s pem name (some client) now = elim (lookup name s.entries) [
  | none ↦ (enter sha256 s pem name client now [], some client)
  | some existing ↦
      if digest_beq existing.digest (sha256 pem)
      then (touch s name existing now, some existing.client)
      else (enter sha256 s pem name client now (existing.client.id ∷ []), some client)
]

unfoldable pub ids_of : Map String StatusClientEntry → List ℕ
ids_of [] = []
ids_of ((_, e) ∷ rest) = e.client.id ∷ ids_of rest

unfoldable pub close_status_clients : StatusClients → StatusClients
unfolding ids_of
close_status_clients s = record s { entries = []; retired = ids_of s.entries ++ s.retired }

-- A minute in nanoseconds.
unfoldable pub is_unused : Time → StatusClientEntry → Bool
is_unused now e = leb 60000000000 (now - e.last_used)

unfoldable pub keep_used : Time → Map String StatusClientEntry → Map String StatusClientEntry
unfolding is_unused
keep_used now [] = []
keep_used now ((name, e) ∷ rest) =
    let later = keep_used now rest in if is_unused now e then later else (name, e) ∷ later

unfoldable pub unused_ids : Time → Map String StatusClientEntry → List ℕ
unfolding is_unused
unused_ids now [] = []
unused_ids now ((name, e) ∷ rest) =
    let later = unused_ids now rest in if is_unused now e then e.client.id ∷ later else later

-- The part of pruneConnections on the clients.
unfoldable pub prune_clients : StatusClients → Time → StatusClients
unfolding keep_used unused_ids
prune_clients s now = record s {
  entries = keep_used now s.entries;
  retired = unused_ids now s.entries ++ s.retired;
}

-- decodeStatus after the JSON decoder: none where it failed, and whether something follows the
-- object.
unfoldable pub check_status : Option InstanceStatus → Bool → Option InstanceStatus
check_status none trailing = none
check_status (some result) trailing =
    if trailing
      || (not (is_some result.is_primary)
          || (string_beq result.system_id "" || not (ltb 0 result.timeline)))
    then none
    else some result

-- readStatusHTTP, from what the server has answered: the code, the number of bytes of the body up to
-- one more than the limit, none where reading failed, and what decodeStatus makes of them.
unfoldable pub read_response : ℕ → Option ℕ → Option InstanceStatus → Option InstanceStatus
read_response code none decoded = none
read_response code (some size) decoded =
    if not (nat_beq code 200) || ltb 4194304 size then none else decoded
