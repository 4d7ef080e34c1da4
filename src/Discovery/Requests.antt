-- ===== src/Discovery/Requests.antt =====
-- Who may ask and for what: NewServer, authorize, validateReference and validDNSName of
-- internal/discovery/grpc.go. The hash function and the rules of the Kubernetes libraries for
-- names are arguments; the constant-time comparison is an equality of digests.
pub mod Bearer
pub mod Names
mod Examples
use Prim.Native.Char.{Char, code}
use cnpg_connect_plugin.Prelude.{
  ℕ, ◌+◌, String, Bool, true, false, ◌&&◌, ◌||◌, not, Option, none, some, List, [], ◌∷◌, ltb, leb,
  nat_beq, if◌then◌else◌, string_beq,
}
use cnpg_connect_plugin.Routing.{Digest, digest_beq}
use cnpg_connect_plugin.Key.{ClusterKey}
use cnpg_connect_plugin.Api.{Snapshot, Time}
use cnpg_connect_plugin.Mailbox.{Publication}
use cnpg_connect_plugin.Store.{Store}
use cnpg_connect_plugin.Discovery.{Status, Watching, get_topology, watch_topology}
use cnpg_connect_plugin.Settings.Token.{byte_length}

pub record Server : Type 0 where
  pub authenticated : Bool
  pub token_digest : Digest

unfoldable pub new_server : (String → Digest) → String → Server
new_server sha256 token = record {
  authenticated = not (string_beq token "");
  token_digest = sha256 token;
}

-- strings.Cut at the first space; none where there is none.
unfoldable pub cut_space : String → Option (String × String)
cut_space String.[] = none
cut_space (String.◌∷◌ c s) =
    let rest = cut_space s in
    if nat_beq (code c) 32
    then some ("", s)
    else elim rest [ none ↦ none | some r ↦ some (String.◌∷◌ c r.0, r.1) ]

unfoldable pub lower : ℕ → ℕ
lower c = if leb 65 c && leb c 90 then c + 32 else c

-- strings.EqualFold, where one side has only letters that fold within ASCII.
unfoldable pub equal_fold : String → String → Bool
unfolding lower
equal_fold String.[] String.[] = true
equal_fold (String.◌∷◌ c s) (String.◌∷◌ d t) =
    nat_beq (lower (code c)) (lower (code d)) && equal_fold s t
equal_fold _ _ = false

-- Whether the values of the header "authorization" are those of a caller that may ask.
unfoldable pub authorize : (String → Digest) → Server → List String → Bool
unfolding cut_space equal_fold
authorize sha256 server (value ∷ []) =
    if not server.authenticated then true else elim (cut_space value) [
      | none ↦ false
      | some parts ↦ equal_fold parts.0 "Bearer" && digest_beq server.token_digest (sha256 parts.1)
    ]
authorize sha256 server _ = not server.authenticated

unfoldable pub prepend : Char → List String → List String
prepend c [] = String.◌∷◌ c String.[] ∷ []
prepend c (label ∷ labels) = String.◌∷◌ c label ∷ labels

-- strings.Split at the dots.
unfoldable pub split_dots : String → List String
unfolding prepend
split_dots String.[] = "" ∷ []
split_dots (String.◌∷◌ c s) =
    let rest = split_dots s in if nat_beq (code c) 46 then "" ∷ rest else prepend c rest

-- What validation.IsDNS1123Label accepts, and validation.DNS1123SubdomainMaxLength.
pub record NameRules : Type 0 where
  pub is_label : String → Bool
  pub subdomain_max_length : ℕ

unfoldable pub all_labels : NameRules → List String → Bool
all_labels rules [] = true
all_labels rules (label ∷ labels) = rules.is_label label && all_labels rules labels

unfoldable pub valid_dns_name : NameRules → String → Bool → Bool
unfolding split_dots all_labels
valid_dns_name rules value dots =
    if not dots
    then rules.is_label value
    else if ltb rules.subdomain_max_length (byte_length value)
    then false
    else all_labels rules (split_dots value)

unfoldable pub validate_reference : NameRules → String → String → Bool
unfolding valid_dns_name
validate_reference rules namespace name =
    valid_dns_name rules namespace false && valid_dns_name rules name true

-- GetTopology and WatchTopology with the checks that they begin with.
unfoldable pub serve_get :
    (Snapshot → Digest)
    → (String → Digest)
    → NameRules
    → Server
    → Store
    → List String
    → ClusterKey
    → Time
    → Time
    → Store × Status × Option Publication
unfolding authorize validate_reference
serve_get hash sha256 rules server st values key now later =
    get_topology hash st (authorize sha256 server values)
      (validate_reference rules key.namespace key.name) key now later

unfoldable pub serve_watch :
    (Snapshot → Digest)
    → (String → Digest)
    → NameRules
    → Server
    → Store
    → List String
    → ClusterKey
    → Time
    → Time
    → Watching
unfolding authorize validate_reference
serve_watch hash sha256 rules server st values key now later =
    watch_topology hash st (authorize sha256 server values)
      (validate_reference rules key.namespace key.name) key now later
