-- ===== src/Settings.antt =====
-- cmd/cnpg-connect-plugin/main.go: the settings, their validation, and run up to the start of the
-- servers. Parsing of the command line is the library's: a setting is what the flag package leaves
-- in it. Durations are nanoseconds; a negative number is refused in the source where zero or a
-- number below 1 is, and has no counterpart.
pub mod Accepted
pub mod Startup
pub mod Token
pub mod Secured
pub mod Tls
mod Examples
use cnpg_connect_plugin.Prelude.{
  ℕ, ◌-◌, String, Bool, ◌&&◌, ◌||◌, not, List, ltb, leb, is_some, string_beq, string_eq, contains,
  if◌then◌else◌,
}
use cnpg_connect_plugin.Prelude.Result.{Result, ok, ◌>>=◌, ◌>>◌, refuse_if}
use cnpg_connect_plugin.Admission.{Limits, normalized}
use cnpg_connect_plugin.Observer.Options.{Options, out_of_bounds}

-- What the code asks of the float64 of -kube-api-qps: `> 0`, which NaN is not, `> MaxFloat32`, and
-- whether it is 0 as a float32.
pub record Rate : Type 0 where
  pub is_positive : Bool
  pub is_huge : Bool
  pub is_lost : Bool

pub record Settings : Type 0 where
  pub plugin_address : String
  pub discovery_address : String
  pub health_address : String
  pub server_cert : String
  pub server_key : String
  pub client_ca : String
  pub discovery_cert : String
  pub discovery_key : String
  pub discovery_plaintext : Bool
  pub auth_token_file : String
  pub namespace : String
  pub kube_api_qps : Rate
  pub kube_api_burst : ℕ
  pub poll_interval : ℕ
  pub ttl : ℕ
  pub probe_timeout : ℕ
  pub max_concurrency : ℕ
  pub max_concurrent_clusters : ℕ
  pub limits : Limits
  pub insecure : Bool

-- The default addresses of parseSettings with -insecure, for the flags that are not given.
unfoldable pub local_addresses : List String → Settings → Settings
local_addresses explicit s = record s {
  plugin_address =
      if s.insecure && not (contains explicit "plugin-address")
      then "127.0.0.1:9090"
      else s.plugin_address;
  discovery_address =
      if s.insecure && not (contains explicit "discovery-address")
      then "127.0.0.1:8080"
      else s.discovery_address;
  health_address =
      if s.insecure && not (contains explicit "health-address")
      then "127.0.0.1:8081"
      else s.health_address;
}

pub data SettingsError : Type 0 where
  bad_limits bad_qps bad_burst no_duration bad_concurrency short_ttl no_address : SettingsError
  insecure_with_credentials no_plugin_credentials no_discovery_credentials : SettingsError

abbrev pub empty : String → Bool
empty s = string_beq s ""

unfoldable pub has_credentials : Settings → Bool
has_credentials s =
    not (empty s.server_cert)
    || (not (empty s.server_key)
        || (not (empty s.client_ca)
            || (not (empty s.discovery_cert)
                || (not (empty s.discovery_key) || not (empty s.auth_token_file)))))

-- The end of validate, on the listeners' credentials.
unfoldable pub validate_credentials : Settings → Result SettingsError (Unit {0})
unfolding has_credentials
validate_credentials s =
    if s.insecure then refuse_if (has_credentials s) insecure_with_credentials else do
      refuse_if (empty s.server_cert || (empty s.server_key || empty s.client_ca))
          no_plugin_credentials
      refuse_if (not s.discovery_plaintext && (empty s.discovery_cert || empty s.discovery_key))
          no_discovery_credentials

-- The checks of validate on the numbers, in its order.
unfoldable pub validate_numbers : Settings → Result SettingsError (Unit {0})
validate_numbers s = do
  refuse_if (not (is_some (normalized s.limits))) bad_limits
  refuse_if (not s.kube_api_qps.is_positive || (s.kube_api_qps.is_huge || s.kube_api_qps.is_lost))
      bad_qps
  refuse_if (leb s.kube_api_burst 0) bad_burst
  refuse_if (leb s.poll_interval 0 || (leb s.probe_timeout 0 || leb s.ttl 0)) no_duration
  refuse_if (out_of_bounds s.max_concurrency || out_of_bounds s.max_concurrent_clusters)
      bad_concurrency
  refuse_if (leb s.ttl s.poll_interval || leb (s.ttl - s.poll_interval) s.probe_timeout) short_ttl

unfoldable pub validate : Settings → Result SettingsError (Unit {0})
unfolding validate_numbers validate_credentials
validate s = do
  validate_numbers s
  refuse_if (empty s.plugin_address || (empty s.discovery_address || empty s.health_address))
      no_address
  validate_credentials s

-- The options that run makes an observer with.
unfoldable pub observer_options : Settings → Options
observer_options s = record {
  namespace = s.namespace;
  poll_interval = s.poll_interval;
  ttl = s.ttl;
  probe_timeout = s.probe_timeout;
  max_concurrency = s.max_concurrency;
  max_concurrent_clusters = s.max_concurrent_clusters;
}
