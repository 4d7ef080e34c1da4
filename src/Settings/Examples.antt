-- ===== src/Settings/Examples.antt =====
-- Settings of a deployment behind a gateway, and the theorems at them.
use cnpg_connect_plugin.Prelude.{
  ◌≡◌, ◌⊎◌, refl, String, true, false, Option, none, some, string_beq, [], ◌∷◌, contains,
}
use cnpg_connect_plugin.Prelude.Result.{ok, err}
use cnpg_connect_plugin.Admission.{normalized}
use cnpg_connect_plugin.Observer.Options.{check_options}
use cnpg_connect_plugin.Settings.{
  Settings, no_plugin_credentials, short_ttl, has_credentials, validate, observer_options,
  local_addresses,
}
use cnpg_connect_plugin.Settings.Accepted.{IsAccepted, validate-IsAccepted}
use cnpg_connect_plugin.Settings.Token.{read_token, too_short}
use cnpg_connect_plugin.Settings.Tls.{Certificate, Disk, load, handshake, outside_validity}
use cnpg_connect_plugin.Settings.Startup.{RuntimeOptions, start}
use cnpg_connect_plugin.Settings.Secured.{IsSecured, start-IsSecured}

abbrev settings_a : Settings
settings_a = record {
  plugin_address = ":9090";
  discovery_address = ":8080";
  health_address = ":8081";
  server_cert = "tls.crt";
  server_key = "tls.key";
  client_ca = "ca.crt";
  discovery_cert = "";
  discovery_key = "";
  discovery_plaintext = true;
  auth_token_file = "token";
  namespace = "";
  kube_api_qps = record { is_positive = true; is_huge = false; is_lost = false };
  kube_api_burst = 200;
  poll_interval = 5;
  ttl = 15;
  probe_timeout = 2;
  max_concurrency = 128;
  max_concurrent_clusters = 32;
  limits = record {
    max_concurrent_streams = 128;
    max_connections = 1024;
    max_rpcs = 4096;
    max_watches = 2048;
    initial_request_timeout = 5000000000;
  };
  insecure = false;
}

-- Valid from 10 to 20.
abbrev leaf_a : Certificate
leaf_a = record { not_before = 10; not_after = 20 }

abbrev disk_a : Disk
disk_a = record { key_pair = λ cert key. some (some leaf_a); trust = λ name. some true }

abbrev token_a : String
token_a = "0123456789abcdef0123456789abcdef"

abbrev token_file : String
token_file = " 0123456789abcdef0123456789abcdef\n"

abbrev files_a : String → Option String
files_a name = some token_file

accepts_a : validate settings_a ≡ ok tt
unfolding validate normalized string_beq
accepts_a = refl

validate-IsAccepted_example : IsAccepted settings_a
validate-IsAccepted_example = (validate-IsAccepted settings_a).0 accepts_a

refuses_without_trust : validate (record settings_a { client_ca = "" }) ≡ err no_plugin_credentials
unfolding validate normalized string_beq
refuses_without_trust = refl

-- A ttl that only equals the sum is refused.
refuses_short_ttl : validate (record settings_a { ttl = 7 }) ≡ err short_ttl
unfolding validate normalized string_beq
refuses_short_ttl = refl

reads_token : read_token (some token_file) ≡ ok token_a
unfolding read_token
reads_token = refl

refuses_short_token : read_token (some "secret") ≡ err too_short
unfolding read_token
refuses_short_token = refl

serves :
    handshake disk_a 12 disk_a 19 "tls.crt" "tls.key" "ca.crt"
    ≡ ok (record { leaf = leaf_a; demands_client = true })
unfolding handshake string_beq
serves = refl

expires : load disk_a 20 "tls.crt" "tls.key" "ca.crt" ≡ err outside_validity
unfolding load
expires = refl

abbrev started_a : RuntimeOptions
started_a = record {
  plugin_address = ":9090";
  discovery_address = ":8080";
  health_address = ":8081";
  plugin_tls = some (record { leaf = leaf_a; demands_client = true });
  discovery_tls = none;
  limits = settings_a.limits;
  token = token_a;
}

starts : start disk_a files_a 12 true settings_a ≡ ok started_a
unfolding start validate normalized string_beq read_token load observer_options check_options
starts = refl

start-IsSecured_example :
    ((false ≡ true)
      × (has_credentials settings_a ≡ false)
      × (started_a.plugin_tls ≡ none)
      × (started_a.discovery_tls ≡ none)
      × (token_a ≡ ""))
    ⊎ ((false ≡ false) × IsSecured settings_a started_a)
start-IsSecured_example = start-IsSecured disk_a files_a 12 true settings_a started_a starts

binds_loopback :
    (local_addresses
      ("health-address" ∷ [])
      (record settings_a { insecure = true })).discovery_address
    ≡ "127.0.0.1:8080"
unfolding local_addresses contains string_beq
binds_loopback = refl
