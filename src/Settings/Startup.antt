-- ===== src/Settings/Startup.antt =====
-- run of cmd/cnpg-connect-plugin/main.go: from the settings to the options that the servers are
-- started with. The reads of the files and of the Kubernetes configuration are arguments.
use cnpg_connect_plugin.Prelude.{String, Bool, true, not, Option, none, some, if◌then◌else◌}
use cnpg_connect_plugin.Prelude.Result.{Result, ok, ◌>>=◌, ◌>>◌, refuse_if, reword}
use cnpg_connect_plugin.Api.{Time}
use cnpg_connect_plugin.Admission.{Limits}
use cnpg_connect_plugin.Observer.Options.{Options, OptionsError, check_options}
use cnpg_connect_plugin.Settings.{Settings, SettingsError, empty, validate, observer_options}
use cnpg_connect_plugin.Settings.Token.{TokenError, read_token}
use cnpg_connect_plugin.Settings.Tls.{Disk, TlsConfig, TlsError, load}

pub record RuntimeOptions : Type 0 where
  pub plugin_address : String
  pub discovery_address : String
  pub health_address : String
  pub plugin_tls : Option TlsConfig
  pub discovery_tls : Option TlsConfig
  pub limits : Limits
  -- The bearer token, empty where there is none.
  pub token : String

pub data StartError : Type 0 where
  invalid : SettingsError → StartError
  bad_plugin_tls : TlsError → StartError
  bad_discovery_tls : TlsError → StartError
  bad_token : TokenError → StartError
  no_kubernetes : StartError
  bad_options : OptionsError → StartError

unfoldable pub discovery_tls : Disk → Time → Settings → Result StartError (Option TlsConfig)
discovery_tls disk now s = if s.discovery_plaintext then ok none else do
  config ← reword bad_discovery_tls (load disk now s.discovery_cert s.discovery_key "")
  ok (some config)

-- `text` reads a file.
unfoldable pub auth_token : (String → Option String) → Settings → Result StartError String
auth_token text s =
    if empty s.auth_token_file
    then ok ""
    else reword bad_token (read_token (text s.auth_token_file))

unfoldable pub plain_options : Settings → RuntimeOptions
plain_options s = record {
  plugin_address = s.plugin_address;
  discovery_address = s.discovery_address;
  health_address = s.health_address;
  plugin_tls = none;
  discovery_tls = none;
  limits = s.limits;
  token = "";
}

-- The three steps that set the transport security and the token, in their order.
abbrev pub with_security :
    RuntimeOptions
    → Result StartError TlsConfig
    → Result StartError (Option TlsConfig)
    → Result StartError String
    → Result StartError RuntimeOptions
with_security plain plugin_found discovery_found token_found = do
  plugin ← plugin_found
  discovery ← discovery_found
  token ← token_found
  ok (record plain { plugin_tls = some plugin; discovery_tls = discovery; token = token })

unfoldable pub secure :
    Disk → (String → Option String) → Time → Settings → Result StartError RuntimeOptions
unfolding plain_options discovery_tls auth_token
secure disk text now s =
    if s.insecure
    then ok (plain_options s)
    else with_security (plain_options s)
        (reword bad_plugin_tls (load disk now s.server_cert s.server_key s.client_ca))
        (discovery_tls disk now s) (auth_token text s)

-- The steps of run that can fail before the servers start, in their order.
abbrev pub in_order :
    Result StartError (Unit {0})
    → Result StartError RuntimeOptions
    → Result StartError (Unit {0})
    → Result StartError Options
    → Result StartError RuntimeOptions
in_order validated secured connected observable = do
  validated
  options ← secured
  connected
  observed ← observable
  ok options

-- `kubernetes` tells whether the configuration is loaded and the clients are made.
unfoldable pub start :
    Disk → (String → Option String) → Time → Bool → Settings → Result StartError RuntimeOptions
unfolding secure
start disk text now kubernetes s =
    in_order (reword invalid (validate s)) (secure disk text now s)
      (refuse_if (not kubernetes) no_kubernetes)
      (reword bad_options (check_options true (observer_options s)))
