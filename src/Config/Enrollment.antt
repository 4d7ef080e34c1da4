-- ===== src/Config/Enrollment.antt =====
-- parameters of internal/observer/topology.go: whether a Cluster is observed, and its parameters.
use cnpg_connect_plugin.Prelude.{
  String, string_eq, Bool, true, false, Option, none, some, List, [], ◌∷◌, if◌then◌else◌, get_or,
  string_beq,
}
use cnpg_connect_plugin.Prelude.Result.{Result, ok, err}
use cnpg_connect_plugin.Prelude.Map.{Map, lookup}
use cnpg_connect_plugin.Kube.{Cluster, Parameters, PluginEntry, Reading, absent, malformed, reads}
use cnpg_connect_plugin.Config.{
  Library, ConfigError, bad_plugins, bad_enabled, bad_parameters, bad_annotation, parse_parameters,
}

abbrev pub plugin_name : String
plugin_name = "connect.cnpg.io"

abbrev pub enabled_annotation : String
enabled_annotation = "connect.cnpg.io/enabled"

abbrev pub parameters_annotation : String
parameters_annotation = "connect.cnpg.io/parameters"

-- `a[key]`
abbrev pub annotation : Cluster → String → String
annotation c key = get_or (lookup key c.annotations) ""

abbrev pub named : Reading String → Bool
named (reads name) = string_beq name plugin_name
named absent = false
named malformed = false

-- What the plugin's own entry says of its parameters.
unfoldable pub entry_parameters :
    Library → Reading (Map String String) → Result ConfigError Parameters
entry_parameters library malformed = err bad_parameters
entry_parameters library absent = parse_parameters library []
entry_parameters library (reads values) = parse_parameters library values

-- Whether the plugin is enabled, and its parameters, which are empty where it is not.
unfoldable pub read_entry : Library → PluginEntry → Bool × Result ConfigError Parameters
unfolding entry_parameters
read_entry library entry = elim entry.enabled [
  | malformed ↦ (true, err bad_enabled)
  | absent ↦ (true, entry_parameters library entry.parameters)
  | reads enabled ↦
      if enabled
      then (true, entry_parameters library entry.parameters)
      else (false, ok (record { external_endpoints = []; server_name = "" }))
]

-- The first entry of the plugin.
unfoldable pub find_entry : List (Option PluginEntry) → Option PluginEntry
find_entry [] = none
find_entry (none ∷ rest) = find_entry rest
find_entry (some entry ∷ rest) =
    let later = find_entry rest in if named entry.name then some entry else later

-- The parameters of a Cluster without an entry of the plugin.
unfoldable pub annotated_parameters : Library → String → Result ConfigError Parameters
annotated_parameters library raw =
    if string_beq raw "" then parse_parameters library [] else elim (library.decode_values raw) [
      | none ↦ err bad_annotation
      | some values ↦ parse_parameters library values
    ]

unfoldable pub from_entries :
    Library → Cluster → List (Option PluginEntry) → Bool × Result ConfigError Parameters
unfolding find_entry read_entry annotated_parameters
from_entries library c entries = elim (find_entry entries) [
  | none ↦ (true, annotated_parameters library (annotation c parameters_annotation))
  | some entry ↦ read_entry library entry
]

unfoldable pub parameters : Library → Cluster → Bool × Result ConfigError Parameters
unfolding from_entries
parameters library c =
    if string_beq (annotation c enabled_annotation) "false"
    then (false, ok (record { external_endpoints = []; server_name = "" }))
    else elim c.plugins [
      | malformed ↦ (false, err bad_plugins)
      | absent ↦ from_entries library c []
      | reads entries ↦ from_entries library c entries
    ]
