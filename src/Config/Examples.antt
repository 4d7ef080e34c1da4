-- ===== src/Config/Examples.antt =====
-- Parameters with one external endpoint, and the theorem at them.
use Prim.Native.Char.{Char, code}
use cnpg_connect_plugin.Prelude.{
  String, string_eq, ◌≡◌, refl, true, false, none, some, [], ◌∷◌, string_beq, nat_beq,
  if◌then◌else◌,
}
use cnpg_connect_plugin.Prelude.Result.{ok, err}
use cnpg_connect_plugin.Prelude.Map.{Map, lookup, insert}
use cnpg_connect_plugin.Api.{Endpoint}
use cnpg_connect_plugin.Kube.{Parameters, PluginEntry, reads, absent}
use cnpg_connect_plugin.Config.{
  Library, shared_address, unknown_parameter, trailing_data, parse_parameters, address, to_lower,
  append, port_text, contains_any,
}
use cnpg_connect_plugin.Config.Values.{Sets}
use cnpg_connect_plugin.Config.Endpoints.{AreEndpoints, parse_parameters-AreEndpoints}
use cnpg_connect_plugin.Config.Enrollment.{parameters}
use cnpg_connect_plugin.Samples.{cluster_a}

abbrev endpoint_a : Endpoint
endpoint_a = record { host = "db.example.org"; port = 5432; server_name = "" }

abbrev endpoints_a : Map String Endpoint
endpoints_a = ("orders-1", endpoint_a) ∷ []

-- A stand-in that reads one text.
abbrev library_a : Library
library_a = record {
  decode_endpoints = λ raw. some (endpoints_a, false);
  decode_values = λ raw. none;
  is_ip = λ raw. false;
  lower_char = λ c. c;
}

abbrev parsed_a : Parameters
parsed_a = record { external_endpoints = endpoints_a; server_name = "db" }

abbrev values_a : Map String String
values_a = ("externalEndpoints", "{...}") ∷ ("serverName", "db") ∷ []

parses : parse_parameters library_a values_a ≡ ok parsed_a
unfolding parse_parameters lookup string_beq
parses = refl

refuses_shared :
    parse_parameters
      (record library_a {
        decode_endpoints = λ raw. some (("orders-2", endpoint_a) ∷ endpoints_a, false);
      })
      values_a
    ≡ err shared_address
unfolding parse_parameters lookup insert string_beq
refuses_shared = refl

-- The lower case of the letter O alone.
abbrev lowers_o : Char → Char
lowers_o c = if nat_beq (code c) 79 then "o" else c

located :
    address
      (record library_a { lower_char = lowers_o })
      (record { host = "Ok.eu"; port = 80; server_name = "" })
    ≡ "ok.eu:80"
unfolding address to_lower append port_text contains_any
located = refl

refuses_unknown : parse_parameters library_a (("ttl", "1s") ∷ []) ≡ err unknown_parameter
unfolding parse_parameters string_beq
refuses_unknown = refl

-- A Cluster is observed by default, and its own entry can disable that.
observes_by_default :
    parameters library_a cluster_a
    ≡ (true, ok (record { external_endpoints = []; server_name = "" }))
unfolding parameters parse_parameters lookup string_beq
observes_by_default = refl

abbrev disabled_entry : PluginEntry
disabled_entry = record {
  name = reads "connect.cnpg.io";
  enabled = reads false;
  parameters = absent;
}

is_disabled :
    parameters library_a (record cluster_a { plugins = reads (none ∷ some disabled_entry ∷ []) })
    ≡ (false, ok (record { external_endpoints = []; server_name = "" }))
unfolding parameters lookup string_beq
is_disabled = refl

refuses_trailing :
    parse_parameters
      (record library_a { decode_endpoints = λ raw. some (endpoints_a, true) })
      values_a
    ≡ err trailing_data
unfolding parse_parameters string_beq
refuses_trailing = refl

addressed :
    address library_a (record { host = "fd00::1"; port = 5432; server_name = "" })
    ≡ "[fd00::1]:5432"
unfolding address to_lower append port_text contains_any
addressed = refl

parse_parameters-AreEndpoints_example :
    Sets library_a (record { external_endpoints = []; server_name = "" }) values_a parsed_a
    × AreEndpoints library_a [] endpoints_a
parse_parameters-AreEndpoints_example =
    (parse_parameters-AreEndpoints library_a values_a parsed_a).0 parses
