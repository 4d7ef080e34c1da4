-- ===== src/Config.antt =====
-- internal/config/cluster.go: the parameters of a Cluster. What the standard library makes of a
-- text is the argument `library`. A Go map is iterated in an order of its own: which of several
-- errors is returned depends on it, whether there is one does not.
pub mod Values
pub mod Endpoints
pub mod Enrollment
mod Examples
use Prim.Native.Char.{Char, code}
use cnpg_connect_plugin.Prelude.{
  ℕ, ◌/◌, ◌%◌, String, string_eq, Bool, true, false, ◌&&◌, ◌||◌, not, Option, none, some, List, [],
  ◌∷◌, ltb, nat_beq, if◌then◌else◌, string_beq,
}
use cnpg_connect_plugin.Prelude.Result.{Result, ok, err, ◌>>=◌, ◌>>◌, refuse_if}
use cnpg_connect_plugin.Prelude.Map.{Map, insert, has}
use cnpg_connect_plugin.Api.{Endpoint}
use cnpg_connect_plugin.Kube.{Parameters}

pub record Library : Type 0 where
  -- The JSON decoding of externalEndpoints without unknown fields, none where it fails, and
  -- whether more than white space follows the value.
  pub decode_endpoints : String → Option (Map String Endpoint × Bool)
  -- The JSON decoding of an object of texts.
  pub decode_values : String → Option (Map String String)
  -- Whether net.ParseIP accepts a text.
  pub is_ip : String → Bool
  -- unicode.ToLower
  pub lower_char : Char → Char

pub data ConfigError : Type 0 where
  bad_endpoints trailing_data bad_server_name unknown_parameter : ConfigError
  incomplete_endpoint host_with_port bad_endpoint_server shared_address : ConfigError
  bad_plugins bad_enabled bad_parameters bad_annotation : ConfigError

unfoldable pub has_char : String → ℕ → Bool
has_char String.[] c = false
has_char (String.◌∷◌ d s) c = nat_beq (code d) c || has_char s c

-- strings.ContainsAny
unfoldable pub contains_any : String → String → Bool
unfolding has_char
contains_any String.[] chars = false
contains_any (String.◌∷◌ c s) chars = has_char chars (code c) || contains_any s chars

abbrev pub not_in_host : String
not_in_host = "/ \\?#@\t\r\n"

abbrev pub not_in_name : String
not_in_name = "/ \\?#@:\t\r\n"

-- One round of the loop over the values.
unfoldable pub set_parameter :
    Library → Parameters → String → String → Result ConfigError Parameters
unfolding contains_any
set_parameter library p key value =
    if string_beq key "externalEndpoints"
    then elim (library.decode_endpoints value) [
      | none ↦ err bad_endpoints
      | some (found, trailing) ↦
          if trailing then err trailing_data else ok (record p { external_endpoints = found })
    ]
    else if string_beq key "serverName"
    then (if string_beq value "" || contains_any value not_in_name
        then err bad_server_name
        else ok (record p { server_name = value }))
    else err unknown_parameter

unfoldable pub set_parameters :
    Library → Parameters → Map String String → Result ConfigError Parameters
unfolding set_parameter
set_parameters library p [] = ok p
set_parameters library p ((key, value) ∷ values) = do
  next ← set_parameter library p key value
  set_parameters library next values

-- The checks of one endpoint but for its address.
unfoldable pub check_endpoint : Library → String → Endpoint → Result ConfigError (Unit {0})
unfolding contains_any
check_endpoint library name e = do
  refuse_if
      (string_beq name ""
        || (string_beq e.host "" || (nat_beq e.port 0 || contains_any e.host not_in_host)))
      incomplete_endpoint
  refuse_if (contains_any e.host ":" && not (library.is_ip e.host)) host_with_port
  refuse_if (contains_any e.server_name not_in_name) bad_endpoint_server

-- strings.ToLower
unfoldable pub to_lower : (Char → Char) → String → String
to_lower lower_char String.[] = ""
to_lower lower_char (String.◌∷◌ c s) = String.◌∷◌ (lower_char c) (to_lower lower_char s)

unfoldable pub append : String → String → String
append String.[] t = t
append (String.◌∷◌ c s) t = String.◌∷◌ c (append s t)

unfoldable pub digit : ℕ → Char
digit n =
    if nat_beq n 0
    then "0"
    else if nat_beq n 1
    then "1"
    else if nat_beq n 2
    then "2"
    else if nat_beq n 3
    then "3"
    else if nat_beq n 4
    then "4"
    else if nat_beq n 5
    then "5"
    else if nat_beq n 6
    then "6"
    else if nat_beq n 7
    then "7"
    else if nat_beq n 8
    then "8"
    else "9"

-- strconv.Itoa of a port, which has 16 bits and so at most five digits.
unfoldable pub port_text : ℕ → String
unfolding digit
port_text n =
    let ones : String = String.◌∷◌ (digit (n % 10)) String.[] in
    let tens : String = String.◌∷◌ (digit ((n / 10) % 10)) ones in
    let hundreds : String = String.◌∷◌ (digit ((n / 100) % 10)) tens in
    let thousands : String = String.◌∷◌ (digit ((n / 1000) % 10)) hundreds in
    if ltb n 10
    then ones
    else if ltb n 100
    then tens
    else if ltb n 1000
    then hundreds
    else if ltb n 10000
    then thousands
    else String.◌∷◌ (digit ((n / 10000) % 10)) thousands

-- net.JoinHostPort
unfoldable pub join_host_port : String → String → String
unfolding append contains_any
join_host_port host port =
    if contains_any host ":"
    then append "[" (append host (append "]:" port))
    else append host (append ":" port)

unfoldable pub address : Library → Endpoint → String
unfolding to_lower port_text join_host_port
address library e = join_host_port (to_lower library.lower_char e.host) (port_text e.port)

-- The loop over the endpoints; `addresses` are those of the rounds before, with their names.
unfoldable pub check_endpoints :
    Library → Map String Endpoint → Map String String → Result ConfigError (Unit {0})
unfolding check_endpoint address
check_endpoints library [] addresses = ok tt
check_endpoints library ((name, e) ∷ rest) addresses = do
  check_endpoint library name e
  refuse_if (has (address library e) addresses) shared_address
  check_endpoints library rest (insert (address library e) name addresses)

unfoldable pub parse_parameters : Library → Map String String → Result ConfigError Parameters
unfolding set_parameters check_endpoints
parse_parameters library values = do
  p ← set_parameters library (record { external_endpoints = []; server_name = "" }) values
  check_endpoints library p.external_endpoints []
  ok p
