-- ===== src/Config/Endpoints.antt =====
-- Which parameters ParseParameters (internal/config/cluster.go) accepts.
use cnpg_connect_plugin.Prelude.{
  String, string_eq, ◌≡◌, ◌↔◌, refl, sym, subst, ◌∙◌, Bool, true, false, ◌&&◌, not, List, [], ◌∷◌,
  arith, ◌⊎◌, inl, inr, Bool-cases, nat_beq, string_beq, is_some, contains,
}
use cnpg_connect_plugin.Prelude.Result.{Result, ok, err, ◌>>=◌, ◌>>◌, refuse_if}
use cnpg_connect_plugin.Prelude.Map.{Map, lookup, insert, has, lookup-insert}
use cnpg_connect_plugin.Api.{Endpoint}
use cnpg_connect_plugin.Kube.{Parameters}
use cnpg_connect_plugin.Config.Values.{
  Avoids, host_codes, name_codes, colon_code, host-Avoids, name-Avoids, colon-Avoids, Sets,
  set_parameters-Sets,
}
use cnpg_connect_plugin.Config.{
  address, join_host_port, to_lower, port_text, Library, ConfigError, contains_any, check_endpoint,
  check_endpoints, parse_parameters, set_parameters, shared_address,
}

in_sequence :
    (a : Result ConfigError (Unit {0})) (refused : Bool) (x : ConfigError)
    (b : Result ConfigError (Unit {0}))
    → (do a; refuse_if refused x; b) ≡ ok tt
    → (a ≡ ok tt) × (refused ≡ false) × (b ≡ ok tt)
in_sequence (ok v) false x b h = (refl, refl, h)
in_sequence (ok v) true x b h = cc
in_sequence (err e) refused x b h = cc

module _ (library : Library) where
  -- An endpoint that identifies an instance: a host without a port, a port, and DNS names.
  pub record IsEndpoint (name : String) (e : Endpoint) : Type 0 where
    pub named : string_beq name "" ≡ false
    pub host : (string_beq e.host "" ≡ false) × Avoids host_codes e.host
    pub port : nat_beq e.port 0 ≡ false
    pub no_port : Avoids colon_code e.host ⊎ (library.is_ip e.host ≡ true)
    pub server : Avoids name_codes e.server_name

  -- The host in lower case, joined with the port.
  abbrev pub location : Endpoint → String
  location e = join_host_port (to_lower library.lower_char e.host) (port_text e.port)

  -- Every endpoint is one, and no two have a location in common, nor any one in `seen`.
  abbrev pub AreEndpoints : List String → Map String Endpoint → Type 0
  AreEndpoints seen [] = Unit {0}
  AreEndpoints seen ((name, e) ∷ rest) =
      IsEndpoint name e
      × (contains seen (location e) ≡ false)
      × AreEndpoints (location e ∷ seen) rest

  check_endpoint-IsEndpoint :
      (name : String) (e : Endpoint) → (check_endpoint library name e ≡ ok tt) ↔ IsEndpoint name e
  unfolding check_endpoint
  check_endpoint-IsEndpoint name e = (
    λ h. record {
      named = ground (arith, h);
      host = (ground (arith, h), (host-Avoids e.host).0 (ground (arith, h)));
      port = ground (arith, h);
      no_port = elim (Bool-cases (library.is_ip e.host)) [
        | inl ip ↦ inr ip
        | inr name ↦ inl ((colon-Avoids e.host).0 (ground (arith, h, name)))
      ];
      server = (name-Avoids e.server_name).0 (ground (arith, h));
    },
    λ v.
        let host = (host-Avoids e.host).1 v.host.1 in
        let server = (name-Avoids e.server_name).1 v.server in
        let port : (contains_any e.host ":" && not (library.is_ip e.host)) ≡ false =
          elim v.no_port [
            | inl clean ↦ ground (arith, (colon-Avoids e.host).1 clean)
            | inr ip ↦ ground (arith, ip)
          ] in
        ground (arith, v.named, v.host.0, host, v.port, port, server),
  )

  seen_next :
      (addresses : Map String String) (seen : List String) (at name : String)
      → ((a : String) → has a addresses ≡ contains seen a)
      → (a : String) → has a (insert at name addresses) ≡ contains (at ∷ seen) a
  unfolding contains
  seen_next addresses seen at name same a =
      ground (arith, same a, lookup-insert at a name addresses)

  check_endpoints-AreEndpoints :
      (m : Map String Endpoint) (addresses : Map String String) (seen : List String)
      → ((a : String) → has a addresses ≡ contains seen a)
      → (check_endpoints library m addresses ≡ ok tt) ↔ AreEndpoints seen m
  unfolding check_endpoints address
  check_endpoints-AreEndpoints [] addresses seen same = (λ h. tt, λ v. refl)
  check_endpoints-AreEndpoints ((name, e) ∷ rest) addresses seen same =
      let one = check_endpoint-IsEndpoint name e in
      let at = location e in
      let others =
        check_endpoints-AreEndpoints rest (insert at name addresses) (at ∷ seen)
          (seen_next addresses seen at name same) in
      (
        λ h.
            let (this, fresh, later) =
              in_sequence (check_endpoint library name e) (has at addresses) shared_address
                (check_endpoints library rest (insert at name addresses)) h in
            (one.0 this, sym (same at) ∙ fresh, others.0 later),
        λ v. rw (one.1 v.0, same at, v.1) (others.1 v.2),
      )

no_addresses : (a : String) → is_some (lookup {V = String} a []) ≡ contains [] a
unfolding lookup contains
no_addresses a = refl

checked_ok :
    (checked : Result ConfigError (Unit {0})) (q p : Parameters)
    → (do checked; ok q) ≡ ok p
    → (q ≡ p) × (checked ≡ ok tt)
checked_ok (ok v) q p h = (ground arith, refl)
checked_ok (err e) q p h = cc

parsed_ok :
    (library : Library) (r : Result ConfigError Parameters) (p : Parameters)
    → (do q ← r; check_endpoints library q.external_endpoints []; ok q) ≡ ok p
    → (r ≡ ok p) × (check_endpoints library p.external_endpoints [] ≡ ok tt)
parsed_ok library (ok q) p h =
    let (same, checked) = checked_ok (check_endpoints library q.external_endpoints []) q p h in
    subst
      (λ x.
        (◌≡◌ {A = Result ConfigError Parameters} (ok q) (ok x))
        × (check_endpoints library x.external_endpoints [] ≡ ok tt))
      same (refl, checked)
parsed_ok library (err e) p h = cc

-- ParseParameters accepts exactly the values that set these parameters and identify instances: each
-- value is one JSON object of endpoints, with nothing after it, or a DNS name that is not empty; and
-- every external endpoint has a name, a port and a host that is an address or has no port, no DNS
-- name and no host has a character that one cannot have, and no two endpoints have the same host in
-- lower case with the same port.
pub parse_parameters-AreEndpoints :
    (library : Library) (values : Map String String) (p : Parameters)
    → (parse_parameters library values ≡ ok p) ↔ (
        Sets library (record { external_endpoints = []; server_name = "" }) values p
        × AreEndpoints library [] p.external_endpoints)
unfolding parse_parameters
parse_parameters-AreEndpoints library values p =
    let start : Parameters = record { external_endpoints = []; server_name = "" } in
    let valid = check_endpoints-AreEndpoints library p.external_endpoints [] [] (no_addresses) in
    let set = set_parameters-Sets library start values p in
    (
      λ h.
          let (done, checked) = parsed_ok library (set_parameters library start values) p h in
          (set.0 done, valid.0 checked),
      λ v. rw (set.1 v.0, valid.1 v.1) refl,
    )
