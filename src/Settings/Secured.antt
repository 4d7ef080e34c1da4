-- ===== src/Settings/Secured.antt =====
-- What run (cmd/cnpg-connect-plugin/main.go) has established when it starts the servers.
use cnpg_connect_plugin.Prelude.{
  ◌≤◌, ◌≡◌, ◌⊎◌, refl, subst, String, Bool, true, false, not, Option, none, some, arith,
  if◌then◌else◌, Bool-cases, inl, inr, ap, ◌∙◌,
}
use cnpg_connect_plugin.Prelude.Result.{Result, ok, err, ◌>>=◌, refuse_if, reword, reword_ok}
use cnpg_connect_plugin.Api.{Time}
use cnpg_connect_plugin.Observer.Options.{Options, check_options}
use cnpg_connect_plugin.Settings.{Settings, empty, has_credentials, validate, observer_options}
use cnpg_connect_plugin.Settings.Accepted.{IsAccepted, validate-IsAccepted}
use cnpg_connect_plugin.Settings.Token.{
  read_token, read_token-IsToken, byte_length, has_unprintable,
}
use cnpg_connect_plugin.Settings.Tls.{Disk, TlsConfig, TlsError, load, load-Loaded}
use cnpg_connect_plugin.Settings.Startup.{
  RuntimeOptions, StartError, discovery_tls, auth_token, plain_options, with_security, secure,
  in_order, start, no_kubernetes, bad_plugin_tls, bad_discovery_tls, bad_token, bad_options,
  invalid,
}

-- The operator's listener has TLS and demands client certificates; the discovery listener has TLS
-- or is declared plaintext; the token, where a file is named, is long and printable.
pub record IsSecured (s : Settings) (r : RuntimeOptions) : Type 0 where
  pub plugin : (c : TlsConfig) × (r.plugin_tls ≡ some c) × (c.demands_client ≡ true)
  pub discovery : (s.discovery_plaintext ≡ true) ⊎ ((c : TlsConfig) × (r.discovery_tls ≡ some c))
  pub token :
      (empty s.auth_token_file ≡ true)
      ⊎ ((32 ≤ byte_length r.token) × (has_unprintable r.token ≡ false))

configured :
    (r : Result TlsError TlsConfig) (found : Option TlsConfig)
    → (reword bad_discovery_tls r >>= λ c. ok (some c)) ≡ ok found
    → (c : TlsConfig) × (found ≡ some c)
configured (ok c) found h = (c, ground arith)
configured (err e) found h = cc

discovery_secured :
    (disk : Disk) (now : Time) (s : Settings) (found : Option TlsConfig)
    → discovery_tls disk now s ≡ ok found
    → (s.discovery_plaintext ≡ true) ⊎ ((c : TlsConfig) × (found ≡ some c))
unfolding discovery_tls
discovery_secured disk now s found h = elim (Bool-cases s.discovery_plaintext) [
  | inl e ↦ inl e
  | inr e ↦ inr (
      configured (load disk now s.discovery_cert s.discovery_key "") found (
        subst
          (λ b.
            (if b
              then ok none
              else (reword bad_discovery_tls (load disk now s.discovery_cert s.discovery_key "")
                  >>= λ c. ok (some c)))
            ≡ ok found)
          e h))
]

token_valid :
    (file : Option String) (token : String)
    → read_token file ≡ ok token
    → (32 ≤ byte_length token) × (has_unprintable token ≡ false)
token_valid none token h = unfold read_token in cc
token_valid (some file) token h =
    let (_, long, printable, _) = read_token-IsToken file token h in (long, printable)

token_secured :
    (text : String → Option String) (s : Settings) (token : String)
    → auth_token text s ≡ ok token
    → (empty s.auth_token_file ≡ true)
      ⊎ ((32 ≤ byte_length token) × (has_unprintable token ≡ false))
unfolding auth_token
token_secured text s token h = elim (Bool-cases (empty s.auth_token_file)) [
  | inl e ↦ inl e
  | inr e ↦ inr (
      token_valid (text s.auth_token_file) token (
        reword_ok bad_token (read_token (text s.auth_token_file)) (
          subst
            (λ b.
              (if b then ok "" else reword bad_token (read_token (text s.auth_token_file)))
              ≡ ok token)
            e h)))
]

insecure_start :
    (s : Settings) (r : RuntimeOptions)
    → plain_options s ≡ r
    → (r.plugin_tls ≡ none) × (r.discovery_tls ≡ none) × (r.token ≡ "")
unfolding plain_options
insecure_start s r h =
    subst (λ x. (x.plugin_tls ≡ none) × (x.discovery_tls ≡ none) × (x.token ≡ "")) h
      (refl, refl, refl)

ok_injective :
    (a b : RuntimeOptions) → ◌≡◌ {A = Result StartError RuntimeOptions} (ok a) (ok b) → a ≡ b
ok_injective a b h = ground arith

secured_parts :
    (plain : RuntimeOptions) (p : Result StartError TlsConfig)
    (d : Result StartError (Option TlsConfig)) (t : Result StartError String) (r : RuntimeOptions)
    → with_security plain p d t ≡ ok r
    → (c : TlsConfig) × (p ≡ ok c)
      × (d ≡ ok r.discovery_tls)
      × (t ≡ ok r.token)
      × (r.plugin_tls ≡ some c)
secured_parts plain (ok c) (ok d) (ok t) r h = (c, refl, ground arith, ground arith, ground arith)
secured_parts plain (err e) d t r h = cc
secured_parts plain (ok c) (err e) t r h = cc
secured_parts plain (ok c) (ok d) (err e) r h = cc

with_security-IsSecured :
    (disk : Disk) (text : String → Option String) (now : Time) (s : Settings) (r : RuntimeOptions)
    → with_security
        (plain_options s)
        (reword bad_plugin_tls (load disk now s.server_cert s.server_key s.client_ca))
        (discovery_tls disk now s)
        (auth_token text s)
      ≡ ok r
    → empty s.client_ca ≡ false
    → IsSecured s r
with_security-IsSecured disk text now s r h given =
    let found = load disk now s.server_cert s.server_key s.client_ca in
    let (c, p, d, t, tls) =
      secured_parts (plain_options s) (reword bad_plugin_tls found) (discovery_tls disk now s)
        (auth_token text s) r h in
    let loaded =
      load-Loaded disk now s.server_cert s.server_key s.client_ca c
        (reword_ok bad_plugin_tls found p) in
    record {
      plugin = (c, tls, loaded.3 ∙ ap not given);
      discovery = discovery_secured disk now s r.discovery_tls d;
      token = token_secured text s r.token t;
    }

-- The outcome of the two branches of `secure`.
abbrev Branches : Disk → (String → Option String) → Time → Settings → RuntimeOptions → Bool → Type 0
Branches disk text now s r b =
    (if b
      then ok (plain_options s)
      else with_security (plain_options s)
          (reword bad_plugin_tls (load disk now s.server_cert s.server_key s.client_ca))
          (discovery_tls disk now s) (auth_token text s))
    ≡ ok r

secure-IsSecured :
    (disk : Disk) (text : String → Option String) (now : Time) (s : Settings) (r : RuntimeOptions)
    → IsAccepted s
    → secure disk text now s ≡ ok r
    → ((s.insecure ≡ true)
        × (has_credentials s ≡ false)
        × (r.plugin_tls ≡ none)
        × (r.discovery_tls ≡ none)
        × (r.token ≡ ""))
      ⊎ ((s.insecure ≡ false) × IsSecured s r)
unfolding secure
secure-IsSecured disk text now s r v h = elim v.credentials [
  | inl (e, none_given) ↦
      let there : Branches disk text now s r true = subst (Branches disk text now s r) e h in
      let (plugin, discovery, token) = insecure_start s r (ok_injective _ _ there) in
      inl (e, none_given, plugin, discovery, token)
  | inr (e, given, _) ↦ inr (
    e,
    with_security-IsSecured disk text now s r (subst (Branches disk text now s r) e h)
        (ground (arith, given)),
  )
]

start_parts :
    (validated : Result StartError (Unit {0})) (secured : Result StartError RuntimeOptions)
    (connected : Result StartError (Unit {0})) (observable : Result StartError Options)
    (r : RuntimeOptions)
    → in_order validated secured connected observable ≡ ok r
    → (validated ≡ ok tt) × (secured ≡ ok r)
start_parts (ok v) (ok o) (ok k) (ok a) r h = (refl, h)
start_parts (err e) o c a r h = cc
start_parts (ok v) (err e) c a r h = cc
start_parts (ok v) (ok o) (err e) a r h = cc
start_parts (ok v) (ok o) (ok k) (err e) r h = cc

-- A start with -insecure has no credentials at all; every other start has the operator's listener
-- demand a client certificate under TLS, has TLS on the discovery listener unless a gateway is
-- declared to end it, and where a token file is named, a token of at least 32 printable characters.
pub start-IsSecured :
    (disk : Disk) (text : String → Option String) (now : Time) (kubernetes : Bool) (s : Settings)
    (r : RuntimeOptions)
    → start disk text now kubernetes s ≡ ok r
    → ((s.insecure ≡ true)
        × (has_credentials s ≡ false)
        × (r.plugin_tls ≡ none)
        × (r.discovery_tls ≡ none)
        × (r.token ≡ ""))
      ⊎ ((s.insecure ≡ false) × IsSecured s r)
unfolding start
start-IsSecured disk text now kubernetes s r h =
    let (validated, secured) =
      start_parts (reword invalid (validate s)) (secure disk text now s)
        (refuse_if (not kubernetes) no_kubernetes)
        (reword bad_options (check_options true (observer_options s))) r h in
    let v = (validate-IsAccepted s).0 (reword_ok invalid (validate s) validated) in
    secure-IsSecured disk text now s r v secured
