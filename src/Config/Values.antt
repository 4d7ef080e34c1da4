-- ===== src/Config/Values.antt =====
-- What the values of a plugin entry set (the first loop of ParseParameters,
-- internal/config/cluster.go).
use Prim.Native.Char.{code}
use cnpg_connect_plugin.Prelude.{
  ℕ, String, string_eq, ◌≡◌, ◌≢◌, ◌⊎◌, ◌↔◌, refl, sym, ap, ◌∙◌, false, ◌||◌, some, List, [], ◌∷◌,
  arith, nat_eq, string_beq, string_beq_iff, contains, Bool-cases, Option-cases, inl, inr,
}
use cnpg_connect_plugin.Prelude.Result.{ok}
use cnpg_connect_plugin.Prelude.Map.{Map}
use cnpg_connect_plugin.Api.{Endpoint}
use cnpg_connect_plugin.Kube.{Parameters}
use cnpg_connect_plugin.Config.{
  Library, has_char, contains_any, not_in_host, not_in_name, set_parameter, set_parameters,
}

-- No character of the text has one of these numbers.
abbrev pub Avoids : List ℕ → String → Type 0
Avoids codes String.[] = Unit {0}
Avoids codes (String.◌∷◌ c s) = (contains codes (code c) ≡ false) × Avoids codes s

-- "/", " ", "\", "?", "#", "@", tab, carriage return and line feed.
abbrev pub host_codes : List ℕ
host_codes = 47 ∷ 32 ∷ 92 ∷ 63 ∷ 35 ∷ 64 ∷ 9 ∷ 13 ∷ 10 ∷ []

-- ":"
abbrev pub colon_code : List ℕ
colon_code = 58 ∷ []

-- Those of a host, and ":".
abbrev pub name_codes : List ℕ
name_codes = 47 ∷ 32 ∷ 92 ∷ 63 ∷ 35 ∷ 64 ∷ 58 ∷ 9 ∷ 13 ∷ 10 ∷ []

avoids_from :
    (chars : String) (codes : List ℕ)
    → ((c : ℕ) → has_char chars c ≡ contains codes c)
    → (s : String) → (contains_any s chars ≡ false) ↔ Avoids codes s
unfolding contains_any
avoids_from chars codes same String.[] = (λ h. tt, λ h. refl)
avoids_from chars codes same (String.◌∷◌ c s) =
    let later = avoids_from chars codes same s in
    (
      λ h. (ground (arith, h, same (code c)), later.0 (ground (arith, h))),
      λ (here, rest). ground (arith, here, same (code c), later.1 rest),
    )

pub host-Avoids : (s : String) → (contains_any s not_in_host ≡ false) ↔ Avoids host_codes s
unfolding has_char contains
host-Avoids = avoids_from not_in_host host_codes (λ c. refl)

pub name-Avoids : (s : String) → (contains_any s not_in_name ≡ false) ↔ Avoids name_codes s
unfolding has_char contains
name-Avoids = avoids_from not_in_name name_codes (λ c. refl)

pub colon-Avoids : (s : String) → (contains_any s ":" ≡ false) ↔ Avoids colon_code s
unfolding has_char contains
colon-Avoids = avoids_from ":" colon_code (λ c. refl)

-- Each value is one JSON object of endpoints or a DNS name, and sets its field.
abbrev pub Sets : Library → Parameters → Map String String → Parameters → Type 0
Sets library q [] p = q ≡ p
Sets library q ((key, value) ∷ rest) p =
    ((key ≡ "externalEndpoints")
      × ((m : Map String Endpoint) × (library.decode_endpoints value ≡ some (m, false))
          × Sets library (record q { external_endpoints = m }) rest p))
    ⊎ ((key ≡ "serverName")
        × (value ≢ "")
        × Avoids name_codes value
        × Sets library (record q { server_name = value }) rest p)

module _ (library : Library) (q : Parameters) (key value : String) (rest : Map String String) where
  endpoints_set :
      (m : Map String Endpoint)
      → key ≡ "externalEndpoints"
      → library.decode_endpoints value ≡ some (m, false)
      → set_parameters library q ((key, value) ∷ rest)
        ≡ set_parameters library (record q { external_endpoints = m }) rest
  unfolding set_parameters set_parameter
  endpoints_set m e d = rw ((string_beq_iff key "externalEndpoints").1 e, d) refl

  name_set :
      key ≡ "serverName"
      → value ≢ ""
      → Avoids name_codes value
      → set_parameters library q ((key, value) ∷ rest)
        ≡ set_parameters library (record q { server_name = value }) rest
  unfolding set_parameters set_parameter string_beq
  name_set e present clean =
      let other : string_beq key "externalEndpoints" ≡ false =
        ap (λ k. string_beq k "externalEndpoints") e in
      let filled : string_beq value "" ≡ false = elim (Bool-cases (string_beq value "")) [
        | inl y ↦ absurd (present ((string_beq_iff value "").0 y))
        | inr n ↦ n
      ] in
      rw (other, (string_beq_iff key "serverName").1 e, filled, (name-Avoids value).1 clean) refl

  -- An accepted value is of one of the two kinds.
  accepted_kind :
      (p : Parameters)
      → set_parameters library q ((key, value) ∷ rest) ≡ ok p
      → ((key ≡ "externalEndpoints")
          × ((m : Map String Endpoint) × (library.decode_endpoints value ≡ some (m, false))))
        ⊎ ((key ≡ "serverName") × (value ≢ "") × Avoids name_codes value)
  unfolding set_parameters set_parameter
  accepted_kind p h = elim (Bool-cases (string_beq key "externalEndpoints")) [
    | inl e ↦ elim (Option-cases (library.decode_endpoints value)) [
      | inl d ↦ absurd (ground (arith, h, e, d))
      | inr ((m, trailing), d) ↦ elim (Bool-cases trailing) [
        | inl t ↦ absurd (ground (arith, h, e, d, t))
        | inr t ↦
            inl ((string_beq_iff key "externalEndpoints").0 e, (m, d ∙ ap (λ b. some (m, b)) t))
      ]
    ]
    | inr e ↦ elim (Bool-cases (string_beq key "serverName")) [
      | inr f ↦ absurd (ground (arith, h, e, f))
      | inl f ↦ elim (Bool-cases (string_beq value "" || contains_any value not_in_name)) [
        | inl bad ↦ absurd (ground (arith, h, e, f, bad))
        | inr good ↦ inr (
          (string_beq_iff key "serverName").0 f,
          λ empty. absurd (ground (arith, good, (string_beq_iff value "").1 empty)),
          (name-Avoids value).0 (ground (arith, good)),
        )
      ]
    ]
  ]

pub set_parameters-Sets :
    (library : Library) (q : Parameters) (values : Map String String) (p : Parameters)
    → (set_parameters library q values ≡ ok p) ↔ Sets library q values p
set_parameters-Sets library q [] p = unfold set_parameters in (λ h. ground (arith, h), λ h. ap ok h)
set_parameters-Sets library q ((key, value) ∷ rest) p = (
  λ h. elim (accepted_kind library q key value rest p h) [
    | inl (e, (m, d)) ↦ inl (
      e,
      (
        m,
        d,
        (set_parameters-Sets library (record q { external_endpoints = m }) rest p).0
            (sym (endpoints_set library q key value rest m e d) ∙ h),
      ),
    )
    | inr (e, present, clean) ↦ inr (
      e,
      present,
      clean,
      (set_parameters-Sets library (record q { server_name = value }) rest p).0
          (sym (name_set library q key value rest e present clean) ∙ h),
    )
  ],
  λ h. elim h [
    | inl (e, (m, d, later)) ↦
        endpoints_set library q key value rest m e d
        ∙ (set_parameters-Sets library (record q { external_endpoints = m }) rest p).1 later
    | inr (e, present, clean, later) ↦
        name_set library q key value rest e present clean
        ∙ (set_parameters-Sets library (record q { server_name = value }) rest p).1 later
  ],
)
