-- ===== src/Discovery/Requests/Bearer.antt =====
-- Whom authorize (internal/discovery/grpc.go) lets in.
use Prim.Native.Char.{Char, code}
use text.Mathlib.TextEquality.{Char-path}
use cnpg_connect_plugin.Prelude.{
  ◌≡◌, ◌↔◌, ◌⊎◌, refl, sym, ap, subst, String, Bool, true, false, ◌||◌, some, List, [], ◌∷◌, arith,
  nat_beq, nat_beq_iff, string_beq, string_beq_iff, Bool-cases, Option-cases, inl, inr,
}
use cnpg_connect_plugin.Routing.{Digest, digest_beq, digest_beq_iff}
use cnpg_connect_plugin.Discovery.Requests.{Server, new_server, cut_space, equal_fold, authorize}

abbrev space : Char
space = " "

-- A text, a space and another text.
unfoldable pub spaced : String → String → String
spaced String.[] t = String.◌∷◌ space t
spaced (String.◌∷◌ c s) t = String.◌∷◌ c (spaced s t)

unfoldable pub has_space : String → Bool
has_space String.[] = false
has_space (String.◌∷◌ c s) = nat_beq (code c) 32 || has_space s

cut-spaced : (s t : String) → has_space s ≡ false → cut_space (spaced s t) ≡ some (s, t)
unfolding cut_space spaced has_space
cut-spaced String.[] t h = refl
cut-spaced (String.◌∷◌ c s) t h =
    let d : nat_beq (code c) 32 ≡ false = ground (arith, h) in
    rw (d, cut-spaced s t (ground (arith, h))) refl

-- A cut gives the text before the first space and the text after it.
cut_parts :
    (v : String) (p : String × String)
    → cut_space v ≡ some p
    → (v ≡ spaced p.0 p.1) × (has_space p.0 ≡ false)
unfolding cut_space spaced has_space
cut_parts String.[] p h = cc
cut_parts (String.◌∷◌ c s) p h = elim (Bool-cases (nat_beq (code c) 32)) [
  | inl d ↦
      let here : ◌≡◌ {A = String × String} ("", s) p = ground (arith, h, d) in
      let same : space ≡ c = Char-path space c (sym ((nat_beq_iff (code c) 32).0 d)) in
      subst (λ (r : String × String). (String.◌∷◌ c s ≡ spaced r.0 r.1) × (has_space r.0 ≡ false))
        here (ap (λ x. String.◌∷◌ x s) (sym same), refl)
  | inr d ↦ elim (Option-cases (cut_space s)) [
    | inl e ↦ absurd (ground (arith, h, d, e))
    | inr (q, e) ↦
        let here : ◌≡◌ {A = String × String} (String.◌∷◌ c q.0, q.1) p = ground (arith, h, d, e) in
        let (whole, spaceless) = cut_parts s q e in
        subst (λ (r : String × String). (String.◌∷◌ c s ≡ spaced r.0 r.1) × (has_space r.0 ≡ false))
          here (ap (λ t. String.◌∷◌ c t) whole, ground (arith, d, spaceless))
  ]
]

-- The one value of the header is a bearer token of this digest.
abbrev pub IsBearer : (String → Digest) → Digest → List String → Type 0
IsBearer sha256 expected values =
    (scheme : String) × (given : String) × (values ≡ spaced scheme given ∷ [])
    × (has_space scheme ≡ false)
    × (equal_fold scheme "Bearer" ≡ true)
    × (expected ≡ sha256 given)

module _ (sha256 : String → Digest) (token : String) where
  abbrev server : Server
  server = new_server sha256 token

  unprotected : (values : List String) → token ≡ "" → authorize sha256 server values ≡ true
  unfolding new_server authorize
  unprotected [] e = ground (arith, string_beq_iff token "", e)
  unprotected (v ∷ []) e = ground (arith, string_beq_iff token "", e)
  unprotected (v ∷ w ∷ rest) e = ground (arith, string_beq_iff token "", e)

  bearer_accepted :
      (values : List String)
      → IsBearer sha256 (sha256 token) values
      → authorize sha256 server values ≡ true
  unfolding new_server authorize
  bearer_accepted values (scheme, given, e, spaceless, folded, digest) =
      let equal = (digest_beq_iff (sha256 token) (sha256 given)).1 digest in
      subst (λ vs. authorize sha256 server vs ≡ true) (sym e)
        (rw (cut-spaced scheme given spaceless, folded, equal) (ground arith))

  accepted_value :
      (value : String)
      → authorize sha256 server (value ∷ []) ≡ true
      → (token ≡ "") ⊎ IsBearer sha256 (sha256 token) (value ∷ [])
  unfolding new_server authorize
  accepted_value value h = elim (Bool-cases (string_beq token "")) [
    | inl e ↦ inl ((string_beq_iff token "").0 e)
    | inr closed ↦ elim (Option-cases (cut_space value)) [
      | inl e ↦ absurd (ground (arith, h, closed, e))
      | inr (p, e) ↦
          let (whole, spaceless) = cut_parts value p e in
          let folded : equal_fold p.0 "Bearer" ≡ true = ground (arith, h, closed, e) in
          let equal : digest_beq (sha256 token) (sha256 p.1) ≡ true =
            ground (arith, h, closed, e) in
          inr (
            p.0,
            p.1,
            ap (λ v. v ∷ []) whole,
            spaceless,
            folded,
            (digest_beq_iff (sha256 token) (sha256 p.1)).0 equal,
          )
    ]
  ]

  accepted_values :
      (values : List String)
      → authorize sha256 server values ≡ true
      → (token ≡ "") ⊎ IsBearer sha256 (sha256 token) values
  unfolding new_server authorize
  accepted_values [] h = inl (ground (arith, string_beq_iff token "", h))
  accepted_values (v ∷ []) h = accepted_value v h
  accepted_values (v ∷ w ∷ rest) h = inl (ground (arith, string_beq_iff token "", h))

  -- A server lets a request in if and only if no token is configured, or the header has one value,
  -- a scheme that is "Bearer" in any case, a space and a token of the configured token's digest.
  pub authorize-IsBearer :
      (values : List String)
      → (authorize sha256 server values ≡ true)
        ↔ ((token ≡ "") ⊎ IsBearer sha256 (sha256 token) values)
  authorize-IsBearer values = (
    accepted_values values,
    λ h. elim h [ inl e ↦ unprotected values e | inr bearer ↦ bearer_accepted values bearer ],
  )
