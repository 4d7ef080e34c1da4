-- ===== src/CaCache/Certificates.antt =====
-- readPublicCA of internal/observer/connection.go: the certificates that are published of a Secret.
-- The blocks that pem.Decode finds in the text are the argument, up to the first that it does not.
use cnpg_connect_plugin.Prelude.{
  ℕ, ◌<◌, ◌≡◌, String, Bool, true, not, Option, none, some, List, [], ◌∷◌, ◌++◌, arith,
  if◌then◌else◌, string_beq, nat_beq, length, filter_by, All, Bool-cases, inl, inr,
}
use cnpg_connect_plugin.Prelude.Result.{Result, ok, err, ◌>>=◌, ◌>>◌, refuse_if}
use cnpg_connect_plugin.CaCache.{ReadSecret}

pub record PemBlock : Type 0 where
  pub type : String
  -- Whether x509.ParseCertificate accepts its bytes.
  pub parses : Bool
  -- The bytes in a block of the type CERTIFICATE without headers, encoded.
  pub encoded : List ℕ

pub record SecretData : Type 0 where
  pub uid : String
  pub resource_version : String
  -- The blocks of ca.crt.
  pub blocks : List PemBlock

pub data CaError : Type 0 where
  unreadable bad_certificate no_certificates : CaError

-- The loop over the blocks; `found` is what the rounds before have appended.
unfoldable pub collect : List PemBlock → List ℕ → Result CaError (List ℕ)
collect [] found = ok found
collect (b ∷ bs) found =
    let skipped = collect bs found in
    let appended = collect bs (found ++ b.encoded) in
    if not (string_beq b.type "CERTIFICATE")
    then skipped
    else if not b.parses
    then err bad_certificate
    else appended

-- `found` is none where the Secret cannot be read.
unfoldable pub read_public_ca : Option SecretData → Result CaError ReadSecret
unfolding collect
read_public_ca none = err unreadable
read_public_ca (some secret) = do
  public ← collect secret.blocks []
  refuse_if (nat_beq (length public) 0) no_certificates
  ok (record { uid = secret.uid; resource_version = secret.resource_version; public = public })

abbrev pub is_certificate : PemBlock → Bool
is_certificate b = string_beq b.type "CERTIFICATE"

-- The encodings of the certificates, one after the other.
pub encodings : List ℕ → List PemBlock → List ℕ
encodings start [] = start
encodings start (b ∷ bs) = encodings (start ++ b.encoded) bs

collect-encodings :
    (bs : List PemBlock) (found public : List ℕ)
    → collect bs found ≡ ok public
    → (public ≡ encodings found (filter_by is_certificate bs))
      × All (λ (b : PemBlock). b.parses ≡ true) (filter_by is_certificate bs)
unfolding collect encodings
collect-encodings [] found public h = (ground arith, tt)
collect-encodings (b ∷ bs) found public h = elim (Bool-cases (string_beq b.type "CERTIFICATE")) [
  | inl e ↦ elim (Bool-cases b.parses) [
    | inl p ↦
        let (same, parse) =
          collect-encodings bs (found ++ b.encoded) public (ground (arith, e, p)) in
        rw e (same, (p, parse))
    | inr p ↦ absurd (ground (arith, e, p))
  ]
  | inr e ↦ rw e (collect-encodings bs found public (ground (arith, e)))
]

public_parts :
    (blocks : List PemBlock) (uid version : String) (collected : Result CaError (List ℕ))
    (s : ReadSecret)
    → (do
      public ← collected
      refuse_if (nat_beq (length public) 0) no_certificates
      ok (record { uid = uid; resource_version = version; public = public }))
      ≡ ok s
    → (collected ≡ ok s.public) × (0 < length s.public)
public_parts blocks uid version (ok public) s h = (ground arith, ground arith)
public_parts blocks uid version (err e) s h = cc

-- Only certificates are published of a Secret: the text is the encodings of the CERTIFICATE blocks
-- in their order, of which there is one and each parses, so that a private key in the same entry is
-- left out, and one bad certificate refuses the whole.
pub public_only_certificates :
    (secret : SecretData) (s : ReadSecret)
    → read_public_ca (some secret) ≡ ok s
    → (s.public ≡ encodings [] (filter_by is_certificate secret.blocks))
      × (0 < length s.public)
      × All (λ (b : PemBlock). b.parses ≡ true) (filter_by is_certificate secret.blocks)
unfolding read_public_ca
public_only_certificates secret s h =
    let (collected, some_found) =
      public_parts secret.blocks secret.uid secret.resource_version (collect secret.blocks []) s
        h in
    let (same, parse) = collect-encodings secret.blocks [] s.public collected in
    (same, some_found, parse)
