-- ===== src/Settings/Tls.antt =====
-- TLSConfig of internal/server/tls.go. What the files hold when they are read, parsed by the
-- libraries of the language, is the argument `disk`; the verification of a client's chain is the
-- library's.
use cnpg_connect_plugin.Prelude.{
  ◌≤◌, ◌<◌, ◌≡◌, refl, sym, subst, String, Bool, true, false, ◌||◌, not, Option, none, some, arith,
  ltb, string_beq, if◌then◌else◌, get_or,
}
use cnpg_connect_plugin.Prelude.Result.{Result, ok, err, ◌>>=◌, ◌>>◌, bind_ok}
use cnpg_connect_plugin.Api.{Time}

pub record Certificate : Type 0 where
  pub not_before : Time
  pub not_after : Time

pub record Disk : Type 0 where
  -- The leaf of a certificate file and its key file, none where they are no key pair.
  pub key_pair : String → String → Option (Option Certificate)
  -- A trust file, none where it cannot be read; whether it has a valid PEM certificate.
  pub trust : String → Option Bool

pub record TlsConfig : Type 0 where
  pub leaf : Certificate
  -- Whether a client certificate is required and verified.
  pub demands_client : Bool

pub data TlsError : Type 0 where
  no_key_pair bad_certificate outside_validity unreadable_trust empty_trust : TlsError

unfoldable pub check_leaf : Option (Option Certificate) → Time → Result TlsError Certificate
check_leaf none now = err no_key_pair
check_leaf (some none) now = err bad_certificate
check_leaf (some (some leaf)) now =
    if ltb now leaf.not_before || not (ltb now leaf.not_after)
    then err outside_validity
    else ok leaf

unfoldable pub check_trust : Option Bool → Result TlsError (Unit {0})
check_trust none = err unreadable_trust
check_trust (some false) = err empty_trust
check_trust (some true) = ok tt

unfoldable pub with_trust : Certificate → String → Option Bool → Result TlsError TlsConfig
unfolding check_trust
with_trust leaf trust found =
    if string_beq trust ""
    then ok (record { leaf = leaf; demands_client = false })
    else do check_trust found; ok (record { leaf = leaf; demands_client = true })

-- The function `load` of TLSConfig, which also serves each handshake.
unfoldable pub load : Disk → Time → String → String → String → Result TlsError TlsConfig
unfolding check_leaf with_trust
load disk now cert key trust = do
  leaf ← check_leaf (disk.key_pair cert key) now
  with_trust leaf trust (disk.trust trust)

-- The configuration that a handshake is served with, none where it is refused: TLSConfig succeeds
-- with the files at start-up, and the handshake reads the files of its time.
unfoldable pub handshake :
    Disk → Time → Disk → Time → String → String → String → Result TlsError TlsConfig
unfolding load
handshake at_start started now_disk now cert key trust = do
  initial ← load at_start started cert key trust
  load now_disk now cert key trust

checked_leaf :
    (found : Option (Option Certificate)) (now : Time) (leaf : Certificate)
    → check_leaf found now ≡ ok leaf
    → (found ≡ some (some leaf)) × (leaf.not_before ≤ now) × (now < leaf.not_after)
unfolding check_leaf
checked_leaf none now leaf h = ground arith
checked_leaf (some none) now leaf h = ground arith
checked_leaf (some (some l)) now leaf h =
    let e : l ≡ leaf = ground arith in
    (rw e refl, rw (sym e) (ground arith), rw (sym e) (ground arith))

-- What a configuration that was loaded shows of the files and the time.
abbrev pub Loaded : Disk → Time → String → String → String → TlsConfig → Type 0
Loaded disk now cert key trust served =
    (disk.key_pair cert key ≡ some (some served.leaf))
    × (served.leaf.not_before ≤ now)
    × (now < served.leaf.not_after)
    × (served.demands_client ≡ not (string_beq trust ""))
    × ((string_beq trust "" || get_or (disk.trust trust) false) ≡ true)

with_trust_ok :
    (leaf : Certificate) (trust : String) (found : Option Bool) (served : TlsConfig)
    → with_trust leaf trust found ≡ ok served
    → (leaf ≡ served.leaf)
      × (served.demands_client ≡ not (string_beq trust ""))
      × ((string_beq trust "" || get_or found false) ≡ true)
unfolding with_trust check_trust
with_trust_ok leaf trust found served h = (ground arith, ground arith, ground arith)

pub load-Loaded :
    (disk : Disk) (now : Time) (cert key trust : String) (served : TlsConfig)
    → load disk now cert key trust ≡ ok served
    → Loaded disk now cert key trust served
unfolding load
load-Loaded disk now cert key trust served h =
    let (leaf, e, k) =
      bind_ok (check_leaf (disk.key_pair cert key) now)
        (λ leaf. with_trust leaf trust (disk.trust trust)) h in
    let (same, demands, trusted) = with_trust_ok leaf trust (disk.trust trust) served k in
    let (found, after, before) = checked_leaf (disk.key_pair cert key) now leaf e in
    let valid : (disk.key_pair cert key ≡ some (some served.leaf))
        × (served.leaf.not_before ≤ now)
        × (now < served.leaf.not_after) =
      subst
        (λ l. (disk.key_pair cert key ≡ some (some l)) × (l.not_before ≤ now) × (now < l.not_after))
        same (found, after, before) in
    (valid.0, valid.1, valid.2, demands, trusted)

-- However the files have changed since the start, a handshake is served only with the certificate
-- that the files hold at that time and within its validity, and a client certificate is demanded
-- exactly where client trust is configured, whose file then holds a valid certificate.
pub handshake-current :
    (at_start disk : Disk) (started now : Time) (cert key trust : String) (served : TlsConfig)
    → handshake at_start started disk now cert key trust ≡ ok served
    → (disk.key_pair cert key ≡ some (some served.leaf))
      × (served.leaf.not_before ≤ now)
      × (now < served.leaf.not_after)
      × (served.demands_client ≡ not (string_beq trust ""))
      × ((string_beq trust "" || get_or (disk.trust trust) false) ≡ true)
unfolding handshake
handshake-current at_start disk started now cert key trust served h =
    let (initial, e, k) =
      bind_ok (load at_start started cert key trust) (λ _. load disk now cert key trust) h in
    load-Loaded disk now cert key trust served k
