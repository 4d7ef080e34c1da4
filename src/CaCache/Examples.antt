-- ===== src/CaCache/Examples.antt =====
-- A CA that is fetched, served and rotated, and the theorems at it.
use cnpg_connect_plugin.Prelude.{
  ◌≡◌, refl, string_eq, true, false, some, List, [], ◌∷◌, ◌++◌, All, string_beq,
}
use cnpg_connect_plugin.Prelude.Result.{ok}
use cnpg_connect_plugin.Prelude.Map.{lookup, insert, delete}
use cnpg_connect_plugin.Key.{ClusterKey, key_eq, key_beq}
use cnpg_connect_plugin.Api.{ConnectionParameters}
use cnpg_connect_plugin.CaCache.{
  SecretMeta, CachedCa, ReadSecret, cached_connection, current_ca, ca_key, forget_ca, begin_fetch,
  finish_fetch,
}
use cnpg_connect_plugin.CaCache.Certificates.{SecretData, read_public_ca}
use cnpg_connect_plugin.CaCache.History.{
  CaEvent, ca_steps, empty_cache, Contents, FromApi, informs, asks, begins, finishes,
}
use cnpg_connect_plugin.CaCache.Current.{served_ca_current}
use cnpg_connect_plugin.Samples.{cluster_a}

abbrev secret_key : ClusterKey
secret_key = record { namespace = "shop"; name = "orders-ca" }

abbrev version_1 : SecretMeta
version_1 = record { uid = "s1"; resource_version = "1" }

abbrev read_1 : ReadSecret
read_1 = record { uid = "s1"; resource_version = "1"; public = 65 ∷ [] }

abbrev contents_a : Contents
contents_a key uid version = 65 ∷ []

abbrev fetched : List CaEvent
fetched =
    informs secret_key (some version_1)
    ∷ asks cluster_a false
    ∷ begins secret_key true
    ∷ finishes secret_key version_1 (some read_1) false true true
    ∷ []

abbrev entry_1 : CachedCa
entry_1 = record { id = 0; key = secret_key; uid = "s1"; resource_version = "1"; public = 65 ∷ [] }

abbrev served_1 : ConnectionParameters
served_1 = record { database = "app"; server_ca_pem = 65 ∷ [] }

from_api : All (FromApi contents_a) fetched
from_api = (tt, (tt, (tt, (refl, tt))))

serves :
    (cached_connection (ca_steps empty_cache fetched) cluster_a false).1 ≡ some (served_1, entry_1)
unfolding cached_connection ca_steps forget_ca begin_fetch finish_fetch current_ca lookup insert
    delete key_beq string_beq
serves = refl

is_current : current_ca (ca_steps empty_cache fetched) (some entry_1) ≡ true
unfolding cached_connection ca_steps forget_ca begin_fetch finish_fetch current_ca lookup insert
    delete key_beq string_beq
is_current = refl

-- The rotation is seen before its handler runs.
is_rotated :
    current_ca
      (ca_steps empty_cache
        (fetched ++ (informs secret_key (some (record version_1 { resource_version = "2" })) ∷ [])))
      (some entry_1)
    ≡ false
unfolding cached_connection ca_steps forget_ca begin_fetch finish_fetch current_ca lookup insert
    delete key_beq string_beq
is_rotated = refl

served_ca_current_example :
    (meta : SecretMeta) × (lookup (ca_key cluster_a) (ca_steps empty_cache fetched).secrets
      ≡ some meta)
    × (served_1.server_ca_pem ≡ contents_a (ca_key cluster_a) meta.uid meta.resource_version)
served_ca_current_example =
    served_ca_current contents_a fetched cluster_a false served_1 entry_1
      (ca_steps empty_cache fetched) from_api serves is_current

abbrev secret_a : SecretData
secret_a = record {
  uid = "s1";
  resource_version = "1";
  blocks =
      record { type = "PRIVATE KEY"; parses = false; encoded = 75 ∷ [] }
      ∷ record { type = "CERTIFICATE"; parses = true; encoded = 65 ∷ [] }
      ∷ [];
}

reads_certificate : read_public_ca (some secret_a) ≡ ok read_1
unfolding read_public_ca string_beq
reads_certificate = refl
