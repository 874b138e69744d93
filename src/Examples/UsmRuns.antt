-- ===== src/Examples/UsmRuns.antt =====
-- Stores with one user, with none, and of another engine; `loads` answers by the first byte.
use jt_snmpd.Prelude.{◌≡◌, refl, false, some, List, [], ◌∷◌}
use jt_snmpd.Prelude.Dict.{has}
use jt_snmpd.Usm.{check_algorithms, accepted, UsmUser, items, not_json, object, Host, Problem}
use jt_snmpd.Usm.Store.{user_items, store_to_json, File, absent, decrypted, load_store}
use jt_snmpd.Usm.Load.{AreUsable, load_store-saved}
use jt_snmpd.Usm.Safe.{load_store-AreUsable, load_store-foreign}

abbrev librenms : UsmUser
librenms = record {
  name = "librenms";
  auth = "SHA-256";
  priv = "AES-128";
  auth_key = 171 ∷ [];
  priv_key = 171 ∷ [];
}

abbrev key_host : Host
key_host = record { loads = λ raw. not_json; hex = λ key. "ab"; fromhex = λ s. some (171 ∷ []) }

abbrev host : Host
host = record key_host { loads = λ raw. store_to_json key_host (171 ∷ []) (librenms ∷ []) }

abbrev clone : Host
clone = record key_host { loads = λ raw. object (some "cd") (items []) }

abbrev stored : File
stored = decrypted (1 ∷ [])

algorithms_accepted : check_algorithms "SHA-256" "AES-128" ≡ accepted false
unfolding check_algorithms has
algorithms_accepted = refl

one_user_loaded : load_store host (171 ∷ []) stored absent ≡ some (librenms ∷ [], [])
unfolding store_to_json user_items
one_user_loaded =
    load_store-saved host (171 ∷ []) (1 ∷ []) (librenms ∷ []) absent (refl, refl, tt)
      ((refl, false, algorithms_accepted), tt) refl

load_store-saved_example : load_store host (171 ∷ []) stored absent ≡ some (librenms ∷ [], [])
unfolding store_to_json user_items
load_store-saved_example =
    load_store-saved host (171 ∷ []) (1 ∷ []) (librenms ∷ []) absent (refl, refl, tt)
      ((refl, false, algorithms_accepted), tt) refl

load_store-AreUsable_example : AreUsable (librenms ∷ [])
load_store-AreUsable_example =
    load_store-AreUsable host (171 ∷ []) stored absent (librenms ∷ []) [] one_user_loaded

load_store-foreign_example :
    (problems : List Problem) × (load_store clone (171 ∷ []) stored absent ≡ some ([], problems))
load_store-foreign_example =
    load_store-foreign clone (171 ∷ []) stored absent (some "cd", items [], refl, refl) tt
