-- ===== src/Usm.antt =====
-- deploy/usm.py: the algorithms of SNMPv3 users and the store that keeps the users' keys. Decryption and
-- `json.loads` are a parameter (`Host`), which gives a document by the tests that the loader makes on it.
pub mod Store
pub mod Load
pub mod Safe
use jt_snmpd.Prelude.{
  ℕ, Bool, true, false, ◌||◌, not, Option, none, some, List, [], ◌∷◌, ◌++◌, map, if◌then◌else◌,
  String, str_eq,
}
use jt_snmpd.Prelude.Dict.{Dict, get, has}

-- the protocols, with the names of pysnmp's constants
abbrev pub auth_protocols : Dict String
auth_protocols =
    ("SHA-224", "USM_AUTH_HMAC128_SHA224")
    ∷ ("SHA-256", "USM_AUTH_HMAC192_SHA256")
    ∷ ("SHA-384", "USM_AUTH_HMAC256_SHA384")
    ∷ ("SHA-512", "USM_AUTH_HMAC384_SHA512")
    ∷ []

abbrev pub priv_protocols : Dict String
priv_protocols =
    ("AES-128", "USM_PRIV_CFB128_AES")
    ∷ ("AES-192", "USM_PRIV_CFB192_AES")
    ∷ ("AES-256", "USM_PRIV_CFB256_AES")
    ∷ []

abbrev pub refused_auth : Dict String
refused_auth =
    ("MD5", "HMAC-MD5 is broken; use SHA-256")
    ∷ ("SHA", "HMAC-SHA-1 is deprecated for this use; use SHA-256")
    ∷ ("SHA-1", "HMAC-SHA-1 is deprecated for this use; use SHA-256")
    ∷ []

abbrev pub refused_priv : Dict String
refused_priv =
    ("DES", "56-bit DES is not a defence; use AES-128")
    ∷ ("3DES", "3DES in USM never left draft; use AES-128")
    ∷ []

pub data UsmError : Type 0 where
  auth_refused priv_refused unknown_auth unknown_priv : UsmError

-- the exception, or whether there is a warning
pub data Checked : Type 0 where
  raised : UsmError → Checked
  accepted : Bool → Checked

unfoldable pub check_algorithms : String → String → Checked
check_algorithms auth priv =
    if has auth refused_auth
    then raised auth_refused
    else if has priv refused_priv
    then raised priv_refused
    else if not (has auth auth_protocols)
    then raised unknown_auth
    else if not (has priv priv_protocols)
    then raised unknown_priv
    else accepted (str_eq priv "AES-192" || str_eq priv "AES-256")

abbrev pub Bytes : Type 0
Bytes = List ℕ

pub record UsmUser : Type 0 where
  pub name : String
  pub auth : String
  pub priv : String
  pub auth_key : Bytes
  pub priv_key : Bytes

-- a value of a user entry: a text, or of another type
pub data Value : Type 0 where
  text : String → Value
  no_text : Value

pub data Item : Type 0 where
  fields : Dict Value → Item
  no_dict : Item

-- what `data.get("users") or []` is: something to go through, or a number or a truth value, which raise
pub data Users : Type 0 where
  items : List Item → Users
  not_iterable : Users

pub data Document : Type 0 where
  not_json : Document
  no_object : Document
  -- the engine ID if it is a text, and the users
  object : Option String → Users → Document

pub data Problem : Type 0 where
  not_parsed not_an_object other_engine bad_entry bad_user unreadable used_bak : Problem

pub record Host : Type 0 where
  -- json.loads of the decrypted bytes
  pub loads : Bytes → Document
  -- bytes.hex and bytes.fromhex
  pub hex : Bytes → String
  pub fromhex : String → Option Bytes

abbrev pub text_of : Option Value → Option String
text_of none = none
text_of (some (text s)) = some s
text_of (some no_text) = none

module _ (host : Host) where
  abbrev pub key_of : Option Value → Option Bytes
  key_of none = none
  key_of (some no_text) = none
  key_of (some (text s)) = host.fromhex s

  abbrev pub make_user : String → String → String → Option Bytes → Option Bytes → Option UsmUser
  make_user name auth priv none q = none
  make_user name auth priv (some k) none = none
  make_user name auth priv (some k) (some q) =
      some (record { name = name; auth = auth; priv = priv; auth_key = k; priv_key = q })

  abbrev pub if_accepted : Checked → Option UsmUser → Option UsmUser
  if_accepted (raised e) u = none
  if_accepted (accepted w) u = u

  abbrev pub named_user :
      Dict Value → Option String → Option String → Option String → Option UsmUser
  named_user d none auth priv = none
  named_user d (some name) none priv = none
  named_user d (some name) (some auth) none = none
  named_user d (some name) (some auth) (some priv) =
      if str_eq name ""
      then none
      else if_accepted (check_algorithms auth priv)
          (make_user name auth priv (key_of (get "auth_key" d)) (key_of (get "priv_key" d)))

  -- the `try` in the loop over the entries; `none` is an exception, which it catches
  unfoldable pub read_user : Dict Value → Option UsmUser
  unfolding check_algorithms
  read_user d =
      named_user d (text_of (get "name" d)) (text_of (get "auth" d)) (text_of (get "priv" d))

  abbrev pub add_user : Option UsmUser → List UsmUser × List Problem → List UsmUser × List Problem
  add_user none r = (r.0, bad_user ∷ r.1)
  add_user (some u) r = (u ∷ r.0, r.1)

  unfoldable pub read_users : List Item → List UsmUser × List Problem
  unfolding read_user
  read_users [] = ([], [])
  read_users (no_dict ∷ rest) = let r = read_users rest in (r.0, bad_entry ∷ r.1)
  read_users (fields d ∷ rest) = let r = read_users rest in add_user (read_user d) r
