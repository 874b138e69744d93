-- ===== src/Usm/Store.antt =====
-- `store_to_json`, `store_from_json` and `load_store` of deploy/usm.py.
use jt_snmpd.Prelude.{
  Bool, true, false, ◌||◌, not, Option, none, some, List, [], ◌∷◌, ◌++◌, if◌then◌else◌, String,
  str_eq,
}
use jt_snmpd.Prelude.Dict.{Dict}
use jt_snmpd.Usm.{
  Bytes, UsmUser, Value, text, Item, fields, Users, items, not_iterable, Document, not_json,
  no_object, object, Problem, not_parsed, not_an_object, other_engine, unreadable, used_bak, Host,
  read_users,
}

abbrev pub Answer : Type 0
Answer = List UsmUser × List Problem

module _ (host : Host) where
  unfoldable pub user_fields : UsmUser → Dict Value
  user_fields u =
      ("name", text u.name)
      ∷ ("auth", text u.auth)
      ∷ ("priv", text u.priv)
      ∷ ("auth_key", text (host.hex u.auth_key))
      ∷ ("priv_key", text (host.hex u.priv_key))
      ∷ []

  unfoldable pub user_items : List UsmUser → List Item
  unfolding user_fields
  user_items [] = []
  user_items (u ∷ us) = fields (user_fields u) ∷ user_items us

  -- the document, before json.dumps
  unfoldable pub store_to_json : Bytes → List UsmUser → Document
  unfolding user_items
  store_to_json engine_id users = object (some (host.hex engine_id)) (items (user_items users))

  abbrev pub is_engine : Option String → Bytes → Bool
  is_engine none engine_id = false
  is_engine (some stored) engine_id = str_eq stored (host.hex engine_id)

  abbrev pub read_all : Users → Option Answer
  read_all (items l) = some (read_users host l)
  read_all not_iterable = none

  -- `none` is an exception that the loader does not catch
  unfoldable pub from_document : Document → Bytes → Option Answer
  from_document not_json engine_id = some ([], not_parsed ∷ [])
  from_document no_object engine_id = some ([], not_an_object ∷ [])
  from_document (object stored users) engine_id =
      if not (is_engine stored engine_id) then some ([], other_engine ∷ []) else read_all users

  unfoldable pub store_from_json : Bytes → Bytes → Option Answer
  unfolding from_document
  store_from_json raw engine_id = from_document (host.loads raw) engine_id

-- a candidate: not there, an `OSError` of the read or of DPAPI, or the decrypted bytes
pub data File : Type 0 where
  absent failing : File
  decrypted : Bytes → File

abbrev pub is_empty : {A : Type 0} → List A → Bool
is_empty [] = true
is_empty (x ∷ xs) = false

module _ (host : Host) (engine_id : Bytes) where
  abbrev pub note_bak : Bool → List Problem → List Problem
  note_bak is_bak problems = if is_bak then problems ++ (used_bak ∷ []) else problems

  -- what a candidate's answer comes to; `next` goes on with the problems so far
  abbrev pub settle :
      Bool → List Problem → Option Answer → (List Problem → Option Answer) → Option Answer
  settle is_bak problems none next = none
  settle is_bak problems (some (users, found)) next =
      if not (is_empty users) || is_empty found
      then some (users, note_bak is_bak problems ++ found)
      else next (problems ++ found)

  unfoldable pub try_candidate :
      Bool → File → List Problem → (List Problem → Option Answer) → Option Answer
  unfolding store_from_json
  try_candidate is_bak absent problems next = next problems
  try_candidate is_bak failing problems next = next (problems ++ (unreadable ∷ []))
  try_candidate is_bak (decrypted raw) problems next =
      settle is_bak problems (store_from_json host raw engine_id) next

  -- the main file, then the .bak
  unfoldable pub load_store : File → File → Option Answer
  unfolding try_candidate
  load_store main bak =
      try_candidate false main [] (λ p. try_candidate true bak p (λ q. some ([], q)))
