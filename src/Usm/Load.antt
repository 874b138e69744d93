-- ===== src/Usm/Load.antt =====
-- What is loaded from the two files of the store.
use jt_snmpd.Prelude.{
  ◌≡◌, refl, Bool, true, false, Option, none, some, List, [], ◌∷◌, String, str_eq, eq_iff, arith,
  Bool-cases, Option-cases, inl, inr,
}
use jt_snmpd.Prelude.Dict.{Dict, get}
use jt_snmpd.Usm.{
  check_algorithms, accepted, raised, Checked, Bytes, UsmUser, Value, Item, fields, no_dict, Host,
  Problem, read_user, read_users, named_user, make_user, if_accepted, key_of, text_of,
}
use jt_snmpd.Usm.Store.{
  Answer, settle, user_fields, user_items, store_to_json, from_document, store_from_json, File,
  decrypted, try_candidate, load_store,
}

-- a name, and algorithms that are not refused
abbrev pub IsUsable : UsmUser → Type 0
IsUsable u =
    (str_eq u.name "" ≡ false)
    × (warned : Bool) × (check_algorithms u.auth u.priv ≡ accepted warned)

abbrev pub AreUsable : List UsmUser → Type 0
AreUsable [] = Unit
AreUsable (u ∷ us) = IsUsable u × AreUsable us

module _ (host : Host) where
  -- the keys that are written are read back
  abbrev pub ReadsKeys : List UsmUser → Type 0
  ReadsKeys [] = Unit
  ReadsKeys (u ∷ us) =
      (host.fromhex (host.hex u.auth_key) ≡ some u.auth_key)
      × (host.fromhex (host.hex u.priv_key) ≡ some u.priv_key)
      × ReadsKeys us

  read_user-user_fields :
      (u : UsmUser) → ReadsKeys (u ∷ []) → IsUsable u → read_user host (user_fields host u) ≡ some u
  unfolding read_user user_fields get
  read_user-user_fields u k h = rw (h.0, h.2, k.0, k.1) refl

  read_users-user_items :
      (us : List UsmUser)
      → ReadsKeys us
      → AreUsable us
      → read_users host (user_items host us) ≡ (us, [])
  unfolding read_users user_items
  read_users-user_items [] k h = refl
  read_users-user_items (u ∷ us) k h =
      rw (read_user-user_fields u (k.0, k.1, tt) h.0, read_users-user_items us k.2 h.1) refl

  settled :
      (engine_id : Bytes) (us : List UsmUser) (next : List Problem → Option Answer)
      → settle host engine_id false [] (some (us, [])) next ≡ some (us, [])
  settled engine_id [] next = refl
  settled engine_id (u ∷ us) next = refl

  module _ (engine_id raw : Bytes) where
    -- What a save wrote is loaded, an empty store included, and the .bak is not looked at: the main file
    -- decrypts to the document that is written for these users and this engine, the users are usable, and
    -- hexadecimal keys are read back.
    pub load_store-saved :
        (us : List UsmUser) (bak : File)
        → ReadsKeys us
        → AreUsable us
        → host.loads raw ≡ store_to_json host engine_id us
        → load_store host engine_id (decrypted raw) bak ≡ some (us, [])
    unfolding load_store store_to_json store_from_json from_document
    load_store-saved us bak k h e =
        let same : str_eq (host.hex engine_id) (host.hex engine_id) ≡ true =
          ground (arith, eq_iff (host.hex engine_id) (host.hex engine_id)) in
        rw (e, same, read_users-user_items us k h)
          (settled engine_id us (λ p. try_candidate host engine_id true bak p (λ q. some ([], q))))

  make_user-fields :
      (name auth priv : String) (k q : Option Bytes) (u : UsmUser)
      → make_user host name auth priv k q ≡ some u
      → (u.name ≡ name) × (u.auth ≡ auth) × (u.priv ≡ priv)
  make_user-fields name auth priv none q u h = ground arith
  make_user-fields name auth priv (some k) none u h = ground arith
  make_user-fields name auth priv (some k) (some q) u h = ground (arith, h)

  if_accepted-some :
      (c : Checked) (o : Option UsmUser) (u : UsmUser)
      → if_accepted host c o ≡ some u
      → (warned : Bool) × (c ≡ accepted warned) × (o ≡ some u)
  if_accepted-some (raised e) o u h = absurd (ground (arith, h))
  if_accepted-some (accepted w) o u h = (w, refl, h)

  named_user-IsUsable :
      (d : Dict Value) (name auth priv : Option String) (u : UsmUser)
      → named_user host d name auth priv ≡ some u
      → IsUsable u
  named_user-IsUsable d none auth priv u h = absurd (ground (arith, h))
  named_user-IsUsable d (some name) none priv u h = absurd (ground (arith, h))
  named_user-IsUsable d (some name) (some auth) none u h = absurd (ground (arith, h))
  named_user-IsUsable d (some name) (some auth) (some priv) u h =
      elim (Bool-cases (str_eq name "")) [
        | inl e ↦ absurd (ground (arith, h, e))
        | inr n ↦
            let made =
              make_user host name auth priv (key_of host (get "auth_key" d))
                (key_of host (get "priv_key" d)) in
            let (w, c, m) = if_accepted-some (check_algorithms auth priv) made u (rw n at h) in
            let (a, b, p) =
              make_user-fields name auth priv (key_of host (get "auth_key" d))
                (key_of host (get "priv_key" d)) u m in
            rw (a, b, p) (n, w, c)
      ]

  read_user-IsUsable : (d : Dict Value) (u : UsmUser) → read_user host d ≡ some u → IsUsable u
  unfolding read_user
  read_user-IsUsable d u h =
      named_user-IsUsable d (text_of (get "name" d)) (text_of (get "auth" d))
        (text_of (get "priv" d)) u h

  pub read_users-AreUsable : (l : List Item) → AreUsable (read_users host l).0
  unfolding read_users
  read_users-AreUsable [] = tt
  read_users-AreUsable (no_dict ∷ rest) = read_users-AreUsable rest
  read_users-AreUsable (fields d ∷ rest) = elim (Option-cases (read_user host d)) [
    | inl e ↦ rw e (read_users-AreUsable rest)
    | inr (u, e) ↦ rw e (read_user-IsUsable d u e, read_users-AreUsable rest)
  ]
