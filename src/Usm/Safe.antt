-- ===== src/Usm/Safe.antt =====
-- Whatever the two files hold, the users that are loaded can be handed to pysnmp.
use jt_snmpd.Prelude.{
  ◌≡◌, refl, ◌∙◌, Bool, true, false, ◌||◌, not, Option, none, some, List, [], ◌∷◌, ◌++◌, String,
  Bool-cases, inl, inr, subst,
}
use jt_snmpd.Usm.{
  Bytes, UsmUser, Users, items, not_iterable, Document, not_json, no_object, object, Host, Problem,
  other_engine,
}
use jt_snmpd.Usm.Store.{
  Answer, settle, from_document, store_from_json, File, absent, failing, decrypted, try_candidate,
  load_store, is_engine, is_empty,
}
use jt_snmpd.Usm.Load.{AreUsable, read_users-AreUsable}

module _ (host : Host) (engine_id : Bytes) where
  -- an answer that is no exception has usable users
  abbrev IsSafe : Option Answer → Type 0
  IsSafe none = Unit
  IsSafe (some a) = AreUsable a.0

  from_document-IsSafe : (doc : Document) → IsSafe (from_document host doc engine_id)
  unfolding from_document
  from_document-IsSafe not_json = tt
  from_document-IsSafe no_object = tt
  from_document-IsSafe (object stored (items l)) =
      elim (Bool-cases (is_engine host stored engine_id)) [
        | inl e ↦ rw e (read_users-AreUsable host l)
        | inr e ↦ rw e tt
      ]
  from_document-IsSafe (object stored not_iterable) =
      elim (Bool-cases (is_engine host stored engine_id)) [ inl e ↦ rw e tt | inr e ↦ rw e tt ]

  settle-IsSafe :
      (is_bak : Bool) (problems : List Problem) (o : Option Answer)
      (next : List Problem → Option Answer)
      → IsSafe o
      → ((p : List Problem) → IsSafe (next p))
      → IsSafe (settle host engine_id is_bak problems o next)
  settle-IsSafe is_bak problems none next s n = tt
  settle-IsSafe is_bak problems (some (users, found)) next s n =
      elim (Bool-cases (not (is_empty users) || is_empty found)) [
        | inl e ↦ rw e s
        | inr e ↦ rw e (n (problems ++ found))
      ]

  try_candidate-IsSafe :
      (is_bak : Bool) (file : File) (problems : List Problem) (next : List Problem → Option Answer)
      → ((p : List Problem) → IsSafe (next p))
      → IsSafe (try_candidate host engine_id is_bak file problems next)
  unfolding try_candidate store_from_json
  try_candidate-IsSafe is_bak absent problems next n = n problems
  try_candidate-IsSafe is_bak failing problems next n = n (problems ++ (Problem.unreadable ∷ []))
  try_candidate-IsSafe is_bak (decrypted raw) problems next n =
      settle-IsSafe is_bak problems (store_from_json host raw engine_id) next
        (from_document-IsSafe (host.loads raw)) n

  -- Every user that is loaded has a name and a pair of algorithms that is accepted, whatever the two
  -- files hold.
  pub load_store-AreUsable :
      (main bak : File) (us : List UsmUser) (problems : List Problem)
      → load_store host engine_id main bak ≡ some (us, problems)
      → AreUsable us
  unfolding load_store
  load_store-AreUsable main bak us problems h = subst IsSafe h (
      try_candidate-IsSafe false main []
        (λ p. try_candidate host engine_id true bak p (λ q. some ([], q)))
        (λ p. try_candidate-IsSafe true bak p (λ q. some ([], q)) (λ q. tt)))

  -- a file that is not there, cannot be decrypted, or was written for another engine
  abbrev pub IsForeign : File → Type 0
  IsForeign absent = Unit
  IsForeign failing = Unit
  IsForeign (decrypted raw) =
      (stored : Option String) × (users : Users) × (host.loads raw ≡ object stored users)
      × (is_engine host stored engine_id ≡ false)

  try_foreign :
      (is_bak : Bool) (file : File) (problems : List Problem) (next : List Problem → Option Answer)
      → IsForeign file
      → (p : List Problem) × (try_candidate host engine_id is_bak file problems next ≡ next p)
  unfolding try_candidate store_from_json from_document
  try_foreign is_bak absent problems next f = (problems, refl)
  try_foreign is_bak failing problems next f = (problems ++ (Problem.unreadable ∷ []), refl)
  try_foreign is_bak (decrypted raw) problems next (stored, users, e, d) =
      (problems ++ (other_engine ∷ []), rw (e, d) refl)

  -- On a machine whose engine is another than the one that the files were written for, no user is loaded
  -- and no exception raised.
  pub load_store-foreign :
      (main bak : File)
      → IsForeign main
      → IsForeign bak
      → (problems : List Problem) × (load_store host engine_id main bak ≡ some ([], problems))
  unfolding load_store
  load_store-foreign main bak f g =
      let (p, e) =
        try_foreign false main [] (λ p. try_candidate host engine_id true bak p (λ q. some ([], q)))
          f in
      let (q, d) = try_foreign true bak p (λ q. some ([], q)) g in (q, e ∙ d)
