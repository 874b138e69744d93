-- ===== src/Engine/Starts.antt =====
-- Starts of the service one after another, over engine.json.
use jt_snmpd.Prelude.{
  ℕ, ◌+◌, ◌≤◌, ◌<◌, String, ◌≡◌, ◌≢◌, refl, ap, ap₂, sym, subst, ◌∙◌, Bool, true, false, some, List,
  [], ◌∷◌, arith, if◌then◌else◌, Bool-cases, inl, inr,
}
use jt_snmpd.Prelude.Int.{ℤ, pos, negsuc, int_eq}
use jt_snmpd.Prelude.Dict.{get}
use jt_snmpd.Storage.{Disk, ends, save, try_save}
use jt_snmpd.Storage.Crash.{load-save}
use jt_snmpd.Engine.{
  EngineState, Reason, engine_boots_max, is_text, is_int, plan_engine_state, to_json,
}
use jt_snmpd.Engine.Plan.{plan-next}
use jt_snmpd.Engine.State.{
  EngineFile, object, is_object, or_empty_object, load_engine_state, is_same, Start, settle_state,
  engine_state,
}

int_eq→eq : (a b : ℤ) → int_eq a b ≡ true → a ≡ b
int_eq→eq (pos m) (pos n) h = ap pos (ground arith)
int_eq→eq (negsuc m) (negsuc n) h = ap negsuc (ground arith)
int_eq→eq (pos m) (negsuc n) h = cc
int_eq→eq (negsuc m) (pos n) h = cc

-- the state that the next start plans
abbrev next : EngineState → ℤ → EngineState
next s key = record s {
  boot_key = key;
  boots = (if int_eq s.boot_key key then s.boots else s.boots + 1);
}

same_key :
    (s : EngineState) (source : String) (key : ℤ)
    → is_same (next s key) source (to_json s source) ≡ true
    → int_eq s.boot_key key ≡ true
unfolding is_same to_json get is_int is_text
same_key s source key h = ground arith

next_same : (s : EngineState) (key : ℤ) → int_eq s.boot_key key ≡ true → next s key ≡ s
next_same s key h =
    ap₂ (λ (k : ℤ) (n : ℕ). record s { boot_key = k; boots = n }) (sym (int_eq→eq s.boot_key key h))
      (rw h refl)

counted : (b : Bool) (m : ℕ) → (if b then m else m + 1) ≡ m + (if b then 0 else 1)
counted true m = omega arith
counted false m = refl

-- how often the boot key changes from one start to the next
unfoldable pub changes : ℤ → List (Bool × ℤ) → ℕ
changes key [] = 0
changes key ((bak_fails, k) ∷ rest) = (if int_eq key k then 0 else 1) + changes k rest

-- the file has the state, and the machine is its own
abbrev pub IsOnFile : EngineState → String → Disk EngineFile → Type 0
IsOnFile s source d = load_engine_state d ≡ to_json s source

module _ (new_id : String → String) (guid source : String) where
  -- a start on this machine in which nothing raises
  abbrev pub sound_start : Bool → ℤ → Start
  sound_start bak_fails key = record {
    machine = some (guid, source);
    machine_again = some (guid, source);
    boot_key = key;
    write = ends bak_fails;
  }

  -- the starts of the service, each on the disk that the one before left: the last disk, and the last state served
  unfoldable pub starts :
      List (Bool × ℤ) → Disk EngineFile → EngineState → Disk EngineFile × EngineState
  starts [] d s = (d, s)
  starts ((bak_fails, key) ∷ rest) d s =
      let r = engine_state new_id (sound_start bak_fails key) d in starts rest r.0 r.1

  load-save_state :
      (bak_fails : Bool) (t : EngineState) (d : Disk EngineFile)
      → IsOnFile t source (save bak_fails (object (to_json t source)) d)
  unfolding load_engine_state
  load-save_state bak_fails t d =
      ap or_empty_object (load-save is_object (object (to_json t source)) refl bak_fails d)

  settle_state-sound_start :
      (bak_fails : Bool) (key : ℤ) (s : EngineState) (d : Disk EngineFile)
      → IsOnFile s source d
      → ((settle_state new_id (sound_start bak_fails key) (next s key) source d).1 ≡ next s key)
        × IsOnFile
            (next s key)
            source
            (settle_state new_id (sound_start bak_fails key) (next s key) source d).0
  unfolding settle_state try_save
  settle_state-sound_start bak_fails key s d e =
      elim (Bool-cases (is_same (next s key) source (load_engine_state d))) [
        | inl same ↦
            let k : int_eq s.boot_key key ≡ true =
              same_key s source key (sym (ap (is_same (next s key) source) e) ∙ same) in
            rw same (refl, e ∙ ap (λ t. to_json t source) (sym (next_same s key k)))
        | inr new ↦ rw new (refl, load-save_state bak_fails (next s key) d)
      ]

  engine_state-sound_start :
      (bak_fails : Bool) (key : ℤ) (s : EngineState) (d : Disk EngineFile)
      → IsOnFile s source d
      → s.machine_guid ≡ guid
      → s.engine_id ≢ ""
      → 1 ≤ s.boots
      → s.boots < engine_boots_max
      → ((engine_state new_id (sound_start bak_fails key) d).1 ≡ next s key)
        × IsOnFile (next s key) source (engine_state new_id (sound_start bak_fails key) d).0
  unfolding engine_state
  engine_state-sound_start bak_fails key s d e g n l h =
      let q : plan_engine_state (some (load_engine_state d)) guid key (new_id guid)
          ≡ (next s key, []) =
        ap₂ (λ p u. plan_engine_state (some p) u key (new_id guid)) e (sym g)
        ∙ plan-next s source key (new_id guid) n l h in
      rw (ap (λ (r : EngineState × List Reason). r.0) q)
        (settle_state-sound_start bak_fails key s d e)

  -- Over any sequence of starts in which nothing raises, on one machine whose file has a state for it, with an
  -- engine ID that is not empty and a counter of at least 1, the engine ID that is served stays, and the counter
  -- goes up by exactly the number of changes of the boot key among the starts; the file has the state that is
  -- served. This is as long as the counter stays below its ceiling. The boot key is the instant of the boot by
  -- the wall clock, so that a clock that is set counts as well.
  pub starts-changes :
      (list : List (Bool × ℤ)) (d : Disk EngineFile) (s : EngineState)
      → IsOnFile s source d
      → s.machine_guid ≡ guid
      → s.engine_id ≢ ""
      → 1 ≤ s.boots
      → s.boots + changes s.boot_key list < engine_boots_max
      → ((starts list d s).1.engine_id ≡ s.engine_id)
        × ((starts list d s).1.boots ≡ s.boots + changes s.boot_key list)
        × IsOnFile (starts list d s).1 source (starts list d s).0
  unfolding starts changes
  starts-changes [] d s e g n l h = (refl, omega arith, e)
  starts-changes ((bak_fails, key) ∷ rest) d s e g n l h =
      let c = counted (int_eq s.boot_key key) s.boots in
      let d' : Disk EngineFile = (engine_state new_id (sound_start bak_fails key) d).0 in
      let (served, on_file) =
        engine_state-sound_start bak_fails key s d e g n l (omega (arith, h)) in
      let ih =
        starts-changes rest d' (next s key) on_file g n (omega (arith, l, c))
          (omega (arith, h, c)) in
      subst
        (λ (t : EngineState).
          ((starts rest d' t).1.engine_id ≡ s.engine_id)
          × ((starts rest d' t).1.boots ≡ s.boots + changes s.boot_key ((bak_fails, key) ∷ rest))
          × IsOnFile (starts rest d' t).1 source (starts rest d' t).0)
        (sym served) (ih.0, omega (arith, ih.1, c), ih.2)
