-- ===== src/Examples/EngineRuns.antt =====
-- The engine identity on a machine that reboots, is cloned, and reaches the ceiling.
use jt_snmpd.Prelude.{
  Bool, ℕ, ◌+◌, ◌≤◌, ◌<◌, max, String, ◌≡◌, ◌≢◌, refl, true, false, none, some, List, [], ◌∷◌, ◌++◌,
  arith, length, take, replicate, if◌then◌else◌, str_eq, eq_iff, ◌⊎◌,
}
use jt_snmpd.Prelude.Int.{ℤ}
use jt_snmpd.Prelude.Dict.{get}
use jt_snmpd.Storage.{Disk, whole, open_fails, load, try_save}
use jt_snmpd.Engine.{
  number, engine_boots_max, EngineState, Reason, plan_engine_state, identify, nonempty_text,
  is_text, is_int, whole_part, to_json,
}
use jt_snmpd.Engine.Plan.{plan-identity, plan-boots_range}
use jt_snmpd.Engine.State.{
  EngineFile, object, load_engine_state, is_same, volatile, settle_state, engine_state,
}
use jt_snmpd.Engine.Starts.{IsOnFile, changes, starts, starts-changes}
use jt_snmpd.Engine.Identity.{head, fromhex, new_engine_id, fromhex-new_engine_id}

abbrev state : EngineState
state = record { machine_guid = "g1"; engine_id = "80aa"; boot_key = ℤ.pos 700; boots = 4 }

abbrev saturated : EngineState
saturated = record state { boots = engine_boots_max }

text_ne : (s t : String) → str_eq s t ≡ false → s ≢ t
text_ne s t h e = ground (arith, eq_iff s t)

-- a file without an identity, as the first schema wrote it, keeps its counter
first_schema :
    plan_engine_state
      (some (("boots", number (ℤ.pos 9)) ∷ ("boot_key", number (ℤ.pos 5)) ∷ []))
      "g1"
      (ℤ.pos 5)
      "80bb"
    ≡ (
      record { machine_guid = "g1"; engine_id = "80bb"; boot_key = ℤ.pos 5; boots = 9 },
      Reason.no_identity ∷ [],
    )
unfolding plan_engine_state identify nonempty_text is_text is_int whole_part get
first_schema = refl

plan-boots_range_example :
    (1 ≤ (plan_engine_state none "g1" (ℤ.pos 1) "80bb").0.boots)
    × ((plan_engine_state none "g1" (ℤ.pos 1) "80bb").0.boots ≤ engine_boots_max)
    × ((plan_engine_state none "g1" (ℤ.pos 1) "80bb").0.machine_guid ≡ "g1")
    × ((plan_engine_state none "g1" (ℤ.pos 1) "80bb").0.boot_key ≡ ℤ.pos 1)
plan-boots_range_example = plan-boots_range none "g1" (ℤ.pos 1) "80bb"

id_on_file : nonempty_text (get "engine_id" (to_json state "machine-guid")) ≡ some "80aa"
unfolding nonempty_text get to_json
id_on_file = refl

abbrev planned : EngineState × List Reason
planned = plan_engine_state (some (to_json state "machine-guid")) "g1" (ℤ.pos 701) "80bb"

plan-identity_example :
    ((planned.1 ≡ [])
      × (planned.0.engine_id ≡ "80aa")
      × (is_text (get "machine_guid" (to_json state "machine-guid")) "g1" ≡ true)
      × (whole_part (get "boots" (to_json state "machine-guid")) < engine_boots_max)
      × (planned.0.boots
          ≡ max 1 (
              whole_part (get "boots" (to_json state "machine-guid"))
              + (if is_int (get "boot_key" (to_json state "machine-guid")) (ℤ.pos 701)
                  then 0
                  else 1))))
    ⊎ ((planned.1 ≢ []) × (planned.0.engine_id ≡ "80bb") × (planned.0.boots ≡ 1))
plan-identity_example =
    plan-identity (to_json state "machine-guid") "g1" (ℤ.pos 701) "80bb" "80aa" id_on_file

abbrev disk : Disk EngineFile
disk = record {
  main = some (whole (object (to_json state "machine-guid")));
  bak = none;
  tmp = none;
}

disk-IsOnFile : IsOnFile state "machine-guid" disk
unfolding load_engine_state load
disk-IsOnFile = refl

abbrev new_id : String → String
new_id guid = "80aa"

abbrev three : List (Bool × ℤ)
three = (false, ℤ.pos 700) ∷ (true, ℤ.pos 701) ∷ (false, ℤ.pos 702) ∷ []

abbrev after_three : Disk EngineFile × EngineState
after_three = starts new_id "g1" "machine-guid" three disk state

starts-changes_example :
    (after_three.1.engine_id ≡ "80aa")
    × (after_three.1.boots ≡ 6)
    × IsOnFile after_three.1 "machine-guid" after_three.0
unfolding changes
starts-changes_example =
    starts-changes new_id "g1" "machine-guid" three disk state disk-IsOnFile refl
      (text_ne "80aa" "" refl) (omega arith) (omega arith)

-- A boot after which the file cannot be written: the counter is served as 1, under the engine ID for which it
-- stood at 4.
back_to_one :
    engine_state new_id
      (record {
        machine = some ("g1", "machine-guid");
        machine_again = some ("g1", "machine-guid");
        boot_key = ℤ.pos 701;
        write = open_fails;
      })
      disk
    ≡ (
      disk,
      record { machine_guid = "g1"; engine_id = "80aa"; boot_key = ℤ.pos 0; boots = 1 },
      "machine-guid",
    )
unfolding engine_state settle_state volatile is_same load_engine_state load try_save
    plan_engine_state identify nonempty_text is_text is_int whole_part get to_json
back_to_one = refl

abbrev sha256 : String → List ℕ
sha256 s = replicate 32 171

fromhex-new_engine_id_example :
    (fromhex (new_engine_id sha256 "g1") ≡ some (head ++ replicate 16 171))
    × (length (head ++ take 16 (sha256 "g1")) ≡ 21)
fromhex-new_engine_id_example = fromhex-new_engine_id sha256 "g1" refl (omega arith)
