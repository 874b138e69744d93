-- ===== src/Engine/State.antt =====
-- `_engine_state` of deploy/jt_agent.py: what a start of the service does with engine.json, and the identity that
-- it serves.
use jt_snmpd.Prelude.{
  String, Bool, true, false, ◌&&◌, [], Option, none, some, ◌==◌, if◌then◌else◌, length,
}
use jt_snmpd.Prelude.Int.{ℤ}
use jt_snmpd.Prelude.Dict.{Dict, get}
use jt_snmpd.Storage.{Disk, Write, load, try_save}
use jt_snmpd.Engine.{Json, EngineState, is_text, is_int, plan_engine_state, to_json}

-- what a state file parses to: a dictionary, or something else
pub data EngineFile : Type 0 where
  object : Dict Json → EngineFile
  unusable : EngineFile

-- isinstance(data, dict)
abbrev pub is_object : EngineFile → Bool
is_object (object d) = true
is_object unusable = false

abbrev pub or_empty_object : Option EngineFile → Dict Json
or_empty_object none = []
or_empty_object (some unusable) = []
or_empty_object (some (object d)) = d

unfoldable pub load_engine_state : Disk EngineFile → Dict Json
load_engine_state d = or_empty_object (load is_object d)

-- `state == prev`: a dictionary has each key once
unfoldable pub is_same : EngineState → String → Dict Json → Bool
unfolding is_text is_int
is_same s source prev =
    length prev == 6
    && is_int (get "schema_version" prev) (ℤ.pos 2)
    && is_text (get "machine_guid" prev) s.machine_guid
    && is_text (get "engine_id" prev) s.engine_id
    && is_int (get "boot_key" prev) s.boot_key
    && is_int (get "boots" prev) (ℤ.pos s.boots)
    && is_text (get "identity_source" prev) source

-- What a start finds: `_machine_guid`, which gives the identifier and its source or raises, the same call once
-- more if it is made, the instant of the boot, and how a save goes.
pub record Start : Type 0 where
  pub machine : Option (String × String)
  pub machine_again : Option (String × String)
  pub boot_key : ℤ
  pub write : Write

-- the file afterwards, the state that is cached, and its "identity_source"
abbrev pub ServedState : Type 0
ServedState = Disk EngineFile × EngineState × String

abbrev pub or_unknown : Option (String × String) → String × String
or_unknown none = ("unknown", "unknown")
or_unknown (some machine) = machine

-- `new_id` is `_new_engine_id`, as a text
module _ (new_id : String → String) where
  -- behind an exception: a state that is not written
  unfoldable pub volatile : Option (String × String) → Disk EngineFile → ServedState
  volatile again d =
      let (guid, source) = or_unknown again in
      (
        d,
        record { machine_guid = guid; engine_id = new_id guid; boot_key = ℤ.pos 0; boots = 1 },
        source,
      )

  -- a state is served once it is on file
  unfoldable pub settle_state : Start → EngineState → String → Disk EngineFile → ServedState
  unfolding is_same volatile load_engine_state
  settle_state start s source d =
      let saved : Disk EngineFile × Bool = try_save start.write (object (to_json s source)) d in
      if is_same s source (load_engine_state d)
      then (d, s, source)
      else if saved.1
      then (saved.0, s, source)
      else volatile start.machine_again saved.0

  -- `_engine_state` on its first call, which is the one that is not answered from the cache
  unfoldable pub engine_state : Start → Disk EngineFile → ServedState
  unfolding settle_state
  engine_state start d = elim start.machine [
    | none ↦ volatile start.machine_again d
    | some (guid, source) ↦
        settle_state start
          (plan_engine_state (some (load_engine_state d)) guid start.boot_key (new_id guid)).0
          source d
  ]
