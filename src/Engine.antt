-- ===== src/Engine.antt =====
-- The SNMPv3 engine identity of deploy/jt_agent.py: `_plan_engine_state`, which decides what engine.json
-- holds next, and the engine ID.
pub mod Plan
pub mod Identity
pub mod State
pub mod Starts
use jt_snmpd.Prelude.{
  ℕ, ◌+◌, ◌≤◌, min, max, String, Bool, true, false, not, ◌&&◌, Option, none, some, List, [], ◌∷◌,
  leb, ◌==◌, if◌then◌else◌, str_eq,
}
use jt_snmpd.Prelude.Int.{ℤ, pos_part, int_eq}
use jt_snmpd.Prelude.Dict.{Dict, get}

-- A value that `json.load` gives, as far as this code tells values apart. A float is its integral part
-- and whether it has no fraction; a list or an object is `compound`.
pub data Json : Type 0 where
  null compound : Json
  boolean : Bool → Json
  number : ℤ → Json
  float : ℤ → Bool → Json
  text : String → Json

abbrev pub engine_boots_max : ℕ
engine_boots_max = 2147483647

-- why the identity is new
pub data Reason : Type 0 where
  no_identity renamed cloned ceiling : Reason

-- the dictionary that is returned, whose `schema_version` is 2
pub record EngineState : Type 0 where
  pub machine_guid : String
  pub engine_id : String
  pub boot_key : ℤ
  pub boots : ℕ

-- `max(0, _whole(value))`
unfoldable pub whole_part : Option Json → ℕ
whole_part (some (number z)) = pos_part z
whole_part _ = 0

-- `isinstance(value, str) and value`
unfoldable pub nonempty_text : Option Json → Option String
nonempty_text (some (text s)) = if str_eq s "" then none else some s
nonempty_text _ = none

-- value == s, for a text
unfoldable pub is_text : Option Json → String → Bool
is_text (some (text t)) s = str_eq t s
is_text _ s = false

-- value == k, for an int: a bool is 0 or 1, and a float may be integral
unfoldable pub is_int : Option Json → ℤ → Bool
is_int (some (number z)) k = int_eq z k
is_int (some (boolean true)) k = int_eq (ℤ.pos 1) k
is_int (some (boolean false)) k = int_eq (ℤ.pos 0) k
is_int (some (float z integral)) k = integral && int_eq z k
is_int _ k = false

-- the identity and the counter before the boot is counted
pub record Identified : Type 0 where
  pub id : String
  pub count : ℕ
  pub reasons : List Reason

unfoldable pub identify : Dict Json → String → String → Option String → Identified
unfolding whole_part is_text
identify prev machine_guid fresh none = record {
  id = fresh;
  count = whole_part (get "boots" prev);
  reasons = no_identity ∷ [];
}
identify prev machine_guid fresh (some engine_id) =
    if not (is_text (get "machine_guid" prev) machine_guid)
    then record {
      id = fresh;
      count = 0;
      reasons = (if is_text (get "identity_source" prev) "hostname" then renamed else cloned) ∷ [];
    }
    else if leb engine_boots_max (whole_part (get "boots" prev))
    then record { id = fresh; count = 0; reasons = ceiling ∷ [] }
    else record { id = engine_id; count = whole_part (get "boots" prev); reasons = [] }

abbrev pub or_empty : Option (Dict Json) → Dict Json
or_empty none = []
or_empty (some d) = d

-- the boot is counted if its instant changed, and the counter is kept between 1 and its ceiling
unfoldable pub assemble : Identified → Bool → String → ℤ → EngineState × List Reason
assemble found same_boot machine_guid boot_key =
    let boots : ℕ = if not same_boot then found.count + 1 else found.count in
    (
      record {
        machine_guid = machine_guid;
        engine_id = found.id;
        boot_key = boot_key;
        boots = max 1 (min boots engine_boots_max);
      },
      found.reasons,
    )

-- `_plan_engine_state`; a `prev` that is no dictionary is `none`
unfoldable pub plan_engine_state :
    Option (Dict Json) → String → ℤ → String → EngineState × List Reason
unfolding assemble
plan_engine_state prev machine_guid boot_key fresh =
    let d : Dict Json = or_empty prev in
    assemble (identify d machine_guid fresh (nonempty_text (get "engine_id" d)))
      (is_int (get "boot_key" d) boot_key) machine_guid boot_key

-- what is written to engine.json, and read back: the state, and where the identity came from
unfoldable pub to_json : EngineState → String → Dict Json
to_json s source =
    ("schema_version", number (ℤ.pos 2))
    ∷ ("machine_guid", text s.machine_guid)
    ∷ ("engine_id", text s.engine_id)
    ∷ ("boot_key", number s.boot_key)
    ∷ ("boots", number (ℤ.pos s.boots))
    ∷ ("identity_source", text source)
    ∷ []
