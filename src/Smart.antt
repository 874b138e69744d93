-- ===== src/Smart.antt =====
-- What deploy/diskhealth.py reports of a disk: a dict with a few kinds of values, and its constants.
pub mod Nvme
pub mod Ata
pub mod Probe
pub mod Json
use jt_snmpd.Prelude.{ℕ, Bool, Option, none, some, List, [], ◌∷◌, ◌==◌, if◌then◌else◌, String}
use jt_snmpd.Prelude.Int.{ℤ}
use jt_snmpd.Prelude.Dict.{Dict, get}

-- a named attribute of the ATA table
pub record Attr : Type 0 where
  pub value : ℕ
  pub worst : ℕ
  pub raw : ℕ

-- a number, a truth value, a text, the attributes by their names, and the raw values by their ids
pub data HealthValue : Type 0 where
  num : ℤ → HealthValue
  flag : Bool → HealthValue
  text : String → HealthValue
  attrs : Dict Attr → HealthValue
  by_id : List (ℕ × ℕ) → HealthValue

abbrev pub Health : Type 0
Health = Dict HealthValue

-- health.get(key), if it is a number; the keys that are asked for hold no truth value
abbrev pub as_num : Option HealthValue → Option ℤ
as_num none = none
as_num (some (num n)) = some n
as_num (some (flag b)) = none
as_num (some (text s)) = none
as_num (some (attrs a)) = none
as_num (some (by_id l)) = none

abbrev pub as_flag : Option HealthValue → Option Bool
as_flag none = none
as_flag (some (num n)) = none
as_flag (some (flag b)) = some b
as_flag (some (text s)) = none
as_flag (some (attrs a)) = none
as_flag (some (by_id l)) = none

-- health.get("smart") or {}, and health.get("smart_by_id") or {}
abbrev pub as_attrs : Option HealthValue → Dict Attr
as_attrs none = []
as_attrs (some (num n)) = []
as_attrs (some (flag b)) = []
as_attrs (some (text s)) = []
as_attrs (some (attrs a)) = a
as_attrs (some (by_id l)) = []

abbrev pub as_ids : Option HealthValue → List (ℕ × ℕ)
as_ids none = []
as_ids (some (num n)) = []
as_ids (some (flag b)) = []
as_ids (some (text s)) = []
as_ids (some (attrs a)) = []
as_ids (some (by_id l)) = l

abbrev pub num_of : Health → String → Option ℤ
num_of h key = as_num (get key h)

-- the raw value of an attribute, by its id
unfoldable pub find_id : ℕ → List (ℕ × ℕ) → Option ℕ
find_id i [] = none
find_id i ((j, v) ∷ l) = if j == i then some v else find_id i l
