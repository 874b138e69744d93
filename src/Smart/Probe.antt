-- ===== src/Smart/Probe.antt =====
-- `probe` of deploy/diskhealth.py: every way to ask a disk, the first answer for a key wins.
pub mod Merge
pub mod State
use jt_snmpd.Prelude.{
  ◌≡◌, refl, Bool, true, false, Option, none, some, List, [], ◌∷◌, arith, if◌then◌else◌, eq_iff,
  String,
}
use jt_snmpd.Prelude.Dict.{Dict, get, put, has, get-put, has-put, get_of_not-has}
use jt_snmpd.Smart.{Health, HealthValue}
use jt_snmpd.Smart.Nvme.{Reply, temp_via_storage_property, health_via_nvme}
use jt_snmpd.Smart.Ata.{health_via_ata_smart, smart_overall_health}

-- keys that are not there yet
unfoldable pub merge : Health → Health → Health
merge result [] = result
merge result ((k, v) ∷ got) = merge (if has k result then result else put k v result) got

-- `none` is an exception
unfoldable pub merge_all : Health → List (Option Health) → Health
unfolding merge
merge_all result [] = result
merge_all result (none ∷ rest) = merge_all result rest
merge_all result (some got ∷ rest) = merge_all (merge result got) rest

-- what the calls leave, if the disk can be opened
pub record Replies : Type 0 where
  pub property : Reply
  pub nvme : Reply
  pub supported : Bool
  pub attributes : Reply
  pub status : Reply

unfoldable pub probe : Option Replies → Health
unfolding merge_all
probe none = []
probe (some r) = merge_all [] (
    some (temp_via_storage_property r.property)
    ∷ some (health_via_nvme r.nvme)
    ∷ some (health_via_ata_smart r.supported r.attributes)
    ∷ some (smart_overall_health r.status)
    ∷ [])
