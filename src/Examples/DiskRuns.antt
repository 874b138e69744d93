-- ===== src/Examples/DiskRuns.antt =====
-- A volume of 16 TB, and three readings of two disks.
use jt_snmpd.Prelude.{◌/◌, ◌≤◌, ◌≡◌, refl, some, [], ◌∷◌}
use jt_snmpd.Prelude.Dict.{get}
use jt_snmpd.Prelude.Int.{pos}
use jt_snmpd.Disks.{int32_max, storage_units, observe, is_plausible}
use jt_snmpd.Disks.MaxTemp.{observe_all, observe-highest}
use jt_snmpd.Disks.Units.{IsNeeded, storage_units-IsNeeded}

unit_of_16_tb : storage_units 17592186044416 ≡ 16384
unfolding storage_units
unit_of_16_tb = refl

storage_units-IsNeeded_example :
    (17592186044416 / storage_units 17592186044416 ≤ int32_max)
    × IsNeeded 17592186044416 (storage_units 17592186044416)
storage_units-IsNeeded_example = storage_units-IsNeeded 17592186044416

observe-highest_example :
    (observe "sda"
      (some (pos 38))
      (observe_all (("sda", some (pos 51)) ∷ ("sdb", some (pos 60)) ∷ []) [])).0
    ≡ some 51
unfolding get is_plausible
observe-highest_example =
    observe-highest (("sda", some (pos 51)) ∷ ("sdb", some (pos 60)) ∷ []) [] "sda" (some (pos 38))
