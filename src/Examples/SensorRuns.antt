-- ===== src/Examples/SensorRuns.antt =====
-- A WMI data block of 100 bytes with one thermal zone at 298.2 K.
use jt_snmpd.Prelude.{
  ℕ, ◌-◌, ◌≤◌, ◌≡◌, refl, ◌↔◌, some, List, [], ◌∷◌, ◌++◌, length, leb, replicate,
}
use jt_snmpd.Prelude.Int.{pos}
use jt_snmpd.Prelude.Bytes.{u32_at, slice}
use jt_snmpd.Sensors.{
  Host, WnodeInstance, ThermalZone, parse_wnode_all_data, parse_thermal_zone, max_instances,
}
use jt_snmpd.Sensors.Parse.{
  AllPublishable, parse_wnode_all_data-AllPublishable, parse_thermal_zone-reported,
}

abbrev host : Host
host = record {
  decode = λ bytes. bytes;
  is_printable = λ c. leb 32 c;
  celsius_of = λ v. pos (v - 2732);
}

abbrev zone_record : List ℕ
zone_record = replicate 20 0 ++ 166 ∷ 11 ∷ replicate 14 0

abbrev raw : List ℕ
raw =
    100 ∷ replicate 44 0
    ++ 2 ∷ 0 ∷ 0 ∷ 64 ∷ 0 ∷ 0 ∷ 0 ∷ 1 ∷ 0 ∷ 0 ∷ 0 ∷ 0 ∷ 0 ∷ 0 ∷ 0 ∷ 36 ∷ 0 ∷ 0 ∷ 0 ∷ zone_record

abbrev zone_instance : WnodeInstance
zone_instance = record { index = 0; content = zone_record; name = [] }

raw_is_parsed : parse_wnode_all_data host raw max_instances ≡ some (zone_instance ∷ [])
unfolding parse_wnode_all_data u32_at slice
raw_is_parsed = refl

parse_wnode_all_data-AllPublishable_example :
    (out : List WnodeInstance) × (parse_wnode_all_data host raw max_instances ≡ some out)
    × (length out ≤ max_instances)
    × AllPublishable host raw 0 out
parse_wnode_all_data-AllPublishable_example =
    parse_wnode_all_data-AllPublishable host raw max_instances

parse_thermal_zone-reported_example :
    ((zone : ThermalZone) × (parse_thermal_zone host zone_instance ≡ some zone)) ↔ (
      (36 ≤ length zone_record)
      × (v : ℕ) × (u32_at zone_record 20 ≡ some v)
      × (2332 ≤ v)
      × (v ≤ 4732))
parse_thermal_zone-reported_example = parse_thermal_zone-reported host zone_instance
