-- ===== src/Tables/Sensors.antt =====
-- `build_snapshot` of deploy/jt_agent.py: the sensors of disks, thermal zones and the processor, each with
-- an entry of entPhysicalTable, and the health of disks.
use jt_snmpd.Prelude.{
  ℕ, ◌+◌, ◌*◌, max, Bool, true, false, not, ◌||◌, Option, none, some, List, [], ◌∷◌, ◌++◌, ltb, leb,
  if◌then◌else◌,
}
use jt_snmpd.Prelude.Int.{ℤ, pos, pos_part, int_eq}
use jt_snmpd.Prelude.Dict.{get}
use jt_snmpd.Mib.Value.{integer, Row}
use jt_snmpd.Smart.{Health, num_of, as_flag, as_ids, find_id}
use jt_snmpd.Tables.{
  disk_label, Text, Host, int32, ticks, octet, Cells, at, for_each, numbered, if_some, when, ◌&◌,
  decimal,
}
use jt_snmpd.Tables.Names.{
  ent_sensor_table, ent_mainboard, ent_disk_base, ent_sensor_base, ent_thermal_base,
  ent_cpu_freq_base, jt_disk,
}
use jt_snmpd.Tables.Devices.{label_of, DiskInfo}
use jt_snmpd.Tables.Entity.{ent, plain_ent}

-- type, scale, value and unit; the precision is 0 and the status ok
abbrev pub sensor_cells : Host → ℕ → ℕ → ℕ → ℤ → Text → Cells
sensor_cells host up kind scale v unit =
    (1, int32 kind)
    ∷ (2, int32 scale)
    ∷ (3, int32 0)
    ∷ (4, integer v)
    ∷ (5, int32 1)
    ∷ (6, ticks up)
    ∷ (7, int32 60)
    ∷ (8, octet host unit)
    ∷ []

abbrev pub ent_sensor : Host → ℕ → ℕ → ℕ → ℕ → ℤ → Text → List Row
ent_sensor host up idx kind scale v unit =
    at ent_sensor_table (idx ∷ []) (sensor_cells host up kind scale v unit)

abbrev pub highest : List ℕ → ℕ
highest [] = 0
highest (f ∷ fs) = max f (highest fs)

module _ (host : Host) (up : ℕ) where
  -- a reading of a disk, as a sensor of type celsius or other and an entry under the disk
  abbrev pub disk_sensor : DiskInfo → ℕ → Option ℤ → ℕ → Text → Text → Text → List Row
  disk_sensor d offset reading kind unit descr suffix = if_some reading (λ v.
      ent_sensor host up (ent_sensor_base + d.index * 10 + offset) kind 9 v unit
      ++ ent host (ent_sensor_base + d.index * 10 + offset) (
          plain_ent 1 (descr & " (" & label_of host d & ")")
            ("PhysicalDrive" & decimal d.index & suffix) (ent_disk_base + d.index) (offset + 1)))

  abbrev pub disk_sensors : DiskInfo → List Row
  disk_sensors d =
      disk_sensor d 0 d.temp_c 8 "C" "Temperature" " Temp"
      ++ (disk_sensor d 1 (num_of d.health "percentage_used") 1 "%" "Endurance Used" " Wear"
          ++ disk_sensor d 2 (num_of d.health "avail_spare_pct") 1 "%" "Available Spare" " Spare")

  unfoldable pub disk_sensor_rows : List DiskInfo → List Row
  unfolding at for_each decimal disk_label
  disk_sensor_rows disks = for_each disks disk_sensors

  -- the name, and the temperature rounded to a degree
  abbrev pub zone_sensor : ℕ × (Text × ℤ) → List Row
  zone_sensor (zi, (name, celsius)) =
      ent_sensor host up (ent_thermal_base + zi) 8 9 celsius "C"
      ++ ent host (ent_thermal_base + zi) (
          plain_ent 1 ("Thermal Zone (" & name & ")") ("ThermalZone" & decimal zi) ent_mainboard
            (10 + zi))

  unfoldable pub thermal_rows : List (Text × ℤ) → List Row
  unfolding at for_each numbered decimal
  thermal_rows zones = for_each (numbered 0 zones) zone_sensor

  -- one sensor, for the highest of the frequencies in MHz
  unfoldable pub frequency_rows : List ℕ → List Row
  unfolding at
  frequency_rows [] = []
  frequency_rows (f ∷ fs) =
      ent_sensor host up ent_cpu_freq_base 7 11 (pos (highest (f ∷ fs))) "MHz"
      ++ ent host ent_cpu_freq_base (plain_ent 1 "CPU Frequency" "CPU Frequency" ent_mainboard 20)

-- ok, warning, critical, unknown
pub data DiskState : Type 0 where
  ok warning critical unknown : DiskState

abbrev pub state_number : DiskState → ℕ
state_number ok = 1
state_number warning = 2
state_number critical = 3
state_number unknown = 4

abbrev pub is_set : Option ℕ → Bool
is_set none = false
is_set (some n) = ltb 0 n

-- a sector that was reallocated, is pending or cannot be corrected
unfoldable pub is_degraded : Health → Bool
is_degraded h =
    let ids : List (ℕ × ℕ) = as_ids (get "smart_by_id" h) in
    is_set (find_id 5 ids) || is_set (find_id 197 ids) || is_set (find_id 198 ids)

abbrev pub is_hot : Option ℤ → Bool
is_hot none = false
is_hot (some t) = leb 70 (pos_part t)

abbrev pub warns : Option ℤ → Bool
warns none = false
warns (some cw) = not (int_eq cw (pos 0))

abbrev pub is_clear : Option ℤ → Bool
is_clear none = false
is_clear (some cw) = int_eq cw (pos 0)

abbrev pub failed : Option Bool → Bool
failed none = false
failed (some b) = not b

abbrev pub passed : Option Bool → Bool
passed none = false
passed (some b) = b

unfoldable pub disk_state : Health → Option ℤ → DiskState
unfolding is_degraded
disk_state h temp =
    let hp : Option Bool = as_flag (get "health_pass" h) in
    let cw : Option ℤ = num_of h "critical_warning" in
    if failed hp || warns cw
    then critical
    else if passed hp || is_clear cw
    then (if is_degraded h || is_hot temp then warning else ok)
    else unknown

abbrev pub has_health : Health → Bool
has_health [] = false
has_health (x ∷ h) = true

abbrev pub disk_health_cells : Host → DiskInfo → Cells
disk_health_cells host d =
    (1, int32 d.index)
    ∷ (2, octet host ("PhysicalDrive" & decimal d.index))
    ∷ (3, int32 (state_number (disk_state d.health d.temp_c)))
    ∷ (4, octet host (host.first 64 (label_of host d)))
    ∷ []

-- jtDiskHealthTable
unfoldable pub disk_health_rows : Host → List DiskInfo → List Row
unfolding at for_each disk_state decimal disk_label
disk_health_rows host disks =
    for_each disks
      (λ d. when (has_health d.health) (at jt_disk (d.index ∷ []) (disk_health_cells host d)))
