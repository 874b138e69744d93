-- ===== src/Tables/Parts/Sensors.antt =====
-- The sensors: rows of entPhySensorTable, each with its entry of entPhysicalTable.
use jt_snmpd.Prelude.{
  ℕ, ◌+◌, ◌*◌, ◌≤◌, ◌<◌, ◌≡◌, refl, true, false, Option, none, some, List, [], ◌∷◌, ◌++◌, arith,
  ◌==◌, length,
}
use jt_snmpd.Prelude.Int.{ℤ, pos}
use jt_snmpd.Mib.Oid.{oid_eq}
use jt_snmpd.Mib.Value.{Row}
use jt_snmpd.Smart.{num_of}
use jt_snmpd.Tables.{Text, Host, numbered, ◌&◌, decimal}
use jt_snmpd.Tables.Names.{
  ent_physical, ent_sensor_table, ent_mainboard, ent_disk_base, ent_sensor_base, ent_thermal_base,
  ent_cpu_freq_base,
}
use jt_snmpd.Tables.Devices.{label_of, DiskInfo}
use jt_snmpd.Tables.Entity.{Ent, ent_cells, ent, plain_ent}
use jt_snmpd.Tables.Sensors.{
  sensor_cells, ent_sensor, disk_sensor, disk_sensors, disk_sensor_rows, thermal_rows, highest,
  frequency_rows,
}
use jt_snmpd.Tables.Rows.{IsUnique, append-IsUnique}
use jt_snmpd.Tables.Keys.{
  Key, apart, keys_apart, apart_from, all_apart, AreKeyed, append-AreKeyed, AreKeyed-AreDisjoint,
}
use jt_snmpd.Tables.Regions.{Region, AreCovered, IsPart}
use jt_snmpd.Tables.Covers.{
  index_regions, at-AreCovered_index, append-AreCovered, append-AreCovered_same, All, AreDistinct,
  numbered-AreDistinct, numbered-lt, for_each-AreCovered, loop-IsUnique,
}
use jt_snmpd.Tables.Parts.{pair-AreKeyed, pair-IsUnique}
use jt_snmpd.Tables.Parts.Loops.{sensor-IsPart}
use jt_snmpd.Tables.Parts.Entity.{ent_columns, entries}

-- 1 to 8
abbrev pub sensor_columns : List ℕ
sensor_columns = 1 ∷ 2 ∷ 3 ∷ 4 ∷ 5 ∷ 6 ∷ 7 ∷ 8 ∷ []

-- the rows of a range of indices
abbrev pub sensors : ℕ → ℕ → List Region
sensors lo hi = index_regions ent_sensor_table sensor_columns lo hi ++ entries lo hi

module _ (host : Host) (up : ℕ) where
  pub thermal_rows-IsPart :
      (zones : List (Text × ℤ))
      → length zones ≤ 400
      → IsPart (sensors 5500 5900) (thermal_rows host up zones)
  unfolding thermal_rows apart
  thermal_rows-IsPart zones h =
      sensor-IsPart ent_sensor_table ent_physical sensor_columns ent_columns ent_thermal_base 400
        (λ z. z.0) (λ z. sensor_cells host up 8 9 z.1.1 "C")
        (λ z. ent_cells host (ent_thermal_base + z.0) (
          plain_ent 1 ("Thermal Zone (" & z.1.0 & ")") ("ThermalZone" & decimal z.0) ent_mainboard
            (10 + z.0)))
        refl refl (λ z. refl) (λ z. refl) (λ z. refl) (λ z. refl) (numbered 0 zones)
        (numbered-AreDistinct 0 zones) (numbered-lt 0 400 zones (omega (arith, h)))

  -- a sensor and its entry
  abbrev sensor : ℕ → ℕ → ℕ → ℤ → Text → Ent → List Row
  sensor i kind scale v unit e = ent_sensor host up i kind scale v unit ++ ent host i e

  sensor-IsUnique :
      (i kind scale : ℕ) (v : ℤ) (unit : Text) (e : Ent) → IsUnique (sensor i kind scale v unit e)
  unfolding keys_apart apart
  sensor-IsUnique i kind scale v unit e =
      pair-IsUnique ent_sensor_table (i ∷ []) ent_physical (i ∷ [])
        (sensor_cells host up kind scale v unit) (ent_cells host i e) refl refl refl

  sensor-AreCovered :
      (lo hi i kind scale : ℕ) (v : ℤ) (unit : Text) (e : Ent)
      → lo ≤ i
      → i < hi
      → AreCovered (sensors lo hi) (sensor i kind scale v unit e)
  sensor-AreCovered lo hi i kind scale v unit e p q =
      append-AreCovered (index_regions ent_sensor_table sensor_columns lo hi) (entries lo hi)
        (ent_sensor host up i kind scale v unit) (ent host i e)
        (at-AreCovered_index ent_sensor_table sensor_columns lo hi i []
          (sensor_cells host up kind scale v unit) refl p q)
        (at-AreCovered_index ent_physical ent_columns lo hi i [] (ent_cells host i e) refl p q)

  pub frequency_rows-IsPart :
      (freqs : List ℕ) → IsPart (sensors 5900 5901) (frequency_rows host up freqs)
  unfolding frequency_rows
  frequency_rows-IsPart [] = (tt, tt)
  frequency_rows-IsPart (f ∷ fs) =
      let v : ℤ = pos (highest (f ∷ fs)) in
      let e : Ent = plain_ent 1 "CPU Frequency" "CPU Frequency" ent_mainboard 20 in
      (
        sensor-IsUnique ent_cpu_freq_base 7 11 v "MHz" e,
        sensor-AreCovered 5900 5901 ent_cpu_freq_base 7 11 v "MHz" e (omega arith) (omega arith),
      )

  abbrev pair_keys : ℕ → List Key
  pair_keys i = (ent_sensor_table, i ∷ []) ∷ (ent_physical, i ∷ []) ∷ []

  abbrev sensor_index : DiskInfo → ℕ → ℕ
  sensor_index d offset = ent_sensor_base + d.index * 10 + offset

  disk_sensor-AreKeyed :
      (d : DiskInfo) (offset : ℕ) (reading : Option ℤ) (kind : ℕ) (unit descr suffix : Text)
      → AreKeyed
          (pair_keys (sensor_index d offset))
          (disk_sensor host up d offset reading kind unit descr suffix)
  disk_sensor-AreKeyed d offset none kind unit descr suffix = tt
  disk_sensor-AreKeyed d offset (some v) kind unit descr suffix =
      pair-AreKeyed ent_sensor_table (sensor_index d offset ∷ []) ent_physical
        (sensor_index d offset ∷ []) (sensor_cells host up kind 9 v unit) _

  disk_sensor-IsUnique :
      (d : DiskInfo) (offset : ℕ) (reading : Option ℤ) (kind : ℕ) (unit descr suffix : Text)
      → IsUnique (disk_sensor host up d offset reading kind unit descr suffix)
  disk_sensor-IsUnique d offset none kind unit descr suffix = tt
  disk_sensor-IsUnique d offset (some v) kind unit descr suffix =
      sensor-IsUnique (sensor_index d offset) kind 9 v unit (
        plain_ent 1 (descr & " (" & label_of host d & ")")
          ("PhysicalDrive" & decimal d.index & suffix) (ent_disk_base + d.index) (offset + 1))

  disk_sensor-AreCovered :
      (d : DiskInfo) (offset : ℕ) (reading : Option ℤ) (kind : ℕ) (unit descr suffix : Text)
      → d.index < 16
      → offset < 3
      → AreCovered (sensors 5000 5500) (disk_sensor host up d offset reading kind unit descr suffix)
  disk_sensor-AreCovered d offset none kind unit descr suffix p q = tt
  disk_sensor-AreCovered d offset (some v) kind unit descr suffix p q =
      sensor-AreCovered 5000 5500 (sensor_index d offset) kind 9 v unit
        (plain_ent 1 (descr & " (" & label_of host d & ")")
          ("PhysicalDrive" & decimal d.index & suffix) (ent_disk_base + d.index) (offset + 1))
        (omega arith) (omega (arith, p, q))

  abbrev disk_keys : ℕ → List Key
  disk_keys n =
      pair_keys (ent_sensor_base + n * 10 + 0)
      ++ (pair_keys (ent_sensor_base + n * 10 + 1) ++ pair_keys (ent_sensor_base + n * 10 + 2))

  disk_sep : (m n : ℕ) → (m == n) ≡ false → all_apart (disk_keys m) (disk_keys n) ≡ true
  unfolding all_apart apart_from keys_apart oid_eq apart
  disk_sep m n h = ground (arith, h)

  first_apart :
      (n : ℕ)
      → all_apart
          (pair_keys (ent_sensor_base + n * 10 + 0))
          (pair_keys (ent_sensor_base + n * 10 + 1) ++ pair_keys (ent_sensor_base + n * 10 + 2))
        ≡ true
  unfolding all_apart apart_from keys_apart oid_eq apart
  first_apart n = ground arith

  second_apart :
      (n : ℕ)
      → all_apart
          (pair_keys (ent_sensor_base + n * 10 + 1))
          (pair_keys (ent_sensor_base + n * 10 + 2))
        ≡ true
  unfolding all_apart apart_from keys_apart oid_eq apart
  second_apart n = ground arith

  -- the three of a disk
  abbrev temp_rows : DiskInfo → List Row
  temp_rows d = disk_sensor host up d 0 d.temp_c 8 "C" "Temperature" " Temp"

  abbrev wear_rows : DiskInfo → List Row
  wear_rows d =
      disk_sensor host up d 1 (num_of d.health "percentage_used") 1 "%" "Endurance Used" " Wear"

  abbrev spare_rows : DiskInfo → List Row
  spare_rows d =
      disk_sensor host up d 2 (num_of d.health "avail_spare_pct") 1 "%" "Available Spare" " Spare"

  temp_keyed : (d : DiskInfo) → AreKeyed (pair_keys (sensor_index d 0)) (temp_rows d)
  temp_keyed d = disk_sensor-AreKeyed d 0 d.temp_c 8 "C" "Temperature" " Temp"

  wear_keyed : (d : DiskInfo) → AreKeyed (pair_keys (sensor_index d 1)) (wear_rows d)
  wear_keyed d =
      disk_sensor-AreKeyed d 1 (num_of d.health "percentage_used") 1 "%" "Endurance Used" " Wear"

  spare_keyed : (d : DiskInfo) → AreKeyed (pair_keys (sensor_index d 2)) (spare_rows d)
  spare_keyed d =
      disk_sensor-AreKeyed d 2 (num_of d.health "avail_spare_pct") 1 "%" "Available Spare" " Spare"

  two_keyed :
      (d : DiskInfo)
      → AreKeyed
          (pair_keys (sensor_index d 1) ++ pair_keys (sensor_index d 2))
          (wear_rows d ++ spare_rows d)
  two_keyed d =
      append-AreKeyed (pair_keys (sensor_index d 1)) (pair_keys (sensor_index d 2)) (wear_rows d)
        (spare_rows d) (wear_keyed d) (spare_keyed d)

  disk_sensors-AreKeyed : (d : DiskInfo) → AreKeyed (disk_keys d.index) (disk_sensors host up d)
  disk_sensors-AreKeyed d =
      append-AreKeyed (pair_keys (sensor_index d 0))
        (pair_keys (sensor_index d 1) ++ pair_keys (sensor_index d 2)) (temp_rows d)
        (wear_rows d ++ spare_rows d) (temp_keyed d) (two_keyed d)

  disk_sensors-IsUnique : (d : DiskInfo) → IsUnique (disk_sensors host up d)
  disk_sensors-IsUnique d =
      append-IsUnique (temp_rows d) (wear_rows d ++ spare_rows d)
        (disk_sensor-IsUnique d 0 d.temp_c 8 "C" "Temperature" " Temp")
        (append-IsUnique (wear_rows d) (spare_rows d)
          (disk_sensor-IsUnique d 1 (num_of d.health "percentage_used") 1 "%" "Endurance Used"
            " Wear")
          (disk_sensor-IsUnique d 2 (num_of d.health "avail_spare_pct") 1 "%" "Available Spare"
            " Spare")
          (AreKeyed-AreDisjoint (pair_keys (sensor_index d 1)) (pair_keys (sensor_index d 2))
            (wear_rows d) (spare_rows d) (second_apart d.index) (wear_keyed d) (spare_keyed d)))
        (AreKeyed-AreDisjoint (pair_keys (sensor_index d 0))
          (pair_keys (sensor_index d 1) ++ pair_keys (sensor_index d 2)) (temp_rows d)
          (wear_rows d ++ spare_rows d) (first_apart d.index) (temp_keyed d) (two_keyed d))

  disk_sensors-AreCovered :
      (d : DiskInfo) → d.index < 16 → AreCovered (sensors 5000 5500) (disk_sensors host up d)
  disk_sensors-AreCovered d h =
      append-AreCovered_same (sensors 5000 5500) (temp_rows d) (wear_rows d ++ spare_rows d)
        (disk_sensor-AreCovered d 0 d.temp_c 8 "C" "Temperature" " Temp" h (omega arith))
        (append-AreCovered_same (sensors 5000 5500) (wear_rows d) (spare_rows d)
          (disk_sensor-AreCovered d 1 (num_of d.health "percentage_used") 1 "%" "Endurance Used"
            " Wear" h (omega arith))
          (disk_sensor-AreCovered d 2 (num_of d.health "avail_spare_pct") 1 "%" "Available Spare"
            " Spare" h (omega arith)))

  pub disk_sensor_rows-IsPart :
      (disks : List DiskInfo)
      → AreDistinct (λ d. d.index) disks
      → All (λ d. d.index < 16) disks
      → IsPart (sensors 5000 5500) (disk_sensor_rows host up disks)
  unfolding disk_sensor_rows
  disk_sensor_rows-IsPart disks d h = (
    loop-IsUnique (λ x. disk_keys x.index) (disk_sensors host up) (λ x. x.index)
        disk_sensors-AreKeyed (λ x y e. disk_sep x.index y.index e) disk_sensors-IsUnique disks d,
    for_each-AreCovered (sensors 5000 5500) (λ x. x.index < 16) (disk_sensors host up)
        disk_sensors-AreCovered disks h,
  )
