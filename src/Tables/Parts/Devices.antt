-- ===== src/Tables/Parts/Devices.antt =====
-- Interfaces, devices, disks and storage: tables indexed by a number.
use jt_snmpd.Prelude.{
  ℕ, ◌+◌, ◌≤◌, ◌<◌, ◌≡◌, refl, Bool, true, false, List, [], ◌∷◌, ◌++◌, arith, ◌==◌, length,
  if◌then◌else◌,
}
use jt_snmpd.Mib.Oid.{oid_eq}
use jt_snmpd.Mib.Value.{Row}
use jt_snmpd.Tables.{Text, Host, at, numbered, when}
use jt_snmpd.Tables.Rows.{IsUnique}
use jt_snmpd.Tables.Sensors.{has_health, disk_health_cells, disk_health_rows}
use jt_snmpd.Tables.Names.{
  if_table, if_x_table, hr_storage, hr_device, hr_processor, hr_network, hr_disk, hr_partition,
  hr_fs, disk_io, jt_collector, jt_disk, dev_base_cpu, dev_base_net, dev_base_disk,
}
use jt_snmpd.Tables.Agent.{Status, collector_cells, collector_rows}
use jt_snmpd.Tables.Network.{Nic, if_cells, if_x_cells, interface_rows}
use jt_snmpd.Tables.Resources.{Pool, Volume, storage_cells, storage_rows}
use jt_snmpd.Tables.Devices.{
  label_of, DiskInfo, DiskIo, device_cells, processor_cells, network_cells, disk_cells, cpu_rows,
  net_rows, disk_rows, disk_io_cells, disk_io_rows, part_device, partition_cells, fs_cells,
  partition_rows,
}
use jt_snmpd.Tables.Keys.{
  apart, keys_apart, apart_from, all_apart, AreKeyed, at-AreKeyed, at-IsUnique,
}
use jt_snmpd.Tables.Regions.{AreCovered, IsPart}
use jt_snmpd.Tables.Covers.{
  index_regions, at-AreCovered, All, All-any, AreDistinct, numbered-AreDistinct, numbered-lt,
  loop-IsUnique, for_each-AreCovered, append-AreCovered,
}
use jt_snmpd.Tables.Parts.{table-IsPart, sep_one, pair-AreKeyed, pair-IsUnique}
use jt_snmpd.Tables.Parts.Loops.{pair_loop-IsPart, device-IsPart}

-- 1 to 6
abbrev pub device_columns : List ℕ
device_columns = 1 ∷ 2 ∷ 3 ∷ 4 ∷ 5 ∷ 6 ∷ []

pub interface_rows-IsPart :
    (host : Host) (nics : List Nic)
    → AreDistinct (λ nic. nic.idx) nics
    → IsPart ((if_table, 1, 23) ∷ (if_x_table, 1, 20) ∷ []) (interface_rows host nics)
unfolding interface_rows apart
interface_rows-IsPart host nics d =
    pair_loop-IsPart if_table if_x_table ((if_table, 1, 23) ∷ []) ((if_x_table, 1, 20) ∷ [])
      (λ nic. Unit) (λ nic. nic.idx) (if_cells host) (if_x_cells host) refl refl (λ nic. refl)
      (λ nic. refl) (λ nic _. at-AreCovered if_table (nic.idx ∷ []) 1 23 (if_cells host nic) refl)
      (λ nic _. at-AreCovered if_x_table (nic.idx ∷ []) 1 20 (if_x_cells host nic) refl) nics d
      (All-any nics)

pub cpu_rows-IsPart :
    (host : Host) (cpu_name : Text) (loads : List ℕ)
    → length loads ≤ 65536
    → IsPart
        (index_regions hr_device device_columns 196608 262144 ++ ((hr_processor, 1, 3) ∷ []))
        (cpu_rows host cpu_name loads)
unfolding cpu_rows apart
cpu_rows-IsPart host cpu_name loads h =
    device-IsPart hr_device hr_processor device_columns 1 3 dev_base_cpu 65536 (λ p. p.0)
      (λ p. device_cells host (dev_base_cpu + p.0) 3 cpu_name 2 0) (λ p. processor_cells p.1) refl
      refl (λ p. refl) (λ p. refl) (λ p. refl) (λ p. refl) (numbered 0 loads)
      (numbered-AreDistinct 0 loads) (numbered-lt 0 65536 loads (omega (arith, h)))

pub net_rows-IsPart :
    (host : Host) (nics : List Nic)
    → AreDistinct (λ nic. nic.idx) nics
    → All (λ nic. nic.idx < 65536) nics
    → IsPart
        (index_regions hr_device device_columns 262144 327680 ++ ((hr_network, 1, 2) ∷ []))
        (net_rows host nics)
unfolding net_rows apart
net_rows-IsPart host nics d h =
    device-IsPart hr_device hr_network device_columns 1 2 dev_base_net 65536 (λ nic. nic.idx)
      (λ nic.
        device_cells host (dev_base_net + nic.idx) 4 nic.descr (if nic.oper == 1 then 2 else 5)
          (nic.in_err + nic.out_err))
      network_cells refl refl (λ nic. refl) (λ nic. refl) (λ nic. refl) (λ nic. refl) nics d h

pub disk_rows-IsPart :
    (host : Host) (disks : List DiskInfo)
    → AreDistinct (λ d. d.index) disks
    → All (λ d. d.index < 16) disks
    → IsPart
        (index_regions hr_device device_columns 327680 327696 ++ ((hr_disk, 1, 5) ∷ []))
        (disk_rows host disks)
unfolding disk_rows apart
disk_rows-IsPart host disks d h =
    device-IsPart hr_device hr_disk device_columns 1 5 dev_base_disk 16 (λ d. d.index)
      (λ d. device_cells host (dev_base_disk + d.index) 6 (label_of host d) 2 0) disk_cells refl
      refl (λ d. refl) (λ d. refl) (λ d. refl) (λ d. refl) disks d h

pub storage_rows-IsPart :
    (host : Host) (ps : List Pool) → IsPart ((hr_storage, 1, 7) ∷ []) (storage_rows host ps)
unfolding storage_rows storage_cells
storage_rows-IsPart host ps =
    table-IsPart hr_storage 1 7 (λ p. p.0) (storage_cells host) (λ p. refl) (λ p. refl)
      (numbered 1 ps) (numbered-AreDistinct 1 ps)

pub disk_io_rows-IsPart :
    (host : Host) (ios : List DiskIo) → IsPart ((disk_io, 1, 14) ∷ []) (disk_io_rows host ios)
unfolding disk_io_rows
disk_io_rows-IsPart host ios =
    table-IsPart disk_io 1 14 (λ p. p.0) (disk_io_cells host) (λ p. refl) (λ p. refl)
      (numbered 1 ios) (numbered-AreDistinct 1 ios)

pub collector_rows-IsPart :
    (host : Host) (now : ℕ) (statuses : List (Text × Status))
    → IsPart ((jt_collector, 1, 9) ∷ []) (collector_rows host now statuses)
unfolding collector_rows
collector_rows-IsPart host now statuses =
    table-IsPart jt_collector 1 9 (λ p. p.0) (collector_cells host now) (λ p. refl) (λ p. refl)
      (numbered 1 statuses) (numbered-AreDistinct 1 statuses)

-- of a test, and of an option: what holds of no rows and of the rows there are
pub when_ind :
    (P : List Row → Type 0) (b : Bool) (rows : List Row) → P [] → P rows → P (when b rows)
when_ind P false rows p q = p
when_ind P true rows p q = q

pub disk_health_rows-IsPart :
    (host : Host) (disks : List DiskInfo)
    → AreDistinct (λ d. d.index) disks
    → IsPart ((jt_disk, 1, 5) ∷ []) (disk_health_rows host disks)
unfolding disk_health_rows
disk_health_rows-IsPart host disks d =
    let rows : DiskInfo → List Row = λ x. at jt_disk (x.index ∷ []) (disk_health_cells host x) in
    let f : DiskInfo → List Row = λ x. when (has_health x.health) (rows x) in
    (
      loop-IsUnique (λ x. (jt_disk, x.index ∷ []) ∷ []) f (λ x. x.index)
          (λ x.
            when_ind (AreKeyed ((jt_disk, x.index ∷ []) ∷ [])) (has_health x.health) (rows x) tt
              (at-AreKeyed jt_disk (x.index ∷ []) (disk_health_cells host x)))
          (λ x y e. sep_one jt_disk x.index y.index e)
          (λ x.
            when_ind IsUnique (has_health x.health) (rows x) tt
              (at-IsUnique jt_disk (x.index ∷ []) (disk_health_cells host x) refl))
          disks d,
      for_each-AreCovered ((jt_disk, 1, 5) ∷ []) (λ x. Unit) f
          (λ x _.
            when_ind (AreCovered ((jt_disk, 1, 5) ∷ [])) (has_health x.health) (rows x) tt
              (at-AreCovered jt_disk (x.index ∷ []) 1 5 (disk_health_cells host x) refl))
          disks (All-any disks),
    )

partition_sep :
    (dev m n : ℕ)
    → (m == n) ≡ false
    → all_apart
        ((hr_partition, dev ∷ m ∷ []) ∷ (hr_fs, m ∷ []) ∷ [])
        ((hr_partition, dev ∷ n ∷ []) ∷ (hr_fs, n ∷ []) ∷ [])
      ≡ true
unfolding all_apart apart_from keys_apart oid_eq apart
partition_sep dev m n h = ground (arith, h)

pub partition_rows-IsPart :
    (host : Host) (disks : List DiskInfo) (vols : List Volume)
    → IsPart ((hr_partition, 1, 6) ∷ (hr_fs, 1, 10) ∷ []) (partition_rows host disks vols)
unfolding partition_rows keys_apart apart
partition_rows-IsPart host disks vols =
    let dev : ℕ = part_device disks in
    let f : ℕ × Volume → List Row = λ p.
      at hr_partition (dev ∷ p.0 ∷ []) (partition_cells host p)
      ++ at hr_fs (p.0 ∷ []) (fs_cells host p) in
    (
      loop-IsUnique (λ p. (hr_partition, dev ∷ p.0 ∷ []) ∷ (hr_fs, p.0 ∷ []) ∷ []) f (λ p. p.0)
          (λ p.
            pair-AreKeyed hr_partition (dev ∷ p.0 ∷ []) hr_fs (p.0 ∷ []) (partition_cells host p)
              (fs_cells host p))
          (λ p q e. partition_sep dev p.0 q.0 e)
          (λ p.
            pair-IsUnique hr_partition (dev ∷ p.0 ∷ []) hr_fs (p.0 ∷ []) (partition_cells host p)
              (fs_cells host p) refl refl refl)
          (numbered 1 vols) (numbered-AreDistinct 1 vols),
      for_each-AreCovered ((hr_partition, 1, 6) ∷ (hr_fs, 1, 10) ∷ []) (λ p. Unit) f
          (λ p _.
            append-AreCovered ((hr_partition, 1, 6) ∷ []) ((hr_fs, 1, 10) ∷ [])
              (at hr_partition (dev ∷ p.0 ∷ []) (partition_cells host p))
              (at hr_fs (p.0 ∷ []) (fs_cells host p))
              (at-AreCovered hr_partition (dev ∷ p.0 ∷ []) 1 6 (partition_cells host p) refl)
              (at-AreCovered hr_fs (p.0 ∷ []) 1 10 (fs_cells host p) refl))
          (numbered 1 vols) (All-any (numbered 1 vols)),
    )
