-- ===== src/Tables/Devices.antt =====
-- `build_snapshot` of deploy/jt_agent.py: the hrDevice family, partitions, disk counters and UCD's system
-- statistics.
use jt_snmpd.Prelude.{ℕ, ◌+◌, ◌/◌, Bool, Option, List, [], ◌∷◌, ◌++◌, ◌==◌, if◌then◌else◌, str_eq}
use jt_snmpd.Smart.{Health}
use jt_snmpd.Mib.Oid.{Oid}
use jt_snmpd.Mib.Value.{ℤ, object, Row}
use jt_snmpd.Tables.{
  disk_label, Text, Host, int32, capped_int32, counter32, counter64, octet, zero_zero, Cells, at,
  for_each, numbered, if_some, ◌&◌, decimal,
}
use jt_snmpd.Tables.Names.{
  hr, hr_device, hr_processor, hr_network, hr_disk, hr_partition, hr_fs, hr_device_type, disk_io,
  ucd_stats, dev_base_cpu, dev_base_net, dev_base_disk,
}
use jt_snmpd.Tables.Network.{Nic}
use jt_snmpd.Tables.Resources.{Volume}

abbrev pub device_cells : Host → ℕ → ℕ → Text → ℕ → ℕ → Cells
device_cells host di kind descr status errors =
    (1, int32 di)
    ∷ (2, object (hr_device_type ++ (kind ∷ [])))
    ∷ (3, octet host descr)
    ∷ (4, zero_zero)
    ∷ (5, int32 status)
    ∷ (6, counter32 errors)
    ∷ []

abbrev pub processor_cells : ℕ → Cells
processor_cells load = (1, zero_zero) ∷ (2, int32 load) ∷ []

abbrev pub cpu_device : Host → Text → ℕ × ℕ → List Row
cpu_device host cpu_name (i, load) =
    let di : ℕ = dev_base_cpu + i in
    at hr_device (di ∷ []) (device_cells host di 3 cpu_name 2 0)
    ++ at hr_processor (di ∷ []) (processor_cells load)

unfoldable pub cpu_rows : Host → Text → List ℕ → List Row
unfolding at for_each numbered
cpu_rows host cpu_name loads = for_each (numbered 0 loads) (cpu_device host cpu_name)

abbrev pub network_cells : Nic → Cells
network_cells nic = (1, int32 nic.idx) ∷ []

abbrev pub net_device : Host → Nic → List Row
net_device host nic =
    let di : ℕ = dev_base_net + nic.idx in
    at hr_device (di ∷ [])
      (device_cells host di 4 nic.descr (if nic.oper == 1 then 2 else 5) (nic.in_err + nic.out_err))
    ++ at hr_network (di ∷ []) (network_cells nic)

unfoldable pub net_rows : Host → List Nic → List Row
unfolding at for_each
net_rows host nics = for_each nics (net_device host)

-- a disk of the inventory
pub record DiskInfo : Type 0 where
  pub index : ℕ
  pub model : Text
  pub serial : Text
  pub bus : Text
  pub removable : Bool
  pub size_bytes : ℕ
  pub vendor : Option Text
  pub temp_c : Option ℤ
  pub health : Health

abbrev pub label_of : Host → DiskInfo → Text
label_of host d = disk_label host d.index d.model

abbrev pub disk_cells : DiskInfo → Cells
disk_cells d =
    (1, int32 1)
    ∷ (2, int32 (if d.removable then 1 else 3))
    ∷ (3, int32 (if d.removable then 1 else 2))
    ∷ (4, capped_int32 (d.size_bytes / 1024))
    ∷ []

abbrev pub disk_device : Host → DiskInfo → List Row
disk_device host d =
    let di : ℕ = dev_base_disk + d.index in
    at hr_device (di ∷ []) (device_cells host di 6 (label_of host d) 2 0)
    ++ at hr_disk (di ∷ []) (disk_cells d)

unfoldable pub disk_rows : Host → List DiskInfo → List Row
unfolding at for_each disk_label
disk_rows host disks = for_each disks (disk_device host)

-- number, bytes and operations read and written
pub record DiskIo : Type 0 where
  pub disk : ℕ
  pub bytes_read : ℕ
  pub bytes_written : ℕ
  pub reads : ℕ
  pub writes : ℕ

abbrev pub disk_io_cells : Host → ℕ × DiskIo → Cells
disk_io_cells host (idx, d) =
    (1, int32 idx)
    ∷ (2, octet host ("PhysicalDrive" & decimal d.disk))
    ∷ (3, counter32 d.bytes_read)
    ∷ (4, counter32 d.bytes_written)
    ∷ (5, counter32 d.reads)
    ∷ (6, counter32 d.writes)
    ∷ (12, counter64 d.bytes_read)
    ∷ (13, counter64 d.bytes_written)
    ∷ []

unfoldable pub disk_io_rows : Host → List DiskIo → List Row
unfolding at for_each numbered decimal
disk_io_rows host ios =
    for_each (numbered 1 ios) (λ d. at disk_io (d.0 ∷ []) (disk_io_cells host d))

-- hrFSTypes; `upper` of the name of the file system
unfoldable pub fs_type : Text → Oid
fs_type fs =
    if str_eq fs "NTFS"
    then hr ++ (3 ∷ 9 ∷ 4 ∷ [])
    else if str_eq fs "FAT32"
    then hr ++ (3 ∷ 9 ∷ 3 ∷ [])
    else if str_eq fs "FAT"
    then hr ++ (3 ∷ 9 ∷ 3 ∷ [])
    else hr ++ (3 ∷ 9 ∷ 1 ∷ [])

-- all partitions are attached to the first disk
abbrev pub part_device : List DiskInfo → ℕ
part_device [] = dev_base_disk + 0
part_device (d ∷ ds) = dev_base_disk + d.index

abbrev pub partition_cells : Host → ℕ × Volume → Cells
partition_cells host (pi, v) =
    (1, int32 pi)
    ∷ (2, octet host (if str_eq v.label "" then v.root else v.label))
    ∷ (3, octet host v.serial)
    ∷ (4, capped_int32 (v.total / 1024))
    ∷ (5, int32 pi)
    ∷ []

abbrev pub fs_cells : Host → ℕ × Volume → Cells
fs_cells host (pi, v) =
    (1, int32 pi)
    ∷ (2, octet host v.root)
    ∷ (3, octet host "")
    ∷ (4, object (fs_type (host.upper v.fs)))
    ∷ (5, int32 1)
    ∷ (6, int32 2)
    ∷ (7, int32 2)
    ∷ (8, int32 0)
    ∷ (9, int32 0)
    ∷ []

unfoldable pub partition_rows : Host → List DiskInfo → List Volume → List Row
unfolding at for_each numbered fs_type
partition_rows host disks vols = for_each (numbered 1 vols) (λ p.
    at hr_partition (part_device disks ∷ p.0 ∷ []) (partition_cells host p)
    ++ at hr_fs (p.0 ∷ []) (fs_cells host p))

-- times in units of 100 ns
pub record CpuTimes : Type 0 where
  pub user : ℕ
  pub system : ℕ
  pub idle : ℕ
  pub interrupt : ℕ
  pub interrupt_count : ℕ

pub record SysPerf : Type 0 where
  pub io_write_bytes : ℕ
  pub io_read_bytes : ℕ
  pub context_switches : ℕ
  pub page_reads : ℕ
  pub dirty_pages : ℕ

abbrev pub cpu_time_cells : CpuTimes → Cells
cpu_time_cells ct =
    (50, counter32 (ct.user / 100000))
    ∷ (51, counter32 0)
    ∷ (52, counter32 (ct.system / 100000))
    ∷ (53, counter32 (ct.idle / 100000))
    ∷ (56, counter32 (ct.interrupt / 100000))
    ∷ []

abbrev pub sys_perf_cells : Host → Option CpuTimes → SysPerf → Cells
sys_perf_cells host times sp =
    (1, int32 1)
    ∷ (2, octet host "systemStats")
    ∷ (57, counter32 (sp.io_write_bytes / 512))
    ∷ (58, counter32 (sp.io_read_bytes / 512))
    ∷ (if_some times (λ ct. (59, counter32 ct.interrupt_count) ∷ [])
        ++ ((60, counter32 sp.context_switches)
            ∷ (62, counter32 sp.page_reads)
            ∷ (63, counter32 sp.dirty_pages)
            ∷ []))

unfoldable pub cpu_time_rows : Option CpuTimes → List Row
unfolding at
cpu_time_rows times = if_some times (λ ct. at ucd_stats (0 ∷ []) (cpu_time_cells ct))

unfoldable pub sys_perf_rows : Host → Option CpuTimes → Option SysPerf → List Row
unfolding at
sys_perf_rows host times perf =
    if_some perf (λ sp. at ucd_stats (0 ∷ []) (sys_perf_cells host times sp))
