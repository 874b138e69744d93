-- ===== src/Tables/Unique.antt =====
-- Which data gives a snapshot: what the collectors return is well-formed, the parts of the snapshot are in
-- regions apart, and so no name is added twice.
use mathlib.Core.List.{Perm}
use jt_snmpd.Prelude.{ℕ, ◌≤◌, ◌<◌, ◌≡◌, ◌∙◌, List, length}
use jt_snmpd.Mib.Value.{Row}
use jt_snmpd.Mib.Snapshot.{built, finish-built}
use jt_snmpd.Mib.Snapshot.Guard.{finish-built_iff}
use jt_snmpd.Mib.Controller.Sorted.{IsSorted}
use jt_snmpd.Tables.{Host, flatten}
use jt_snmpd.Tables.Network.{our_if}
use jt_snmpd.Tables.Resources.{pools}
use jt_snmpd.Tables.Devices.{DiskInfo}
use jt_snmpd.Tables.Build.{Collected, with_health, parts, build_snapshot}
use jt_snmpd.Tables.Masks.{HasMask, masks_fit, finish_of_masks}
use jt_snmpd.Tables.Rows.{IsUnique, name_count-le_one}
use jt_snmpd.Tables.Regions.{AreParts, flatten-IsUnique}
use jt_snmpd.Tables.Covers.{All, AreDistinct}
use jt_snmpd.Tables.Layout.{part_regions, part_regions_apart}
use jt_snmpd.Tables.Parts.Scalars.{
  system_rows-IsPart, engine_rows-IsPart, sys_or_rows-IsPart, if_number_rows-IsPart,
  hr_system_rows-IsPart, memory_rows-IsPart, ip_rows-IsPart, icmp_rows-IsPart, tcp_rows-IsPart,
  udp_rows-IsPart, snmp_rows-IsPart, battery_rows-IsPart, cpu_time_rows-IsPart,
  sys_perf_rows-IsPart, agent_rows-IsPart,
}
use jt_snmpd.Tables.Parts.Devices.{
  interface_rows-IsPart, cpu_rows-IsPart, net_rows-IsPart, disk_rows-IsPart, storage_rows-IsPart,
  disk_io_rows-IsPart, collector_rows-IsPart, disk_health_rows-IsPart, partition_rows-IsPart,
}
use jt_snmpd.Tables.Parts.Entity.{
  chassis_rows-IsPart, board_rows-IsPart, cpu_ent_rows-IsPart, dimm_rows-IsPart,
  disk_ent_rows-IsPart,
}
use jt_snmpd.Tables.Parts.Sensors.{
  disk_sensor_rows-IsPart, thermal_rows-IsPart, frequency_rows-IsPart,
}
use jt_snmpd.Tables.Parts.Addresses.{NoClash, same_address, address_rows-IsPart}
use jt_snmpd.Tables.Parts.Routes.{same_neighbor, neighbor_rows-IsPart, route_rows-IsPart}
use jt_snmpd.Tables.Parts.Extend.{extend_rows-IsPart}

-- The interfaces have different indices, below 65536; the disks have different numbers, of the 16 that are
-- tried; no address is on two published interfaces, those of IPv4 have a prefix
-- of at most 32 bits, and no neighbour twice on one; and the tables of
-- processors, memory modules and thermal zones are not longer than their ranges of indices.
pub record IsWellFormed (c : Collected) : Type 0 where
  pub nics_differ : AreDistinct (λ nic. nic.idx) c.nics
  pub nics_in_range : All (λ nic. nic.idx < 65536) c.nics
  pub loads_in_range : length c.loads ≤ 65536
  pub disks_differ : AreDistinct (λ d. d.index) c.inventory.disks
  pub disks_in_range : All (λ d. d.index < 16) c.inventory.disks
  pub processors_in_range : length c.inventory.processors ≤ 1000
  pub memory_in_range : length c.inventory.memory ≤ 1000
  pub zones_in_range : length c.zones ≤ 400
  pub masks_exist : All (HasMask c.nics) c.addresses
  pub addresses_differ :
      NoClash
        (λ a b. same_address (our_if c.nics a.if_index) (our_if c.nics b.if_index) a b)
        c.addresses
  pub neighbors_differ :
      NoClash
        (λ a b. same_neighbor (our_if c.nics a.if_index) (our_if c.nics b.if_index) a b)
        c.neighbors

-- a proof and the others
infixr 5 ◌▸◌
◌▸◌ {ℓ ℓ'} : {A : Type ℓ} {B : Type ℓ'} → A → B → A × B
p ▸ ps = (p, ps)

module _ (host : Host) (encode : List DiskInfo → List ℕ) (c : Collected) where
  parts-AreParts : IsWellFormed c → AreParts part_regions (parts host encode c)
  unfolding parts
  parts-AreParts w =
      system_rows-IsPart host c.system
      ▸ engine_rows-IsPart c.system
      ▸ sys_or_rows-IsPart host
      ▸ if_number_rows-IsPart c.nics
      ▸ interface_rows-IsPart host c.nics w.nics_differ
      ▸ hr_system_rows-IsPart host c.system.up c.date c.sessions c.perf c.processes
      ▸ memory_rows-IsPart c.memory
      ▸ storage_rows-IsPart host (pools c.memory c.perf c.volumes)
      ▸ cpu_rows-IsPart host c.cpu_name c.loads w.loads_in_range
      ▸ net_rows-IsPart host c.nics w.nics_differ w.nics_in_range
      ▸ disk_rows-IsPart host c.inventory.disks w.disks_differ w.disks_in_range
      ▸ chassis_rows-IsPart host c.system.computer_name c.software c.inventory
      ▸ board_rows-IsPart host c.inventory
      ▸ cpu_ent_rows-IsPart host c.inventory c.cpu_name w.processors_in_range
      ▸ dimm_rows-IsPart host c.inventory w.memory_in_range
      ▸ disk_ent_rows-IsPart host c.inventory.disks w.disks_differ w.disks_in_range
      ▸ disk_io_rows-IsPart host c.disk_ios
      ▸ ip_rows-IsPart c.ip_stats
      ▸ icmp_rows-IsPart c.icmp_stats
      ▸ tcp_rows-IsPart c.tcp_stats
      ▸ udp_rows-IsPart c.udp_stats
      ▸ address_rows-IsPart c.nics c.addresses w.addresses_differ
      ▸ neighbor_rows-IsPart c.enable_arp_table c.nics c.neighbors w.neighbors_differ
      ▸ partition_rows-IsPart host c.inventory.disks c.volumes
      ▸ route_rows-IsPart c.nics c.routes
      ▸ disk_sensor_rows-IsPart host c.system.up c.inventory.disks w.disks_differ w.disks_in_range
      ▸ thermal_rows-IsPart host c.system.up c.zones w.zones_in_range
      ▸ frequency_rows-IsPart host c.system.up c.frequencies
      ▸ battery_rows-IsPart c.battery
      ▸ disk_health_rows-IsPart host c.inventory.disks w.disks_differ
      ▸ extend_rows-IsPart encode host (with_health c.inventory.disks)
      ▸ cpu_time_rows-IsPart c.cpu_times
      ▸ sys_perf_rows-IsPart host c.cpu_times c.sys_perf
      ▸ snmp_rows-IsPart c.gate
      ▸ agent_rows-IsPart host c.now c.agent c.gate
      ▸ collector_rows-IsPart host c.now c.collectors
      ▸ tt

  pub parts-IsUnique : IsWellFormed c → IsUnique (flatten (parts host encode c))
  parts-IsUnique w =
      flatten-IsUnique part_regions (parts host encode c) part_regions_apart (parts-AreParts w)

-- From well-formed data the snapshot is built: no name is added twice, so that the guard does not refuse it,
-- and its rows are the rows of all parts, each as often, in strictly ascending order. The checks of
-- number ranges, which are pyasn1's, are taken to pass.
pub build_snapshot-built :
    (host : Host) (encode : List DiskInfo → List ℕ) (c : Collected)
    → IsWellFormed c
    → (rows : List Row) × (build_snapshot host encode c ≡ built rows)
      × IsSorted rows
      × Perm rows (flatten (parts host encode c))
build_snapshot-built host encode c w =
    let pairs : List Row = flatten (parts host encode c) in
    let (rows, e) =
      (finish-built_iff pairs).1
        (λ o. name_count-le_one o pairs (parts-IsUnique host encode c w)) in
    let (sorted, perm) = finish-built pairs rows e in
    (
      rows,
      finish_of_masks host encode c (masks_fit c.nics c.addresses w.masks_exist) ∙ e,
      sorted,
      perm,
    )
