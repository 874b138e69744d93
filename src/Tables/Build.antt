-- ===== src/Tables/Build.antt =====
-- `build_snapshot` of deploy/jt_agent.py as a whole, from what its collectors return. The rows of one table
-- stand together here where the source adds them in turn with those of another: they are sorted at the end.
use jt_snmpd.Prelude.{if◌then◌else◌, ℕ, Bool, true, false, Option, List, [], ◌∷◌}
use jt_snmpd.Prelude.Int.{ℤ}
use jt_snmpd.Gate.Defs.{Counters}
use jt_snmpd.Mib.Value.{Row}
use jt_snmpd.Mib.Snapshot.{Snapshot, negative_shift, finish}
use jt_snmpd.Tables.{Text, Host, flatten}
use jt_snmpd.Tables.System.{SystemInfo, system_rows, engine_rows, sys_or_rows, snmp_rows}
use jt_snmpd.Tables.Agent.{Status, AgentInfo, Battery, agent_rows, collector_rows, battery_rows}
use jt_snmpd.Tables.Network.{
  Nic, Address, Neighbor, Route, if_number_rows, interface_rows, masks_raise, address_rows,
  neighbor_rows, route_rows,
}
use jt_snmpd.Tables.Protocols.{TcpStats, UdpStats, ip_rows, icmp_rows, tcp_rows, udp_rows}
use jt_snmpd.Tables.Resources.{
  Perf, Memory, Volume, hr_system_rows, memory_rows, pools, storage_rows,
}
use jt_snmpd.Tables.Devices.{
  DiskInfo, DiskIo, CpuTimes, SysPerf, cpu_rows, net_rows, disk_rows, disk_io_rows, partition_rows,
  cpu_time_rows, sys_perf_rows,
}
use jt_snmpd.Tables.Entity.{
  Inventory, chassis_rows, board_rows, cpu_ent_rows, dimm_rows, disk_ent_rows,
}
use jt_snmpd.Tables.Sensors.{
  disk_sensor_rows, thermal_rows, frequency_rows, disk_health_rows, has_health,
}
use jt_snmpd.Tables.Extend.{extend_rows}

-- what the collectors return; `software` is the end of sysDescr
pub record Collected : Type 0 where
  pub system : SystemInfo
  pub software : Text
  pub now : ℕ
  pub agent : AgentInfo
  pub gate : Option Counters
  pub collectors : List (Text × Status)
  pub nics : List Nic
  pub addresses : List Address
  pub neighbors : List Neighbor
  pub enable_arp_table : Bool
  pub routes : List Route
  pub date : List ℕ
  pub sessions : Option ℕ
  pub processes : Option ℕ
  pub perf : Option Perf
  pub memory : Memory
  pub volumes : List Volume
  pub cpu_name : Text
  pub loads : List ℕ
  pub inventory : Inventory
  pub disk_ios : List DiskIo
  pub ip_stats : Option (List ℕ)
  pub icmp_stats : Option (List ℕ × List ℕ)
  pub tcp_stats : Option TcpStats
  pub udp_stats : Option UdpStats
  pub zones : List (Text × ℤ)
  pub frequencies : List ℕ
  pub battery : Option Battery
  pub cpu_times : Option CpuTimes
  pub sys_perf : Option SysPerf

-- those that go into the JSON
unfoldable pub with_health : List DiskInfo → List DiskInfo
with_health [] = []
with_health (d ∷ ds) =
    let rest = with_health ds in elim (has_health d.health) [ true ↦ d ∷ rest | false ↦ rest ]

module _ (host : Host) (encode : List DiskInfo → List ℕ) (c : Collected) where
  -- each part of the snapshot by itself
  unfoldable pub parts : List (List Row)
  unfolding with_health
  parts =
      system_rows host c.system
      ∷ engine_rows c.system
      ∷ sys_or_rows host
      ∷ if_number_rows c.nics
      ∷ interface_rows host c.nics
      ∷ hr_system_rows host c.system.up c.date c.sessions c.perf c.processes
      ∷ memory_rows c.memory
      ∷ storage_rows host (pools c.memory c.perf c.volumes)
      ∷ cpu_rows host c.cpu_name c.loads
      ∷ net_rows host c.nics
      ∷ disk_rows host c.inventory.disks
      ∷ chassis_rows host c.system.computer_name c.software c.inventory
      ∷ board_rows host c.inventory
      ∷ cpu_ent_rows host c.inventory c.cpu_name
      ∷ dimm_rows host c.inventory
      ∷ disk_ent_rows host c.inventory.disks
      ∷ disk_io_rows host c.disk_ios
      ∷ ip_rows c.ip_stats
      ∷ icmp_rows c.icmp_stats
      ∷ tcp_rows c.tcp_stats
      ∷ udp_rows c.udp_stats
      ∷ address_rows c.nics c.addresses
      ∷ neighbor_rows c.enable_arp_table c.nics c.neighbors
      ∷ partition_rows host c.inventory.disks c.volumes
      ∷ route_rows c.nics c.routes
      ∷ disk_sensor_rows host c.system.up c.inventory.disks
      ∷ thermal_rows host c.system.up c.zones
      ∷ frequency_rows host c.system.up c.frequencies
      ∷ battery_rows c.battery
      ∷ disk_health_rows host c.inventory.disks
      ∷ extend_rows encode host (with_health c.inventory.disks)
      ∷ cpu_time_rows c.cpu_times
      ∷ sys_perf_rows host c.cpu_times c.sys_perf
      ∷ snmp_rows c.gate
      ∷ agent_rows host c.now c.agent c.gate
      ∷ collector_rows host c.now c.collectors
      ∷ []

  -- the masks of the addresses are computed on the way, and one that cannot be raises
  unfoldable pub build_snapshot : Snapshot
  unfolding parts flatten masks_raise
  build_snapshot = if masks_raise c.nics c.addresses then negative_shift else finish (flatten parts)
