-- ===== src/Tables/Layout.antt =====
-- The regions of the 36 parts of the snapshot, which are apart.
use jt_snmpd.Prelude.{◌≡◌, refl, true, List, [], ◌∷◌, ◌++◌}
use jt_snmpd.Tables.Names.{
  sys, snmp_fw, interfaces_group, if_table, if_x_table, hr_system, hr_memory, hr_storage, hr_device,
  hr_processor, hr_network, hr_disk, hr_partition, hr_fs, disk_io, ip_group, icmp_group, tcp_group,
  udp_group, ip_route, jt_agent, jt_disk, jt_collector, snmp_group, ucd_stats,
}
use jt_snmpd.Tables.Regions.{
  Region, regions_apart, apart_from_all, all_regions_apart, apart_from_parts, all_parts_apart,
}
use jt_snmpd.Tables.Covers.{index_regions}
use jt_snmpd.Tables.Parts.Scalars.{cpu_time_columns, sys_perf_columns}
use jt_snmpd.Tables.Parts.Devices.{device_columns}
use jt_snmpd.Tables.Parts.Entity.{entries}
use jt_snmpd.Tables.Parts.Sensors.{sensors}
use jt_snmpd.Tables.Parts.Addresses.{address_regions}
use jt_snmpd.Tables.Parts.Routes.{neighbor_regions}
use jt_snmpd.Tables.Parts.Extend.{extend_regions}

-- the regions of the parts, in their order
abbrev pub part_regions : List (List Region)
part_regions =
    ((sys, 1, 8) ∷ [])
    ∷ ((snmp_fw, 1, 5) ∷ [])
    ∷ ((sys, 9, 10) ∷ [])
    ∷ ((interfaces_group, 0, 1) ∷ [])
    ∷ ((if_table, 1, 23) ∷ (if_x_table, 1, 20) ∷ [])
    ∷ ((hr_system, 1, 8) ∷ [])
    ∷ ((hr_memory, 0, 1) ∷ [])
    ∷ ((hr_storage, 1, 7) ∷ [])
    ∷ (index_regions hr_device device_columns 196608 262144 ++ ((hr_processor, 1, 3) ∷ []))
    ∷ (index_regions hr_device device_columns 262144 327680 ++ ((hr_network, 1, 2) ∷ []))
    ∷ (index_regions hr_device device_columns 327680 327696 ++ ((hr_disk, 1, 5) ∷ []))
    ∷ entries 1000 1001
    ∷ entries 1100 1101
    ∷ entries 2000 3000
    ∷ entries 3000 4000
    ∷ entries 4000 4016
    ∷ ((disk_io, 1, 14) ∷ [])
    ∷ ((ip_group, 1, 20) ∷ [])
    ∷ ((icmp_group, 1, 27) ∷ [])
    ∷ ((tcp_group, 1, 16) ∷ [])
    ∷ ((udp_group, 1, 5) ∷ [])
    ∷ address_regions
    ∷ neighbor_regions
    ∷ ((hr_partition, 1, 6) ∷ (hr_fs, 1, 10) ∷ [])
    ∷ ((ip_route, 1, 12) ∷ [])
    ∷ sensors 5000 5500
    ∷ sensors 5500 5900
    ∷ sensors 5900 5901
    ∷ ((jt_agent, 40, 43) ∷ [])
    ∷ ((jt_disk, 1, 5) ∷ [])
    ∷ extend_regions
    ∷ index_regions ucd_stats cpu_time_columns 0 1
    ∷ index_regions ucd_stats sys_perf_columns 0 1
    ∷ ((snmp_group, 1, 31) ∷ [])
    ∷ ((jt_agent, 1, 37) ∷ [])
    ∷ ((jt_collector, 1, 9) ∷ [])
    ∷ []

pub part_regions_apart : all_parts_apart part_regions ≡ true
unfolding all_parts_apart apart_from_parts all_regions_apart apart_from_all regions_apart
part_regions_apart = refl
