-- ===== src/Tables/Names.antt =====
-- The object identifiers and index bases of deploy/jt_agent.py.
use jt_snmpd.Prelude.{ℕ, [], ◌∷◌, ◌++◌}
use jt_snmpd.Mib.Oid.{Oid}

-- the names of the groups and tables
abbrev pub mib_2 : Oid
mib_2 = 1 ∷ 3 ∷ 6 ∷ 1 ∷ 2 ∷ 1 ∷ []

abbrev pub enterprises : Oid
enterprises = 1 ∷ 3 ∷ 6 ∷ 1 ∷ 4 ∷ 1 ∷ []

abbrev pub sys : Oid
sys = mib_2 ++ (1 ∷ [])

abbrev pub snmp_fw : Oid
snmp_fw = 1 ∷ 3 ∷ 6 ∷ 1 ∷ 6 ∷ 3 ∷ 10 ∷ 2 ∷ 1 ∷ []

abbrev pub interfaces_group : Oid
interfaces_group = mib_2 ++ (2 ∷ 1 ∷ [])

abbrev pub if_table : Oid
if_table = mib_2 ++ (2 ∷ 2 ∷ 1 ∷ [])

abbrev pub if_x_table : Oid
if_x_table = mib_2 ++ (31 ∷ 1 ∷ 1 ∷ 1 ∷ [])

abbrev pub hr : Oid
hr = mib_2 ++ (25 ∷ [])

abbrev pub hr_system : Oid
hr_system = hr ++ (1 ∷ [])

abbrev pub hr_memory : Oid
hr_memory = hr ++ (2 ∷ 2 ∷ [])

abbrev pub hr_storage : Oid
hr_storage = hr ++ (2 ∷ 3 ∷ 1 ∷ [])

abbrev pub hr_device : Oid
hr_device = hr ++ (3 ∷ 2 ∷ 1 ∷ [])

abbrev pub hr_processor : Oid
hr_processor = hr ++ (3 ∷ 3 ∷ 1 ∷ [])

abbrev pub hr_network : Oid
hr_network = hr ++ (3 ∷ 4 ∷ 1 ∷ [])

abbrev pub hr_disk : Oid
hr_disk = hr ++ (3 ∷ 6 ∷ 1 ∷ [])

abbrev pub hr_partition : Oid
hr_partition = hr ++ (3 ∷ 7 ∷ 1 ∷ [])

abbrev pub hr_fs : Oid
hr_fs = hr ++ (3 ∷ 8 ∷ 1 ∷ [])

abbrev pub hr_device_type : Oid
hr_device_type = hr ++ (3 ∷ 1 ∷ [])

abbrev pub disk_io : Oid
disk_io = enterprises ++ (2021 ∷ 13 ∷ 15 ∷ 1 ∷ 1 ∷ [])

abbrev pub ucd_stats : Oid
ucd_stats = enterprises ++ (2021 ∷ 11 ∷ [])

abbrev pub ent_physical : Oid
ent_physical = mib_2 ++ (47 ∷ 1 ∷ 1 ∷ 1 ∷ 1 ∷ [])

abbrev pub ent_sensor_table : Oid
ent_sensor_table = mib_2 ++ (99 ∷ 1 ∷ 1 ∷ 1 ∷ [])

abbrev pub ip_group : Oid
ip_group = mib_2 ++ (4 ∷ [])

abbrev pub icmp_group : Oid
icmp_group = mib_2 ++ (5 ∷ [])

abbrev pub tcp_group : Oid
tcp_group = mib_2 ++ (6 ∷ [])

abbrev pub udp_group : Oid
udp_group = mib_2 ++ (7 ∷ [])

abbrev pub snmp_group : Oid
snmp_group = mib_2 ++ (11 ∷ [])

abbrev pub ip_addr : Oid
ip_addr = mib_2 ++ (4 ∷ 20 ∷ 1 ∷ [])

abbrev pub ip_route : Oid
ip_route = mib_2 ++ (4 ∷ 21 ∷ 1 ∷ [])

abbrev pub ip_address : Oid
ip_address = mib_2 ++ (4 ∷ 34 ∷ 1 ∷ [])

abbrev pub ip_net_phys : Oid
ip_net_phys = mib_2 ++ (4 ∷ 35 ∷ 1 ∷ [])

abbrev pub jt_agent : Oid
jt_agent = enterprises ++ (99999 ∷ 1 ∷ 1 ∷ [])

abbrev pub jt_collector : Oid
jt_collector = enterprises ++ (99999 ∷ 1 ∷ 2 ∷ 1 ∷ [])

abbrev pub jt_disk : Oid
jt_disk = enterprises ++ (99999 ∷ 1 ∷ 3 ∷ 1 ∷ [])

abbrev pub ns_extend : Oid
ns_extend = enterprises ++ (8072 ∷ 1 ∷ 3 ∷ 2 ∷ [])

abbrev pub ns_extend_config : Oid
ns_extend_config = ns_extend ++ (2 ∷ 1 ∷ [])

abbrev pub ns_extend_out1 : Oid
ns_extend_out1 = ns_extend ++ (3 ∷ 1 ∷ [])

abbrev pub ns_extend_out2 : Oid
ns_extend_out2 = ns_extend ++ (4 ∷ 1 ∷ [])

-- where the indices of a table's kinds of rows begin
abbrev pub dev_base_cpu : ℕ
dev_base_cpu = 196608

abbrev pub dev_base_net : ℕ
dev_base_net = 262144

abbrev pub dev_base_disk : ℕ
dev_base_disk = 327680

abbrev pub ent_system : ℕ
ent_system = 1000

abbrev pub ent_mainboard : ℕ
ent_mainboard = 1100

abbrev pub ent_cpu_base : ℕ
ent_cpu_base = 2000

abbrev pub ent_dimm_base : ℕ
ent_dimm_base = 3000

abbrev pub ent_disk_base : ℕ
ent_disk_base = 4000

abbrev pub ent_sensor_base : ℕ
ent_sensor_base = 5000

abbrev pub ent_thermal_base : ℕ
ent_thermal_base = 5500

abbrev pub ent_cpu_freq_base : ℕ
ent_cpu_freq_base = 5900
