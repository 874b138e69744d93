-- ===== src/Tables/Parts/Scalars.antt =====
-- The groups with one row for each column.
use jt_snmpd.Prelude.{
  ℕ, ◌+◌, ◌≤◌, ◌<◌, ◌≡◌, refl, Bool, true, Option, none, some, List, [], ◌∷◌, ◌++◌, arith, length,
  take, length-take, length-append,
}
use jt_snmpd.Mib.Snapshot.{name_count}
use jt_snmpd.Mib.Oid.{oid_eq}
use jt_snmpd.Tables.{Host, at, for_each, numbered}
use jt_snmpd.Tables.Names.{
  sys, snmp_fw, interfaces_group, hr_system, hr_memory, ip_group, icmp_group, tcp_group, udp_group,
  ucd_stats, jt_agent, snmp_group,
}
use jt_snmpd.Gate.Defs.{Counters}
use jt_snmpd.Tables.System.{
  SystemInfo, system_cells, engine_cells, system_rows, engine_rows, sys_or_rows, snmp_cells,
  snmp_rows,
}
use jt_snmpd.Tables.Agent.{
  AgentInfo, Battery, agent_cells, gate_cells, agent_rows, battery_cells, battery_rows,
}
use jt_snmpd.Tables.Network.{Nic, if_number_cells, if_number_rows}
use jt_snmpd.Tables.Protocols.{
  TcpStats, UdpStats, ip_kinds, ip_cells, counter_cells, ip_rows, icmp_rows, tcp_cells, tcp_rows,
  udp_cells, udp_rows,
}
use jt_snmpd.Tables.Resources.{
  Perf, Memory, hr_system_cells, process_count, hr_system_rows, memory_cells, memory_rows,
}
use jt_snmpd.Tables.Devices.{
  CpuTimes, SysPerf, cpu_time_cells, sys_perf_cells, cpu_time_rows, sys_perf_rows,
}
use jt_snmpd.Tables.Keys.{is_below, is_ascending, at-IsUnique}
use jt_snmpd.Tables.Regions.{IsPart, covers_any, covers}
use jt_snmpd.Tables.Covers.{in_range, index_regions, at-AreCovered_index, are_columns}
use jt_snmpd.Tables.Parts.{at-IsPart}

pub system_rows-IsPart :
    (host : Host) (s : SystemInfo) → IsPart ((sys, 1, 8) ∷ []) (system_rows host s)
unfolding system_rows
system_rows-IsPart host s = at-IsPart sys (0 ∷ []) 1 8 (system_cells host s) refl refl

pub engine_rows-IsPart : (s : SystemInfo) → IsPart ((snmp_fw, 1, 5) ∷ []) (engine_rows s)
unfolding engine_rows
engine_rows-IsPart s = at-IsPart snmp_fw (0 ∷ []) 1 5 (engine_cells s) refl refl

pub sys_or_rows-IsPart : (host : Host) → IsPart ((sys, 9, 10) ∷ []) (sys_or_rows host)
unfolding sys_or_rows at covers_any name_count for_each numbered oid_eq covers
sys_or_rows-IsPart host = (
  (refl, (refl, (refl, (refl, (refl, (refl, (refl, (refl, (refl, tt))))))))),
  (refl, (refl, (refl, (refl, (refl, (refl, (refl, (refl, (refl, tt))))))))),
)

pub if_number_rows-IsPart :
    (nics : List Nic) → IsPart ((interfaces_group, 0, 1) ∷ []) (if_number_rows nics)
unfolding if_number_rows
if_number_rows-IsPart nics =
    at-IsPart interfaces_group (0 ∷ []) 0 1 (if_number_cells nics) refl refl

hr_system_ascending :
    (host : Host) (up : ℕ) (date : List ℕ) (m n : Option ℕ)
    → is_ascending (hr_system_cells host up date m n) ≡ true
hr_system_ascending host up date none none = refl
hr_system_ascending host up date none (some n) = refl
hr_system_ascending host up date (some m) none = refl
hr_system_ascending host up date (some m) (some n) = refl

hr_system_range :
    (host : Host) (up : ℕ) (date : List ℕ) (m n : Option ℕ)
    → in_range 1 8 (hr_system_cells host up date m n) ≡ true
hr_system_range host up date none none = refl
hr_system_range host up date none (some n) = refl
hr_system_range host up date (some m) none = refl
hr_system_range host up date (some m) (some n) = refl

pub hr_system_rows-IsPart :
    (host : Host) (up : ℕ) (date : List ℕ) (sessions : Option ℕ) (perf : Option Perf)
    (processes : Option ℕ)
    → IsPart ((hr_system, 1, 8) ∷ []) (hr_system_rows host up date sessions perf processes)
unfolding hr_system_rows
hr_system_rows-IsPart host up date sessions perf processes =
    let n : Option ℕ = process_count perf processes in
    at-IsPart hr_system (0 ∷ []) 1 8 (hr_system_cells host up date sessions n)
      (hr_system_ascending host up date sessions n) (hr_system_range host up date sessions n)

pub memory_rows-IsPart : (mem : Memory) → IsPart ((hr_memory, 0, 1) ∷ []) (memory_rows mem)
unfolding memory_rows
memory_rows-IsPart mem = at-IsPart hr_memory (0 ∷ []) 0 1 (memory_cells mem) refl refl

ip_below :
    (c n : ℕ) (ks : List Bool) (vals : List ℕ) → c < n → is_below c (ip_cells n ks vals) ≡ true
ip_below c n [] vals h = refl
ip_below c n (k ∷ ks) [] h = refl
ip_below c n (k ∷ ks) (v ∷ vals) h = ground (arith, ip_below c (n + 1) ks vals (omega arith))

ip_ascending : (n : ℕ) (ks : List Bool) (vals : List ℕ) → is_ascending (ip_cells n ks vals) ≡ true
ip_ascending n [] vals = refl
ip_ascending n (k ∷ ks) [] = refl
ip_ascending n (k ∷ ks) (v ∷ vals) =
    ground (arith, ip_below n (n + 1) ks vals (omega arith), ip_ascending (n + 1) ks vals)

ip_range :
    (lo hi n : ℕ) (ks : List Bool) (vals : List ℕ)
    → lo ≤ n
    → n + length ks ≤ hi
    → in_range lo hi (ip_cells n ks vals) ≡ true
ip_range lo hi n [] vals p q = refl
ip_range lo hi n (k ∷ ks) [] p q = refl
ip_range lo hi n (k ∷ ks) (v ∷ vals) p q =
    ground (arith, p, q, ip_range lo hi (n + 1) ks vals (omega arith) (omega (arith, q)))

pub ip_rows-IsPart : (stats : Option (List ℕ)) → IsPart ((ip_group, 1, 20) ∷ []) (ip_rows stats)
unfolding ip_rows
ip_rows-IsPart none = (tt, tt)
ip_rows-IsPart (some vals) =
    at-IsPart ip_group (0 ∷ []) 1 20 (ip_cells 1 ip_kinds vals) (ip_ascending 1 ip_kinds vals)
      (ip_range 1 20 1 ip_kinds vals (omega arith) (omega arith))

counter_below : (c n : ℕ) (vals : List ℕ) → c < n → is_below c (counter_cells n vals) ≡ true
counter_below c n [] h = refl
counter_below c n (v ∷ vals) h = ground (arith, counter_below c (n + 1) vals (omega arith))

counter_ascending : (n : ℕ) (vals : List ℕ) → is_ascending (counter_cells n vals) ≡ true
counter_ascending n [] = refl
counter_ascending n (v ∷ vals) =
    ground (arith, counter_below n (n + 1) vals (omega arith), counter_ascending (n + 1) vals)

counter_range :
    (lo hi n : ℕ) (vals : List ℕ)
    → lo ≤ n
    → n + length vals ≤ hi
    → in_range lo hi (counter_cells n vals) ≡ true
counter_range lo hi n [] p q = refl
counter_range lo hi n (v ∷ vals) p q =
    ground (arith, p, q, counter_range lo hi (n + 1) vals (omega arith) (omega (arith, q)))

pub icmp_rows-IsPart :
    (stats : Option (List ℕ × List ℕ)) → IsPart ((icmp_group, 1, 27) ∷ []) (icmp_rows stats)
unfolding icmp_rows
icmp_rows-IsPart none = (tt, tt)
icmp_rows-IsPart (some (i, o)) =
    let vals : List ℕ = take 13 i ++ take 13 o in
    at-IsPart icmp_group (0 ∷ []) 1 27 (counter_cells 1 vals) (counter_ascending 1 vals) (
      counter_range 1 27 1 vals (omega arith)
        (omega (arith, length-append (take 13 i) (take 13 o), length-take 13 i, length-take 13 o)))

pub tcp_rows-IsPart : (stats : Option TcpStats) → IsPart ((tcp_group, 1, 16) ∷ []) (tcp_rows stats)
unfolding tcp_rows
tcp_rows-IsPart none = (tt, tt)
tcp_rows-IsPart (some t) = at-IsPart tcp_group (0 ∷ []) 1 16 (tcp_cells t) refl refl

pub udp_rows-IsPart : (stats : Option UdpStats) → IsPart ((udp_group, 1, 5) ∷ []) (udp_rows stats)
unfolding udp_rows
udp_rows-IsPart none = (tt, tt)
udp_rows-IsPart (some u) = at-IsPart udp_group (0 ∷ []) 1 5 (udp_cells u) refl refl

pub snmp_rows-IsPart : (gate : Option Counters) → IsPart ((snmp_group, 1, 31) ∷ []) (snmp_rows gate)
unfolding snmp_rows
snmp_rows-IsPart gate = at-IsPart snmp_group (0 ∷ []) 1 31 (snmp_cells gate) refl refl

battery_cells_lem :
    (p : ℕ) (ac : Bool) (left : Option ℕ)
    → let b : Battery = record { percent = p; on_ac = ac; seconds_left = left } in
      (is_ascending (battery_cells b) ≡ true) × (in_range 40 43 (battery_cells b) ≡ true)
battery_cells_lem p ac none = (refl, refl)
battery_cells_lem p ac (some n) = (refl, refl)

pub battery_rows-IsPart : (b : Option Battery) → IsPart ((jt_agent, 40, 43) ∷ []) (battery_rows b)
unfolding battery_rows
battery_rows-IsPart none = (tt, tt)
battery_rows-IsPart (some b) =
    let (h, k) = battery_cells_lem b.percent b.on_ac b.seconds_left in
    at-IsPart jt_agent (0 ∷ []) 40 43 (battery_cells b) h k

-- 50 to 53 and 56
abbrev pub cpu_time_columns : List ℕ
cpu_time_columns = 50 ∷ 51 ∷ 52 ∷ 53 ∷ 56 ∷ []

abbrev pub sys_perf_columns : List ℕ
sys_perf_columns = 1 ∷ 2 ∷ 57 ∷ 58 ∷ 59 ∷ 60 ∷ 62 ∷ 63 ∷ []

pub cpu_time_rows-IsPart :
    (times : Option CpuTimes)
    → IsPart (index_regions ucd_stats cpu_time_columns 0 1) (cpu_time_rows times)
unfolding cpu_time_rows
cpu_time_rows-IsPart none = (tt, tt)
cpu_time_rows-IsPart (some ct) = (
  at-IsUnique ucd_stats (0 ∷ []) (cpu_time_cells ct) refl,
  at-AreCovered_index ucd_stats cpu_time_columns 0 1 0 [] (cpu_time_cells ct) refl (omega arith)
      (omega arith),
)

sys_perf_cells_lem :
    (host : Host) (times : Option CpuTimes) (sp : SysPerf)
    → (is_ascending (sys_perf_cells host times sp) ≡ true)
      × (are_columns sys_perf_columns (sys_perf_cells host times sp) ≡ true)
sys_perf_cells_lem host none sp = (refl, refl)
sys_perf_cells_lem host (some ct) sp = (refl, refl)

pub sys_perf_rows-IsPart :
    (host : Host) (times : Option CpuTimes) (perf : Option SysPerf)
    → IsPart (index_regions ucd_stats sys_perf_columns 0 1) (sys_perf_rows host times perf)
unfolding sys_perf_rows
sys_perf_rows-IsPart host times none = (tt, tt)
sys_perf_rows-IsPart host times (some sp) =
    let (h, k) = sys_perf_cells_lem host times sp in
    (
      at-IsUnique ucd_stats (0 ∷ []) (sys_perf_cells host times sp) h,
      at-AreCovered_index ucd_stats sys_perf_columns 0 1 0 [] (sys_perf_cells host times sp) k
          (omega arith) (omega arith),
    )

agent_cells_lem :
    (host : Host) (now : ℕ) (a : AgentInfo) (rss handles : Option ℕ) (gate : Option Counters)
    → rss ≡ a.rss
    → handles ≡ a.handles
    → (is_ascending (agent_cells host now a ++ gate_cells gate) ≡ true)
      × (in_range 1 37 (agent_cells host now a ++ gate_cells gate) ≡ true)
agent_cells_lem host now a none none none p q = rw (← p, ← q) (refl, refl)
agent_cells_lem host now a none none (some c) p q = rw (← p, ← q) (refl, refl)
agent_cells_lem host now a none (some n) none p q = rw (← p, ← q) (refl, refl)
agent_cells_lem host now a none (some n) (some c) p q = rw (← p, ← q) (refl, refl)
agent_cells_lem host now a (some m) none none p q = rw (← p, ← q) (refl, refl)
agent_cells_lem host now a (some m) none (some c) p q = rw (← p, ← q) (refl, refl)
agent_cells_lem host now a (some m) (some n) none p q = rw (← p, ← q) (refl, refl)
agent_cells_lem host now a (some m) (some n) (some c) p q = rw (← p, ← q) (refl, refl)

pub agent_rows-IsPart :
    (host : Host) (now : ℕ) (a : AgentInfo) (gate : Option Counters)
    → IsPart ((jt_agent, 1, 37) ∷ []) (agent_rows host now a gate)
unfolding agent_rows
agent_rows-IsPart host now a gate =
    let (h, k) = agent_cells_lem host now a a.rss a.handles gate refl refl in
    at-IsPart jt_agent (0 ∷ []) 1 37 (agent_cells host now a ++ gate_cells gate) h k
