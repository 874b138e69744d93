-- ===== src/Tables/System.antt =====
-- `build_snapshot` of deploy/jt_agent.py: the system group, the engine, and the agent's own health.
use jt_snmpd.Prelude.{ℕ, ◌+◌, min, Option, none, some, List, [], ◌∷◌, ◌++◌, if◌then◌else◌, str_eq}
use jt_snmpd.Mib.Oid.{Oid}
use jt_snmpd.Mib.Value.{octets, object, Row}
use jt_snmpd.Gate.Defs.{Counters}
use jt_snmpd.Tables.{
  Text, Host, int32_max, int32, counter32, ticks, octet, Cells, at, for_each, numbered,
}
use jt_snmpd.Tables.Names.{sys, snmp_fw, snmp_group, mib_2, enterprises}

-- What the calls of Windows and the state of the process give, as far as these rows show it.
pub record SystemInfo : Type 0 where
  pub product_type : Text
  pub computer_name : Text
  pub sysdescr : Text
  pub contact : Text
  pub location : Text
  -- hundredths of a second, and seconds, since the boot
  pub up : ℕ
  pub tick_seconds : ℕ
  pub engine_id : List ℕ
  pub engine_boots : ℕ

unfoldable pub sys_object_id : Text → Oid
sys_object_id ptype =
    if str_eq ptype "server"
    then enterprises ++ (311 ∷ 1 ∷ 1 ∷ 3 ∷ 1 ∷ 2 ∷ [])
    else if str_eq ptype "domain_controller"
    then enterprises ++ (311 ∷ 1 ∷ 1 ∷ 3 ∷ 1 ∷ 3 ∷ [])
    else enterprises ++ (311 ∷ 1 ∷ 1 ∷ 3 ∷ 1 ∷ 1 ∷ [])

-- snmpEngineTime: it does not wrap
unfoldable pub engine_time : ℕ → ℕ
engine_time seconds = min seconds int32_max

abbrev pub system_cells : Host → SystemInfo → Cells
system_cells host s =
    (1, octet host s.sysdescr)
    ∷ (2, object (sys_object_id s.product_type))
    ∷ (3, ticks s.up)
    ∷ (4, octet host s.contact)
    ∷ (5, octet host s.computer_name)
    ∷ (6, octet host s.location)
    ∷ (7, int32 76)
    ∷ []

abbrev pub engine_cells : SystemInfo → Cells
engine_cells s =
    (1, octets s.engine_id)
    ∷ (2, int32 s.engine_boots)
    ∷ (3, int32 (engine_time s.tick_seconds))
    ∷ (4, int32 1400)
    ∷ []

abbrev pub modules : List (Oid × Text)
modules =
    (mib_2 ++ (1 ∷ []), "SNMPv2-MIB")
    ∷ (mib_2 ++ (2 ∷ []), "IF-MIB")
    ∷ (mib_2 ++ (25 ∷ 1 ∷ []), "HOST-RESOURCES-MIB")
    ∷ []

-- sysORTable
abbrev pub module_rows : Host → ℕ × (Oid × Text) → List Row
module_rows host (i, (orid, descr)) =
    at sys (1 ∷ 2 ∷ i ∷ []) ((9, object orid) ∷ [])
    ++ (at sys (1 ∷ 3 ∷ i ∷ []) ((9, octet host descr) ∷ [])
        ++ at sys (1 ∷ 4 ∷ i ∷ []) ((9, ticks 0) ∷ []))

unfoldable pub system_rows : Host → SystemInfo → List Row
unfolding at sys_object_id engine_time
system_rows host s = at sys (0 ∷ []) (system_cells host s)

unfoldable pub engine_rows : SystemInfo → List Row
unfolding at engine_time
engine_rows s = at snmp_fw (0 ∷ []) (engine_cells s)

unfoldable pub sys_or_rows : Host → List Row
unfolding at for_each numbered
sys_or_rows host = for_each (numbered 1 modules) (module_rows host)

-- the drops of the gate are all counts but `passed`
unfoldable pub drops : Counters → ℕ
drops c = c.acl + c.oversize + c.rate_limit + c.malformed + c.source_table_full

abbrev pub count_of : Option Counters → (Counters → ℕ) → ℕ
count_of none f = 0
count_of (some c) f = f c

abbrev pub snmp_cells : Option Counters → Cells
snmp_cells gate =
    (1, counter32 (count_of gate (λ c. c.passed)))
    ∷ (2, counter32 (count_of gate (λ c. c.passed)))
    ∷ (3, counter32 0)
    ∷ (4, counter32 0)
    ∷ (5, counter32 0)
    ∷ (6, counter32 (count_of gate drops))
    ∷ (30, int32 2)
    ∷ []

-- snmp group
unfoldable pub snmp_rows : Option Counters → List Row
unfolding at drops
snmp_rows gate = at snmp_group (0 ∷ []) (snmp_cells gate)
