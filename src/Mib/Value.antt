-- ===== src/Mib/Value.antt =====
-- The values that a snapshot holds, and what an answer binds to a name.
use jt_snmpd.Prelude.{ℕ, List}
pub use jt_snmpd.Prelude.Int.{ℤ, magnitude, pos_part}
use jt_snmpd.Mib.Oid.{Oid}

-- The types that `_varbind_size` tells apart: OctetString; Counter64, Counter32, Gauge32 and
-- TimeTicks; ObjectIdentifier; Integer32 and Integer; and any other value, by a number for it.
pub data Value : Type 0 where
  octets : List ℕ → Value
  unsigned : ℕ → Value
  object : Oid → Value
  integer : ℤ → Value
  other : ℕ → Value

abbrev pub Row : Type 0
Row = Oid × Value

-- `noSuchInstance` and `endOfMibView` of RFC 1905, or a value
pub data Binding : Type 0 where
  value : Value → Binding
  no_such_instance end_of_mib_view : Binding

abbrev pub VarBind : Type 0
VarBind = Oid × Binding
