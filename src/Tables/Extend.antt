-- ===== src/Tables/Extend.antt =====
-- `build_snapshot` of deploy/jt_agent.py: the row of NET-SNMP-EXTEND-MIB that carries the JSON of the disks,
-- and `_extend_index`. What a list of disks is encoded to is a parameter here.
pub mod Fitting
use jt_snmpd.Prelude.{
  ℕ, zero, suc, ◌+◌, Bool, true, false, ◌&&◌, List, [], ◌∷◌, ◌++◌, ltb, leb, if◌then◌else◌, length,
}
use jt_snmpd.Mib.Oid.{Oid}
use jt_snmpd.Mib.Value.{octets, Row}
use jt_snmpd.Tables.{Host, int32, octet, Cells, at, when}
use jt_snmpd.Tables.Names.{ns_extend, ns_extend_config, ns_extend_out1, ns_extend_out2}

abbrev pub max_extend_bytes : ℕ
max_extend_bytes = 1100

-- a string as an index: its length, and a sub-identifier for each byte
unfoldable pub extend_index : List ℕ → Oid
extend_index token = length token ∷ token

abbrev pub smart_token : List ℕ
smart_token = 115 ∷ 109 ∷ 97 ∷ 114 ∷ 116 ∷ []

abbrev pub config_cells : Host → Cells
config_cells host =
    (2, octet host "jt-snmpd-internal")
    ∷ (3, octet host "")
    ∷ (4, octet host "")
    ∷ (5, int32 0)
    ∷ (6, int32 1)
    ∷ (7, int32 1)
    ∷ (20, int32 4)
    ∷ (21, int32 1)
    ∷ []

abbrev pub out1_cells : List ℕ → Cells
out1_cells blob = (1, octets blob) ∷ (2, octets blob) ∷ (3, int32 1) ∷ (4, int32 0) ∷ []

abbrev pub out2_cells : List ℕ → Cells
out2_cells blob = (2, octets blob) ∷ []

abbrev pub entries_cells : Cells
entries_cells = (1, int32 1) ∷ []

abbrev pub extend_cells : Host → List ℕ → List Row
extend_cells host blob =
    at ns_extend_config (extend_index smart_token) (config_cells host)
    ++ (at ns_extend_out1 (extend_index smart_token) (out1_cells blob)
        ++ (at ns_extend_out2 (extend_index smart_token ++ (1 ∷ [])) (out2_cells blob)
            ++ at ns_extend (0 ∷ []) entries_cells))

module _ {A : Type 0} (encode : List A → List ℕ) where
  -- list.pop()
  unfoldable pub pop : List A → List A
  pop [] = []
  pop (x ∷ []) = []
  pop (x ∷ y ∷ ys) = x ∷ pop (y ∷ ys)

  -- Disks are dropped from the end until the output fits or one is left; each round drops one, so that as
  -- much fuel as there are disks is enough.
  unfoldable pub drop_loop : ℕ → List A → List A
  unfolding pop
  drop_loop zero disks = disks
  drop_loop (suc fuel) disks =
      elim (ltb max_extend_bytes (length (encode disks)) && ltb 1 (length disks)) [
        | true ↦ drop_loop fuel (pop disks)
        | false ↦ disks
      ]

  unfoldable pub fitting : List A → List A
  unfolding drop_loop
  fitting disks = drop_loop (length disks) disks

  unfoldable pub extend_rows : Host → List A → List Row
  unfolding at extend_index fitting
  extend_rows host [] = []
  extend_rows host (d ∷ ds) =
      let blob : List ℕ = encode (fitting (d ∷ ds)) in
      when (leb (length blob) max_extend_bytes) (extend_cells host blob)
