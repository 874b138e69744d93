-- ===== src/Tables/Parts/Entity.antt =====
-- The entries of entPhysicalTable, and the sensors.
use jt_snmpd.Prelude.{
  ℕ, ◌+◌, ◌≤◌, ◌<◌, refl, Bool, true, false, not, ◌||◌, List, [], ◌∷◌, arith, length, str_eq,
}
use jt_snmpd.Mib.Value.{Row}
use jt_snmpd.Smbios.Fields.{ProductInfo}
use jt_snmpd.Tables.{Text, Host, numbered, when}
use jt_snmpd.Tables.Names.{
  ent_physical, ent_system, ent_mainboard, ent_cpu_base, ent_dimm_base, ent_disk_base,
}
use jt_snmpd.Tables.Devices.{DiskInfo}
use jt_snmpd.Tables.Entity.{
  Ent, Inventory, ent_cells, ent, is_there, or_no_product, or_no_bios, chassis_ent, chassis_rows,
  board_ent, board_rows, cpu_ent, cpu_ent_rows, dimm_ent, dimm_rows, disk_ent, disk_ent_rows,
}
use jt_snmpd.Tables.Keys.{at-IsUnique}
use jt_snmpd.Tables.Regions.{Region, IsPart}
use jt_snmpd.Tables.Covers.{
  index_regions, at-AreCovered_index, All, AreDistinct, numbered-AreDistinct, numbered-lt,
}
use jt_snmpd.Tables.Parts.Loops.{ranged-IsPart}

-- 1 to 16
abbrev pub ent_columns : List ℕ
ent_columns = 1 ∷ 2 ∷ 3 ∷ 4 ∷ 5 ∷ 6 ∷ 7 ∷ 8 ∷ 9 ∷ 10 ∷ 11 ∷ 12 ∷ 13 ∷ 14 ∷ 15 ∷ 16 ∷ []

-- the entries of a range of indices
abbrev pub entries : ℕ → ℕ → List Region
entries lo hi = index_regions ent_physical ent_columns lo hi

pub ent-IsPart : (host : Host) (i : ℕ) (e : Ent) → IsPart (entries i (i + 1)) (ent host i e)
ent-IsPart host i e = (
  at-IsUnique ent_physical (i ∷ []) (ent_cells host i e) refl,
  at-AreCovered_index ent_physical ent_columns i (i + 1) i [] (ent_cells host i e) refl
      (omega arith) (omega arith),
)

when-IsPart :
    (regs : List Region) (b : Bool) (rows : List Row) → IsPart regs rows → IsPart regs (when b rows)
when-IsPart regs true rows p = p
when-IsPart regs false rows p = (tt, tt)

pub chassis_rows-IsPart :
    (host : Host) (name software : Text) (inv : Inventory)
    → IsPart (entries 1000 1001) (chassis_rows host name software inv)
unfolding chassis_rows
chassis_rows-IsPart host name software inv =
    let e : Ent = chassis_ent host name software (or_no_product inv.system) (or_no_bios inv.bios) in
    when-IsPart (entries 1000 1001) (is_there inv.system || is_there inv.bios)
      (ent host ent_system e) (ent-IsPart host ent_system e)

pub board_rows-IsPart :
    (host : Host) (inv : Inventory) → IsPart (entries 1100 1101) (board_rows host inv)
unfolding board_rows
board_rows-IsPart host inv =
    let b : ProductInfo = or_no_product inv.baseboard in
    when-IsPart (entries 1100 1101) (not (str_eq b.product "") || not (str_eq b.manufacturer ""))
      (ent host ent_mainboard (board_ent host b)) (ent-IsPart host ent_mainboard (board_ent host b))

pub cpu_ent_rows-IsPart :
    (host : Host) (inv : Inventory) (cpu_name : Text)
    → length inv.processors ≤ 1000
    → IsPart (entries 2000 3000) (cpu_ent_rows host inv cpu_name)
unfolding cpu_ent_rows
cpu_ent_rows-IsPart host inv cpu_name h =
    ranged-IsPart ent_physical ent_columns ent_cpu_base 1000 (λ c. c.0)
      (λ c. ent_cells host (ent_cpu_base + c.0) (cpu_ent host inv cpu_name c)) (λ c. refl)
      (λ c. refl) (numbered 0 inv.processors) (numbered-AreDistinct 0 inv.processors)
      (numbered-lt 0 1000 inv.processors (omega (arith, h)))

pub dimm_rows-IsPart :
    (host : Host) (inv : Inventory)
    → length inv.memory ≤ 1000
    → IsPart (entries 3000 4000) (dimm_rows host inv)
unfolding dimm_rows
dimm_rows-IsPart host inv h =
    ranged-IsPart ent_physical ent_columns ent_dimm_base 1000 (λ c. c.0)
      (λ c. ent_cells host (ent_dimm_base + c.0) (dimm_ent host inv c)) (λ c. refl) (λ c. refl)
      (numbered 0 inv.memory) (numbered-AreDistinct 0 inv.memory)
      (numbered-lt 0 1000 inv.memory (omega (arith, h)))

pub disk_ent_rows-IsPart :
    (host : Host) (disks : List DiskInfo)
    → AreDistinct (λ d. d.index) disks
    → All (λ d. d.index < 16) disks
    → IsPart (entries 4000 4016) (disk_ent_rows host disks)
unfolding disk_ent_rows
disk_ent_rows-IsPart host disks d h =
    ranged-IsPart ent_physical ent_columns ent_disk_base 16 (λ x. x.index)
      (λ x. ent_cells host (ent_disk_base + x.index) (disk_ent host x)) (λ x. refl) (λ x. refl)
      disks d h
