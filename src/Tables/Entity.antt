-- ===== src/Tables/Entity.antt =====
-- `build_snapshot` of deploy/jt_agent.py: the entries of entPhysicalTable, and their sensors.
use jt_snmpd.Prelude.{
  ℕ, ◌+◌, ◌/◌, ◌^◌, Bool, true, false, not, ◌&&◌, ◌||◌, Option, none, some, List, [], ◌∷◌, ◌==◌,
  if◌then◌else◌, str_eq,
}
use jt_snmpd.Prelude.Int.{ℤ, pos, negsuc}
use jt_snmpd.Mib.Value.{integer, Row}
use jt_snmpd.Smbios.Fields.{BiosInfo, ProductInfo, Processor, MemoryDevice}
use jt_snmpd.Tables.{
  disk_label, Text, Host, int32, octet, zero_zero, Cells, at, for_each, numbered, when, ◌&◌,
  decimal, or_text,
}
use jt_snmpd.Tables.Names.{
  ent_physical, ent_system, ent_mainboard, ent_cpu_base, ent_dimm_base, ent_disk_base,
}
use jt_snmpd.Tables.Devices.{label_of, DiskInfo}

-- the arguments of `ent`
pub record Ent : Type 0 where
  pub cls : ℕ
  pub descr : Text
  pub name : Text
  pub parent : ℕ
  pub relpos : ℤ
  pub serial : Text
  pub mfg : Text
  pub model : Text
  pub hw : Text
  pub fw : Text
  pub sw : Text
  pub fru : Bool

abbrev pub ent_cells : Host → ℕ → Ent → Cells
ent_cells host idx e =
    (1, int32 idx)
    ∷ (2, octet host e.descr)
    ∷ (3, zero_zero)
    ∷ (4, int32 e.parent)
    ∷ (5, int32 e.cls)
    ∷ (6, integer e.relpos)
    ∷ (7, octet host e.name)
    ∷ (8, octet host e.hw)
    ∷ (9, octet host e.fw)
    ∷ (10, octet host e.sw)
    ∷ (11, octet host e.serial)
    ∷ (12, octet host e.mfg)
    ∷ (13, octet host e.model)
    ∷ (14, octet host "")
    ∷ (15, octet host "")
    ∷ (16, int32 (if e.fru then 1 else 2))
    ∷ []

abbrev pub ent : Host → ℕ → Ent → List Row
ent host idx e = at ent_physical (idx ∷ []) (ent_cells host idx e)

-- `ent` with the keyword arguments left at their defaults
abbrev pub plain_ent : ℕ → Text → Text → ℕ → ℕ → Ent
plain_ent cls descr name parent relpos = record {
  cls = cls;
  descr = descr;
  name = name;
  parent = parent;
  relpos = pos relpos;
  serial = "";
  mfg = "";
  model = "";
  hw = "";
  fw = "";
  sw = "";
  fru = false;
}

-- inv.get("system", {}) and the like: an empty dict has empty texts
abbrev pub no_product : ProductInfo
no_product = record { manufacturer = ""; product = ""; version = ""; serial = "" }

abbrev pub or_no_product : Option ProductInfo → ProductInfo
or_no_product none = no_product
or_no_product (some p) = p

abbrev pub no_bios : BiosInfo
no_bios = record { vendor = ""; version = ""; release_date = "" }

abbrev pub or_no_bios : Option BiosInfo → BiosInfo
or_no_bios none = no_bios
or_no_bios (some b) = b

abbrev pub is_there : {A : Type 0} → Option A → Bool
is_there none = false
is_there (some a) = true

pub record Inventory : Type 0 where
  pub bios : Option BiosInfo
  pub system : Option ProductInfo
  pub baseboard : Option ProductInfo
  pub processors : List Processor
  pub memory : List MemoryDevice
  pub disks : List DiskInfo

module _ (host : Host) where
  -- `software` is the part of sysDescr behind " - Software: "
  abbrev pub chassis_ent : Text → Text → ProductInfo → BiosInfo → Ent
  chassis_ent name software s b = record {
    cls = 3;
    descr = or_text (host.strip (s.manufacturer & " " & s.product)) name;
    name = name;
    parent = 0;
    relpos = negsuc 0;
    serial = s.serial;
    mfg = s.manufacturer;
    model = s.product;
    hw = s.version;
    fw = host.strip (b.vendor & " " & b.version);
    sw = software;
    fru = false;
  }

  unfoldable pub chassis_rows : Text → Text → Inventory → List Row
  unfolding at
  chassis_rows name software inv = when (is_there inv.system || is_there inv.bios) (
      ent host ent_system
        (chassis_ent name software (or_no_product inv.system) (or_no_bios inv.bios)))

  abbrev pub board_ent : ProductInfo → Ent
  board_ent b = record {
    cls = 9;
    descr = host.strip (b.manufacturer & " " & b.product);
    name = "Mainboard";
    parent = ent_system;
    relpos = pos 1;
    serial = b.serial;
    mfg = b.manufacturer;
    model = b.product;
    hw = b.version;
    fw = "";
    sw = "";
    fru = true;
  }

  unfoldable pub board_rows : Inventory → List Row
  unfolding at
  board_rows inv =
      let b : ProductInfo = or_no_product inv.baseboard in
      when (not (str_eq b.product "") || not (str_eq b.manufacturer ""))
        (ent host ent_mainboard (board_ent b))

  -- the parent of processors and memory: the mainboard if it has a product name
  unfoldable pub parent_of : Inventory → ℕ
  parent_of inv =
      if str_eq (or_no_product inv.baseboard).product "" then ent_system else ent_mainboard

  abbrev pub cpu_detail : Processor → Text
  cpu_detail c =
      if c.core_count == 0 && c.max_speed_mhz == 0
      then ""
      else " (" & decimal c.core_count & " cores, " & decimal c.max_speed_mhz & " MHz)"

  abbrev pub cpu_ent : Inventory → Text → ℕ × Processor → Ent
  cpu_ent inv cpu_name (i, c) = record {
    cls = 12;
    descr = or_text c.version cpu_name & cpu_detail c;
    name = or_text c.socket ("CPU " & decimal i);
    parent = parent_of inv;
    relpos = pos (i + 1);
    serial = c.serial;
    mfg = c.manufacturer;
    model = c.version;
    hw = "";
    fw = "";
    sw = "";
    fru = true;
  }

  unfoldable pub cpu_ent_rows : Inventory → Text → List Row
  unfolding at for_each numbered decimal parent_of
  cpu_ent_rows inv cpu_name =
      for_each (numbered 0 inv.processors)
        (λ c. ent host (ent_cpu_base + c.0) (cpu_ent inv cpu_name c))

  abbrev pub dimm_detail : MemoryDevice → Text
  dimm_detail d =
      decimal d.size_mb
      & " MB"
      & (if d.speed_mts == 0 then "" else " " & decimal d.speed_mts & " MT/s")

  abbrev pub dimm_ent : Inventory → ℕ × MemoryDevice → Ent
  dimm_ent inv (i, d) = record {
    cls = 9;
    descr = host.strip (or_text d.part_number "Memory" & " " & dimm_detail d);
    name = or_text d.locator ("DIMM " & decimal i);
    parent = parent_of inv;
    relpos = pos (i + 1);
    serial = d.serial;
    mfg = d.manufacturer;
    model = d.part_number;
    hw = "";
    fw = "";
    sw = "";
    fru = true;
  }

  unfoldable pub dimm_rows : Inventory → List Row
  unfolding at for_each numbered decimal parent_of
  dimm_rows inv =
      for_each (numbered 0 inv.memory) (λ d. ent host (ent_dimm_base + d.0) (dimm_ent inv d))

  abbrev pub disk_ent : DiskInfo → Ent
  disk_ent d = record {
    cls = 9;
    descr = host.strip (d.model & " " & decimal (d.size_bytes / 1024 ^ 3) & " GB (" & d.bus & ")");
    name = label_of host d;
    parent = ent_system;
    relpos = pos (d.index + 1);
    serial = d.serial;
    mfg = "";
    model = d.model;
    hw = "";
    fw = "";
    sw = "";
    fru = true;
  }

  unfoldable pub disk_ent_rows : List DiskInfo → List Row
  unfolding at for_each decimal disk_label
  disk_ent_rows disks = for_each disks (λ d. ent host (ent_disk_base + d.index) (disk_ent d))
