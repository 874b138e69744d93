-- ===== src/Smbios/Fields.antt =====
-- deploy/smbios.py: the extraction of fields from the structures.
use jt_snmpd.Prelude.{
  ℕ, zero, suc, ◌+◌, ◌/◌, ◌%◌, ◌^◌, Bool, false, not, ◌||◌, Option, none, some, List, [], ◌∷◌, ltb,
  leb, ◌==◌, if◌then◌else◌, length, get_or, get_elem?, String, str_eq,
}
use jt_snmpd.Prelude.Bytes.{u16, u32}
use jt_snmpd.Smbios.{Host, Structure}
use jt_snmpd.Smbios.Text.{is_repeated}

abbrev pub placeholders : List String
placeholders =
    "to be filled by o.e.m." ∷ "to be filled by o.e.m" ∷ "system serial number" ∷ "default string"
    ∷ "not specified" ∷ "not available" ∷ "none" ∷ "n/a" ∷ "unknown" ∷ "chassis serial number"
    ∷ "base board serial number" ∷ "system product name" ∷ "system manufacturer" ∷ "system version"
    ∷ "asset-1234567890" ∷ "0123456789" ∷ "00000000" ∷ "fill by oem" ∷ "oem" ∷ "no dimm"
    ∷ "unknown manufacturer" ∷ []

unfoldable pub is_in : String → List String → Bool
is_in s [] = false
is_in s (t ∷ ts) = str_eq s t || is_in s ts

unfoldable pub is_placeholder : String → Bool
unfolding is_in
is_placeholder s = is_in s placeholders

-- d[off] if off < len(d) else 0, and the same for two and four bytes
abbrev pub u8_or_zero : List ℕ → ℕ → ℕ
u8_or_zero d off = if ltb off (length d) then get_or d off 0 else 0

abbrev pub u16_or_zero : List ℕ → ℕ → ℕ
u16_or_zero d off = if leb (off + 2) (length d) then u16 d off else 0

abbrev pub u32_or_zero : List ℕ → ℕ → ℕ
u32_or_zero d off = if leb (off + 4) (length d) then u32 d off else 0

pub record BiosInfo : Type 0 where
  pub vendor : String
  pub version : String
  pub release_date : String

-- of the system, and of the baseboard
pub record ProductInfo : Type 0 where
  pub manufacturer : String
  pub product : String
  pub version : String
  pub serial : String

pub record Processor : Type 0 where
  pub socket : String
  pub manufacturer : String
  pub version : String
  pub serial : String
  pub max_speed_mhz : ℕ
  pub core_count : ℕ
  pub thread_count : ℕ

pub record MemoryDevice : Type 0 where
  pub locator : String
  pub bank : String
  pub manufacturer : String
  pub serial : String
  pub part_number : String
  pub size_mb : ℕ
  pub speed_mts : ℕ

-- the value 0x7FFF stands for the extended size; bit 15 says that the unit is KB
unfoldable pub size_in_mb : List ℕ → ℕ → ℕ
size_in_mb d size =
    if size == 0x7FFF
    then u32_or_zero d 0x1C % 2 ^ 31
    else if size / 0x8000 % 2 == 1
    then size % 0x8000 / 1024
    else size

module _ (host : Host) where
  -- `_s` for a string that is there
  unfoldable pub real_text : String → String
  unfolding is_placeholder is_repeated
  real_text s =
      let val : String = host.strip s in
      if is_placeholder (host.lower val) then "" else if is_repeated val then "" else val

  unfoldable pub text_at : List String → ℕ → String
  unfolding real_text
  text_at strings zero = ""
  text_at strings (suc idx) = elim (get_elem? strings idx) [ none ↦ "" | some s ↦ real_text s ]

  -- the first structure of type 0; `none` is the empty dict
  unfoldable pub bios_info : List Structure → Option BiosInfo
  unfolding text_at
  bios_info [] = none
  bios_info (s ∷ structs) =
      let rest = bios_info structs in
      let d : List ℕ = s.content in
      let st : List String = s.strings in
      if s.kind == 0
      then some (record {
        vendor = text_at st (u8_or_zero d 4);
        version = text_at st (u8_or_zero d 5);
        release_date = text_at st (u8_or_zero d 8);
      })
      else rest

  -- the first structure of type 1 for `system_info`, of type 2 for `baseboard_info`
  unfoldable pub product_info : ℕ → List Structure → Option ProductInfo
  unfolding text_at
  product_info kind [] = none
  product_info kind (s ∷ structs) =
      let rest = product_info kind structs in
      let d : List ℕ = s.content in
      let st : List String = s.strings in
      if s.kind == kind
      then some (record {
        manufacturer = text_at st (u8_or_zero d 4);
        product = text_at st (u8_or_zero d 5);
        version = text_at st (u8_or_zero d 6);
        serial = text_at st (u8_or_zero d 7);
      })
      else rest

  unfoldable pub processor : Structure → Processor
  unfolding text_at
  processor s =
      let d : List ℕ = s.content in
      let st : List String = s.strings in
      record {
        socket = text_at st (u8_or_zero d 4);
        manufacturer = text_at st (u8_or_zero d 7);
        version = text_at st (u8_or_zero d 0x10);
        serial = text_at st (u8_or_zero d 0x20);
        max_speed_mhz = u16_or_zero d 0x14;
        core_count = u8_or_zero d 0x23;
        thread_count = u8_or_zero d 0x25;
      }

  -- bit 6 of the status: the socket is populated
  unfoldable pub processors : List Structure → List Processor
  unfolding processor
  processors [] = []
  processors (s ∷ structs) =
      let rest = processors structs in
      if not (s.kind == 4) || u8_or_zero s.content 0x18 / 0x40 % 2 == 0
      then rest
      else processor s ∷ rest

  unfoldable pub memory_device : Structure → MemoryDevice
  unfolding text_at size_in_mb
  memory_device s =
      let d : List ℕ = s.content in
      let st : List String = s.strings in
      record {
        locator = text_at st (u8_or_zero d 0x10);
        bank = text_at st (u8_or_zero d 0x11);
        manufacturer = text_at st (u8_or_zero d 0x17);
        serial = text_at st (u8_or_zero d 0x18);
        part_number = text_at st (u8_or_zero d 0x1A);
        size_mb = size_in_mb d (u16_or_zero d 0x0C);
        speed_mts = u16_or_zero d 0x15;
      }

  -- an empty slot is skipped
  unfoldable pub memory_devices : List Structure → List MemoryDevice
  unfolding memory_device
  memory_devices [] = []
  memory_devices (s ∷ structs) =
      let rest = memory_devices structs in
      if not (s.kind == 17) || u16_or_zero s.content 0x0C == 0 then rest else memory_device s ∷ rest
