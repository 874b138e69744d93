-- ===== src/Smbios.antt =====
-- deploy/smbios.py: the parser of the raw SMBIOS table. Bytes are numbers. What Python's `bytes` and
-- `str` do with text is a parameter (`Host`).
pub mod Text
pub mod Area
pub mod RoundTrip
pub mod Fields
pub mod Inventory
use jt_snmpd.Prelude.{
  ℕ, zero, suc, ◌+◌, ◌-◌, ◌*◌, ◌/◌, ◌%◌, Bool, true, false, not, ◌&&◌, ◌||◌, Option, none, some,
  List, [], ◌∷◌, ltb, leb, ◌==◌, if◌then◌else◌, length, take, drop, get_or, String,
}
use jt_snmpd.Prelude.Bytes.{slice, u16, u32}

pub record Host : Type 0 where
  -- bytes.decode("utf-8", "replace")
  pub decode : List ℕ → String
  -- str.strip and str.lower
  pub strip : String → String
  pub lower : String → String

abbrev pub max_structures : ℕ
max_structures = 4096

pub record Structure : Type 0 where
  pub kind : ℕ
  pub handle : ℕ
  pub content : List ℕ
  pub strings : List String

unfoldable pub starts_with_nul : List ℕ → Bool
starts_with_nul [] = false
starts_with_nul (b ∷ bs) = b == 0

module _ (host : Host) where
  -- the loop at `pos`, with the bytes that are left from there
  unfoldable pub strings_loop : List ℕ → ℕ → ℕ → List ℕ → List String × ℕ
  unfolding starts_with_nul
  strings_loop blob start pos [] = ([], length blob)
  strings_loop blob start pos (b ∷ bs) =
      let rest = strings_loop blob (if b == 0 then pos + 1 else start) (pos + 1) bs in
      let found : String = host.decode (slice blob start (pos - start)) in
      if not (b == 0)
      then rest
      else if pos == start
      then ([], pos + 2)
      else if starts_with_nul bs
      then (found ∷ [], pos + 2)
      else (found ∷ rest.0, rest.1)

  unfoldable pub strings : List ℕ → ℕ → List String × ℕ
  unfolding strings_loop
  strings blob pos = strings_loop blob pos pos (drop pos blob)

  -- the loop's body once the structure at `pos` is read; `again` is the loop at another place
  unfoldable pub add_structure :
      (ℕ → List Structure) → ℕ → ℕ → ℕ → ℕ → List ℕ → List String × ℕ → List Structure
  add_structure again pos kind len handle content area =
      let found : Structure = record {
        kind = kind;
        handle = handle;
        content = content;
        strings = area.0;
      } in
      elim (ltb len 4) [
        | true ↦ []
        | false ↦ elim (kind == 127 || leb area.1 pos) [
          | true ↦ found ∷ []
          | false ↦ found ∷ again area.1
        ]
      ]

  -- `room` is what is left of MAX_STRUCTURES
  unfoldable pub parse_loop : ℕ → List ℕ → ℕ → List Structure
  unfolding strings add_structure
  parse_loop zero blob pos = []
  parse_loop (suc room) blob pos = elim (ltb (length blob) (pos + 4)) [
    | true ↦ []
    | false ↦
        let kind : ℕ = get_or blob pos 0 in
        let len : ℕ = get_or blob (pos + 1) 0 in
        add_structure (λ nxt. parse_loop room blob nxt) pos kind len (u16 blob (pos + 2))
          (slice blob pos len) (strings blob (pos + len))
  ]

  -- behind the header of 8 bytes, the last four of which say how long the table is
  unfoldable pub table : List ℕ → List ℕ
  table blob =
      let n : ℕ = u32 blob 4 in
      if not (n == 0) && leb (8 + n) (length blob) then slice blob 8 n else drop 8 blob

  unfoldable pub parse_smbios : List ℕ → List Structure
  unfolding parse_loop table
  parse_smbios blob = if ltb (length blob) 8 then [] else parse_loop max_structures (table blob) 0
