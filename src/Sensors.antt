-- ===== src/Sensors.antt =====
-- deploy/sensors.py: the parser of a WMI data block (`parse_wnode_all_data`), which comes from firmware
-- and drivers, and the thermal zone records in it. Bytes are numbers, text is a list of code points;
-- an exception is `none`. What Python's `str` and floats do is a parameter (`Host`).
pub mod Bounds
pub mod Parse
use jt_snmpd.Prelude.Bytes.{slice, u16_at, u32_at, ◌>>=◌, length-slice, u32_at-some}
use jt_snmpd.Prelude.{
  ℕ, zero, suc, ◌+◌, ◌-◌, ◌*◌, ◌/◌, ◌%◌, min, Bool, true, false, not, ◌&&◌, ◌||◌, Option, none,
  some, List, [], ◌∷◌, ltb, leb, ◌==◌, if◌then◌else◌, length, take, get_or,
}
use jt_snmpd.Prelude.Int.{ℤ}

abbrev pub max_instances : ℕ
max_instances = 64

abbrev pub max_name_chars : ℕ
max_name_chars = 128

abbrev pub Text : Type 0
Text = List ℕ

-- "ThermalZone"
abbrev pub unnamed : Text
unnamed = 84 ∷ 104 ∷ 101 ∷ 114 ∷ 109 ∷ 97 ∷ 108 ∷ 90 ∷ 111 ∷ 110 ∷ 101 ∷ []

pub record Host : Type 0 where
  -- bytes.decode("utf-16-le", errors="replace")
  pub decode : List ℕ → Text
  -- str.isprintable of one character
  pub is_printable : ℕ → Bool
  -- round(v / 10.0 - 273.15, 1), in tenths of a degree
  pub celsius_of : ℕ → ℤ

-- where an instance's data stands: offset and length
abbrev pub Span : Type 0
Span = ℕ × ℕ

pub record WnodeInstance : Type 0 where
  pub index : ℕ
  pub content : List ℕ
  pub name : Text

-- `for i in range(count)` is counted down by its first argument
unfoldable pub fixed_spans : ℕ → ℕ → ℕ → ℕ → ℕ → List Span
fixed_spans zero i data_off inst_size limit = []
fixed_spans (suc k) i data_off inst_size limit =
    let rest = fixed_spans k (i + 1) data_off inst_size limit in
    let off : ℕ = data_off + i * inst_size in
    if ltb limit (off + inst_size) then [] else (off, inst_size) ∷ rest

-- an entry that is empty or reaches past the limit is skipped
unfoldable pub keep_span : ℕ → ℕ → ℕ → List Span → List Span
keep_span limit off n spans =
    if n == 0 || ltb limit n || ltb limit (off + n) then spans else (off, n) ∷ spans

unfoldable pub table_spans : ℕ → ℕ → List ℕ → ℕ → Option (List Span)
unfolding keep_span
table_spans zero i raw limit = some []
table_spans (suc k) i raw limit = do
  off ← u32_at raw (60 + i * 8)
  n ← u32_at raw (60 + i * 8 + 4)
  spans ← table_spans k (i + 1) raw limit
  some (keep_span limit off n spans)

-- s.rstrip("\x00")
unfoldable pub rstrip_nul : Text → Text
rstrip_nul [] = []
rstrip_nul (c ∷ cs) = elim (rstrip_nul cs) [
  | [] ↦ if c == 0 then [] else c ∷ []
  | d ∷ ds ↦ c ∷ d ∷ ds
]

unfoldable pub instances : ℕ → List Span → List ℕ → List Text → List WnodeInstance
instances i [] raw names = []
instances i (s ∷ spans) raw names =
    record { index = i; content = slice raw s.0 s.1; name = get_or names i [] }
    ∷ instances (i + 1) spans raw names

-- WNODE_FLAG_FIXED_INSTANCE_SIZE
unfoldable pub is_fixed : ℕ → Bool
is_fixed flags = flags / 0x200 % 2 == 1

unfoldable pub checked_fixed_spans : ℕ → ℕ → ℕ → ℕ → List Span
unfolding fixed_spans
checked_fixed_spans inst_size data_off count limit =
    if inst_size == 0 || ltb limit inst_size
    then []
    else fixed_spans count 0 data_off inst_size limit

unfoldable pub find_spans : List ℕ → ℕ → ℕ → ℕ → ℕ → Option (List Span)
unfolding checked_fixed_spans table_spans is_fixed
find_spans raw flags data_off count limit =
    if is_fixed flags
    then (u32_at raw 60 >>= λ inst_size. some (checked_fixed_spans inst_size data_off count limit))
    else table_spans (if ltb limit (60 + count * 8) then (limit - 60) / 8 else count) 0 raw limit

unfoldable pub claimed_limit : ℕ → ℕ → ℕ
claimed_limit buffer_size held = if leb 64 buffer_size then min buffer_size held else held

module _ (host : Host) where
  unfoldable pub is_clean : ℕ → Bool
  is_clean c = host.is_printable c && not (c == 13 || c == 10 || c == 9)

  unfoldable pub cleaned : Text → Text
  unfolding is_clean
  cleaned [] = []
  cleaned (c ∷ cs) = let rest = cleaned cs in if is_clean c then c ∷ rest else rest

  unfoldable pub sanitise_name : Text → Text
  unfolding cleaned
  sanitise_name raw = take max_name_chars (cleaned raw)

  -- the counted string at `off`
  unfoldable pub string_at : List ℕ → ℕ → ℕ → ℕ → Text
  unfolding sanitise_name rstrip_nul
  string_at raw off nbytes limit =
      if nbytes == 0 || ltb (max_name_chars * 2) nbytes || ltb limit (off + 2 + nbytes)
      then []
      else sanitise_name (rstrip_nul (host.decode (slice raw (off + 2) nbytes)))

  -- the body of the loop over the names; `none` is `struct.error`, which the loop catches
  unfoldable pub counted_name : List ℕ → ℕ → ℕ → Option Text
  unfolding string_at
  counted_name raw entry limit = u32_at raw entry >>= λ off.
      if off == 0 || leb limit off || ltb limit (off + 2)
      then some []
      else (u16_at raw off >>= λ nbytes. some (string_at raw off nbytes limit))

  unfoldable pub names_from : ℕ → ℕ → List ℕ → ℕ → ℕ → List Text
  unfolding counted_name
  names_from zero i raw name_off limit = []
  names_from (suc k) i raw name_off limit =
      let rest = names_from k (i + 1) raw name_off limit in
      elim (counted_name raw (name_off + i * 4) limit) [ none ↦ [] ∷ rest | some s ↦ s ∷ rest ]

  unfoldable pub parse_instance_names : List ℕ → ℕ → ℕ → ℕ → List Text
  unfolding names_from
  parse_instance_names raw name_off count limit =
      if name_off == 0 || leb limit name_off || count == 0 || ltb limit (name_off + count * 4)
      then []
      else names_from count 0 raw name_off limit

  unfoldable pub read_instances : List ℕ → ℕ → ℕ → ℕ → ℕ → ℕ → Option (List WnodeInstance)
  unfolding find_spans instances parse_instance_names
  read_instances raw flags data_off name_off count limit = do
    spans ← find_spans raw flags data_off count limit
    some (instances 0 spans raw (parse_instance_names raw name_off (length spans) limit))

  unfoldable pub parse_wnode_all_data : List ℕ → ℕ → Option (List WnodeInstance)
  unfolding claimed_limit read_instances
  parse_wnode_all_data raw max_count = if ltb (length raw) 64 then some [] else do
    buffer_size ← u32_at raw 0
    flags ← u32_at raw 44
    data_off ← u32_at raw 48
    inst_count ← u32_at raw 52
    name_off ← u32_at raw 56
    let limit = claimed_limit buffer_size (length raw)
    if inst_count == 0
        then some []
        else read_instances raw flags data_off name_off (min inst_count max_count) limit

-- which zone a record describes; temperatures in tenths of a degree
pub record ThermalZone : Type 0 where
  pub name : Text
  pub celsius : ℤ
  pub critical_c : Option ℤ
  pub passive_c : Option ℤ

module _ (host : Host) where
  unfoldable pub tenths_kelvin_to_celsius : ℕ → Option ℤ
  tenths_kelvin_to_celsius v = if leb 2332 v && leb v 4732 then some (host.celsius_of v) else none

  -- `inst.name or "ThermalZone"`
  unfoldable pub zone_name : Text → Text
  zone_name [] = unnamed
  zone_name (c ∷ cs) = c ∷ cs

  -- `unpack_from("<9I")`, of which the last three numbers are used; `struct.error` is caught
  unfoldable pub parse_thermal_zone : WnodeInstance → Option ThermalZone
  unfolding tenths_kelvin_to_celsius zone_name
  parse_thermal_zone inst = if ltb (length inst.content) 36 then none else do
    current ← u32_at inst.content 20
    passive ← u32_at inst.content 24
    critical ← u32_at inst.content 28
    celsius ← tenths_kelvin_to_celsius current
    some (record {
      name = zone_name inst.name;
      celsius = celsius;
      critical_c = tenths_kelvin_to_celsius critical;
      passive_c = tenths_kelvin_to_celsius passive;
    })
