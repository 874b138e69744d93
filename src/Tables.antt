-- ===== src/Tables.antt =====
-- The rows of `build_snapshot` of deploy/jt_agent.py, table by table: what is shared by all of them.
-- A row's name is the base of its table, a column and an index.
pub mod Names
pub mod System
pub mod Agent
pub mod Network
pub mod Protocols
pub mod Resources
pub mod Devices
pub mod Entity
pub mod Sensors
pub mod Extend
pub mod Build
pub mod Rows
pub mod Keys
pub mod Regions
pub mod Covers
pub mod Parts
pub mod Layout
pub mod Unique
pub mod Served
pub mod Clash
pub mod Masks
use Prim.Native.String.{◌++◌ as str_append}
use jt_snmpd.Prelude.{
  ℕ, zero, suc, ◌+◌, ◌-◌, ◌*◌, ◌/◌, ◌%◌, ◌^◌, min, Bool, true, false, Option, none, some, List, [],
  ◌∷◌, ◌++◌, ltb, ◌==◌, if◌then◌else◌, get_or, String, str_eq,
}
use jt_snmpd.Mib.Oid.{Oid}
pub use jt_snmpd.Disks.{int32_max}
use jt_snmpd.Mib.Value.{ℤ, Value, octets, unsigned, object, integer, Row}

abbrev pub Text : Type 0
Text = String

-- What Python's `str` does: `encode("utf-8")`, `strip`, `rstrip`, `upper`, `split`, `len`, `s[:n]` and
-- `s.replace(t, "")`, with t first.
pub record Host : Type 0 where
  pub utf8 : Text → List ℕ
  pub strip : Text → Text
  pub rstrip : Text → Text
  pub upper : Text → Text
  pub words : Text → List Text
  pub chars : Text → ℕ
  pub first : ℕ → Text → Text
  pub without : Text → Text → Text

infixr 5 ◌&◌
abbrev pub ◌&◌ : Text → Text → Text
s & t = str_append s t

abbrev pub digits : List Text
digits = "0" ∷ "1" ∷ "2" ∷ "3" ∷ "4" ∷ "5" ∷ "6" ∷ "7" ∷ "8" ∷ "9" ∷ []

-- str(n) of a number, on as much fuel as the number
decimal_loop : ℕ → ℕ → Text
decimal_loop zero n = get_or digits n ""
decimal_loop (suc fuel) n = elim (ltb n 10) [
  | true ↦ get_or digits n ""
  | false ↦ decimal_loop fuel (n / 10) & get_or digits (n % 10) ""
]

unfoldable pub decimal : ℕ → Text
unfolding decimal_loop
decimal n = decimal_loop n n

-- `s or t` of texts
abbrev pub or_text : Text → Text → Text
or_text s t = if str_eq s "" then t else s

abbrev pub u32 : ℕ
u32 = 4294967295

-- " ".join(words)
abbrev pub joined : List Text → Text
joined [] = ""
joined (w ∷ []) = w
joined (w ∷ v ∷ ws) = w & " " & joined (v ∷ ws)

-- without the first word if the second repeats it
abbrev pub not_doubled : Host → List Text → List Text
not_doubled host [] = []
not_doubled host (w ∷ []) = w ∷ []
not_doubled host (w ∷ v ∷ ws) = if str_eq (host.upper w) (host.upper v) then v ∷ ws else w ∷ v ∷ ws

abbrev pub cut_28 : Host → Text → Text
cut_28 host s = if ltb 28 (host.chars s) then host.rstrip (host.first 28 s) else s

-- `_disk_label`, of the number and the model of a disk
unfoldable pub disk_label : Host → ℕ → Text → Text
unfolding decimal
disk_label host n model =
    let drive : Text = "PhysicalDrive" & decimal n in
    let m : Text = host.strip model in
    let short : Text =
      host.without " M.2" (host.without " 2280" (joined (not_doubled host (host.words m)))) in
    if str_eq m ""
    then drive
    else if str_eq m drive
    then drive
    else drive & ": " & cut_28 host (host.strip short)

-- The types of rfc1902; `counter32` and `ticks` are given what `& U32` leaves. The other types refuse a number
-- out of their range, by a check of pyasn1 that is not modelled.
abbrev pub int32 : ℕ → Value
int32 n = integer (ℤ.pos n)

-- Integer32(min(n, INT32_MAX))
abbrev pub capped_int32 : ℕ → Value
capped_int32 n = integer (ℤ.pos (min n int32_max))

abbrev pub counter32 : ℕ → Value
counter32 n = unsigned (n % 2 ^ 32)

abbrev pub ticks : ℕ → Value
ticks n = unsigned (n % 2 ^ 32)

abbrev pub counter64 : ℕ → Value
counter64 n = unsigned n

abbrev pub gauge32 : ℕ → Value
gauge32 n = unsigned n

-- Gauge32(min(n, U32))
abbrev pub capped_gauge32 : ℕ → Value
capped_gauge32 n = unsigned (min n u32)

abbrev pub octet : Host → Text → Value
octet host s = octets (host.utf8 s)

abbrev pub zero_zero : Value
zero_zero = object (0 ∷ 0 ∷ [])

abbrev pub Cells : Type 0
Cells = List (ℕ × Value)

-- `add(base + (column,) + index, value)` for each column
unfoldable pub at : Oid → Oid → Cells → List Row
at base index [] = []
at base index ((c, v) ∷ cells) = (base ++ (c ∷ index), v) ∷ at base index cells

-- the rows of each item of a loop
unfoldable pub for_each : {A : Type 0} → List A → (A → List Row) → List Row
for_each [] f = []
for_each (x ∷ xs) f = f x ++ for_each xs f

unfoldable pub flatten : List (List Row) → List Row
flatten [] = []
flatten (rs ∷ rss) = rs ++ flatten rss

-- enumerate(xs, start=n)
unfoldable pub numbered : {A : Type 0} → ℕ → List A → List (ℕ × A)
numbered n [] = []
numbered n (x ∷ xs) = (n, x) ∷ numbered (n + 1) xs

abbrev pub if_some : {A B : Type 0} → Option A → (A → List B) → List B
if_some none f = []
if_some (some a) f = f a

abbrev pub when : {B : Type 0} → Bool → List B → List B
when true rows = rows
when false rows = []
