-- ===== src/Prelude/Bytes.antt =====
-- Byte strings as lists of numbers: Python's slices, and `struct.unpack_from` of little-endian numbers.
use Prim.Native.Nat.{ℕ, ◌+◌, ◌*◌, ◌≤◌}
use mathlib.Core.Path.{◌≡◌}
use mathlib.Core.List.{List}
use mathlib.Core.Option.{Option, none, some}
use native.Mathlib.Omega.{arith}
use jt_snmpd.Prelude.Tests.{leb, if◌then◌else◌}
use jt_snmpd.Prelude.Lists.{length, get_or, take, drop, length-take, length-drop}

-- raw[off:off + n]
unfoldable pub slice : List ℕ → ℕ → ℕ → List ℕ
slice raw off n = take n (drop off raw)

pub length-slice : (raw : List ℕ) (off n : ℕ) → off + n ≤ length raw → length (slice raw off n) ≡ n
unfolding slice
length-slice raw off n h = omega (arith, length-take n (drop off raw), length-drop off raw)

abbrev pub u16 : List ℕ → ℕ → ℕ
u16 raw off = get_or raw off 0 + 256 * get_or raw (off + 1) 0

-- the numbers at an offset; `none` is `struct.error`, raised where the buffer is too short
unfoldable pub u16_at : List ℕ → ℕ → Option ℕ
u16_at raw off = if leb (off + 2) (length raw) then some (u16 raw off) else none

abbrev pub u32 : List ℕ → ℕ → ℕ
u32 raw off =
    get_or raw off 0
    + 256 * get_or raw (off + 1) 0
    + 65536 * get_or raw (off + 2) 0
    + 16777216 * get_or raw (off + 3) 0

unfoldable pub u32_at : List ℕ → ℕ → Option ℕ
u32_at raw off = if leb (off + 4) (length raw) then some (u32 raw off) else none

pub u32_at-some :
    (raw : List ℕ) (off : ℕ) → off + 4 ≤ length raw → (n : ℕ) × (u32_at raw off ≡ some n)
unfolding u32_at
u32_at-some raw off h = (u32 raw off, ground arith)

infixl 5 ◌>>=◌
abbrev pub ◌>>=◌ : {A B : Type 0} → Option A → (A → Option B) → Option B
none >>= f = none
some a >>= f = f a
