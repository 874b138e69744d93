-- ===== src/Prelude/Int.antt =====
-- Python's `int` over the native numbers, under the names of the library's integers.
use jt_snmpd.Prelude.Tests.{◌==◌, ltb, if◌then◌else◌}
use Prim.Native.Nat.{ℕ, suc, ◌-◌, ◌/◌, min}
use mathlib.Core.Bool.{Bool, false}

-- `negsuc n` is -(n + 1)
pub data ℤ : Type 0 where
  pos : ℕ → ℤ
  negsuc : ℕ → ℤ

-- abs(v)
abbrev pub magnitude : ℤ → ℕ
magnitude (pos n) = n
magnitude (negsuc n) = suc n

-- max(v, 0)
abbrev pub pos_part : ℤ → ℕ
pos_part (pos n) = n
pos_part (negsuc n) = 0

-- a - b of two numbers
unfoldable pub difference : ℕ → ℕ → ℤ
difference a b = if ltb a b then negsuc (b - a - 1) else pos (a - b)

-- v // n, which is rounded down
unfoldable pub floor_div : ℤ → ℕ → ℤ
floor_div (pos v) n = pos (v / n)
floor_div (negsuc v) n = negsuc (v / n)

-- min(v, n)
abbrev pub min_int : ℤ → ℕ → ℤ
min_int (pos v) n = pos (min v n)
min_int (negsuc v) n = negsuc v

-- a == b
abbrev pub int_eq : ℤ → ℤ → Bool
int_eq (pos m) (pos n) = m == n
int_eq (negsuc m) (negsuc n) = m == n
int_eq (pos m) (negsuc n) = false
int_eq (negsuc m) (pos n) = false
