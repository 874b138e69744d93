-- ===== src/Tables/Parts.antt =====
-- Each part of the snapshot by itself: no name twice, and all of them in the regions of the part. What the
-- parts have in common.
pub mod Scalars
pub mod Loops
pub mod Devices
pub mod Entity
pub mod Sensors
pub mod Addresses
pub mod Routes
pub mod Extend
use jt_snmpd.Prelude.{
  ℕ, zero, suc, ◌+◌, ◌≤◌, ◌<◌, ◌≡◌, refl, Bool, true, false, not, ◌&&◌, ◌||◌, List, [], ◌∷◌, ◌++◌,
  arith, ltb, leb, ◌==◌, if◌then◌else◌, length, take, length-take, length-append, min,
}
use jt_snmpd.Mib.Oid.{Oid, oid_eq, oid_eq_refl}
use jt_snmpd.Mib.Value.{Row}
use jt_snmpd.Tables.{Cells, at, for_each, numbered}
use jt_snmpd.Tables.Rows.{IsUnique, append-IsUnique}
use jt_snmpd.Tables.Keys.{
  Key, AreKeyed, all_apart, keys_apart, apart_from, apart, at-AreKeyed, append-AreKeyed,
  AreKeyed-AreDisjoint, is_below, is_ascending, at-IsUnique,
}
use jt_snmpd.Tables.Regions.{Region, AreCovered, IsPart}
use jt_snmpd.Tables.Covers.{
  in_range, at-AreCovered, append-AreCovered, All, All-any, for_each-AreCovered, loop-IsUnique,
  AreDistinct, numbered-AreDistinct,
}

-- columns of one index
pub at-IsPart :
    (base index : Oid) (lo hi : ℕ) (cells : Cells)
    → is_ascending cells ≡ true
    → in_range lo hi cells ≡ true
    → IsPart ((base, lo, hi) ∷ []) (at base index cells)
at-IsPart base index lo hi cells h k =
    (at-IsUnique base index cells h, at-AreCovered base index lo hi cells k)

-- columns of two tables
pub pair-AreKeyed :
    (a i b j : Oid) (cs ds : Cells) → AreKeyed ((a, i) ∷ (b, j) ∷ []) (at a i cs ++ at b j ds)
pair-AreKeyed a i b j cs ds =
    append-AreKeyed ((a, i) ∷ []) ((b, j) ∷ []) (at a i cs) (at b j ds) (at-AreKeyed a i cs)
      (at-AreKeyed b j ds)

pub pair-IsUnique :
    (a i b j : Oid) (cs ds : Cells)
    → keys_apart (a, i) (b, j) ≡ true
    → is_ascending cs ≡ true
    → is_ascending ds ≡ true
    → IsUnique (at a i cs ++ at b j ds)
unfolding all_apart apart_from
pair-IsUnique a i b j cs ds k h l =
    append-IsUnique (at a i cs) (at b j ds) (at-IsUnique a i cs h) (at-IsUnique b j ds l) (
      AreKeyed-AreDisjoint ((a, i) ∷ []) ((b, j) ∷ []) (at a i cs) (at b j ds) (one k)
        (at-AreKeyed a i cs) (at-AreKeyed b j ds))
  where
    one : keys_apart (a, i) (b, j) ≡ true → all_apart ((a, i) ∷ []) ((b, j) ∷ []) ≡ true
    one h = ground (arith, h)

-- keys of one number in one table, or in two
pub sep_one :
    (a : Oid) (m n : ℕ) → (m == n) ≡ false → all_apart ((a, m ∷ []) ∷ []) ((a, n ∷ []) ∷ []) ≡ true
unfolding all_apart apart_from keys_apart oid_eq
sep_one a m n h = ground (arith, h, oid_eq_refl a)

pub sep_two :
    (a b : Oid) (m n : ℕ)
    → apart a b ≡ true
    → apart b a ≡ true
    → (m == n) ≡ false
    → all_apart ((a, m ∷ []) ∷ (b, m ∷ []) ∷ []) ((a, n ∷ []) ∷ (b, n ∷ []) ∷ []) ≡ true
unfolding all_apart apart_from keys_apart oid_eq
sep_two a b m n p q h = ground (arith, h, p, q, oid_eq_refl a, oid_eq_refl b)

module _ {A : Type 0} where
  -- a loop that adds the columns of one table for each item
  pub table-IsPart :
      (base : Oid) (lo hi : ℕ) (g : A → ℕ) (cells : A → Cells)
      → ((x : A) → is_ascending (cells x) ≡ true)
      → ((x : A) → in_range lo hi (cells x) ≡ true)
      → (xs : List A) → AreDistinct g xs
      → IsPart ((base, lo, hi) ∷ []) (for_each xs (λ x. at base (g x ∷ []) (cells x)))
  table-IsPart base lo hi g cells asc range xs d = (
    loop-IsUnique (λ x. (base, g x ∷ []) ∷ []) (λ x. at base (g x ∷ []) (cells x)) g
        (λ x. at-AreKeyed base (g x ∷ []) (cells x)) (λ x y h. sep_one base (g x) (g y) h)
        (λ x. at-IsUnique base (g x ∷ []) (cells x) (asc x)) xs d,
    for_each-AreCovered ((base, lo, hi) ∷ []) (λ x. Unit) (λ x. at base (g x ∷ []) (cells x))
        (λ x _. at-AreCovered base (g x ∷ []) lo hi (cells x) (range x)) xs (All-any xs),
  )

  -- a loop that adds the columns of two tables for each item
  pub pair_loop-IsUnique :
      (a b : Oid) (g : A → ℕ) (cs ds : A → Cells)
      → apart a b ≡ true
      → apart b a ≡ true
      → ((x : A) → is_ascending (cs x) ≡ true)
      → ((x : A) → is_ascending (ds x) ≡ true)
      → (xs : List A) → AreDistinct g xs
      → IsUnique (for_each xs (λ x. at a (g x ∷ []) (cs x) ++ at b (g x ∷ []) (ds x)))
  unfolding keys_apart
  pair_loop-IsUnique a b g cs ds p q h k xs d =
      loop-IsUnique (λ x. (a, g x ∷ []) ∷ (b, g x ∷ []) ∷ [])
        (λ x. at a (g x ∷ []) (cs x) ++ at b (g x ∷ []) (ds x)) g
        (λ x. pair-AreKeyed a (g x ∷ []) b (g x ∷ []) (cs x) (ds x))
        (λ x y e. sep_two a b (g x) (g y) p q e)
        (λ x. pair-IsUnique a (g x ∷ []) b (g x ∷ []) (cs x) (ds x) (ground (arith, p)) (h x) (k x))
        xs d
