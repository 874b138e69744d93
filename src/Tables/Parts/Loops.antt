-- ===== src/Tables/Parts/Loops.antt =====
-- Loops over items whose index is a number, or a number added to the first of a range.
use jt_snmpd.Prelude.{ℕ, ◌+◌, ◌<◌, ◌≡◌, true, List, [], ◌∷◌, ◌++◌, arith}
use jt_snmpd.Mib.Oid.{Oid}
use jt_snmpd.Tables.{Cells, at, for_each}
use jt_snmpd.Tables.Keys.{apart, is_ascending, at-IsUnique, at-AreKeyed}
use jt_snmpd.Tables.Regions.{Region, AreCovered, IsPart}
use jt_snmpd.Tables.Covers.{
  in_range, index_regions, are_columns, at-AreCovered, at-AreCovered_index, append-AreCovered, All,
  for_each-AreCovered, AreDistinct, DiffersFrom, loop-IsUnique,
}
use jt_snmpd.Tables.Parts.{sep_one, pair_loop-IsUnique}

module _ {A : Type 0} where
  DiffersFrom-add :
      (k : ℕ) (g : A → ℕ) (x : A) (ys : List A)
      → DiffersFrom g x ys
      → DiffersFrom (λ y. k + g y) x ys
  DiffersFrom-add k g x [] d = tt
  DiffersFrom-add k g x (y ∷ ys) d = (ground (arith, d.0), DiffersFrom-add k g x ys d.1)

  pub AreDistinct-add :
      (k : ℕ) (g : A → ℕ) (xs : List A) → AreDistinct g xs → AreDistinct (λ x. k + g x) xs
  AreDistinct-add k g [] d = tt
  AreDistinct-add k g (x ∷ xs) d = (DiffersFrom-add k g x xs d.0, AreDistinct-add k g xs d.1)

  -- one table, with the index in a range
  pub ranged-IsPart :
      (base : Oid) (columns : List ℕ) (k n : ℕ) (g : A → ℕ) (cells : A → Cells)
      → ((x : A) → is_ascending (cells x) ≡ true)
      → ((x : A) → are_columns columns (cells x) ≡ true)
      → (xs : List A) → AreDistinct g xs
      → All (λ x. g x < n) xs
      → IsPart
          (index_regions base columns k (k + n))
          (for_each xs (λ x. at base ((k + g x) ∷ []) (cells x)))
  ranged-IsPart base columns k n g cells asc cols xs d h = (
    loop-IsUnique (λ x. (base, (k + g x) ∷ []) ∷ []) (λ x. at base ((k + g x) ∷ []) (cells x))
        (λ x. k + g x) (λ x. at-AreKeyed base ((k + g x) ∷ []) (cells x))
        (λ x y e. sep_one base (k + g x) (k + g y) e)
        (λ x. at-IsUnique base ((k + g x) ∷ []) (cells x) (asc x)) xs (AreDistinct-add k g xs d),
    for_each-AreCovered (index_regions base columns k (k + n)) (λ x. g x < n)
        (λ x. at base ((k + g x) ∷ []) (cells x))
        (λ x lt.
          at-AreCovered_index base columns k (k + n) (k + g x) [] (cells x) (cols x) (omega arith)
            (omega (arith, lt)))
        xs h,
  )

  -- two tables
  pub pair_loop-IsPart :
      (a b : Oid) (regs qs : List Region) (P : A → Type 0) (g : A → ℕ) (cs ds : A → Cells)
      → apart a b ≡ true
      → apart b a ≡ true
      → ((x : A) → is_ascending (cs x) ≡ true)
      → ((x : A) → is_ascending (ds x) ≡ true)
      → ((x : A) → P x → AreCovered regs (at a (g x ∷ []) (cs x)))
      → ((x : A) → P x → AreCovered qs (at b (g x ∷ []) (ds x)))
      → (xs : List A) → AreDistinct g xs
      → All P xs
      → IsPart (regs ++ qs) (for_each xs (λ x. at a (g x ∷ []) (cs x) ++ at b (g x ∷ []) (ds x)))
  pair_loop-IsPart a b regs qs P g cs ds p q asc asc' left right xs d h = (
    pair_loop-IsUnique a b g cs ds p q asc asc' xs d,
    for_each-AreCovered (regs ++ qs) P (λ x. at a (g x ∷ []) (cs x) ++ at b (g x ∷ []) (ds x))
        (λ x t.
          append-AreCovered regs qs (at a (g x ∷ []) (cs x)) (at b (g x ∷ []) (ds x)) (left x t)
            (right x t))
        xs h,
  )

  -- two tables, with the index of the first in a range
  pub device-IsPart :
      (a b : Oid) (columns : List ℕ) (lo hi k n : ℕ) (g : A → ℕ) (cs ds : A → Cells)
      → apart a b ≡ true
      → apart b a ≡ true
      → ((x : A) → is_ascending (cs x) ≡ true)
      → ((x : A) → is_ascending (ds x) ≡ true)
      → ((x : A) → are_columns columns (cs x) ≡ true)
      → ((x : A) → in_range lo hi (ds x) ≡ true)
      → (xs : List A) → AreDistinct g xs
      → All (λ x. g x < n) xs
      → IsPart
          (index_regions a columns k (k + n) ++ ((b, lo, hi) ∷ []))
          (for_each xs (λ x. at a ((k + g x) ∷ []) (cs x) ++ at b ((k + g x) ∷ []) (ds x)))
  device-IsPart a b columns lo hi k n g cs ds p q asc asc' cols range xs d h =
      pair_loop-IsPart a b (index_regions a columns k (k + n)) ((b, lo, hi) ∷ []) (λ x. g x < n)
        (λ x. k + g x) cs ds p q asc asc'
        (λ x lt.
          at-AreCovered_index a columns k (k + n) (k + g x) [] (cs x) (cols x) (omega arith)
            (omega (arith, lt)))
        (λ x lt. at-AreCovered b ((k + g x) ∷ []) lo hi (ds x) (range x)) xs
        (AreDistinct-add k g xs d) h

  -- two tables, with both indices in the range
  pub sensor-IsPart :
      (a b : Oid) (columns columns' : List ℕ) (k n : ℕ) (g : A → ℕ) (cs ds : A → Cells)
      → apart a b ≡ true
      → apart b a ≡ true
      → ((x : A) → is_ascending (cs x) ≡ true)
      → ((x : A) → is_ascending (ds x) ≡ true)
      → ((x : A) → are_columns columns (cs x) ≡ true)
      → ((x : A) → are_columns columns' (ds x) ≡ true)
      → (xs : List A) → AreDistinct g xs
      → All (λ x. g x < n) xs
      → IsPart
          (index_regions a columns k (k + n) ++ index_regions b columns' k (k + n))
          (for_each xs (λ x. at a ((k + g x) ∷ []) (cs x) ++ at b ((k + g x) ∷ []) (ds x)))
  sensor-IsPart a b columns columns' k n g cs ds p q asc asc' cols cols' xs d h =
      pair_loop-IsPart a b (index_regions a columns k (k + n)) (index_regions b columns' k (k + n))
        (λ x. g x < n) (λ x. k + g x) cs ds p q asc asc'
        (λ x lt.
          at-AreCovered_index a columns k (k + n) (k + g x) [] (cs x) (cols x) (omega arith)
            (omega (arith, lt)))
        (λ x lt.
          at-AreCovered_index b columns' k (k + n) (k + g x) [] (ds x) (cols' x) (omega arith)
            (omega (arith, lt)))
        xs (AreDistinct-add k g xs d) h
