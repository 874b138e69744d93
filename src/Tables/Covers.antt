-- ===== src/Tables/Covers.antt =====
-- Which regions the rows of a table and of a loop are in, and that no name is twice in a loop.
use jt_snmpd.Prelude.{
  ℕ, ◌+◌, ◌≤◌, ◌<◌, ◌≡◌, refl, Bool, true, false, ◌&&◌, ◌||◌, List, [], ◌∷◌, ◌++◌, arith, ltb, leb,
  ◌==◌, length, Bool-cases, inl, inr,
}
use jt_snmpd.Mib.Oid.{Oid}
use jt_snmpd.Mib.Value.{Row}
use jt_snmpd.Tables.{Cells, at, for_each, numbered}
use jt_snmpd.Tables.Rows.{IsUnique}
use jt_snmpd.Tables.Keys.{Key, AreKeyed, all_apart, AreApart, AreApartFrom, for_each-IsUnique}
use jt_snmpd.Tables.Regions.{Region, covers, covers_any, AreCovered}

-- all columns are in a range
abbrev pub in_range : ℕ → ℕ → Cells → Bool
in_range lo hi [] = true
in_range lo hi ((c, v) ∷ cells) = leb lo c && ltb c hi && in_range lo hi cells

covers-append :
    (base : Oid) (lo hi c : ℕ) (index : Oid)
    → covers base lo hi (base ++ (c ∷ index)) ≡ (leb lo c && ltb c hi)
unfolding covers
covers-append [] lo hi c index = refl
covers-append (b ∷ bs) lo hi c index = ground (arith, covers-append bs lo hi c index)

-- columns in a range
pub at-AreCovered :
    (base index : Oid) (lo hi : ℕ) (cells : Cells)
    → in_range lo hi cells ≡ true
    → AreCovered ((base, lo, hi) ∷ []) (at base index cells)
unfolding at covers_any
at-AreCovered base index lo hi [] h = tt
at-AreCovered base index lo hi ((c, v) ∷ cells) h = (
  rw (covers-append base lo hi c index) (ground (arith, h)),
  at-AreCovered base index lo hi cells (ground (arith, h)),
)

-- the first number of the index in a range, by columns
abbrev pub index_regions : Oid → List ℕ → ℕ → ℕ → List Region
index_regions base [] lo hi = []
index_regions base (c ∷ cs) lo hi = (base ++ (c ∷ []), lo, hi) ∷ index_regions base cs lo hi

abbrev pub is_column : ℕ → List ℕ → Bool
is_column c [] = false
is_column c (d ∷ ds) = c == d || is_column c ds

abbrev pub are_columns : List ℕ → Cells → Bool
are_columns cs [] = true
are_columns cs ((c, v) ∷ cells) = is_column c cs && are_columns cs cells

covers_index :
    (base : Oid) (c lo hi i : ℕ) (rest : Oid)
    → lo ≤ i
    → i < hi
    → covers (base ++ (c ∷ [])) lo hi (base ++ (c ∷ i ∷ rest)) ≡ true
unfolding covers
covers_index [] c lo hi i rest p q = ground arith
covers_index (b ∷ bs) c lo hi i rest p q = ground (arith, covers_index bs c lo hi i rest p q)

covers_column :
    (base : Oid) (c : ℕ) (cs : List ℕ) (lo hi i : ℕ) (rest : Oid)
    → is_column c cs ≡ true
    → lo ≤ i
    → i < hi
    → covers_any (index_regions base cs lo hi) (base ++ (c ∷ i ∷ rest)) ≡ true
unfolding covers_any
covers_column base c [] lo hi i rest h p q = absurd (ground (arith, h))
covers_column base c (d ∷ ds) lo hi i rest h p q = elim (Bool-cases (c == d)) [
  | inl same ↦
      let e : d ≡ c = ground (arith, same) in rw (e, covers_index base c lo hi i rest p q) refl
  | inr other ↦
      let t : is_column c ds ≡ true = ground (arith, h, other) in
      ground (arith, covers_column base c ds lo hi i rest t p q)
]

-- an index in a range
pub at-AreCovered_index :
    (base : Oid) (cs : List ℕ) (lo hi i : ℕ) (rest : Oid) (cells : Cells)
    → are_columns cs cells ≡ true
    → lo ≤ i
    → i < hi
    → AreCovered (index_regions base cs lo hi) (at base (i ∷ rest) cells)
unfolding at
at-AreCovered_index base cs lo hi i rest [] h p q = tt
at-AreCovered_index base cs lo hi i rest ((c, v) ∷ cells) h p q = (
  covers_column base c cs lo hi i rest (ground (arith, h)) p q,
  at-AreCovered_index base cs lo hi i rest cells (ground (arith, h)) p q,
)

pub append-AreCovered_same :
    (regs : List Region) (rs ss : List Row)
    → AreCovered regs rs
    → AreCovered regs ss
    → AreCovered regs (rs ++ ss)
append-AreCovered_same regs [] ss c d = d
append-AreCovered_same regs (r ∷ rs) ss c d = (c.0, append-AreCovered_same regs rs ss c.1 d)

covers_left :
    (rs qs : List Region) (o : Oid) → covers_any rs o ≡ true → covers_any (rs ++ qs) o ≡ true
unfolding covers_any
covers_left [] qs o h = absurd (ground (arith, h))
covers_left (r ∷ rs) qs o h = ground (arith, h, covers_left rs qs o)

covers_right :
    (rs qs : List Region) (o : Oid) → covers_any qs o ≡ true → covers_any (rs ++ qs) o ≡ true
unfolding covers_any
covers_right [] qs o h = h
covers_right (r ∷ rs) qs o h = ground (arith, covers_right rs qs o h)

pub weaken_left :
    (regs qs : List Region) (rs : List Row) → AreCovered regs rs → AreCovered (regs ++ qs) rs
weaken_left regs qs [] c = tt
weaken_left regs qs (r ∷ rs) c = (covers_left regs qs r.0 c.0, weaken_left regs qs rs c.1)

pub weaken_right :
    (regs qs : List Region) (rs : List Row) → AreCovered qs rs → AreCovered (regs ++ qs) rs
weaken_right regs qs [] c = tt
weaken_right regs qs (r ∷ rs) c = (covers_right regs qs r.0 c.0, weaken_right regs qs rs c.1)

pub append-AreCovered :
    (regs qs : List Region) (rs ss : List Row)
    → AreCovered regs rs
    → AreCovered qs ss
    → AreCovered (regs ++ qs) (rs ++ ss)
append-AreCovered regs qs rs ss c d =
    append-AreCovered_same (regs ++ qs) rs ss (weaken_left regs qs rs c) (weaken_right regs qs ss d)

abbrev pub All : {A : Type 0} → (A → Type 0) → List A → Type 0
All P [] = Unit
All P (x ∷ xs) = P x × All P xs

module _ {A : Type 0} where
  pub for_each-AreCovered :
      (regs : List Region) (P : A → Type 0) (f : A → List Row)
      → ((x : A) → P x → AreCovered regs (f x))
      → (xs : List A) → All P xs
      → AreCovered regs (for_each xs f)
  unfolding for_each
  for_each-AreCovered regs P f c [] h = tt
  for_each-AreCovered regs P f c (x ∷ xs) h =
      append-AreCovered_same regs (f x) (for_each xs f) (c x h.0)
        (for_each-AreCovered regs P f c xs h.1)

  pub All-any : (xs : List A) → All (λ x. Unit) xs
  All-any [] = tt
  All-any (x ∷ xs) = (tt, All-any xs)

  -- no two items have the same number
  abbrev pub DiffersFrom : (A → ℕ) → A → List A → Type 0
  DiffersFrom g x [] = Unit
  DiffersFrom g x (y ∷ ys) = ((g x == g y) ≡ false) × DiffersFrom g x ys

  abbrev pub AreDistinct : (A → ℕ) → List A → Type 0
  AreDistinct g [] = Unit
  AreDistinct g (x ∷ xs) = DiffersFrom g x xs × AreDistinct g xs

  -- a loop over items whose index is a number of theirs
  module _ (keys : A → List Key) (f : A → List Row) (g : A → ℕ)
      (keyed : (x : A) → AreKeyed (keys x) (f x))
      (sep : (x y : A) → (g x == g y) ≡ false → all_apart (keys x) (keys y) ≡ true) where
    apart_from_distinct :
        (x : A) (ys : List A) → DiffersFrom g x ys → AreApartFrom keys f keyed x ys
    apart_from_distinct x [] d = tt
    apart_from_distinct x (y ∷ ys) d = (sep x y d.0, apart_from_distinct x ys d.1)

    apart_of_distinct : (xs : List A) → AreDistinct g xs → AreApart keys f keyed xs
    apart_of_distinct [] d = tt
    apart_of_distinct (x ∷ xs) d = (apart_from_distinct x xs d.0, apart_of_distinct xs d.1)

    pub loop-IsUnique :
        ((x : A) → IsUnique (f x)) → (xs : List A) → AreDistinct g xs → IsUnique (for_each xs f)
    loop-IsUnique u xs d = for_each-IsUnique keys f keyed u xs (apart_of_distinct xs d)

module _ {A : Type 0} where
  numbered-DiffersFrom :
      (m n : ℕ) (x : A) (xs : List A) → m < n → DiffersFrom (λ p. p.0) (m, x) (numbered n xs)
  unfolding numbered
  numbered-DiffersFrom m n x [] h = tt
  numbered-DiffersFrom m n x (y ∷ ys) h =
      (ground arith, numbered-DiffersFrom m (n + 1) x ys (omega arith))

  pub numbered-AreDistinct : (n : ℕ) (xs : List A) → AreDistinct (λ p. p.0) (numbered n xs)
  unfolding numbered
  numbered-AreDistinct n [] = tt
  numbered-AreDistinct n (x ∷ xs) =
      (numbered-DiffersFrom n (n + 1) x xs (omega arith), numbered-AreDistinct (n + 1) xs)

  pub numbered-lt :
      (n hi : ℕ) (xs : List A) → n + length xs ≤ hi → All (λ p. p.0 < hi) (numbered n xs)
  unfolding numbered
  numbered-lt n hi [] h = tt
  numbered-lt n hi (x ∷ xs) h = (omega (arith, h), numbered-lt (n + 1) hi xs (omega (arith, h)))
