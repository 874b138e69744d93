-- ===== src/Mib/Oid.antt =====
-- Object identifiers: Python tuples of numbers, in the order that `<` gives to tuples.
use jt_snmpd.Prelude.{
  ℕ, ◌≡◌, refl, Bool, true, false, List, [], ◌∷◌, arith, ltb, ◌==◌, if◌then◌else◌,
}

abbrev pub Oid : Type 0
Oid = List ℕ

-- a < b
unfoldable pub oid_lt : Oid → Oid → Bool
oid_lt [] [] = false
oid_lt [] (y ∷ ys) = true
oid_lt (x ∷ xs) [] = false
oid_lt (x ∷ xs) (y ∷ ys) = if ltb x y then true else if x == y then oid_lt xs ys else false

-- a == b
unfoldable pub oid_eq : Oid → Oid → Bool
oid_eq [] [] = true
oid_eq [] (y ∷ ys) = false
oid_eq (x ∷ xs) [] = false
oid_eq (x ∷ xs) (y ∷ ys) = if x == y then oid_eq xs ys else false

pub oid_lt_irrefl : (a : Oid) → oid_lt a a ≡ false
unfolding oid_lt
oid_lt_irrefl [] = refl
oid_lt_irrefl (x ∷ xs) = ground (arith, oid_lt_irrefl xs)

pub oid_lt_trans : (a b c : Oid) → oid_lt a b ≡ true → oid_lt b c ≡ true → oid_lt a c ≡ true
unfolding oid_lt
oid_lt_trans a [] [] p q = cc
oid_lt_trans a (y ∷ ys) [] p q = cc
oid_lt_trans [] [] (z ∷ zs) p q = cc
oid_lt_trans (x ∷ xs) [] (z ∷ zs) p q = cc
oid_lt_trans [] (y ∷ ys) (z ∷ zs) p q = refl
oid_lt_trans (x ∷ xs) (y ∷ ys) (z ∷ zs) p q = ground (arith, oid_lt_trans xs ys zs)

pub oid_eq→eq : (a b : Oid) → oid_eq a b ≡ true → a ≡ b
unfolding oid_eq
oid_eq→eq [] [] h = refl
oid_eq→eq [] (y ∷ ys) h = cc
oid_eq→eq (x ∷ xs) [] h = cc
oid_eq→eq (x ∷ xs) (y ∷ ys) h = ground (arith, oid_eq→eq xs ys)

pub oid_eq_refl : (a : Oid) → oid_eq a a ≡ true
unfolding oid_eq
oid_eq_refl [] = refl
oid_eq_refl (x ∷ xs) = ground (arith, oid_eq_refl xs)

-- two identifiers that are neither below nor above each other are equal
pub oid_lt_antisymm : (a b : Oid) → oid_lt a b ≡ false → oid_lt b a ≡ false → a ≡ b
unfolding oid_lt
oid_lt_antisymm [] [] p q = refl
oid_lt_antisymm [] (y ∷ ys) p q = cc
oid_lt_antisymm (x ∷ xs) [] p q = cc
oid_lt_antisymm (x ∷ xs) (y ∷ ys) p q = ground (arith, oid_lt_antisymm xs ys)

pub oid_lt_asymm : (a b : Oid) → oid_lt a b ≡ true → oid_lt b a ≡ false
unfolding oid_lt
oid_lt_asymm [] [] p = refl
oid_lt_asymm [] (y ∷ ys) p = refl
oid_lt_asymm (x ∷ xs) [] p = cc
oid_lt_asymm (x ∷ xs) (y ∷ ys) p = ground (arith, oid_lt_asymm xs ys)
