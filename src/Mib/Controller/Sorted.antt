-- ===== src/Mib/Controller/Sorted.antt =====
-- Snapshots in strictly ascending order, and what a bisection of one leaves.
use jt_snmpd.Prelude.{
  ℕ, zero, suc, ◌≤◌, ◌<◌, ◌≡◌, refl, ap, Bool, true, not, Option, none, some, List, [], ◌∷◌, arith,
  ◌==◌, if◌then◌else◌, length, get_elem?, get_or, drop, Bool-cases, inl, inr,
}
use jt_snmpd.Mib.Oid.{Oid, oid_lt, oid_lt_trans}
use jt_snmpd.Mib.Bisect.{bisect_left, bisect_right}
use jt_snmpd.Mib.Bisect.Splits.{Splits, bisect_loop-Splits}
use jt_snmpd.Mib.Value.{Row}
use jt_snmpd.Mib.Controller.{oids}

abbrev pub IsBelow : Oid → List Row → Type 0
IsBelow a [] = Unit
IsBelow a (r ∷ rs) = (oid_lt a r.0 ≡ true) × IsBelow a rs

abbrev pub IsSorted : List Row → Type 0
IsSorted [] = Unit
IsSorted (r ∷ rs) = IsBelow r.0 rs × IsSorted rs

-- the rows that pass a test on their names
unfoldable pub select : (Oid → Bool) → List Row → List Row
select p [] = []
select p (r ∷ rs) = let rest = select p rs in if p r.0 then r ∷ rest else rest

-- the rows behind a name, and those from it on
abbrev pub after : Oid → List Row → List Row
after name = select (oid_lt name)

abbrev pub from : Oid → List Row → List Row
from name = select (λ o. not (oid_lt o name))

abbrev key : List Row → ℕ → Oid
key rows i = get_or (oids rows) i []

IsBelow-key :
    (a : Oid) (rs : List Row) (i : ℕ) → IsBelow a rs → i < length rs → oid_lt a (key rs i) ≡ true
IsBelow-key a [] i b h = absurd (omega arith)
IsBelow-key a (r ∷ rs) zero b h = b.0
IsBelow-key a (r ∷ rs) (suc i) b h = IsBelow-key a rs i b.1 (omega arith)

key_mono :
    (rows : List Row) (i j : ℕ)
    → IsSorted rows
    → i < j
    → j < length rows
    → oid_lt (key rows i) (key rows j) ≡ true
key_mono [] i j s p q = absurd (omega arith)
key_mono (r ∷ rs) i zero s p q = absurd (omega arith)
key_mono (r ∷ rs) zero (suc j) s p q = IsBelow-key r.0 rs j s.0 (omega arith)
key_mono (r ∷ rs) (suc i) (suc j) s p q = key_mono rs i j s.1 (omega arith) (omega arith)

-- a test that stays true up the order
abbrev IsUpward : (Oid → Bool) → Type 0
IsUpward p = (a b : Oid) → oid_lt a b ≡ true → p a ≡ true → p b ≡ true

IsUpward-after : (name : Oid) → IsUpward (oid_lt name)
IsUpward-after name a b h k = oid_lt_trans name a b k h

IsUpward-from : (name : Oid) → IsUpward (λ o. not (oid_lt o name))
IsUpward-from name a b h k = ground (arith, oid_lt_trans a b name h)

module _ (p : Oid → Bool) (up : IsUpward p) (rows : List Row) (sorted : IsSorted rows) where
  key_up : (i j : ℕ) → i ≤ j → j < length rows → p (key rows i) ≡ true → p (key rows j) ≡ true
  key_up i j a b h = elim (Bool-cases (i == j)) [
    | inl same ↦ (let e : i ≡ j = ground arith in rw e at h)
    | inr other ↦ up _ _ (key_mono rows i j sorted (ground arith) b) h
  ]

drop-Splits :
    (p : Oid → Bool) (rows : List Row) (k : ℕ)
    → Splits (λ i. p (key rows i)) 0 (length rows) k
    → drop k rows ≡ select p rows
unfolding select
drop-Splits p [] zero s = refl
drop-Splits p [] (suc k) s = absurd (omega (arith, s.1))
drop-Splits p (r ∷ rs) zero s = rw (s.3 0 (omega arith) (omega arith)) (
    ap (◌∷◌ r) (
      drop-Splits p rs zero (
        omega arith,
        omega arith,
        λ i a b. absurd (omega arith),
        λ i a b. s.3 (suc i) (omega arith) (omega arith),
      )))
drop-Splits p (r ∷ rs) (suc k) s = rw (s.2 0 (omega arith) (omega arith)) (
    drop-Splits p rs k (
      omega arith,
      omega (arith, s.1),
      λ i a b. s.2 (suc i) (omega arith) (omega arith),
      λ i a b. s.3 (suc i) (omega arith) (omega arith),
    ))

length-oids : (rows : List Row) → length (oids rows) ≡ length rows
length-oids [] = refl
length-oids (r ∷ rs) = ap suc (length-oids rs)

-- On a sorted snapshot `bisect_right` finds the first row behind the name.
pub drop-bisect_right :
    (rows : List Row) (name : Oid)
    → IsSorted rows
    → drop (bisect_right (oids rows) name) rows ≡ after name rows
unfolding bisect_right
drop-bisect_right rows name s = rw length-oids (
    drop-Splits (oid_lt name) rows _ (
      bisect_loop-Splits _ (length rows) (key_up (oid_lt name) (IsUpward-after name) rows s)
        (length rows) 0 (length rows) (omega arith) (omega arith) (omega arith)))

-- `bisect_left` finds the first row that is not before the name.
pub drop-bisect_left :
    (rows : List Row) (name : Oid)
    → IsSorted rows
    → drop (bisect_left (oids rows) name) rows ≡ from name rows
unfolding bisect_left
drop-bisect_left rows name s = rw length-oids (
    drop-Splits (λ o. not (oid_lt o name)) rows _
      (bisect_loop-Splits _ (length rows)
        (key_up (λ o. not (oid_lt o name)) (IsUpward-from name) rows s) (length rows) 0
        (length rows) (omega arith) (omega arith) (omega arith)))

abbrev pub head? : List Row → Option Row
head? [] = none
head? (r ∷ rs) = some r

pub get_elem?-drop : (i : ℕ) (rows : List Row) → get_elem? rows i ≡ head? (drop i rows)
get_elem?-drop zero [] = refl
get_elem?-drop zero (r ∷ rs) = refl
get_elem?-drop (suc i) [] = refl
get_elem?-drop (suc i) (r ∷ rs) = get_elem?-drop i rs
