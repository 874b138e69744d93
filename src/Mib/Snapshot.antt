-- ===== src/Mib/Snapshot.antt =====
-- The end of `build_snapshot` of deploy/jt_agent.py: the rows are sorted by name, and two rows of one
-- name are an error. What the collectors add before that is a list of rows here.
pub mod Search
pub mod Guard
use mathlib.Core.List.{Perm}
use mathlib.Core.List.Perm
use jt_snmpd.Prelude.{
  ℕ, ◌+◌, ◌≤◌, ◌≡◌, ◌≢◌, refl, ap, sym, ◌∙◌, true, false, List, [], ◌∷◌, arith, if◌then◌else◌,
  Bool-cases, inl, inr,
}
use jt_snmpd.Mib.Oid.{
  Oid, oid_lt, oid_eq, oid_eq→eq, oid_eq_refl, oid_lt_trans, oid_lt_antisymm, oid_lt_asymm,
}
use jt_snmpd.Mib.Value.{Row}
use jt_snmpd.Mib.Controller.Sorted.{IsBelow, IsSorted}

-- `pairs.sort(key=lambda p: p[0])`: rows of one name stay in the order in which they were added
insert_row : Row → List Row → List Row
insert_row r [] = r ∷ []
insert_row r (x ∷ xs) = if oid_lt x.0 r.0 then x ∷ insert_row r xs else r ∷ x ∷ xs

unfoldable pub sort_rows : List Row → List Row
unfolding insert_row
sort_rows [] = []
sort_rows (r ∷ rs) = insert_row r (sort_rows rs)

-- What `build_snapshot` returns, or the exception that it ends with: the assertion on a duplicate name, or the
-- `ValueError` of a shift by a negative number in `_prefix_mask`, which is raised before the end is reached.
pub data Snapshot : Type 0 where
  built : List Row → Snapshot
  duplicate : Oid → Snapshot
  negative_shift : Snapshot

-- `for a, b in zip(pairs, pairs[1:])`; the sorted rows are returned if the loop ends
unfoldable pub check_rows : List Row → List Row → Snapshot
check_rows all [] = built all
check_rows all (a ∷ []) = built all
check_rows all (a ∷ b ∷ rs) = if oid_eq a.0 b.0 then duplicate a.0 else check_rows all (b ∷ rs)

unfoldable pub finish : List Row → Snapshot
finish pairs = check_rows (sort_rows pairs) (sort_rows pairs)

-- neighbours in order
abbrev IsOrdered : List Row → Type 0
IsOrdered [] = Unit
IsOrdered (a ∷ []) = Unit
IsOrdered (a ∷ b ∷ rs) = (oid_lt b.0 a.0 ≡ false) × IsOrdered (b ∷ rs)

insert_row-IsOrdered : (r : Row) (rs : List Row) → IsOrdered rs → IsOrdered (insert_row r rs)
unfolding insert_row
insert_row-IsOrdered r [] o = tt
insert_row-IsOrdered r (x ∷ []) o = ground (arith, oid_lt_asymm x.0 r.0)
insert_row-IsOrdered r (x ∷ y ∷ rs) o =
    ground (arith, oid_lt_asymm x.0 r.0, oid_lt_asymm y.0 r.0, insert_row-IsOrdered r (y ∷ rs))

insert_row-perm : (r : Row) (rs : List Row) → Perm (insert_row r rs) (r ∷ rs)
unfolding insert_row
insert_row-perm r [] = Perm.refl _
insert_row-perm r (x ∷ xs) = elim (Bool-cases (oid_lt x.0 r.0)) [
  | inl before ↦ rw before (Perm.trans (Perm.cons x (insert_row-perm r xs)) (Perm.swap r x xs))
  | inr here ↦ rw here (Perm.refl _)
]

sort_rows-perm : (rs : List Row) → Perm (sort_rows rs) rs
unfolding sort_rows
sort_rows-perm [] = Perm.refl _
sort_rows-perm (r ∷ rs) =
    Perm.trans (insert_row-perm r (sort_rows rs)) (Perm.cons r (sort_rows-perm rs))

sort_rows-IsOrdered : (rs : List Row) → IsOrdered (sort_rows rs)
unfolding sort_rows
sort_rows-IsOrdered [] = tt
sort_rows-IsOrdered (r ∷ rs) = insert_row-IsOrdered r (sort_rows rs) (sort_rows-IsOrdered rs)

-- neighbours in strict order
abbrev IsStrict : List Row → Type 0
IsStrict [] = Unit
IsStrict (a ∷ []) = Unit
IsStrict (a ∷ b ∷ rs) = (oid_lt a.0 b.0 ≡ true) × IsStrict (b ∷ rs)

oid_lt_of_order : (a b : Oid) → oid_lt b a ≡ false → oid_eq a b ≡ false → oid_lt a b ≡ true
oid_lt_of_order a b h k = elim (Bool-cases (oid_lt a b)) [
  | inl above ↦ above
  | inr not_above ↦ cc (k, ap (oid_eq a) (oid_lt_antisymm a b not_above h), oid_eq_refl a)
]

check_rows-no_shift : (all rs : List Row) → check_rows all rs ≢ negative_shift
unfolding check_rows
check_rows-no_shift all [] e = cc
check_rows-no_shift all (a ∷ []) e = cc
check_rows-no_shift all (a ∷ b ∷ rs) e =
    ground (arith, Bool-cases (oid_eq a.0 b.0), check_rows-no_shift all (b ∷ rs))

-- the end does not raise the other exception
pub finish-no_shift : (pairs : List Row) → finish pairs ≢ negative_shift
unfolding finish
finish-no_shift pairs e = check_rows-no_shift (sort_rows pairs) (sort_rows pairs) e

check_rows-built :
    (all rs rows : List Row)
    → IsOrdered rs
    → check_rows all rs ≡ built rows
    → (all ≡ rows) × IsStrict rs
unfolding check_rows
check_rows-built all [] rows o e = (cc, tt)
check_rows-built all (a ∷ []) rows o e = (cc, tt)
check_rows-built all (a ∷ b ∷ rs) rows o e =
    ground (arith, check_rows-built all (b ∷ rs) rows, oid_lt_of_order a.0 b.0)

IsStrict→IsBelow :
    (a : Oid) (r : Row) (rs : List Row)
    → oid_lt a r.0 ≡ true
    → IsStrict (r ∷ rs)
    → IsBelow a (r ∷ rs)
IsStrict→IsBelow a r [] h s = (h, tt)
IsStrict→IsBelow a r (q ∷ qs) h s = (h, IsStrict→IsBelow a q qs (oid_lt_trans a r.0 q.0 h s.0) s.1)

IsStrict→IsSorted : (rs : List Row) → IsStrict rs → IsSorted rs
IsStrict→IsSorted [] s = tt
IsStrict→IsSorted (r ∷ []) s = (tt, tt)
IsStrict→IsSorted (r ∷ q ∷ qs) s =
    (IsStrict→IsBelow r.0 q qs s.0 s.1, IsStrict→IsSorted (q ∷ qs) s.1)

-- A snapshot that is built is in strictly ascending order, which is what the bisections of the
-- controller rest on, and it has the rows that the collectors added, each as often.
pub finish-built :
    (pairs rows : List Row) → finish pairs ≡ built rows → IsSorted rows × Perm rows pairs
unfolding finish
finish-built pairs rows e =
    let (same, strict) =
      check_rows-built (sort_rows pairs) (sort_rows pairs) rows (sort_rows-IsOrdered pairs) e in
    (rw same at (IsStrict→IsSorted (sort_rows pairs) strict), rw same at (sort_rows-perm pairs))

-- how many rows have a name
unfoldable pub name_count : Oid → List Row → ℕ
name_count o [] = 0
name_count o (r ∷ rs) = (if oid_eq r.0 o then 1 else 0) + name_count o rs

name_count-insert_row :
    (o : Oid) (r : Row) (rs : List Row)
    → name_count o (insert_row r rs) ≡ (if oid_eq r.0 o then 1 else 0) + name_count o rs
unfolding insert_row name_count
name_count-insert_row o r [] = refl
name_count-insert_row o r (x ∷ xs) = ground (arith, name_count-insert_row o r xs)

name_count-sort_rows : (o : Oid) (rs : List Row) → name_count o (sort_rows rs) ≡ name_count o rs
unfolding sort_rows name_count
name_count-sort_rows o [] = refl
name_count-sort_rows o (r ∷ rs) =
    omega (arith, name_count-insert_row o r (sort_rows rs), name_count-sort_rows o rs)

check_rows-duplicate :
    (all rs : List Row) (o : Oid) → check_rows all rs ≡ duplicate o → 2 ≤ name_count o rs
unfolding check_rows name_count
check_rows-duplicate all [] o e = cc
check_rows-duplicate all (a ∷ []) o e = cc
check_rows-duplicate all (a ∷ b ∷ rs) o e = elim (Bool-cases (oid_eq a.0 b.0)) [
  | inl same ↦
      let p : a.0 ≡ o = ground arith in
      let q : b.0 ≡ o = sym (oid_eq→eq a.0 b.0 same) ∙ p in
      rw (ap (λ t. oid_eq t o) p ∙ oid_eq_refl o, ap (λ t. oid_eq t o) q ∙ oid_eq_refl o)
        (omega arith)
  | inr other ↦ omega (arith, check_rows-duplicate all (b ∷ rs) o (ground arith))
]

-- The guard refuses a snapshot only for a name that two or more of the added rows have.
pub finish-duplicate :
    (pairs : List Row) (o : Oid) → finish pairs ≡ duplicate o → 2 ≤ name_count o pairs
unfolding finish
finish-duplicate pairs o e = omega (
  arith,
  check_rows-duplicate (sort_rows pairs) (sort_rows pairs) o e,
  name_count-sort_rows o pairs,
)
