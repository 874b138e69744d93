-- ===== src/Tables/Rows.antt =====
-- Lists of rows with no name twice, and lists that share no name.
use jt_snmpd.Prelude.{
  ◌+◌, ◌≤◌, ◌≡◌, refl, ap, sym, ◌∙◌, List, [], ◌∷◌, ◌++◌, arith, Bool-cases, inl, inr,
}
use jt_snmpd.Mib.Oid.{Oid, oid_eq, oid_eq→eq}
use jt_snmpd.Mib.Value.{Row}
use jt_snmpd.Mib.Snapshot.{name_count}

-- no row of the one list has the name of a row of the other
abbrev pub AreDisjoint : List Row → List Row → Type 0
AreDisjoint [] ss = Unit
AreDisjoint (r ∷ rs) ss = (name_count r.0 ss ≡ 0) × AreDisjoint rs ss

abbrev pub IsUnique : List Row → Type 0
IsUnique [] = Unit
IsUnique (r ∷ rs) = (name_count r.0 rs ≡ 0) × IsUnique rs

pub name_count-append :
    (o : Oid) (rs ss : List Row) → name_count o (rs ++ ss) ≡ name_count o rs + name_count o ss
unfolding name_count
name_count-append o [] ss = omega arith
name_count-append o (r ∷ rs) ss = omega (arith, name_count-append o rs ss)

pub append-IsUnique :
    (rs ss : List Row) → IsUnique rs → IsUnique ss → AreDisjoint rs ss → IsUnique (rs ++ ss)
append-IsUnique [] ss u v d = v
append-IsUnique (r ∷ rs) ss u v d =
    (omega (arith, name_count-append r.0 rs ss, u.0, d.0), append-IsUnique rs ss u.1 v d.1)

pub AreDisjoint-append_right :
    (rs ss ts : List Row) → AreDisjoint rs ss → AreDisjoint rs ts → AreDisjoint rs (ss ++ ts)
AreDisjoint-append_right [] ss ts d e = tt
AreDisjoint-append_right (r ∷ rs) ss ts d e = (
  omega (arith, name_count-append r.0 ss ts, d.0, e.0),
  AreDisjoint-append_right rs ss ts d.1 e.1,
)

pub AreDisjoint-append_left :
    (rs ss ts : List Row) → AreDisjoint rs ts → AreDisjoint ss ts → AreDisjoint (rs ++ ss) ts
AreDisjoint-append_left [] ss ts d e = e
AreDisjoint-append_left (r ∷ rs) ss ts d e = (d.0, AreDisjoint-append_left rs ss ts d.1 e)

pub AreDisjoint-nil : (rs : List Row) → AreDisjoint rs []
unfolding name_count
AreDisjoint-nil [] = tt
AreDisjoint-nil (r ∷ rs) = (refl, AreDisjoint-nil rs)

-- with no name twice, every name is there at most once
pub name_count-le_one : (o : Oid) (rs : List Row) → IsUnique rs → name_count o rs ≤ 1
unfolding name_count
name_count-le_one o [] u = omega arith
name_count-le_one o (r ∷ rs) u = elim (Bool-cases (oid_eq r.0 o)) [
  | inl same ↦
      let e : name_count o rs ≡ 0 = ap (λ n. name_count n rs) (sym (oid_eq→eq r.0 o same)) ∙ u.0 in
      rw same (omega (arith, e))
  | inr other ↦ rw other (omega (arith, name_count-le_one o rs u.1))
]
