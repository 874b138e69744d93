-- ===== src/Mib/Controller/Lookup.antt =====
-- GET and GETNEXT against a linear search of the snapshot.
use jt_snmpd.Prelude.{
  ◌≡◌, refl, ap, ap₂, sym, ◌∙◌, true, false, Option, none, some, List, [], ◌∷◌, map, if◌then◌else◌,
  Bool-cases, inl, inr,
}
use jt_snmpd.Mib.Oid.{
  Oid, oid_lt, oid_eq, oid_eq→eq, oid_eq_refl, oid_lt_irrefl, oid_lt_trans, oid_lt_antisymm,
}
use jt_snmpd.Mib.Value.{Value, Row, VarBind, value, no_such_instance}
use jt_snmpd.Mib.Controller.{found, following, read_variable, read_variables, read_next_variable}
use jt_snmpd.Mib.Controller.Sorted.{
  IsBelow, IsSorted, select, after, from, head?, drop-bisect_left, drop-bisect_right,
  get_elem?-drop,
}

-- the first row of that name
unfoldable pub search_row : Oid → List Row → Option Value
search_row name [] = none
search_row name (r ∷ rs) = if oid_eq r.0 name then some r.1 else search_row name rs

abbrev pub answer : Oid → Option Value → VarBind
answer name none = (name, no_such_instance)
answer name (some v) = (name, value v)

-- a name below all rows is not among them
search_row_below : (a : Oid) (rs : List Row) → IsBelow a rs → search_row a rs ≡ none
unfolding search_row
search_row_below a [] b = refl
search_row_below a (r ∷ rs) b = elim (Bool-cases (oid_eq r.0 a)) [
  | inl same ↦ let e : r.0 ≡ a = oid_eq→eq r.0 a same in cc (b.0, ap (oid_lt a) e, oid_lt_irrefl a)
  | inr other ↦ rw other (search_row_below a rs b.1)
]

pub IsBelow-trans : (a b : Oid) (rs : List Row) → oid_lt a b ≡ true → IsBelow b rs → IsBelow a rs
IsBelow-trans a b [] h k = tt
IsBelow-trans a b (r ∷ rs) h k = (oid_lt_trans a b r.0 h k.0, IsBelow-trans a b rs h k.1)

oid_eq_of_lt : (a b : Oid) → oid_lt a b ≡ true → oid_eq a b ≡ false
oid_eq_of_lt a b h = elim (Bool-cases (oid_eq a b)) [
  | inr other ↦ other
  | inl same ↦ cc (h, ap (oid_lt a) (oid_eq→eq a b same), oid_lt_irrefl a)
]

oid_lt_of_ne : (a b : Oid) → oid_lt a b ≡ false → oid_eq a b ≡ false → oid_lt b a ≡ true
oid_lt_of_ne a b h k = elim (Bool-cases (oid_lt b a)) [
  | inl above ↦ above
  | inr not_above ↦ cc (k, ap (oid_eq a) (oid_lt_antisymm a b h not_above), oid_eq_refl a)
]

found-from :
    (name : Oid) (rows : List Row)
    → IsSorted rows
    → found name (head? (from name rows)) ≡ answer name (search_row name rows)
unfolding select search_row
found-from name [] s = refl
found-from name (r ∷ rs) s = elim (Bool-cases (oid_lt r.0 name)) [
  | inl before ↦
      let differs : oid_eq r.0 name ≡ false = oid_eq_of_lt r.0 name before in
      rw (before, differs) (found-from name rs s.1)
  | inr reached ↦ rw reached (elim (Bool-cases (oid_eq r.0 name)) [
    | inl same ↦ rw same
    | inr other ↦ rw other (
        ap (answer name) (
          sym (
            search_row_below name rs
              (IsBelow-trans name r.0 rs (oid_lt_of_ne r.0 name reached other) s.0))))
  ])
]

-- GET finds exactly what a search of all rows finds: on a snapshot in strictly ascending order, each
-- name that is asked for is answered with the value of the row of that name, or with noSuchInstance if
-- no row has it.
pub read_variables-search :
    (rows : List Row) (names : List Oid)
    → IsSorted rows
    → read_variables rows names ≡ map (λ name. answer name (search_row name rows)) names
unfolding read_variables read_variable
read_variables-search rows [] s = refl
read_variables-search rows (name ∷ names) s =
    ap₂ (◌∷◌)
      (ap (found name) (get_elem?-drop _ rows ∙ ap head? (drop-bisect_left rows name s))
        ∙ found-from name rows s)
      (read_variables-search rows names s)

-- GETNEXT answers with the first row behind the name.
pub read_next_variable-after :
    (rows : List Row) (name : Oid)
    → IsSorted rows
    → read_next_variable rows name ≡ following name (head? (after name rows))
unfolding read_next_variable
read_next_variable-after rows name s =
    ap (following name) (get_elem?-drop _ rows ∙ ap head? (drop-bisect_right rows name s))
