-- ===== src/Mib/Snapshot/Search.antt =====
-- The sort keeps what a search for a name finds.
use jt_snmpd.Prelude.{
  ◌≡◌, refl, ap, sym, ◌∙◌, some, List, [], ◌∷◌, if◌then◌else◌, Bool-cases, inl, inr,
}
use jt_snmpd.Mib.Oid.{Oid, oid_lt, oid_eq, oid_eq→eq, oid_lt_irrefl}
use jt_snmpd.Mib.Value.{Row}
use jt_snmpd.Mib.Snapshot.{
  insert_row, sort_rows, built, finish, check_rows-built, sort_rows-IsOrdered,
}
use jt_snmpd.Mib.Controller.Lookup.{search_row}

-- a row is passed only by rows of other names
search_row-insert_row :
    (o : Oid) (r : Row) (rs : List Row)
    → search_row o (insert_row r rs) ≡ (if oid_eq r.0 o then some r.1 else search_row o rs)
unfolding insert_row search_row
search_row-insert_row o r [] = refl
search_row-insert_row o r (x ∷ xs) = elim (Bool-cases (oid_lt x.0 r.0)) [
  | inr here ↦ rw here refl
  | inl passed ↦ rw passed (elim (Bool-cases (oid_eq x.0 o)) [
    | inr other ↦ rw other (search_row-insert_row o r xs)
    | inl same ↦ elim (Bool-cases (oid_eq r.0 o)) [
      | inr differs ↦ rw (same, differs) refl
      | inl equal ↦
          let e : x.0 ≡ r.0 = oid_eq→eq x.0 o same ∙ sym (oid_eq→eq r.0 o equal) in
          cc (passed, ap (λ t. oid_lt t r.0) e, oid_lt_irrefl r.0)
    ]
  ])
]

search_row-sort_rows : (o : Oid) (rs : List Row) → search_row o (sort_rows rs) ≡ search_row o rs
unfolding sort_rows search_row
search_row-sort_rows o [] = refl
search_row-sort_rows o (r ∷ rs) =
    search_row-insert_row o r (sort_rows rs)
    ∙ ap (λ t. if oid_eq r.0 o then some r.1 else t) (search_row-sort_rows o rs)

pub finish-search :
    (o : Oid) (pairs rows : List Row)
    → finish pairs ≡ built rows
    → search_row o rows ≡ search_row o pairs
unfolding finish
finish-search o pairs rows e =
    let (same, strict) =
      check_rows-built (sort_rows pairs) (sort_rows pairs) rows (sort_rows-IsOrdered pairs) e in
    ap (search_row o) (sym same) ∙ search_row-sort_rows o pairs
