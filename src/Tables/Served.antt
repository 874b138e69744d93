-- ===== src/Tables/Served.antt =====
-- What a manager reads from the snapshot: the rows as `build_snapshot` of deploy/jt_agent.py adds them, in
-- the order of the source, are an abstract table of names and values.
use jt_snmpd.Prelude.{
  ℕ, zero, suc, ◌≤◌, ◌≡◌, refl, ap, ap₂, sym, ◌∙◌, none, some, List, [], ◌∷◌, arith, map, get_elem?,
  Bool-cases, inl, inr,
}
use jt_snmpd.Mib.Oid.{Oid, oid_eq, oid_eq→eq, oid_eq_refl}
use jt_snmpd.Mib.Value.{Value, Row, value, no_such_instance}
use jt_snmpd.Mib.Snapshot.{built, finish, finish-built, name_count}
use jt_snmpd.Mib.Snapshot.Search.{finish-search}
use jt_snmpd.Mib.Controller.{read_variables}
use jt_snmpd.Mib.Controller.Lookup.{search_row, answer, read_variables-search}
use jt_snmpd.Tables.{Host, flatten}
use jt_snmpd.Tables.Devices.{DiskInfo}
use jt_snmpd.Tables.Build.{Collected, parts, build_snapshot}
use jt_snmpd.Tables.Masks.{finish_of_built}
use jt_snmpd.Tables.Rows.{IsUnique}
use jt_snmpd.Tables.Unique.{IsWellFormed, parts-IsUnique, build_snapshot-built}

map_answers :
    (pairs rows : List Row)
    → ((o : Oid) → search_row o rows ≡ search_row o pairs)
    → (names : List Oid)
    → map (λ name. answer name (search_row name rows)) names
      ≡ map (λ name. answer name (search_row name pairs)) names
map_answers pairs rows h [] = refl
map_answers pairs rows h (o ∷ names) =
    ap₂ (◌∷◌) (ap (answer o) (h o)) (map_answers pairs rows h names)

search_row-none : (o : Oid) (rs : List Row) → name_count o rs ≡ 0 → search_row o rs ≡ none
unfolding search_row name_count
search_row-none o [] h = refl
search_row-none o (r ∷ rs) h = ground (arith, h, search_row-none o rs)

name_count_of_row :
    (o : Oid) (v : Value) (rs : List Row) (i : ℕ)
    → get_elem? rs i ≡ some (o, v)
    → 1 ≤ name_count o rs
unfolding name_count
name_count_of_row o v [] i m = cc
name_count_of_row o v (r ∷ rs) zero m =
    let e : r ≡ (o, v) = cc in rw (ap (λ t. oid_eq t.0 o) e ∙ oid_eq_refl o) (omega arith)
name_count_of_row o v (r ∷ rs) (suc i) m = omega (arith, name_count_of_row o v rs i m)

search_row-once :
    (o : Oid) (v : Value) (rs : List Row) (i : ℕ)
    → IsUnique rs
    → get_elem? rs i ≡ some (o, v)
    → search_row o rs ≡ some v
unfolding search_row name_count
search_row-once o v [] i u m = cc
search_row-once o v (r ∷ rs) zero u m =
    let e : r ≡ (o, v) = cc in rw (ap (λ t. oid_eq t.0 o) e ∙ oid_eq_refl o) (ap (λ t. some t.1) e)
search_row-once o v (r ∷ rs) (suc i) u m = elim (Bool-cases (oid_eq r.0 o)) [
  | inr other ↦ rw other (search_row-once o v rs i u.1 m)
  | inl same ↦
      let e : name_count o rs ≡ 0 = ap (λ n. name_count n rs) (sym (oid_eq→eq r.0 o same)) ∙ u.0 in
      absurd (omega (arith, e, name_count_of_row o v rs i m))
]

-- A snapshot that is built answers GET from the rows as they were added: a name is answered with the value of
-- the first added row of that name, and with noSuchInstance if no added row has it.
pub read_build_snapshot :
    (host : Host) (encode : List DiskInfo → List ℕ) (c : Collected) (rows : List Row)
    (names : List Oid)
    → build_snapshot host encode c ≡ built rows
    → read_variables rows names
      ≡ map (λ name. answer name (search_row name (flatten (parts host encode c)))) names
read_build_snapshot host encode c rows names built_rows =
    let pairs : List Row = flatten (parts host encode c) in
    let e : finish pairs ≡ built rows = finish_of_built host encode c rows built_rows in
    read_variables-search rows names (finish-built pairs rows e).0
    ∙ map_answers pairs rows (λ o. finish-search o pairs rows e) names

-- From well-formed data the agent serves exactly the rows that the parts add: a snapshot is built, GET of the
-- name of any added row answers the value of that row, and GET of a name that no added row has answers
-- noSuchInstance. The checks of number ranges, which are pyasn1's, are taken to pass.
pub serves_parts :
    (host : Host) (encode : List DiskInfo → List ℕ) (c : Collected)
    → IsWellFormed c
    → (rows : List Row) × (build_snapshot host encode c ≡ built rows)
      × ((i : ℕ) (o : Oid) (v : Value)
          → get_elem? (flatten (parts host encode c)) i ≡ some (o, v)
          → read_variables rows (o ∷ []) ≡ (o, value v) ∷ [])
      × ((o : Oid)
          → name_count o (flatten (parts host encode c)) ≡ 0
          → read_variables rows (o ∷ []) ≡ (o, no_such_instance) ∷ [])
serves_parts host encode c w =
    let pairs : List Row = flatten (parts host encode c) in
    let (rows, e, sorted, perm) = build_snapshot-built host encode c w in
    (
      rows,
      e,
      (λ i o v m.
          read_build_snapshot host encode c rows (o ∷ []) e
          ∙ ap (λ t. answer o t ∷ [])
              (search_row-once o v pairs i (parts-IsUnique host encode c w) m)),
      (λ o h.
          read_build_snapshot host encode c rows (o ∷ []) e
          ∙ ap (λ t. answer o t ∷ []) (search_row-none o pairs h)),
    )
