-- ===== src/Mib/Snapshot/Guard.antt =====
-- The guard of `build_snapshot` of deploy/jt_agent.py against the names that are added.
use jt_snmpd.Prelude.{◌≤◌, ◌≡◌, refl, ap, sym, ◌∙◌, ◌↔◌, List, [], ◌∷◌, arith, Bool-cases, inl, inr}
use jt_snmpd.Mib.Oid.{Oid, oid_lt, oid_eq, oid_eq→eq, oid_lt_irrefl}
use jt_snmpd.Mib.Value.{Row}
use jt_snmpd.Mib.Snapshot.{
  Snapshot, sort_rows, built, duplicate, negative_shift, finish, finish-no_shift, check_rows-built,
  sort_rows-IsOrdered, finish-built, name_count, name_count-sort_rows, finish-duplicate,
}
use jt_snmpd.Mib.Controller.Sorted.{IsBelow, IsSorted}

below_not_counted : (o : Oid) (rs : List Row) → IsBelow o rs → name_count o rs ≡ 0
unfolding name_count
below_not_counted o [] b = refl
below_not_counted o (r ∷ rs) b = elim (Bool-cases (oid_eq r.0 o)) [
  | inl same ↦ cc (b.0, ap (oid_lt o) (oid_eq→eq r.0 o same), oid_lt_irrefl o)
  | inr other ↦ rw other (omega (arith, below_not_counted o rs b.1))
]

sorted_count : (o : Oid) (rs : List Row) → IsSorted rs → name_count o rs ≤ 1
unfolding name_count
sorted_count o [] s = omega arith
sorted_count o (r ∷ rs) s = elim (Bool-cases (oid_eq r.0 o)) [
  | inl same ↦
      let e : name_count o rs ≡ 0 =
        ap (λ t. name_count t rs) (sym (oid_eq→eq r.0 o same)) ∙ below_not_counted r.0 rs s.0 in
      rw same (omega (arith, e))
  | inr other ↦ rw other (omega (arith, sorted_count o rs s.1))
]

built_count : (pairs rows : List Row) (o : Oid) → finish pairs ≡ built rows → name_count o pairs ≤ 1
unfolding finish
built_count pairs rows o e =
    let (same, strict) =
      check_rows-built (sort_rows pairs) (sort_rows pairs) rows (sort_rows-IsOrdered pairs) e in
    omega (
      arith,
      sorted_count o rows (finish-built pairs rows e).0,
      name_count-sort_rows o pairs,
      ap (name_count o) same,
    )

built_if :
    (pairs : List Row) (s : Snapshot)
    → finish pairs ≡ s
    → ((o : Oid) → name_count o pairs ≤ 1)
    → (rows : List Row) × (finish pairs ≡ built rows)
built_if pairs (built rows) e h = (rows, e)
built_if pairs negative_shift e h = absurd (finish-no_shift pairs e)
built_if pairs (duplicate o) e h = absurd (omega (arith, finish-duplicate pairs o e, h o))

-- The guard lets a snapshot through if and only if no name was added twice.
pub finish-built_iff :
    (pairs : List Row)
    → ((rows : List Row) × (finish pairs ≡ built rows)) ↔ ((o : Oid) → name_count o pairs ≤ 1)
finish-built_iff pairs =
    ((λ p o. built_count pairs p.0 o p.1), (λ h. built_if pairs (finish pairs) refl h))

duplicate_if :
    (pairs : List Row) (s : Snapshot) (o : Oid)
    → finish pairs ≡ s
    → 2 ≤ name_count o pairs
    → (p : Oid) × (finish pairs ≡ duplicate p)
duplicate_if pairs (built rows) o e h = absurd (omega (arith, h, built_count pairs rows o e))
duplicate_if pairs negative_shift o e h = absurd (finish-no_shift pairs e)
duplicate_if pairs (duplicate p) o e h = (p, e)

-- a name that was added twice stops the snapshot
pub finish-refused :
    (pairs : List Row) (o : Oid) → 2 ≤ name_count o pairs → (p : Oid) × (finish pairs ≡ duplicate p)
finish-refused pairs o h = duplicate_if pairs (finish pairs) o refl h
