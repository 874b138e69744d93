-- ===== src/Interfaces/Assign.antt =====
-- Handing out indices: an index is never changed, and never given to two interfaces.
use jt_snmpd.Prelude.{
  ◌<◌, String, ◌≡◌, refl, Bool, none, some, List, [], ◌∷◌, arith, eq_iff, Bool-cases, Option-cases,
  inl, inr,
}
use jt_snmpd.Prelude.Dict.{get, get-put}
use jt_snmpd.Interfaces.{
  IfRow, Entry, IndexMap, Interface, is_published, new_entry, add_entry, assign, enumerate,
}

-- every index is below the next one, and no two interfaces share one
pub record IsValid (m : IndexMap) : Type 0 where
  pub below : (k : String) (e : Entry) → get k m.interfaces ≡ some e → e.if_index < m.next_if_index
  pub distinct :
      (j k : String) (a b : Entry)
      → get j m.interfaces ≡ some a
      → get k m.interfaces ≡ some b
      → a.if_index ≡ b.if_index
      → j ≡ k

-- what a map has, a later one has too
abbrev pub Extends : IndexMap → IndexMap → Type 0
Extends m m' = (k : String) (e : Entry) → get k m.interfaces ≡ some e → get k m'.interfaces ≡ some e

add_entry-Extends :
    (m : IndexMap) (luid : String) (e : Entry)
    → get luid m.interfaces ≡ none
    → Extends m (add_entry m luid e)
add_entry-Extends m luid e h k f g = ground (arith, eq_iff luid k, get-put luid k e m.interfaces)

add_entry-IsValid :
    (m : IndexMap) (luid : String) (e : Entry)
    → get luid m.interfaces ≡ none
    → e.if_index ≡ m.next_if_index
    → IsValid m
    → IsValid (add_entry m luid e)
add_entry-IsValid m luid e h i v = record {
  below = λ k f g. ground (arith, get-put luid k e m.interfaces, v.below k f);
  distinct = λ j k a b p q s. ground (
    arith,
    get-put luid j e m.interfaces,
    get-put luid k e m.interfaces,
    eq_iff luid j,
    eq_iff luid k,
    v.below j a,
    v.below k b,
    v.distinct j k a b,
  );
}

-- one row: nothing is lost, the map stays valid, and the row's interface has the entry that is returned
abbrev Assigned : IndexMap → String → IndexMap × Entry × Bool → Type 0
Assigned m luid a = Extends m a.0 × IsValid a.0 × (get luid a.0.interfaces ≡ some a.1)

assign-Assigned :
    (m : IndexMap) (r : IfRow) (now : String) → IsValid m → Assigned m r.luid (assign m r now)
assign-Assigned m r now v = elim (Option-cases (get r.luid m.interfaces)) [
  | inr (e, h) ↦ unfold assign in rw (h, assign) (λ k f g. g, v, h)
  | inl h ↦
      unfold assign in
      rw (h, assign)
        (
          add_entry-Extends m r.luid (new_entry m r now) h,
          add_entry-IsValid m r.luid (new_entry m r now) h refl v,
          ground
              (arith, eq_iff r.luid r.luid, get-put r.luid r.luid (new_entry m r now) m.interfaces),
        )
]

-- the interface's index is the one that the map has for it
abbrev pub IsRecorded : IndexMap → Interface → Type 0
IsRecorded m x = (e : Entry) × (get x.row.luid m.interfaces ≡ some e) × (x.idx ≡ e.if_index)

abbrev pub AllRecorded : IndexMap → List Interface → Type 0
AllRecorded m [] = Unit
AllRecorded m (x ∷ xs) = IsRecorded m x × AllRecorded m xs

abbrev Enumerated : IndexMap → IndexMap × List Interface × Bool → Type 0
Enumerated m r = Extends m r.0 × IsValid r.0 × AllRecorded r.0 r.1

-- Enumerating the interfaces keeps the map valid and every index that was handed out before, and each
-- published interface has the index that the map records for its LUID: on a valid map, the indices stay
-- below the next one and no two LUIDs share one.
pub enumerate-Enumerated :
    (m : IndexMap) (rows : List IfRow) (now : String)
    → IsValid m
    → Extends m (enumerate m rows now).0
      × IsValid (enumerate m rows now).0
      × AllRecorded (enumerate m rows now).0 (enumerate m rows now).1
unfolding enumerate
enumerate-Enumerated m [] now v = (λ k e h. h, v, tt)
enumerate-Enumerated m (r ∷ rs) now v = elim (Bool-cases (is_published r)) [
  | inr skip ↦ rw skip (enumerate-Enumerated m rs now v)
  | inl keep ↦
      let a = assign-Assigned m r now v in
      let ih = enumerate-Enumerated (assign m r now).0 rs now a.1 in
      rw keep (
        λ k e h. ih.0 k e (a.0 k e h),
        ih.1,
        (((assign m r now).1, ih.0 r.luid (assign m r now).1 a.2, refl), ih.2),
      )
]
