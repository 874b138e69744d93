-- ===== src/Interfaces/Persist.antt =====
-- The index map across service runs: an interface keeps its ifIndex.
use jt_snmpd.Prelude.{
  true, none, ◌≢◌, ◌⊎◌, ℕ, suc, String, ◌≡◌, refl, ap, sym, subst, get_elem?, zero, ◌↔◌, ◌∙◌, Bool,
  false, some, List, [], ◌∷◌, arith, ltb, Bool-cases, inl, inr,
}
use jt_snmpd.Prelude.Dict.{get}
use jt_snmpd.Storage.{Disk, Write, ends, open_fails, write_fails, replace_fails, usable, try_save}
use jt_snmpd.Storage.Crash.{load-try_save}
use jt_snmpd.Interfaces.{
  or_empty_map, empty_map, save_if, IfRow, Entry, IndexMap, Interface, Parsed, index_map,
  is_index_map, load_index_map, assign, enumerate, insert_interface, sort_interfaces,
  get_interfaces,
}
use jt_snmpd.Interfaces.Assign.{IsValid, Extends, IsRecorded, AllRecorded, enumerate-Enumerated}

assign_unchanged :
    (m : IndexMap) (r : IfRow) (now : String) → (assign m r now).2 ≡ false → (assign m r now).0 ≡ m
unfolding assign
assign_unchanged m r now h = ground arith

enumerate_unchanged :
    (m : IndexMap) (rows : List IfRow) (now : String)
    → (enumerate m rows now).2 ≡ false
    → (enumerate m rows now).0 ≡ m
unfolding enumerate
enumerate_unchanged m [] now h = refl
enumerate_unchanged m (r ∷ rs) now h = ground (
  arith,
  assign_unchanged m r now,
  enumerate_unchanged (assign m r now).0 rs now,
  enumerate_unchanged m rs now,
)

-- the main file is there, and is not one that the loader takes
abbrev pub IsDamaged : Disk Parsed → Type 0
IsDamaged d = (d.main ≢ none) × (usable is_index_map d.main ≡ none)

-- whether a write comes to its end
abbrev pub has_ended : Write → Bool
has_ended (ends bak_fails) = true
has_ended open_fails = false
has_ended write_fails = false
has_ended (replace_fails bak_fails) = false

-- what a run leaves to be loaded of the map m that it made: m, if the write ended or was not needed; and else
-- the old map, or the empty one if the old main file was damaged
abbrev pub IsLeft : Write → Disk Parsed → Disk Parsed → IndexMap → Type 0
IsLeft w d d' m =
    (load_index_map d' ≡ m)
    ⊎ ((has_ended w ≡ false) × (load_index_map d' ≡ load_index_map d))
    ⊎ ((has_ended w ≡ false) × IsDamaged d × (load_index_map d' ≡ empty_map))

has_ended-try_save : (w : Write) (a : Parsed) (d : Disk Parsed) → (try_save w a d).1 ≡ has_ended w
unfolding try_save
has_ended-try_save (ends bak_fails) a d = refl
has_ended-try_save open_fails a d = refl
has_ended-try_save write_fails a d = refl
has_ended-try_save (replace_fails bak_fails) a d = refl

save_if-IsLeft :
    (changed : Bool) (w : Write) (d : Disk Parsed) (m : IndexMap)
    → (changed ≡ false → load_index_map d ≡ m)
    → IsLeft w d (save_if changed w m d) m
unfolding load_index_map
save_if-IsLeft false w d m h = inl (h refl)
save_if-IsLeft true w d m h = elim (load-try_save is_index_map (index_map m) refl w d) [
  | inl (e, q) ↦ inl (ap or_empty_map q)
  | inr (inl (e, q)) ↦ inr (inl (sym (has_ended-try_save w (index_map m) d) ∙ e, ap or_empty_map q))
  | inr (inr (e, p, u, q)) ↦
      inr (inr (sym (has_ended-try_save w (index_map m) d) ∙ e, (p, u), ap or_empty_map q))
]

-- the map on disk after a run
map-get_interfaces :
    (w : Write) (d : Disk Parsed) (rows : List IfRow) (now : String)
    → IsLeft w d (get_interfaces w d (some rows) now).0 (enumerate (load_index_map d) rows now).0
unfolding get_interfaces
map-get_interfaces w d rows now =
    save_if-IsLeft (enumerate (load_index_map d) rows now).2 w d
      (enumerate (load_index_map d) rows now).0
      (λ same. sym (enumerate_unchanged (load_index_map d) rows now same))

AllRecorded-insert :
    (m : IndexMap) (x : Interface) (xs : List Interface)
    → IsRecorded m x
    → AllRecorded m xs
    → AllRecorded m (insert_interface x xs)
unfolding insert_interface
AllRecorded-insert m x [] h a = (h, tt)
AllRecorded-insert m x (y ∷ ys) h a = elim (Bool-cases (ltb y.idx x.idx)) [
  | inl before ↦ rw before (a.0, AllRecorded-insert m x ys h a.1)
  | inr here ↦ rw here (h, a)
]

AllRecorded-sort :
    (m : IndexMap) (xs : List Interface) → AllRecorded m xs → AllRecorded m (sort_interfaces xs)
unfolding sort_interfaces
AllRecorded-sort m [] a = tt
AllRecorded-sort m (x ∷ xs) a =
    AllRecorded-insert m x (sort_interfaces xs) a.0 (AllRecorded-sort m xs a.1)

-- A run on a disk with a valid map makes a valid map with all the entries of the old one, and publishes
-- each interface under the index that this map records for its LUID. The map is what is loaded from the disk
-- that the run leaves, unless the write of it fails: then it is the old map, or the empty one if the main file
-- was damaged before.
pub get_interfaces-recorded :
    (w : Write) (d : Disk Parsed) (rows : List IfRow) (now : String)
    → IsValid (load_index_map d)
    → (m : IndexMap) × Extends (load_index_map d) m
      × IsValid m
      × AllRecorded m (get_interfaces w d (some rows) now).1
      × IsLeft w d (get_interfaces w d (some rows) now).0 m
get_interfaces-recorded w d rows now v =
    let e = enumerate-Enumerated (load_index_map d) rows now v in
    (
      (enumerate (load_index_map d) rows now).0,
      e.0,
      e.1,
      unfold get_interfaces in
          AllRecorded-sort (enumerate (load_index_map d) rows now).0
            (enumerate (load_index_map d) rows now).1 e.2,
      map-get_interfaces w d rows now,
    )

IsLeft-ends :
    (bak_fails : Bool) (d d' : Disk Parsed) (m : IndexMap)
    → IsLeft (ends bak_fails) d d' m
    → load_index_map d' ≡ m
IsLeft-ends bak_fails d d' m (inl e) = e
IsLeft-ends bak_fails d d' m (inr (inl (e, q))) = cc
IsLeft-ends bak_fails d d' m (inr (inr (e, p, q))) = cc

some_inj {ℓ} : {A : Type ℓ} {a b : A} → some a ≡ some b → a ≡ b
some_inj h = cc

AllRecorded-get_elem? :
    (m : IndexMap) (xs : List Interface) (i : ℕ) (x : Interface)
    → AllRecorded m xs
    → get_elem? xs i ≡ some x
    → IsRecorded m x
AllRecorded-get_elem? m [] i x a h = cc
AllRecorded-get_elem? m (y ∷ ys) zero x a h = subst (IsRecorded m) (some_inj h) a.0
AllRecorded-get_elem? m (y ∷ ys) (suc i) x a h = AllRecorded-get_elem? m ys i x a.1 h

IsRecorded-Extends :
    (m m' : IndexMap) (x : Interface) → Extends m m' → IsRecorded m x → IsRecorded m' x
IsRecorded-Extends m m' x up (e, h, i) = (e, up x.row.luid e h, i)

-- under one valid map, the same interface and the same index are the same thing
luid-iff-idx :
    (m : IndexMap) (x y : Interface)
    → IsValid m
    → IsRecorded m x
    → IsRecorded m y
    → (x.row.luid ≡ y.row.luid) ↔ (x.idx ≡ y.idx)
luid-iff-idx m x y v (a, p, i) (b, q, j) = (
  λ same.
      i
      ∙ ap (λ (e : Entry). e.if_index) (some_inj (sym p ∙ ap (λ k. get k m.interfaces) same ∙ q))
      ∙ sym j,
  λ same. v.distinct x.row.luid y.row.luid a b p q (sym i ∙ same ∙ j),
)

-- The ifIndex of an interface persists: take two runs, the second on the disk that the first left, on
-- whatever rows the system reports in each. An interface of the first and one of the second have the same
-- ifIndex if and only if they have the same LUID. The map on the disk at the start is valid, and the first run's
-- write of the map ends, if there is one; the second run's may fail in any way.
pub if_index_persists :
    (bak_fails : Bool) (w : Write) (d : Disk Parsed) (rows rows' : List IfRow) (now now' : String)
    (i j : ℕ) (x y : Interface)
    → IsValid (load_index_map d)
    → get_elem? (get_interfaces (ends bak_fails) d (some rows) now).1 i ≡ some x
    → get_elem?
        (get_interfaces w (get_interfaces (ends bak_fails) d (some rows) now).0 (some rows') now').1
        j
      ≡ some y
    → (x.row.luid ≡ y.row.luid) ↔ (x.idx ≡ y.idx)
if_index_persists bak_fails w d rows rows' now now' i j x y v hx hy =
    let d' : Disk Parsed = (get_interfaces (ends bak_fails) d (some rows) now).0 in
    let (m, up, valid, all, left) = get_interfaces-recorded (ends bak_fails) d rows now v in
    let e = IsLeft-ends bak_fails d d' m left in
    let (m', up', valid', all', _) =
      get_interfaces-recorded w d' rows' now' (subst IsValid (sym e) valid) in
    luid-iff-idx m' x y valid'
      (IsRecorded-Extends m m' x (subst (λ t. Extends t m') e up')
        (AllRecorded-get_elem? m _ i x all hx))
      (AllRecorded-get_elem? m' _ j y all' hy)
