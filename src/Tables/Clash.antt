-- ===== src/Tables/Clash.antt =====
-- What an address on two published interfaces does to the snapshot of deploy/jt_agent.py.
use jt_snmpd.Prelude.{
  ◌⊎◌, inl, inr, false, Bool-cases, ℕ, zero, suc, ◌+◌, ◌≤◌, ◌≡◌, refl, ap, sym, ◌∙◌, true, Option,
  none, some, List, [], ◌∷◌, ◌++◌, arith, get_elem?,
}
use jt_snmpd.Mib.Oid.{Oid, oid_eq, oid_eq_refl}
use jt_snmpd.Mib.Value.{Row}
use jt_snmpd.Mib.Snapshot.{duplicate, negative_shift, finish, name_count}
use jt_snmpd.Mib.Snapshot.Guard.{finish-refused}
use jt_snmpd.Tables.{Host, at, for_each, flatten, when, if_some}
use jt_snmpd.Tables.Names.{ip_addr, ip_address}
use jt_snmpd.Tables.Network.{
  our_if, Address, ip_addr_cells, ip_address_cells, address_index, address_rows, masks_raise,
}
use jt_snmpd.Tables.Devices.{DiskInfo}
use jt_snmpd.Tables.Build.{Collected, parts, build_snapshot}
use jt_snmpd.Tables.Masks.{finish_of_masks}
use jt_snmpd.Tables.Rows.{name_count-append}

part_count :
    (o : Oid) (rss : List (List Row)) (i : ℕ) (rs : List Row)
    → get_elem? rss i ≡ some rs
    → name_count o rs ≤ name_count o (flatten rss)
unfolding flatten
part_count o [] i rs m = cc
part_count o (qs ∷ rss) zero rs m =
    let e : qs ≡ rs = cc in omega (arith, name_count-append o qs (flatten rss), ap (name_count o) e)
part_count o (qs ∷ rss) (suc i) rs m =
    omega (arith, name_count-append o qs (flatten rss), part_count o rss i rs m)

module _ {A : Type 0} (f : A → List Row) (o : Oid) where
  item_count :
      (xs : List A) (i : ℕ) (x : A)
      → get_elem? xs i ≡ some x
      → name_count o (f x) ≤ name_count o (for_each xs f)
  unfolding for_each
  item_count [] i x m = cc
  item_count (y ∷ ys) zero x m =
      let e : y ≡ x = cc in
      omega (arith, name_count-append o (f y) (for_each ys f), ap (λ t. name_count o (f t)) e)
  item_count (y ∷ ys) (suc i) x m =
      omega (arith, name_count-append o (f y) (for_each ys f), item_count ys i x m)

  pair_count :
      (xs : List A) (i j : ℕ) (x y : A)
      → i + 1 ≤ j
      → get_elem? xs i ≡ some x
      → get_elem? xs j ≡ some y
      → name_count o (f x) + name_count o (f y) ≤ name_count o (for_each xs f)
  unfolding for_each
  pair_count [] i j x y h m n = cc
  pair_count (z ∷ zs) i zero x y h m n = absurd (omega (arith, h))
  pair_count (z ∷ zs) zero (suc j) x y h m n =
      let e : z ≡ x = cc in
      omega (
        arith,
        name_count-append o (f z) (for_each zs f),
        ap (λ t. name_count o (f t)) e,
        item_count zs j y n,
      )
  pair_count (z ∷ zs) (suc i) (suc j) x y h m n = omega (
    arith,
    name_count-append o (f z) (for_each zs f),
    pair_count zs i j x y (omega (arith, h)) m n,
  )

head_count :
    (o : Oid) (rows : List Row) (r : Row) (rest : List Row)
    → r.0 ≡ o
    → 1 ≤ name_count o (rows ++ (r ∷ rest))
unfolding name_count
head_count o rows r rest e =
    let h : oid_eq r.0 o ≡ true = ap (λ t. oid_eq t o) e ∙ oid_eq_refl o in
    rw (name_count-append o rows (r ∷ rest), h) (omega arith)

-- the name of ipAddressIfIndex of an address
abbrev pub if_index_name : Address → Oid
if_index_name a = ip_address ++ (3 ∷ address_index a)

own_count :
    (q : Option ℕ) (k : ℕ) (a : Address) (o : Oid)
    → q ≡ some k
    → if_index_name a ≡ o
    → 1
      ≤ name_count o (
          if_some q (λ i.
            when a.is_v4 (at ip_addr a.raw (ip_addr_cells a i))
            ++ at ip_address (address_index a) (ip_address_cells a i)))
unfolding at
own_count none k a o h e = cc
own_count (some i) k a o h e =
    head_count o (when a.is_v4 (at ip_addr a.raw (ip_addr_cells a i))) _ _ e

clash_refused :
    (host : Host) (encode : List DiskInfo → List ℕ) (c : Collected) (i j : ℕ) (a b : Address)
    (m n : ℕ)
    → i + 1 ≤ j
    → get_elem? c.addresses i ≡ some a
    → get_elem? c.addresses j ≡ some b
    → our_if c.nics a.if_index ≡ some m
    → our_if c.nics b.if_index ≡ some n
    → address_index a ≡ address_index b
    → (o : Oid) × (finish (flatten (parts host encode c)) ≡ duplicate o)
unfolding parts address_rows
clash_refused host encode c i j a b m n h p q r s e =
    let o : Oid = if_index_name a in
    let f : Address → List Row = λ x. if_some (our_if c.nics x.if_index) (λ k.
      when x.is_v4 (at ip_addr x.raw (ip_addr_cells x k))
      ++ at ip_address (address_index x) (ip_address_cells x k)) in
    finish-refused (flatten (parts host encode c)) o (
      omega (
        arith,
        own_count (our_if c.nics a.if_index) m a o r refl,
        own_count (our_if c.nics b.if_index) n b o s (ap (λ t. ip_address ++ (3 ∷ t)) (sym e)),
        pair_count f o c.addresses i j a b h p q,
        part_count o (parts host encode c) 21 (address_rows c.nics c.addresses) refl,
      ))

-- The same address, of one version, on two published interfaces makes `build_snapshot` fail on a duplicate
-- name, unless the `ValueError` of a netmask comes before it: there is no new snapshot either way.
pub build_snapshot-clash :
    (host : Host) (encode : List DiskInfo → List ℕ) (c : Collected) (i j : ℕ) (a b : Address)
    (m n : ℕ)
    → i + 1 ≤ j
    → get_elem? c.addresses i ≡ some a
    → get_elem? c.addresses j ≡ some b
    → our_if c.nics a.if_index ≡ some m
    → our_if c.nics b.if_index ≡ some n
    → address_index a ≡ address_index b
    → ((masks_raise c.nics c.addresses ≡ false)
        × ((o : Oid) × (build_snapshot host encode c ≡ duplicate o)))
      ⊎ ((masks_raise c.nics c.addresses ≡ true) × (build_snapshot host encode c ≡ negative_shift))
unfolding build_snapshot
build_snapshot-clash host encode c i j a b m n h p q r s e =
    elim (Bool-cases (masks_raise c.nics c.addresses)) [
      | inl raises ↦ inr (raises, rw raises refl)
      | inr fine ↦
          let (o, refused) = clash_refused host encode c i j a b m n h p q r s e in
          inl (fine, (o, finish_of_masks host encode c fine ∙ refused))
    ]
