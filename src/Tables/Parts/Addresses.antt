-- ===== src/Tables/Parts/Addresses.antt =====
-- Addresses, neighbours and routes: tables indexed by addresses.
use jt_snmpd.Prelude.{
  ℕ, ◌≡◌, refl, Bool, true, false, Option, none, some, List, [], ◌∷◌, ◌++◌, arith,
}
use jt_snmpd.Mib.Oid.{Oid, oid_eq}
use jt_snmpd.Mib.Value.{Row}
use jt_snmpd.Tables.{Cells, at, for_each, when, if_some}
use jt_snmpd.Tables.Names.{ip_addr, ip_address}
use jt_snmpd.Tables.Network.{
  Nic, our_if, Address, ip_addr_cells, ip_address_cells, address_index, address_rows,
}
use jt_snmpd.Tables.Rows.{IsUnique}
use jt_snmpd.Tables.Keys.{
  Key, apart, keys_apart, apart_from, all_apart, AreKeyed, at-AreKeyed, append-AreKeyed, AreApart,
  AreApartFrom, for_each-IsUnique, at-IsUnique,
}
use jt_snmpd.Tables.Regions.{Region, AreCovered, IsPart}
use jt_snmpd.Tables.Covers.{
  at-AreCovered, append-AreCovered, weaken_right, All-any, for_each-AreCovered,
}
use jt_snmpd.Tables.Parts.{pair-AreKeyed, pair-IsUnique}

module _ {A : Type 0} where
  -- no two items clash
  abbrev pub NoClashWith : (A → A → Bool) → A → List A → Type 0
  NoClashWith clash x [] = Unit
  NoClashWith clash x (y ∷ ys) = (clash x y ≡ false) × NoClashWith clash x ys

  abbrev pub NoClash : (A → A → Bool) → List A → Type 0
  NoClash clash [] = Unit
  NoClash clash (x ∷ xs) = NoClashWith clash x xs × NoClash clash xs

  module _ (keys : A → List Key) (f : A → List Row) (clash : A → A → Bool)
      (keyed : (x : A) → AreKeyed (keys x) (f x))
      (sep : (x y : A) → clash x y ≡ false → all_apart (keys x) (keys y) ≡ true) where
    apart_from_others :
        (x : A) (ys : List A) → NoClashWith clash x ys → AreApartFrom keys f keyed x ys
    apart_from_others x [] d = tt
    apart_from_others x (y ∷ ys) d = (sep x y d.0, apart_from_others x ys d.1)

    all-AreApart : (xs : List A) → NoClash clash xs → AreApart keys f keyed xs
    all-AreApart [] d = tt
    all-AreApart (x ∷ xs) d = (apart_from_others x xs d.0, all-AreApart xs d.1)

    pub NoClash-IsUnique :
        ((x : A) → IsUnique (f x)) → (xs : List A) → NoClash clash xs → IsUnique (for_each xs f)
    NoClash-IsUnique u xs d = for_each-IsUnique keys f keyed u xs (all-AreApart xs d)

-- addresses on published interfaces with the same bytes
abbrev pub same_address : Option ℕ → Option ℕ → Address → Address → Bool
same_address none o b c = false
same_address (some i) none b c = false
same_address (some i) (some j) b c = oid_eq b.raw c.raw

address_keys : Option ℕ → Address → List Key
address_keys none a = []
address_keys (some i) a = (ip_addr, a.raw) ∷ (ip_address, address_index a) ∷ []

abbrev address_at : Option ℕ → Address → List Row
address_at o a = if_some o (λ i.
    when a.is_v4 (at ip_addr a.raw (ip_addr_cells a i))
    ++ at ip_address (address_index a) (ip_address_cells a i))

address_sep :
    (o p : Option ℕ) (a b : Address)
    → same_address o p a b ≡ false
    → all_apart (address_keys o a) (address_keys p b) ≡ true
unfolding address_keys all_apart apart_from keys_apart oid_eq apart
address_sep none p a b h = refl
address_sep (some i) none a b h = refl
address_sep (some i) (some j) a b h = ground (arith, h)

v4_keyed :
    (v4 : Bool) (a : Oid) (i j : Oid) (b : Oid) (cs ds : Cells)
    → AreKeyed ((a, i) ∷ (b, j) ∷ []) (when v4 (at a i cs) ++ at b j ds)
v4_keyed true a i j b cs ds = pair-AreKeyed a i b j cs ds
v4_keyed false a i j b cs ds =
    append-AreKeyed ((a, i) ∷ []) ((b, j) ∷ []) [] (at b j ds) tt (at-AreKeyed b j ds)

address_keyed : (o : Option ℕ) (a : Address) → AreKeyed (address_keys o a) (address_at o a)
unfolding address_keys
address_keyed none a = tt
address_keyed (some i) a =
    v4_keyed a.is_v4 ip_addr a.raw (address_index a) ip_address (ip_addr_cells a i)
      (ip_address_cells a i)

v4-IsUnique :
    (v4 : Bool) (raw index : Oid) (a : Address) (i : ℕ)
    → IsUnique
        (when v4 (at ip_addr raw (ip_addr_cells a i)) ++ at ip_address index (ip_address_cells a i))
unfolding keys_apart apart
v4-IsUnique true raw index a i =
    pair-IsUnique ip_addr raw ip_address index (ip_addr_cells a i) (ip_address_cells a i) refl refl
      refl
v4-IsUnique false raw index a i = at-IsUnique ip_address index (ip_address_cells a i) refl

address-IsUnique : (o : Option ℕ) (a : Address) → IsUnique (address_at o a)
address-IsUnique none a = tt
address-IsUnique (some i) a = v4-IsUnique a.is_v4 a.raw (address_index a) a i

abbrev pub address_regions : List Region
address_regions = (ip_addr, 1, 6) ∷ (ip_address, 3, 11) ∷ []

v4_covered :
    (v4 : Bool) (raw index : Oid) (a : Address) (i : ℕ)
    → AreCovered address_regions
        (when v4 (at ip_addr raw (ip_addr_cells a i)) ++ at ip_address index (ip_address_cells a i))
v4_covered true raw index a i =
    append-AreCovered ((ip_addr, 1, 6) ∷ []) ((ip_address, 3, 11) ∷ [])
      (at ip_addr raw (ip_addr_cells a i)) (at ip_address index (ip_address_cells a i))
      (at-AreCovered ip_addr raw 1 6 (ip_addr_cells a i) refl)
      (at-AreCovered ip_address index 3 11 (ip_address_cells a i) refl)
v4_covered false raw index a i =
    weaken_right ((ip_addr, 1, 6) ∷ []) ((ip_address, 3, 11) ∷ [])
      (at ip_address index (ip_address_cells a i))
      (at-AreCovered ip_address index 3 11 (ip_address_cells a i) refl)

address_covered : (o : Option ℕ) (a : Address) → AreCovered address_regions (address_at o a)
address_covered none a = tt
address_covered (some i) a = v4_covered a.is_v4 a.raw (address_index a) a i

pub address_rows-IsPart :
    (nics : List Nic) (addrs : List Address)
    → NoClash (λ a b. same_address (our_if nics a.if_index) (our_if nics b.if_index) a b) addrs
    → IsPart address_regions (address_rows nics addrs)
unfolding address_rows
address_rows-IsPart nics addrs d =
    let f : Address → List Row = λ a. address_at (our_if nics a.if_index) a in
    (
      NoClash-IsUnique (λ a. address_keys (our_if nics a.if_index) a) f
          (λ a b. same_address (our_if nics a.if_index) (our_if nics b.if_index) a b)
          (λ a. address_keyed (our_if nics a.if_index) a)
          (λ a b e. address_sep (our_if nics a.if_index) (our_if nics b.if_index) a b e)
          (λ a. address-IsUnique (our_if nics a.if_index) a) addrs d,
      for_each-AreCovered address_regions (λ a. Unit) f
          (λ a _. address_covered (our_if nics a.if_index) a) addrs (All-any addrs),
    )
