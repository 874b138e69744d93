-- ===== src/Tables/Parts/Routes.antt =====
-- Neighbours and routes.
use jt_snmpd.Prelude.{
  ℕ, ◌≡◌, refl, Bool, true, false, ◌&&◌, Option, none, some, List, [], ◌∷◌, arith, ltb, ◌==◌,
  Bool-cases, inl, inr,
}
use jt_snmpd.Mib.Oid.{Oid, oid_eq, oid_eq_refl}
use jt_snmpd.Mib.Value.{Row}
use jt_snmpd.Tables.{at, if_some}
use jt_snmpd.Tables.Names.{ip_route, ip_net_phys}
use jt_snmpd.Tables.Network.{
  Nic, our_if, Neighbor, neighbor_index, neighbor_cells, neighbor_rows, Route, Seen, see_route,
  see_routes, route_cells, route_rows,
}
use jt_snmpd.Tables.Rows.{IsUnique}
use jt_snmpd.Tables.Keys.{
  Key, apart, keys_apart, apart_from, all_apart, AreKeyed, at-AreKeyed, at-IsUnique,
}
use jt_snmpd.Tables.Regions.{Region, AreCovered, IsPart}
use jt_snmpd.Tables.Covers.{at-AreCovered, All-any, for_each-AreCovered}
use jt_snmpd.Tables.Parts.Addresses.{NoClash, NoClashWith, NoClash-IsUnique}

-- neighbours of one published interface with the same bytes
abbrev pub same_neighbor : Option ℕ → Option ℕ → Neighbor → Neighbor → Bool
same_neighbor none o b c = false
same_neighbor (some i) none b c = false
same_neighbor (some i) (some j) b c = i == j && oid_eq b.raw c.raw

neighbor_keys : Option ℕ → Neighbor → List Key
neighbor_keys none nb = []
neighbor_keys (some i) nb = (ip_net_phys, neighbor_index nb i) ∷ []

abbrev neighbor_at : Option ℕ → Neighbor → List Row
neighbor_at o nb = if_some o (λ i. at ip_net_phys (neighbor_index nb i) (neighbor_cells nb))

neighbor_sep :
    (o p : Option ℕ) (a b : Neighbor)
    → same_neighbor o p a b ≡ false
    → all_apart (neighbor_keys o a) (neighbor_keys p b) ≡ true
unfolding neighbor_keys all_apart apart_from keys_apart oid_eq apart
neighbor_sep none p a b h = refl
neighbor_sep (some i) none a b h = refl
neighbor_sep (some i) (some j) a b h = ground (arith, h)

neighbor_keyed : (o : Option ℕ) (nb : Neighbor) → AreKeyed (neighbor_keys o nb) (neighbor_at o nb)
unfolding neighbor_keys
neighbor_keyed none nb = tt
neighbor_keyed (some i) nb = at-AreKeyed ip_net_phys (neighbor_index nb i) (neighbor_cells nb)

neighbor-IsUnique : (o : Option ℕ) (nb : Neighbor) → IsUnique (neighbor_at o nb)
neighbor-IsUnique none nb = tt
neighbor-IsUnique (some i) nb =
    at-IsUnique ip_net_phys (neighbor_index nb i) (neighbor_cells nb) refl

abbrev pub neighbor_regions : List Region
neighbor_regions = (ip_net_phys, 2, 7) ∷ []

neighbor_covered : (o : Option ℕ) (nb : Neighbor) → AreCovered neighbor_regions (neighbor_at o nb)
neighbor_covered none nb = tt
neighbor_covered (some i) nb =
    at-AreCovered ip_net_phys (neighbor_index nb i) 2 7 (neighbor_cells nb) refl

pub neighbor_rows-IsPart :
    (enabled : Bool) (nics : List Nic) (nbs : List Neighbor)
    → NoClash (λ a b. same_neighbor (our_if nics a.if_index) (our_if nics b.if_index) a b) nbs
    → IsPart neighbor_regions (neighbor_rows enabled nics nbs)
unfolding neighbor_rows
neighbor_rows-IsPart false nics nbs d = (tt, tt)
neighbor_rows-IsPart true nics nbs d =
    let f : Neighbor → List Row = λ a. neighbor_at (our_if nics a.if_index) a in
    (
      NoClash-IsUnique (λ a. neighbor_keys (our_if nics a.if_index) a) f
          (λ a b. same_neighbor (our_if nics a.if_index) (our_if nics b.if_index) a b)
          (λ a. neighbor_keyed (our_if nics a.if_index) a)
          (λ a b e. neighbor_sep (our_if nics a.if_index) (our_if nics b.if_index) a b e)
          (λ a. neighbor-IsUnique (our_if nics a.if_index) a) nbs d,
      for_each-AreCovered neighbor_regions (λ a. Unit) f
          (λ a _. neighbor_covered (our_if nics a.if_index) a) nbs (All-any nbs),
    )

-- two entries of one destination
abbrev pub same_route : Oid × (Route × ℕ) → Oid × (Route × ℕ) → Bool
same_route s t = oid_eq s.0 t.0

NoClashWith-key :
    (key : Oid) (v w : Route × ℕ) (seen : Seen)
    → NoClashWith same_route (key, v) seen
    → NoClashWith same_route (key, w) seen
NoClashWith-key key v w [] d = tt
NoClashWith-key key v w (s ∷ seen) d = (d.0, NoClashWith-key key v w seen d.1)

see_route-NoClashWith :
    (s : Oid × (Route × ℕ)) (rt : Route) (i : ℕ) (seen : Seen)
    → oid_eq s.0 rt.dest_raw ≡ false
    → NoClashWith same_route s seen
    → NoClashWith same_route s (see_route rt i seen)
unfolding see_route
see_route-NoClashWith s rt i [] h d = (h, tt)
see_route-NoClashWith s rt i ((key, (prev, j)) ∷ seen) h d =
    elim (Bool-cases (oid_eq key rt.dest_raw)) [
      | inl same ↦ elim (Bool-cases (ltb rt.metric prev.metric)) [
        | inl less ↦ rw (same, less) d
        | inr more ↦ rw (same, more) d
      ]
      | inr other ↦ rw other (d.0, see_route-NoClashWith s rt i seen h d.1)
    ]

see_route-NoClash :
    (rt : Route) (i : ℕ) (seen : Seen)
    → NoClash same_route seen
    → NoClash same_route (see_route rt i seen)
unfolding see_route
see_route-NoClash rt i [] d = (tt, tt)
see_route-NoClash rt i ((key, (prev, j)) ∷ seen) d = elim (Bool-cases (oid_eq key rt.dest_raw)) [
  | inl same ↦ elim (Bool-cases (ltb rt.metric prev.metric)) [
    | inl less ↦ rw (same, less) (NoClashWith-key key (prev, j) (rt, i) seen d.0, d.1)
    | inr more ↦ rw (same, more) d
  ]
  | inr other ↦
      rw other (
        see_route-NoClashWith (key, (prev, j)) rt i seen other d.0,
        see_route-NoClash rt i seen d.1,
      )
]

see_if-NoClash :
    (o : Option ℕ) (rt : Route) (seen : Seen)
    → NoClash same_route seen
    → NoClash same_route (elim o [ none ↦ seen | some i ↦ see_route rt i seen ])
see_if-NoClash none rt seen d = d
see_if-NoClash (some i) rt seen d = see_route-NoClash rt i seen d

see_routes-NoClash :
    (nics : List Nic) (rts : List Route) (seen : Seen)
    → NoClash same_route seen
    → NoClash same_route (see_routes nics rts seen)
unfolding see_routes
see_routes-NoClash nics [] seen d = d
see_routes-NoClash nics (rt ∷ rts) seen d =
    see_routes-NoClash nics rts
      (elim (our_if nics rt.if_index) [ none ↦ seen | some i ↦ see_route rt i seen ])
      (see_if-NoClash (our_if nics rt.if_index) rt seen d)

route_sep :
    (m n : Oid) → oid_eq m n ≡ false → all_apart ((ip_route, m) ∷ []) ((ip_route, n) ∷ []) ≡ true
unfolding all_apart apart_from keys_apart apart
route_sep m n h = ground (arith, h, oid_eq_refl ip_route)

pub route_rows-IsPart :
    (nics : List Nic) (routes : List Route)
    → IsPart ((ip_route, 1, 12) ∷ []) (route_rows nics routes)
unfolding route_rows
route_rows-IsPart nics routes =
    let seen : Seen = see_routes nics routes [] in
    let f : Oid × (Route × ℕ) → List Row = λ s. at ip_route s.0 (route_cells s.1) in
    (
      NoClash-IsUnique (λ s. (ip_route, s.0) ∷ []) f same_route
          (λ s. at-AreKeyed ip_route s.0 (route_cells s.1)) (λ s t e. route_sep s.0 t.0 e)
          (λ s. at-IsUnique ip_route s.0 (route_cells s.1) refl) seen
          (see_routes-NoClash nics routes [] tt),
      for_each-AreCovered ((ip_route, 1, 12) ∷ []) (λ s. Unit) f
          (λ s _. at-AreCovered ip_route s.0 1 12 (route_cells s.1) refl) seen (All-any seen),
    )
