-- ===== src/Tables/Network.antt =====
-- `build_snapshot` of deploy/jt_agent.py: interfaces, addresses, neighbours and routes.
-- Addresses are bytes; an IpAddress is the string of its four bytes.
use jt_snmpd.Prelude.{
  ◌||◌, ◌&&◌, true, false, ltb, ℕ, ◌-◌, ◌*◌, ◌/◌, ◌%◌, ◌^◌, Bool, Option, none, some, List, [], ◌∷◌,
  ◌++◌, ltb, ◌==◌, if◌then◌else◌, length,
}
use jt_snmpd.Mib.Oid.{Oid, oid_eq}
use jt_snmpd.Mib.Value.{octets, Row}
use jt_snmpd.Tables.{
  Text, Host, int32, capped_int32, counter32, ticks, counter64, gauge32, capped_gauge32, octet,
  zero_zero, Cells, at, for_each, if_some, when,
}
use jt_snmpd.Tables.Names.{
  interfaces_group, if_table, if_x_table, ip_addr, ip_route, ip_address, ip_net_phys,
}

pub record Nic : Type 0 where
  pub idx : ℕ
  pub win_idx : ℕ
  pub alias : Text
  pub descr : Text
  pub if_type : ℕ
  pub mtu : ℕ
  pub speed : ℕ
  pub mac : List ℕ
  pub oper : ℕ
  pub admin : ℕ
  pub in_octets : ℕ
  pub in_ucast : ℕ
  pub in_nucast : ℕ
  pub in_disc : ℕ
  pub in_err : ℕ
  pub in_unk : ℕ
  pub in_mcast : ℕ
  pub in_bcast : ℕ
  pub out_octets : ℕ
  pub out_ucast : ℕ
  pub out_nucast : ℕ
  pub out_disc : ℕ
  pub out_err : ℕ
  pub out_qlen : ℕ
  pub out_mcast : ℕ
  pub out_bcast : ℕ

abbrev pub if_cells : Host → Nic → Cells
if_cells host nic =
    (1, int32 nic.idx)
    ∷ (2, octet host nic.descr)
    ∷ (3, int32 nic.if_type)
    ∷ (4, capped_int32 nic.mtu)
    ∷ (5, capped_gauge32 nic.speed)
    ∷ (6, octets nic.mac)
    ∷ (7, int32 nic.admin)
    ∷ (8, int32 nic.oper)
    ∷ (9, ticks 0)
    ∷ (10, counter32 nic.in_octets)
    ∷ (11, counter32 nic.in_ucast)
    ∷ (12, counter32 nic.in_nucast)
    ∷ (13, counter32 nic.in_disc)
    ∷ (14, counter32 nic.in_err)
    ∷ (15, counter32 nic.in_unk)
    ∷ (16, counter32 nic.out_octets)
    ∷ (17, counter32 nic.out_ucast)
    ∷ (18, counter32 nic.out_nucast)
    ∷ (19, counter32 nic.out_disc)
    ∷ (20, counter32 nic.out_err)
    ∷ (21, capped_gauge32 nic.out_qlen)
    ∷ (22, zero_zero)
    ∷ []

-- ifHighSpeed, in Mbit/s, is not capped
abbrev pub if_x_cells : Host → Nic → Cells
if_x_cells host nic =
    (1, octet host nic.alias)
    ∷ (2, counter32 nic.in_mcast)
    ∷ (3, counter32 nic.in_bcast)
    ∷ (4, counter32 nic.out_mcast)
    ∷ (5, counter32 nic.out_bcast)
    ∷ (6, counter64 nic.in_octets)
    ∷ (7, counter64 nic.in_ucast)
    ∷ (10, counter64 nic.out_octets)
    ∷ (11, counter64 nic.out_ucast)
    ∷ (15, gauge32 (nic.speed / 1000000))
    ∷ (18, octet host "")
    ∷ (19, ticks 0)
    ∷ []

abbrev pub if_number_cells : List Nic → Cells
if_number_cells nics = (0, int32 (length nics)) ∷ []

unfoldable pub if_number_rows : List Nic → List Row
unfolding at
if_number_rows nics = at interfaces_group (0 ∷ []) (if_number_cells nics)

unfoldable pub interface_rows : Host → List Nic → List Row
unfolding at for_each
interface_rows host nics = for_each nics (λ nic.
    at if_table (nic.idx ∷ []) (if_cells host nic)
    ++ at if_x_table (nic.idx ∷ []) (if_x_cells host nic))

-- `_win2if`: the last interface of an index of Windows wins
unfoldable pub our_if : List Nic → ℕ → Option ℕ
our_if [] win = none
our_if (nic ∷ nics) win =
    let rest = our_if nics win in
    elim rest [ some i ↦ some i | none ↦ if nic.win_idx == win then some nic.idx else none ]

pub record Address : Type 0 where
  pub is_v4 : Bool
  pub raw : List ℕ
  pub prefix_len : ℕ
  pub if_index : ℕ

-- `_prefix_mask`, as the four bytes of the address. A prefix of more than 32 bits makes the number of places of
-- the shift negative: `none` is the `ValueError` of Python.
unfoldable pub prefix_mask : ℕ → Option (List ℕ)
prefix_mask plen =
    let m : ℕ = if plen == 0 then 0 else 0xFFFFFFFF * 2 ^ (32 - plen) % 2 ^ 32 in
    if ltb 32 plen
    then none
    else some ((m / 2 ^ 24 % 256) ∷ (m / 2 ^ 16 % 256) ∷ (m / 2 ^ 8 % 256) ∷ (m % 256) ∷ [])

-- the mask of an address that has one: `build_snapshot` does not come to use the rows of another
abbrev pub mask_bytes : Option (List ℕ) → List ℕ
mask_bytes none = []
mask_bytes (some mask) = mask

abbrev pub is_none : Option (List ℕ) → Bool
is_none none = true
is_none (some mask) = false

-- whether `_prefix_mask` is called for an address, and raises; the interface is the one that it is published on
abbrev pub mask_raises : Option ℕ → Address → Bool
mask_raises none a = false
mask_raises (some i) a = a.is_v4 && is_none (prefix_mask a.prefix_len)

-- whether the loop over the addresses ends with that exception
unfoldable pub masks_raise : List Nic → List Address → Bool
unfolding our_if prefix_mask
masks_raise nics [] = false
masks_raise nics (a ∷ addrs) = mask_raises (our_if nics a.if_index) a || masks_raise nics addrs

abbrev pub addr_type : Bool → ℕ
addr_type is_v4 = if is_v4 then 1 else 2

abbrev pub ip_addr_cells : Address → ℕ → Cells
ip_addr_cells a i =
    (1, octets a.raw)
    ∷ (2, int32 i)
    ∷ (3, octets (mask_bytes (prefix_mask a.prefix_len)))
    ∷ (4, int32 1)
    ∷ (5, int32 65535)
    ∷ []

abbrev pub ip_address_cells : Address → ℕ → Cells
ip_address_cells a i =
    (3, int32 i)
    ∷ (4, int32 1)
    ∷ (5, int32 a.prefix_len)
    ∷ (6, int32 1)
    ∷ (7, int32 1)
    ∷ (10, int32 1)
    ∷ []

-- the index in ipAddressTable: address type, length and bytes
abbrev pub address_index : Address → Oid
address_index a = addr_type a.is_v4 ∷ length a.raw ∷ a.raw

-- an address on no published interface has no rows
unfoldable pub address_rows : List Nic → List Address → List Row
unfolding at for_each our_if prefix_mask
address_rows nics addrs = for_each addrs (λ a. if_some (our_if nics a.if_index) (λ i.
    when a.is_v4 (at ip_addr a.raw (ip_addr_cells a i))
    ++ at ip_address (address_index a) (ip_address_cells a i)))

pub record Neighbor : Type 0 where
  pub is_v4 : Bool
  pub raw : List ℕ
  pub if_index : ℕ
  pub mac : List ℕ
  pub state : ℕ

abbrev pub neighbor_index : Neighbor → ℕ → Oid
neighbor_index nb i = i ∷ addr_type nb.is_v4 ∷ length nb.raw ∷ nb.raw

abbrev pub neighbor_cells : Neighbor → Cells
neighbor_cells nb =
    (2, octets nb.mac) ∷ (3, ticks 0) ∷ (4, int32 3) ∷ (5, int32 nb.state) ∷ (6, int32 1) ∷ []

-- off by default
unfoldable pub neighbor_rows : Bool → List Nic → List Neighbor → List Row
unfolding at for_each our_if
neighbor_rows enabled nics neighbors = when enabled (
    for_each neighbors (λ nb.
      if_some (our_if nics nb.if_index)
        (λ i. at ip_net_phys (neighbor_index nb i) (neighbor_cells nb))))

pub record Route : Type 0 where
  pub dest_raw : List ℕ
  pub mask : List ℕ
  pub next_hop : List ℕ
  pub if_index : ℕ
  pub metric : ℕ
  pub proto : ℕ
  pub kind : ℕ

-- `_seen_routes`: one route, with its interface, for each destination
abbrev pub Seen : Type 0
Seen = List (Oid × (Route × ℕ))

-- the first of a destination goes last; one of a lower metric takes the place of another
unfoldable pub see_route : Route → ℕ → Seen → Seen
see_route rt i [] = (rt.dest_raw, (rt, i)) ∷ []
see_route rt i ((key, (prev, j)) ∷ seen) =
    let rest = see_route rt i seen in
    if oid_eq key rt.dest_raw
    then (if ltb rt.metric prev.metric then (key, (rt, i)) ∷ seen else (key, (prev, j)) ∷ seen)
    else (key, (prev, j)) ∷ rest

unfoldable pub see_routes : List Nic → List Route → Seen → Seen
unfolding see_route our_if
see_routes nics [] seen = seen
see_routes nics (rt ∷ rts) seen =
    see_routes nics rts
      (elim (our_if nics rt.if_index) [ none ↦ seen | some i ↦ see_route rt i seen ])

abbrev pub route_cells : Route × ℕ → Cells
route_cells (rt, i) =
    (1, octets rt.dest_raw)
    ∷ (2, int32 i)
    ∷ (3, capped_int32 rt.metric)
    ∷ (7, octets rt.next_hop)
    ∷ (8, int32 rt.kind)
    ∷ (9, int32 rt.proto)
    ∷ (11, octets rt.mask)
    ∷ []

unfoldable pub route_rows : List Nic → List Route → List Row
unfolding at for_each see_routes
route_rows nics routes =
    for_each (see_routes nics routes []) (λ s. at ip_route s.0 (route_cells s.1))
