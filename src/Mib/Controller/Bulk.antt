-- ===== src/Mib/Controller/Bulk.antt =====
-- The responses that the responder sends for GETBULK.
use jt_snmpd.Prelude.{
  ℕ, suc, ◌+◌, ◌≤◌, ◌<◌, ◌≡◌, refl, ap, subst, min, List, [], ◌∷◌, map, arith, length, ◌⊎◌,
}
use jt_snmpd.Mib.Oid.{Oid}
use jt_snmpd.Mib.Value.{ℤ, pos_part, Row, VarBind, value, no_such_instance, end_of_mib_view}
use jt_snmpd.Mib.Controller.{
  Reader, row_size, slice_rows, read_next_slice, or_end, bound, sent, handle_bulk, maxrep_cap,
}
use jt_snmpd.Mib.Controller.Sorted.{IsSorted}
use jt_snmpd.Mib.Controller.Slice.{total_size, slice-rows-prefix}

-- the bytes of the varbinds that carry a value
unfoldable pub value_bytes : Reader → List VarBind → ℕ
value_bytes reader [] = 0
value_bytes reader ((o, value v) ∷ bs) = row_size reader (o, v) + value_bytes reader bs
value_bytes reader ((o, no_such_instance) ∷ bs) = value_bytes reader bs
value_bytes reader ((o, end_of_mib_view) ∷ bs) = value_bytes reader bs

value_bytes-bound :
    (reader : Reader) (rs : List Row) → value_bytes reader (map bound rs) ≡ total_size reader rs
unfolding value_bytes total_size
value_bytes-bound reader [] = refl
value_bytes-bound reader (r ∷ rs) = ap (λ n. row_size reader r + n) (value_bytes-bound reader rs)

length-bound : (rs : List Row) → length (map bound rs) ≡ length rs
length-bound [] = refl
length-bound (r ∷ rs) = ap suc (length-bound rs)

-- the shape of a response
abbrev pub Fits : Reader → ℕ → ℕ → List VarBind → Type 0
Fits reader most budget rsp =
    (0 < length rsp) × (length rsp ≤ most) × ((length rsp ≤ 1) ⊎ (value_bytes reader rsp ≤ budget))

or_end-Fits :
    (reader : Reader) (name : Oid) (rs : List Row) (m most budget : ℕ)
    → length rs ≤ m
    → m ≤ most
    → 0 < most
    → (length rs ≤ 1) ⊎ (total_size reader rs ≤ budget)
    → Fits reader most budget (or_end name rs)
or_end-Fits reader name [] m most budget p l q h = omega arith
or_end-Fits reader name (r ∷ rs) m most budget p l q h =
    omega (arith, value_bytes-bound reader (r ∷ rs), length-bound (r ∷ rs), h)

read_next_slice_lem :
    (reader : Reader) (rows : List Row) (name : Oid) (m budget : ℕ)
    → read_next_slice reader rows name m budget ≡ or_end name (slice_rows reader rows name m budget)
unfolding read_next_slice
read_next_slice_lem reader rows name m budget = refl

read_next_slice-Fits :
    (reader : Reader) (rows : List Row) (name : Oid) (m most budget : ℕ)
    → IsSorted rows
    → m ≤ most
    → 0 < most
    → Fits reader most budget (read_next_slice reader rows name m budget)
read_next_slice-Fits reader rows name m most budget s l q =
    let p = slice-rows-prefix reader rows name m budget s in
    rw (read_next_slice_lem reader rows name m budget)
      (or_end-Fits reader name (slice_rows reader rows name m budget) m most budget p.2 l q p.3)

-- Whatever a GETBULK request asks for, a response that the slice path sends has at least one varbind
-- and at most 25, and if it has more than one then their sizes add up to at most 1160 bytes: the 1400
-- that the agent advertises, less the room for the message around them.
pub handle_bulk-Fits :
    (reader : Reader) (rows : List Row) (non_repeaters max_repetitions : ℤ) (req : List Oid)
    (rsp : List VarBind)
    → IsSorted rows
    → handle_bulk reader rows non_repeaters max_repetitions req ≡ sent rsp
    → Fits reader maxrep_cap 1160 rsp
unfolding handle_bulk
handle_bulk-Fits reader rows nr mr [] rsp s e = ground arith
handle_bulk-Fits reader rows nr mr (name ∷ names) rsp s e =
    let m : ℕ = min (pos_part mr) maxrep_cap in
    let p : read_next_slice reader rows name m 1160 ≡ rsp = ground arith in
    subst (Fits reader maxrep_cap 1160) p
      (read_next_slice-Fits reader rows name m maxrep_cap 1160 s (omega arith) (omega arith))
