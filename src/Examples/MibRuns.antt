-- ===== src/Examples/MibRuns.antt =====
-- The controller on a snapshot of four rows.
use jt_snmpd.Prelude.{◌≤◌, ◌<◌, ◌≡◌, refl, true, none, List, [], ◌∷◌, ◌++◌, arith, length, ◌⊎◌}
use jt_snmpd.Mib.Oid.{Oid, oid_lt, oid_eq}
use jt_snmpd.Mib.Bisect.{bisect_right, bisect_loop}
use jt_snmpd.Mib.Value.{ℤ, octets, unsigned, integer, Row, value, no_such_instance}
use jt_snmpd.Mib.Size.{varbind_size, bit_length, tlv_len, oid_content_len, subs_len}
use jt_snmpd.Mib.Size.Encoding.{octets_as, varbind_bytes, varbind_size-length}
use jt_snmpd.Mib.Controller.{
  Reader, read_variables, read_next_variable, read_next_slice, slice_rows, slice_loop, handle_bulk,
  sent,
}
use jt_snmpd.Mib.Controller.Sorted.{IsSorted, select, after}
use jt_snmpd.Mib.Controller.Lookup.{search_row, read_variables-search}
use jt_snmpd.Mib.Controller.Walk.{walk, walk-after}
use jt_snmpd.Mib.Controller.Slice.{readable, total_size, slice-rows-prefix}
use jt_snmpd.Mib.Controller.BulkWalk.{bulk_walk, bulk_walk-readable}
use jt_snmpd.Mib.Controller.Bulk.{Fits, handle_bulk-Fits}
use jt_snmpd.Mib.Snapshot.{built, duplicate, finish, sort_rows, check_rows}

-- sysDescr, sysUpTime, ifNumber and a private row
abbrev descr : Row
descr = (1 ∷ 3 ∷ 6 ∷ 1 ∷ 2 ∷ 1 ∷ 1 ∷ 1 ∷ 0 ∷ [], octets (72 ∷ 105 ∷ []))

abbrev uptime : Row
uptime = (1 ∷ 3 ∷ 6 ∷ 1 ∷ 2 ∷ 1 ∷ 1 ∷ 3 ∷ 0 ∷ [], unsigned 123456)

abbrev if_number : Row
if_number = (1 ∷ 3 ∷ 6 ∷ 1 ∷ 2 ∷ 1 ∷ 2 ∷ 1 ∷ 0 ∷ [], integer (ℤ.pos 2))

abbrev private_row : Row
private_row = (1 ∷ 3 ∷ 6 ∷ 1 ∷ 4 ∷ 1 ∷ 99999 ∷ 1 ∷ [], octets [])

abbrev rows : List Row
rows = descr ∷ uptime ∷ if_number ∷ private_row ∷ []

abbrev root : Oid
root = 1 ∷ 3 ∷ []

abbrev reader : Reader
reader = record { encoded = λ o n. none; is_allowed = λ o v. true }

rows-IsSorted : IsSorted rows
unfolding oid_lt
rows-IsSorted = ((refl, (refl, (refl, tt))), ((refl, (refl, tt)), ((refl, tt), (tt, tt))))

next_of_descr : read_next_variable rows descr.0 ≡ (uptime.0, value uptime.1)
unfolding read_next_variable bisect_right bisect_loop oid_lt
next_of_descr = refl

private_size : varbind_size (λ o n. none) private_row.0 private_row.1 ≡ 15
unfolding varbind_size tlv_len oid_content_len subs_len bit_length
private_size = refl

varbind_size-length_example :
    varbind_size (λ o n. none) descr.0 descr.1
    ≡ length (varbind_bytes 1 3 (6 ∷ 1 ∷ 2 ∷ 1 ∷ 1 ∷ 1 ∷ 0 ∷ []) 4 (72 ∷ 105 ∷ []))
varbind_size-length_example =
    varbind_size-length (λ o n. none) 1 3 (6 ∷ 1 ∷ 2 ∷ 1 ∷ 1 ∷ 1 ∷ 0 ∷ []) 4
      (octets_as (72 ∷ 105 ∷ []))

read_variables-search_example :
    read_variables rows (uptime.0 ∷ root ∷ [])
    ≡ (uptime.0, value (unsigned 123456)) ∷ (root, no_such_instance) ∷ []
unfolding search_row oid_eq
read_variables-search_example = read_variables-search rows (uptime.0 ∷ root ∷ []) rows-IsSorted

walk-after_example : walk 9 rows root ≡ rows
unfolding select oid_lt
walk-after_example = walk-after rows root 9 rows-IsSorted (omega arith)

slice-rows-prefix_example :
    (rest : List Row) × (slice_rows reader rows root 2 1160 ++ rest
      ≡ readable reader (after root rows))
    × (length (slice_rows reader rows root 2 1160) ≤ 2)
    × ((length (slice_rows reader rows root 2 1160) ≤ 1)
        ⊎ (total_size reader (slice_rows reader rows root 2 1160) ≤ 1160))
    × (0 < 2 → slice_rows reader rows root 2 1160 ≡ [] → readable reader (after root rows) ≡ [])
slice-rows-prefix_example = slice-rows-prefix reader rows root 2 1160 rows-IsSorted

bulk_walk-readable_example : bulk_walk reader rows 2 1160 9 root ≡ rows
unfolding readable select oid_lt
bulk_walk-readable_example =
    bulk_walk-readable reader rows rows-IsSorted 2 1160 (omega arith) 9 root (omega arith)

bulk_of_one :
    handle_bulk reader rows (ℤ.pos 0) (ℤ.pos 1) (root ∷ []) ≡ sent ((descr.0, value descr.1) ∷ [])
unfolding handle_bulk read_next_slice slice_loop bisect_right bisect_loop oid_lt varbind_size
    tlv_len oid_content_len subs_len
bulk_of_one = refl

handle_bulk-Fits_example : Fits reader 25 1160 ((descr.0, value descr.1) ∷ [])
handle_bulk-Fits_example =
    handle_bulk-Fits reader rows (ℤ.pos 0) (ℤ.pos 1) (root ∷ []) ((descr.0, value descr.1) ∷ [])
      rows-IsSorted bulk_of_one

sorts : finish (private_row ∷ if_number ∷ descr ∷ uptime ∷ []) ≡ built rows
unfolding finish sort_rows check_rows oid_lt oid_eq
sorts = refl

twice : finish (uptime ∷ descr ∷ uptime ∷ []) ≡ duplicate uptime.0
unfolding finish sort_rows check_rows oid_lt oid_eq
twice = refl
