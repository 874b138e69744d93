-- ===== src/Mib/Controller.antt =====
-- `SnapshotController` and `CappedBulkResponder` of deploy/jt_agent.py: GET, GETNEXT and GETBULK over
-- a snapshot. A row is one index of the two tuples `oids` and `vals`.
pub mod Sorted
pub mod Lookup
pub mod Walk
pub mod Slice
pub mod BulkWalk
pub mod Bulk
use jt_snmpd.Prelude.{
  ℕ, zero, suc, ◌+◌, ◌-◌, ◌≤◌, min, Bool, true, false, not, ◌&&◌, ◌||◌, Option, none, some, List,
  [], ◌∷◌, map, ltb, leb, ◌==◌, if◌then◌else◌, length, get_elem?, drop,
}
use jt_snmpd.Mib.Oid.{Oid, oid_eq}
use jt_snmpd.Mib.Bisect.{bisect_left, bisect_right}
use jt_snmpd.Mib.Value.{
  ℤ, pos_part, Value, Row, Binding, VarBind, value, no_such_instance, end_of_mib_view,
}
use jt_snmpd.Mib.Size.{varbind_size}

abbrev pub max_response_bytes : ℕ
max_response_bytes = 1400

abbrev pub message_overhead_reserve : ℕ
message_overhead_reserve = 240

abbrev pub maxrep_cap : ℕ
maxrep_cap = 25

abbrev pub oids : List Row → List Oid
oids = map (λ r. r.0)

abbrev pub found : Oid → Option Row → VarBind
found name none = (name, no_such_instance)
found name (some r) = if oid_eq r.0 name then (name, value r.1) else (name, no_such_instance)

-- one round of `read_variables`
unfoldable pub read_variable : List Row → Oid → VarBind
read_variable rows name = found name (get_elem? rows (bisect_left (oids rows) name))

unfoldable pub read_variables : List Row → List Oid → List VarBind
read_variables rows names = map (read_variable rows) names

abbrev pub following : Oid → Option Row → VarBind
following name none = (name, end_of_mib_view)
following name (some r) = (r.0, value r.1)

-- one round of `read_next_variables`
unfoldable pub read_next_variable : List Row → Oid → VarBind
read_next_variable rows name = following name (get_elem? rows (bisect_right (oids rows) name))

unfoldable pub read_next_variables : List Row → List Oid → List VarBind
read_next_variables rows names = map (read_next_variable rows) names

abbrev pub bound : Row → VarBind
bound r = (r.0, value r.1)

-- one endOfMibView when nothing is left
abbrev pub or_end : Oid → List Row → List VarBind
or_end name [] = (name, end_of_mib_view) ∷ []
or_end name (r ∷ rs) = map bound (r ∷ rs)

-- The size of a row, and whether the access check lets it be read; `is False` is the only denial.
pub record Reader : Type 0 where
  pub encoded : Oid → ℕ → Option ℕ
  pub is_allowed : Oid → Value → Bool

module _ (reader : Reader) where
  open reader use {encoded, is_allowed}

  abbrev pub row_size : Row → ℕ
  row_size r = varbind_size encoded r.0 r.1

  -- The `while` loop of `read_next_slice` over the rows from `i` on, with `len(out)` and `used`.
  unfoldable pub slice_loop : ℕ → ℕ → ℕ → ℕ → List Row → List Row
  slice_loop max_count max_bytes taken used [] = []
  slice_loop max_count max_bytes taken used (r ∷ rest) =
      let skipped = slice_loop max_count max_bytes taken used rest in
      let more = slice_loop max_count max_bytes (taken + 1) (used + row_size r) rest in
      if ltb taken max_count
      then if not (is_allowed r.0 r.1)
        then skipped
        else if ltb 0 taken && ltb max_bytes (used + row_size r)
        then []
        else r ∷ more
      else []

  unfoldable pub slice_rows : List Row → Oid → ℕ → ℕ → List Row
  slice_rows rows name max_count max_bytes =
      slice_loop max_count max_bytes 0 0 (drop (bisect_right (oids rows) name) rows)

  unfoldable pub read_next_slice : List Row → Oid → ℕ → ℕ → List VarBind
  unfolding slice_rows
  read_next_slice rows name max_count max_bytes =
      or_end name (slice_rows rows name max_count max_bytes)

-- What the responder does with a GETBULK request: it answers by a slice, or hands the request on to
-- pysnmp's implementation with these repetitions.
pub data BulkAnswer : Type 0 where
  sent : List VarBind → BulkAnswer
  delegated : ℤ → BulkAnswer

abbrev pub capped : ℤ → ℤ
capped (ℤ.pos n) = if ltb maxrep_cap n then ℤ.pos maxrep_cap else ℤ.pos n
capped (ℤ.negsuc n) = ℤ.negsuc n

module _ (reader : Reader) (rows : List Row) where
  -- `req[0][0]` and the slice that it starts
  abbrev pub bulk_slice : ℕ → ℤ → List Oid → BulkAnswer
  bulk_slice m max_repetitions [] = delegated (capped max_repetitions)
  bulk_slice m max_repetitions (name ∷ names) =
      sent (read_next_slice reader rows name m (max_response_bytes - message_overhead_reserve))

  -- `handle_management_operation` for a snapshot controller, where no call of pysnmp raises
  unfoldable pub handle_bulk : ℤ → ℤ → List Oid → BulkAnswer
  handle_bulk non_repeaters max_repetitions req =
      let n : ℕ = min (pos_part non_repeaters) (length req) in
      let r : ℕ = length req - n in
      let m : ℕ = min (pos_part max_repetitions) maxrep_cap in
      if n == 0 && r == 1
      then bulk_slice m max_repetitions req
      else delegated (capped max_repetitions)
