-- ===== src/Mib/Controller/Slice.antt =====
-- The GETBULK slice: what it returns, and how large it gets.
use jt_snmpd.Prelude.{
  ℕ, ◌+◌, ◌≤◌, ◌<◌, ◌≡◌, refl, not, List, [], ◌∷◌, ◌++◌, arith, ltb, ◌&&◌, if◌then◌else◌, length,
  Bool-cases, inl, inr, ◌⊎◌,
}
use jt_snmpd.Mib.Oid.{Oid}
use jt_snmpd.Mib.Value.{Row}
use jt_snmpd.Mib.Controller.{Reader, row_size, slice_loop, slice_rows}
use jt_snmpd.Mib.Controller.Sorted.{IsSorted, after, drop-bisect_right}

-- the rows that the access check lets through
unfoldable pub readable : Reader → List Row → List Row
readable reader [] = []
readable reader (r ∷ rs) =
    let rest = readable reader rs in if reader.is_allowed r.0 r.1 then r ∷ rest else rest

unfoldable pub total_size : Reader → List Row → ℕ
total_size reader [] = 0
total_size reader (r ∷ rs) = row_size reader r + total_size reader rs

module _ (reader : Reader) (max_count max_bytes : ℕ) where
  abbrev loop : ℕ → ℕ → List Row → List Row
  loop = slice_loop reader max_count max_bytes

  -- what is left behind a slice
  pub rest_of : ℕ → ℕ → List Row → List Row
  unfolding readable
  rest_of taken used [] = []
  rest_of taken used (r ∷ rs) =
      let skipped = rest_of taken used rs in
      let more = rest_of (taken + 1) (used + row_size reader r) rs in
      if ltb taken max_count
      then if not (reader.is_allowed r.0 r.1)
        then skipped
        else if ltb 0 taken && ltb max_bytes (used + row_size reader r)
        then readable reader (r ∷ rs)
        else more
      else readable reader (r ∷ rs)

  loop-append-rest :
      (taken used : ℕ) (rs : List Row)
      → loop taken used rs ++ rest_of taken used rs ≡ readable reader rs
  unfolding slice_loop rest_of
  loop-append-rest taken used [] = refl
  loop-append-rest taken used (r ∷ rs) = ground (
    arith,
    loop-append-rest taken used rs,
    loop-append-rest (taken + 1) (used + row_size reader r) rs,
  )

  length-loop-le :
      (taken used : ℕ) (rs : List Row)
      → taken ≤ max_count
      → taken + length (loop taken used rs) ≤ max_count
  unfolding slice_loop
  length-loop-le taken used [] h = omega arith
  length-loop-le taken used (r ∷ rs) h = ground (
    arith,
    length-loop-le taken used rs,
    length-loop-le (taken + 1) (used + row_size reader r) rs,
  )

  -- with a row in hand the budget holds for all that follow
  size-loop-le :
      (taken used : ℕ) (rs : List Row)
      → 0 < taken
      → used ≤ max_bytes
      → used + total_size reader (loop taken used rs) ≤ max_bytes
  unfolding slice_loop total_size
  size-loop-le taken used [] p h = omega arith
  size-loop-le taken used (r ∷ rs) p h =
      ground
        (arith, size-loop-le taken used rs, size-loop-le (taken + 1) (used + row_size reader r) rs)

  -- once the budget is spent nothing follows
  loop_over :
      (taken used : ℕ) (rs : List Row) → 0 < taken → max_bytes < used → loop taken used rs ≡ []
  unfolding slice_loop
  loop_over taken used [] p h = refl
  loop_over taken used (r ∷ rs) p h = ground (arith, loop_over taken used rs)

  -- the first row is taken whatever its size
  size-loop_first :
      (rs : List Row) → (length (loop 0 0 rs) ≤ 1) ⊎ (total_size reader (loop 0 0 rs) ≤ max_bytes)
  unfolding slice_loop total_size
  size-loop_first [] = inl (omega arith)
  size-loop_first (r ∷ rs) = elim (Bool-cases (ltb max_bytes (row_size reader r))) [
    | inl over ↦ ground (arith, size-loop_first rs, loop_over 1 (row_size reader r) rs)
    | inr fits ↦ ground (arith, size-loop_first rs, size-loop-le 1 (row_size reader r) rs)
  ]

  loop_progress : (rs : List Row) → 0 < max_count → loop 0 0 rs ≡ [] → readable reader rs ≡ []
  unfolding slice_loop readable
  loop_progress [] h e = refl
  loop_progress (r ∷ rs) h e = ground (arith, loop_progress rs)

module _ (reader : Reader) (rows : List Row) (name : Oid) (max_count max_bytes : ℕ) where
  abbrev slice : List Row
  slice = slice_rows reader rows name max_count max_bytes

  -- A slice is what it should be: on a snapshot in strictly ascending order it is the start of the list
  -- of rows behind the name that may be read, no row skipped and none out of order; it has at most
  -- `max_count` rows; more than one row only if all of them fit into `max_bytes`; and with a
  -- `max_count` of one or more it is empty only if nothing behind the name may be read.
  pub slice-rows-prefix :
      IsSorted rows
      → (rest : List Row) × (slice ++ rest ≡ readable reader (after name rows))
        × (length slice ≤ max_count)
        × ((length slice ≤ 1) ⊎ (total_size reader slice ≤ max_bytes))
        × (0 < max_count → slice ≡ [] → readable reader (after name rows) ≡ [])
  unfolding slice_rows
  slice-rows-prefix s = rw (drop-bisect_right rows name s) (
    rest_of reader max_count max_bytes 0 0 (after name rows),
    loop-append-rest reader max_count max_bytes 0 0 (after name rows),
    omega (arith, length-loop-le reader max_count max_bytes 0 0 (after name rows)),
    size-loop_first reader max_count max_bytes (after name rows),
    loop_progress reader max_count max_bytes (after name rows),
  )
