-- ===== src/Mib/Controller/BulkWalk.antt =====
-- A walk by GETBULK: the manager asks for a slice behind the last name that it got, until one is empty.
use jt_snmpd.Prelude.{
  ℕ, zero, suc, ◌≤◌, ◌<◌, ◌≡◌, refl, ap, ◌∙◌, sym, true, false, List, [], ◌∷◌, ◌++◌, arith, length,
  length-append,
}
use jt_snmpd.Mib.Oid.{Oid, oid_lt, oid_lt_trans, oid_lt_asymm}
use jt_snmpd.Mib.Value.{Row}
use jt_snmpd.Mib.Controller.{Reader, slice_rows}
use jt_snmpd.Mib.Controller.Sorted.{IsBelow, IsSorted, select, after}
use jt_snmpd.Mib.Controller.Walk.{
  after-after, after-IsSorted, IsBelow-after_self, after_self, length-after-le,
}
use jt_snmpd.Mib.Controller.Slice.{readable, slice-rows-prefix}

abbrev pub last_name : Row → List Row → Oid
last_name r [] = r.0
last_name r (q ∷ qs) = last_name q qs

abbrev pub bulk_step : (Oid → List Row) → List Row → List Row
bulk_step again [] = []
bulk_step again (r ∷ rs) = (r ∷ rs) ++ again (last_name r rs)

-- the rows that a manager collects with so many requests
unfoldable pub bulk_walk : Reader → List Row → ℕ → ℕ → ℕ → Oid → List Row
bulk_walk reader rows max_count max_bytes zero name = []
bulk_walk reader rows max_count max_bytes (suc fuel) name =
    bulk_step (bulk_walk reader rows max_count max_bytes fuel)
      (slice_rows reader rows name max_count max_bytes)

IsBelow-last :
    (a : Oid) (r : Row) (rs rest : List Row)
    → IsBelow a (r ∷ rs ++ rest)
    → oid_lt a (last_name r rs) ≡ true
IsBelow-last a r [] rest b = b.0
IsBelow-last a r (q ∷ qs) rest b = IsBelow-last a q qs rest b.1

after-last :
    (r : Row) (rs rest : List Row)
    → IsSorted (r ∷ rs ++ rest)
    → after (last_name r rs) (r ∷ rs ++ rest) ≡ rest
unfolding select
after-last r [] rest s = after_self r rest s
after-last r (q ∷ qs) rest s =
    let skipped : oid_lt (last_name q qs) r.0 ≡ false =
      oid_lt_asymm r.0 (last_name q qs) (IsBelow-last r.0 q qs rest s.0) in
    rw skipped (after-last q qs rest s.1)

module _ (reader : Reader) where
  readable-after :
      (a : Oid) (rs : List Row) → readable reader (after a rs) ≡ after a (readable reader rs)
  unfolding readable select
  readable-after a [] = refl
  readable-after a (r ∷ rs) = ground (arith, readable-after a rs)

  IsBelow-readable : (a : Oid) (rs : List Row) → IsBelow a rs → IsBelow a (readable reader rs)
  unfolding readable
  IsBelow-readable a [] b = tt
  IsBelow-readable a (r ∷ rs) b = ground (arith, IsBelow-readable a rs)

  readable-IsSorted : (rs : List Row) → IsSorted rs → IsSorted (readable reader rs)
  unfolding readable
  readable-IsSorted [] s = tt
  readable-IsSorted (r ∷ rs) s = ground (arith, readable-IsSorted rs, IsBelow-readable r.0 rs)

  length-readable-le : (rs : List Row) → length (readable reader rs) ≤ length rs
  unfolding readable
  length-readable-le [] = omega arith
  length-readable-le (r ∷ rs) = ground (arith, length-readable-le rs)

  -- behind the last name of a slice stands what the slice left
  readable-resume :
      (rows : List Row) (name : Oid) (r : Row) (rs rest : List Row)
      → IsSorted rows
      → (r ∷ rs) ++ rest ≡ readable reader (after name rows)
      → readable reader (after (last_name r rs) rows) ≡ rest
  readable-resume rows name r rs rest s e =
      let below : IsBelow name (r ∷ rs ++ rest) =
        rw (← e) at (IsBelow-readable name _ (IsBelow-after_self name rows)) in
      let sorted : IsSorted (r ∷ rs ++ rest) =
        rw (← e) at (readable-IsSorted _ (after-IsSorted name rows s)) in
      let above = IsBelow-last name r rs rest below in
      ap (readable reader) (
        sym (
          after-after name (last_name r rs) rows
            (λ o h. oid_lt_trans name (last_name r rs) o above h)))
      ∙ readable-after (last_name r rs) (after name rows)
      ∙ ap (after (last_name r rs)) (sym e)
      ∙ after-last r rs rest sorted

  module _ (rows : List Row) (sorted : IsSorted rows) (max_count max_bytes : ℕ)
      (some_rows : 0 < max_count) where
    -- one request and the rest of the walk
    bulk_step_lem :
        (again : Oid → List Row) (fuel : ℕ) (name : Oid) (l got rest : List Row)
        → ((o : Oid) (m : List Row)
            → readable reader (after o rows) ≡ m
            → length m < fuel
            → again o ≡ m)
        → readable reader (after name rows) ≡ l
        → length l < suc fuel
        → got ++ rest ≡ readable reader (after name rows)
        → (got ≡ [] → readable reader (after name rows) ≡ [])
        → bulk_step again got ≡ l
    bulk_step_lem again fuel name l [] rest ih e h split progress = sym (progress refl) ∙ e
    bulk_step_lem again fuel name l (r ∷ rs) rest ih e h split progress =
        ap (λ t. (r ∷ rs) ++ t)
          (ih (last_name r rs) rest (readable-resume rows name r rs rest sorted split)
            (omega (arith, ap length (split ∙ e), length-append (r ∷ rs) rest)))
        ∙ split
        ∙ e

    bulk_walk-fuel :
        (fuel : ℕ) (name : Oid) (l : List Row)
        → readable reader (after name rows) ≡ l
        → length l < fuel
        → bulk_walk reader rows max_count max_bytes fuel name ≡ l
    unfolding bulk_walk
    bulk_walk-fuel zero name l e h = absurd (omega arith)
    bulk_walk-fuel (suc fuel) name l e h =
        let s = slice-rows-prefix reader rows name max_count max_bytes sorted in
        bulk_step_lem (bulk_walk reader rows max_count max_bytes fuel) fuel name l _ s.0
          (bulk_walk-fuel fuel) e h s.1 (s.4 some_rows)

    -- A walk by GETBULK, from any name and with any budget, returns every row behind that name that may
    -- be read, once and in order, and ends: on a snapshot in strictly ascending order, with a
    -- `max_count` of one or more, one request more than the snapshot has rows is enough.
    pub bulk_walk-readable :
        (fuel : ℕ) (name : Oid)
        → length rows < fuel
        → bulk_walk reader rows max_count max_bytes fuel name ≡ readable reader (after name rows)
    bulk_walk-readable fuel name h =
        bulk_walk-fuel fuel name _ refl
          (omega (arith, length-readable-le (after name rows), length-after-le name rows))
