-- ===== src/Mib/Bisect.antt =====
-- `bisect_left` and `bisect_right` of Python's library over a tuple of identifiers.
pub mod Splits
use jt_snmpd.Prelude.{
  ℕ, zero, suc, ◌+◌, ◌/◌, Bool, true, false, not, List, [], ltb, if◌then◌else◌, length, get_or,
}
use jt_snmpd.Mib.Oid.{Oid, oid_lt}

-- Both are `while lo < hi: mid = (lo + hi) // 2`, then `hi = mid` or `lo = mid + 1` by a test on
-- `a[mid]`. The fuel is the length of the tuple: a round takes at least one off `hi - lo`.
unfoldable pub bisect_loop : (ℕ → Bool) → ℕ → ℕ → ℕ → ℕ
bisect_loop goes_left zero lo hi = lo
bisect_loop goes_left (suc fuel) lo hi =
    let mid : ℕ = (lo + hi) / 2 in
    let left = bisect_loop goes_left fuel lo mid in
    let right = bisect_loop goes_left fuel (mid + 1) hi in
    if ltb lo hi then if goes_left mid then left else right else lo

-- x < a[mid]
unfoldable pub bisect_right : List Oid → Oid → ℕ
bisect_right a x = bisect_loop (λ i. oid_lt x (get_or a i [])) (length a) 0 (length a)

-- not (a[mid] < x)
unfoldable pub bisect_left : List Oid → Oid → ℕ
bisect_left a x = bisect_loop (λ i. not (oid_lt (get_or a i []) x)) (length a) 0 (length a)
