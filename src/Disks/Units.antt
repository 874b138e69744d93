-- ===== src/Disks/Units.antt =====
-- The allocation unit that is published for a volume.
use native.Mathlib.Nat.{div-eq_of_lt, pow-suc}
use jt_snmpd.Prelude.{
  ℕ, zero, suc, ◌+◌, ◌*◌, ◌/◌, ◌^◌, ◌≤◌, ◌<◌, ◌≡◌, refl, ltb, arith, Bool-cases, inl, inr, ◌⊎◌,
}
use jt_snmpd.Disks.{int32_max, units_loop, storage_units}

-- 4096 doubled so often, and the size does not fit under half of it
abbrev pub IsNeeded : ℕ → ℕ → Type 0
IsNeeded total unit =
    ((k : ℕ) × (unit ≡ 4096 * 2 ^ k))
    × ((unit ≡ 4096) ⊎ ((half : ℕ) × (unit ≡ half * 2) × (int32_max < total / half)))

doubled : (unit : ℕ) → ((k : ℕ) × (unit ≡ 4096 * 2 ^ k)) → (k : ℕ) × (unit * 2 ≡ 4096 * 2 ^ k)
doubled unit (k, e) = (suc k, rw (pow-suc) (omega (arith, e)))

-- each round doubles the unit, so that as much fuel as the size exceeds the unit is enough
units_loop-IsNeeded :
    (fuel total unit : ℕ)
    → 0 < unit
    → total < unit + fuel
    → IsNeeded total unit
    → (total / units_loop fuel total unit ≤ int32_max) × IsNeeded total (units_loop fuel total unit)
unfolding units_loop
units_loop-IsNeeded zero total unit p h m =
    let e : total / unit ≡ 0 = div-eq_of_lt (omega arith) in (omega (arith, e), m)
units_loop-IsNeeded (suc fuel) total unit p h m = elim (Bool-cases (ltb int32_max (total / unit))) [
  | inl more ↦
      rw (more, units_loop)
        (units_loop-IsNeeded fuel total (unit * 2) (omega arith) (omega arith)
          (doubled unit m.0, inr (unit, refl, ground (arith, more))))
  | inr fits ↦ rw (fits, units_loop) (ground (arith, fits), m)
]

-- The number of allocation units of a volume is at most 2^31 - 1, so that it fits an Integer32, and the
-- unit is the smallest of 4096 and its doubles that allows it: it is 4096, or half of it would not do.
pub storage_units-IsNeeded :
    (total : ℕ) → (total / storage_units total ≤ int32_max) × IsNeeded total (storage_units total)
unfolding storage_units
storage_units-IsNeeded total =
    units_loop-IsNeeded total total 4096 (omega arith) (omega arith) ((0, omega arith), inl refl)
