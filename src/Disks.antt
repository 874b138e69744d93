-- ===== src/Disks.antt =====
-- deploy/jt_agent.py: the allocation unit of a volume (`storage_units`) and the highest temperature seen
-- of a disk (`observed_max_temp`).
pub mod MaxTemp
pub mod Units
use jt_snmpd.Prelude.{
  ℕ, zero, suc, ◌+◌, ◌-◌, ◌*◌, ◌/◌, ◌^◌, Bool, true, false, ◌&&◌, Option, none, some, List, [], ◌∷◌,
  ltb, leb, if◌then◌else◌, String,
}
use jt_snmpd.Prelude.Dict.{Dict, get, put}
use jt_snmpd.Prelude.Int.{ℤ, pos_part}

abbrev pub int32_max : ℕ
int32_max = 2147483647

-- the loop on fuel; it doubles the unit
unfoldable pub units_loop : ℕ → ℕ → ℕ → ℕ
units_loop zero total unit = unit
units_loop (suc fuel) total unit = elim (ltb int32_max (total / unit)) [
  | true ↦ units_loop fuel total (unit * 2)
  | false ↦ unit
]

unfoldable pub storage_units : ℕ → ℕ
unfolding units_loop
storage_units total = units_loop total total 4096

-- 0 < t < 150
unfoldable pub is_plausible : ℤ → Bool
is_plausible t = ltb 0 (pos_part t) && ltb (pos_part t) 150

-- the answer and the cache after one reading; what is written to the file is the cache
unfoldable pub observe : String → Option ℤ → Dict ℕ → Option ℕ × Dict ℕ
unfolding is_plausible
observe name none cache = (get name cache, cache)
observe name (some t) cache =
    if is_plausible t
    then elim (get name cache) [
      | none ↦ (some (pos_part t), put name (pos_part t) cache)
      | some prev ↦
          if leb (pos_part t) prev
          then (some prev, cache)
          else (some (pos_part t), put name (pos_part t) cache)
    ]
    else (get name cache, cache)
