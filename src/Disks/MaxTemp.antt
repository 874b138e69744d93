-- ===== src/Disks/MaxTemp.antt =====
-- The highest temperature over a run of readings.
use jt_snmpd.Prelude.{
  ℕ, ◌≡◌, refl, ap, ◌∙◌, Option, none, some, List, [], ◌∷◌, max, if◌then◌else◌, String, str_eq,
  eq_iff, arith,
}
use jt_snmpd.Prelude.Dict.{Dict, get, get-put}
use jt_snmpd.Prelude.Int.{ℤ, pos_part}
use jt_snmpd.Disks.{is_plausible, observe}

-- a reading of some disk
abbrev pub Reading : Type 0
Reading = String × Option ℤ

unfoldable pub observe_all : List Reading → Dict ℕ → Dict ℕ
observe_all [] cache = cache
observe_all (r ∷ rs) cache = observe_all rs (observe r.0 r.1 cache).1

-- the highest plausible reading of a disk, from what was known before
abbrev pub raise_to : ℤ → Option ℕ → Option ℕ
raise_to t none = some (pos_part t)
raise_to t (some prev) = some (max prev (pos_part t))

abbrev pub update : Option ℤ → Option ℕ → Option ℕ
update none known = known
update (some t) known = if is_plausible t then raise_to t known else known

abbrev pub highest : String → List Reading → Option ℕ → Option ℕ
highest name [] known = known
highest name (r ∷ rs) known = highest name rs (if str_eq r.0 name then update r.1 known else known)

observe_cache :
    (name other : String) (reading : Option ℤ) (cache : Dict ℕ)
    → get other (observe name reading cache).1
      ≡ (if str_eq name other then update reading (get other cache) else get other cache)
unfolding observe
observe_cache name other none cache = ground arith
observe_cache name other (some t) cache =
    ground (arith, eq_iff name other, get-put name other (pos_part t) cache)

-- what a reading answers
observe_answer :
    (name : String) (reading : Option ℤ) (cache : Dict ℕ)
    → (observe name reading cache).0 ≡ update reading (get name cache)
unfolding observe
observe_answer name none cache = refl
observe_answer name (some t) cache = ground arith

observe_all-highest :
    (rs : List Reading) (cache : Dict ℕ) (name : String)
    → get name (observe_all rs cache) ≡ highest name rs (get name cache)
unfolding observe_all
observe_all-highest [] cache name = refl
observe_all-highest (r ∷ rs) cache name =
    observe_all-highest rs (observe r.0 r.1 cache).1 name
    ∙ ap (highest name rs) (observe_cache r.0 name r.1 cache)

-- After any readings of any disks, a reading of a disk is answered with the highest temperature that is
-- plausible, from 1 to 149 degrees, among its own readings, this one included, and what the file knew.
pub observe-highest :
    (rs : List Reading) (known : Dict ℕ) (name : String) (reading : Option ℤ)
    → (observe name reading (observe_all rs known)).0
      ≡ update reading (highest name rs (get name known))
observe-highest rs known name reading =
    observe_answer name reading (observe_all rs known)
    ∙ ap (update reading) (observe_all-highest rs known name)
