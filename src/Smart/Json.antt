-- ===== src/Smart/Json.antt =====
-- deploy/smartjson.py: what LibreNMS is told of a disk.
pub mod Readings
use jt_snmpd.Prelude.{
  ℕ, Bool, true, false, not, ◌&&◌, ◌||◌, Option, none, some, List, [], ◌∷◌, ◌++◌, ltb, leb, ◌==◌,
  if◌then◌else◌, str_eq, String,
}
use jt_snmpd.Prelude.Int.{ℤ, pos, int_eq}
use jt_snmpd.Prelude.Dict.{Dict, get, put, has}
use jt_snmpd.Smart.{Attr, Health, as_flag, as_num, as_attrs, as_ids, num_of}
use jt_snmpd.Tables.{decimal}

-- a value of the JSON: null, or a number
pub data Field : Type 0 where
  null : Field
  whole : ℤ → Field

abbrev pub librenms_smart_ids : List String
librenms_smart_ids =
    "5" ∷ "9" ∷ "10" ∷ "173" ∷ "177" ∷ "183" ∷ "184" ∷ "187" ∷ "188" ∷ "190" ∷ "194" ∷ "196" ∷ "197"
    ∷ "198" ∷ "199" ∷ "231" ∷ "232" ∷ "233" ∷ []

abbrev pub selftest_keys : List String
selftest_keys =
    "completed" ∷ "interrupted" ∷ "read_failure" ∷ "unknown_failure" ∷ "extended" ∷ "short"
    ∷ "conveyance" ∷ "selective" ∷ []

abbrev pub nvme_to_smart_id : List (String × String)
nvme_to_smart_id =
    ("power_on_hours", "9")
    ∷ ("temp_c", "194")
    ∷ ("media_errors", "187")
    ∷ ("avail_spare_pct", "232")
    ∷ []

abbrev pub ata_name_to_smart_id : Dict String
ata_name_to_smart_id =
    ("reallocated_sectors", "5")
    ∷ ("power_on_hours", "9")
    ∷ ("wear_leveling_count", "177")
    ∷ ("airflow_temperature_c", "190")
    ∷ ("temperature_c", "194")
    ∷ ("pending_sectors", "197")
    ∷ ("uncorrectable_sectors", "198")
    ∷ ("ssd_life_left_pct", "231")
    ∷ ("available_reserved_space_pct", "232")
    ∷ ("media_wearout_indicator", "233")
    ∷ []

abbrev pub nulls : List String → Dict Field
nulls [] = []
nulls (k ∷ ks) = (k, null) ∷ nulls ks

abbrev pub blank_disk : Dict Field
blank_disk = nulls (librenms_smart_ids ++ selftest_keys)

-- out[sid] = v where there is an id
abbrev pub put_for : Option String → ℤ → Dict Field → Dict Field
put_for none v out = out
put_for (some sid) v out = put sid (whole v) out

-- the attributes with names
unfoldable pub add_named : Dict Attr → Dict Field → Dict Field
add_named [] out = out
add_named ((name, a) ∷ rest) out =
    add_named rest (put_for (get name ata_name_to_smart_id) (pos a.raw) out)

-- a key that is there and has no number yet
abbrev pub is_open : Option Field → Bool
is_open none = false
is_open (some null) = true
is_open (some (whole v)) = false

-- the attributes by their ids
unfoldable pub add_ids : List (ℕ × ℕ) → Dict Field → Dict Field
unfolding decimal
add_ids [] out = out
add_ids ((aid, raw) ∷ rest) out =
    add_ids rest
      (if is_open (get (decimal aid) out) then put (decimal aid) (whole (pos raw)) out else out)

-- out.get(sid) is None
abbrev pub is_unset : Option Field → Bool
is_unset none = true
is_unset (some null) = true
is_unset (some (whole v)) = false

abbrev pub put_reading : String → Option ℤ → Dict Field → Dict Field
put_reading sid none out = out
put_reading sid (some v) out = if is_unset (get sid out) then put sid (whole v) out else out

unfoldable pub add_nvme : Health → List (String × String) → Dict Field → Dict Field
add_nvme h [] out = out
add_nvme h ((key, sid) ∷ rest) out = add_nvme h rest (put_reading sid (num_of h key) out)

abbrev pub put_max : Option ℤ → Dict Field → Dict Field
put_max none out = out
put_max (some t) out = put "max_temp" (whole t) out

unfoldable pub build_disk_entry : Health → Option ℤ → Dict Field
unfolding add_named add_ids add_nvme
build_disk_entry [] max_temp = blank_disk
build_disk_entry (x ∷ h) max_temp =
    let named : Dict Field = add_named (as_attrs (get "smart" (x ∷ h))) blank_disk in
    let ids : Dict Field = add_ids (as_ids (get "smart_by_id" (x ∷ h))) named in
    let nvme : Dict Field = add_nvme (x ∷ h) nvme_to_smart_id ids in
    put_max max_temp (put_reading "194" (num_of (x ∷ h) "temp_c") nvme)

abbrev pub bit : Bool → ℤ
bit b = pos (if b then 1 else 0)

abbrev pub warning_fields : Option ℤ → Dict Field
warning_fields none = []
warning_fields (some cw) = ("health_pass", whole (bit (int_eq cw (pos 0)))) ∷ []

abbrev pub pass_fields : Option Bool → Option ℤ → Dict Field
pass_fields none cw = warning_fields cw
pass_fields (some ok) cw = ("health_pass", whole (bit ok)) ∷ []

-- health_pass only where the disk answered for itself
unfoldable pub disk_status_fields : Health → Bool → Dict Field
disk_status_fields h over_temp =
    ("dev_error", whole (pos 0))
    ∷ (pass_fields (as_flag (get "health_pass" h)) (num_of h "critical_warning")
        ++ (("over_temp", whole (bit over_temp)) ∷ []))

-- set(body) <= allowed
abbrev pub is_base64_byte : ℕ → Bool
is_base64_byte b =
    (leb 65 b && leb b 90)
    || (leb 97 b && leb b 122)
    || (leb 48 b && leb b 57)
    || b == 47
    || b == 43
    || b == 10

abbrev pub is_digit : ℕ → Bool
is_digit b = leb 48 b && leb b 57

abbrev pub every : (ℕ → Bool) → List ℕ → Bool
every p [] = true
every p (b ∷ bs) = p b && every p bs

abbrev pub is_nil : List ℕ → Bool
is_nil [] = true
is_nil (b ∷ bs) = false

-- value.rstrip(b"=")
unfoldable pub rstrip_padding : List ℕ → List ℕ
rstrip_padding [] = []
rstrip_padding (b ∷ bs) =
    let rest = rstrip_padding bs in if is_nil rest && b == 61 then [] else b ∷ rest

-- value.split(b"\n", 1)[0]
unfoldable pub first_line : List ℕ → List ℕ
first_line [] = []
first_line (b ∷ bs) = let rest = first_line bs in if b == 10 then [] else b ∷ rest

unfoldable pub looks_like_librenms_base64 : List ℕ → Bool
unfolding rstrip_padding first_line
looks_like_librenms_base64 value =
    let body : List ℕ = rstrip_padding value in
    let head : List ℕ = first_line value in
    not (is_nil body) && every is_base64_byte body && not (not (is_nil head) && every is_digit head)
