-- ===== src/Smart/Ata.antt =====
-- deploy/diskhealth.py: the attribute table of ATA and the disk's own assessment.
use jt_snmpd.Prelude.{
  ℕ, zero, suc, ◌+◌, ◌%◌, ◌^◌, Bool, true, false, ◌&&◌, Option, none, some, List, [], ◌∷◌, ltb,
  ◌==◌, if◌then◌else◌, get_or, String, not,
}
use jt_snmpd.Prelude.Int.{pos}
use jt_snmpd.Prelude.Dict.{Dict, put}
use jt_snmpd.Prelude.Bytes.{slice}
use jt_snmpd.Smart.{Attr, Health, num, flag, text, attrs, by_id}
use jt_snmpd.Smart.Nvme.{Reply, le}

abbrev pub smart_attr_names : List (ℕ × String)
smart_attr_names =
    (0x05, "reallocated_sectors")
    ∷ (0x09, "power_on_hours")
    ∷ (0x0C, "power_cycle_count")
    ∷ (0xAA, "available_reserved_space_pct")
    ∷ (0xB1, "wear_leveling_count")
    ∷ (0xB3, "used_reserved_block_count")
    ∷ (0xBE, "airflow_temperature_c")
    ∷ (0xC2, "temperature_c")
    ∷ (0xC5, "pending_sectors")
    ∷ (0xC6, "uncorrectable_sectors")
    ∷ (0xE7, "ssd_life_left_pct")
    ∷ (0xE9, "media_wearout_indicator")
    ∷ (0xF1, "total_lbas_written")
    ∷ []

unfoldable pub name_in : ℕ → List (ℕ × String) → Option String
name_in aid [] = none
name_in aid ((i, n) ∷ rest) = if i == aid then some n else name_in aid rest

-- the ids of attributes that are read as temperatures, and what is then reported as the source
unfoldable pub temp_source : ℕ → Option String
temp_source aid =
    if aid == 0xC2
    then some "ata-smart-0xC2"
    else if aid == 0xBE
    then some "ata-smart-0xBE"
    else if aid == 0xE7
    then some "ata-smart-0xE7"
    else none

-- d[aid] = raw
unfoldable pub put_id : ℕ → ℕ → List (ℕ × ℕ) → List (ℕ × ℕ)
put_id i v [] = (i, v) ∷ []
put_id i v ((j, w) ∷ l) = if j == i then (j, v) ∷ l else (j, w) ∷ put_id i v l

-- the dict in the making
pub record Table : Type 0 where
  pub smart : Dict Attr
  pub ids : List (ℕ × ℕ)
  pub temp : Option (ℕ × String)

abbrev pub put_named : Option String → Attr → Dict Attr → Dict Attr
put_named none a d = d
put_named (some n) a d = put n a d

-- the first attribute of those ids with a low byte of 1 to 149
abbrev pub first_temp : Option (ℕ × String) → Option String → ℕ → Option (ℕ × String)
first_temp (some t) source raw = some t
first_temp none none raw = none
first_temp none (some source) raw =
    if ltb 0 (raw % 256) && ltb (raw % 256) 150 then some (raw % 256, source) else none

unfoldable pub add_attribute : List ℕ → ℕ → Table → Table
unfolding name_in temp_source put_id
add_attribute page off t =
    let aid : ℕ = get_or page off 0 in
    let raw : ℕ = le 6 page (off + 5) in
    let a : Attr = record {
      value = get_or page (off + 3) 0;
      worst = get_or page (off + 4) 0;
      raw = raw;
    } in
    if aid == 0 then t else record {
      smart = put_named (name_in aid smart_attr_names) a t.smart;
      ids = put_id aid (raw % 2 ^ 32) t.ids;
      temp = first_temp t.temp (temp_source aid) raw;
    }

-- the attributes that are left, of 30 with 12 bytes each
unfoldable pub attribute_loop : ℕ → List ℕ → ℕ → Table → Table
unfolding add_attribute
attribute_loop zero page off t = t
attribute_loop (suc n) page off t = attribute_loop n page (off + 12) (add_attribute page off t)

abbrev pub temp_fields : Option (ℕ × String) → Health
temp_fields none = []
temp_fields (some (t, source)) = ("temp_c", num (pos t)) ∷ ("temp_source", text source) ∷ []

abbrev pub table_fields : Table → Health
table_fields t =
    ("health_source", text "ata-smart")
    ∷ ("smart", attrs t.smart)
    ∷ ("smart_by_id", by_id t.ids)
    ∷ temp_fields t.temp

abbrev pub unless_empty : Dict Attr → Health → Health
unless_empty [] fields = []
unless_empty (a ∷ d) fields = fields

abbrev pub no_table : Table
no_table = record { smart = []; ids = []; temp = none }

-- `supported` is what _smart_supported answers
unfoldable pub health_via_ata_smart : Bool → Reply → Health
unfolding attribute_loop
health_via_ata_smart false reply = []
health_via_ata_smart true none = []
health_via_ata_smart true (some (out, ret)) =
    let t : Table = attribute_loop 30 (slice out 16 512) 2 no_table in
    if ltb ret 528 then [] else unless_empty t.smart (table_fields t)

abbrev pub assessed : Bool → Health
assessed ok = ("health_pass", flag ok) ∷ ("health_source_overall", text "ata-return-status") ∷ []

-- bDriverError, and the registers bCylLowReg and bCylHighReg, by their offsets in SENDCMDOUTPARAMS
unfoldable pub smart_overall_health : Reply → Health
smart_overall_health none = []
smart_overall_health (some (out, ret)) =
    let low : ℕ = get_or out 19 0 in
    let high : ℕ = get_or out 20 0 in
    if not (get_or out 4 0 == 0)
    then []
    else if low == 0x4F && high == 0xC2
    then assessed true
    else if low == 0xF4 && high == 0x2C
    then assessed false
    else []
