-- ===== src/Examples/SmartRuns.antt =====
-- A disk of SATA with a temperature, a failing assessment and a reallocated sector.
use jt_snmpd.Prelude.{◌≡◌, refl, false, ◌||◌, Option, none, some, List, [], ◌∷◌, ◌++◌, replicate}
use jt_snmpd.Prelude.Int.{pos}
use jt_snmpd.Prelude.Dict.{get, put}
use jt_snmpd.Smart.{Health, as_flag, num_of, num, attrs, by_id}
use jt_snmpd.Smart.Nvme.{health_via_nvme, le}
use jt_snmpd.Smart.Ata.{smart_overall_health, add_attribute, no_table}
use jt_snmpd.Smart.Probe.{Replies, probe, merge_all}
use jt_snmpd.Smart.Probe.Merge.{first_answer, merge_all-first}
use jt_snmpd.Smart.Probe.State.{graded, disk_state-probe}
use jt_snmpd.Smart.Json.{build_disk_entry, add_named, add_ids, add_nvme}
use jt_snmpd.Smart.Json.Readings.{IsReading, build_disk_entry-IsReading}
use jt_snmpd.Tables.Sensors.{warns, disk_state, is_degraded, is_hot}

abbrev failing : Replies
failing = record {
  property = none;
  nvme = none;
  supported = false;
  attributes = none;
  status = some (replicate 19 0 ++ (0xF4 ∷ 0x2C ∷ 0 ∷ 0 ∷ []), 24);
}

disk_state-probe_example :
    disk_state (probe (some failing)) (some (pos 40))
    ≡ graded
        (as_flag (get "health_pass" (smart_overall_health failing.status)))
        (warns (num_of (health_via_nvme failing.nvme) "critical_warning"))
        (is_degraded (probe (some failing)) || is_hot (some (pos 40)))
disk_state-probe_example = disk_state-probe failing (some (pos 40))

abbrev two_answers : List (Option Health)
two_answers =
    some (("temp_c", num (pos 41)) ∷ []) ∷ none ∷ some (("temp_c", num (pos 43)) ∷ []) ∷ []

merge_all-first_example :
    get "temp_c" (merge_all [] two_answers) ≡ first_answer "temp_c" two_answers
merge_all-first_example = merge_all-first "temp_c" two_answers

abbrev worn : Health
worn =
    ("smart", attrs (("pending_sectors", record { value = 100; worst = 99; raw = 7 }) ∷ []))
    ∷ ("smart_by_id", by_id ((197, 7) ∷ []))
    ∷ []

build_disk_entry-IsReading_example : IsReading worn (some (pos 55)) "197" (pos 7)
unfolding build_disk_entry add_named add_ids add_nvme get put
build_disk_entry-IsReading_example =
    build_disk_entry-IsReading worn (some (pos 55)) "197" (pos 7) refl

-- An SSD with 95 percent of its life left is reported with a temperature of 95 degrees.
life_as_temperature :
    (add_attribute (0xE7 ∷ 0 ∷ 0 ∷ 95 ∷ 95 ∷ 95 ∷ 0 ∷ 0 ∷ 0 ∷ 0 ∷ 0 ∷ 0 ∷ []) 0 no_table).temp
    ≡ some (95, "ata-smart-0xE7")
unfolding add_attribute le
life_as_temperature = refl
