-- ===== src/Smart/Probe/State.antt =====
-- The state that deploy/jt_agent.py publishes of a disk, by what the disk answered.
use jt_snmpd.Prelude.{
  ℕ, ◌≡◌, refl, ap, ap₂, ◌∙◌, Bool, true, false, ◌||◌, Option, none, some, List, [], ◌∷◌, arith,
  ◌==◌, if◌then◌else◌, get_or, String,
}
use jt_snmpd.Prelude.Int.{ℤ, pos}
use jt_snmpd.Prelude.Dict.{Dict, get}
use jt_snmpd.Prelude.Bytes.{u32, slice}
use jt_snmpd.Smart.{Attr, Health, HealthValue, as_flag, as_num, num_of}
use jt_snmpd.Smart.Nvme.{
  Reply, temperature_of, temp_via_storage_property, nvme_fields, health_via_nvme,
}
use jt_snmpd.Smart.Ata.{
  Table, attribute_loop, no_table, table_fields, unless_empty, health_via_ata_smart,
  smart_overall_health,
}
use jt_snmpd.Smart.Probe.{Replies, probe}
use jt_snmpd.Smart.Probe.Merge.{first_answer, merge_all-first, or_else}
use jt_snmpd.Tables.Sensors.{
  DiskState, ok, warning, critical, unknown, disk_state, is_degraded, is_hot, failed, warns,
  is_clear, passed,
}

temperature_pass : (d : List ℕ) → get "health_pass" (temperature_of d) ≡ none
unfolding get temperature_of
temperature_pass d = ground arith

nvme_pass : (page : List ℕ) → get "health_pass" (nvme_fields page) ≡ none
unfolding get nvme_fields
nvme_pass page = ground arith

temperature_warning : (d : List ℕ) → get "critical_warning" (temperature_of d) ≡ none
unfolding get temperature_of
temperature_warning d = ground arith

nvme_warning :
    (page : List ℕ)
    → get "critical_warning" (nvme_fields page)
      ≡ (if get_or page 0 0 == 0 then none else some (HealthValue.num (pos (get_or page 0 0))))
unfolding get nvme_fields
nvme_warning page = ground arith

property_pass : (p : Reply) → get "health_pass" (temp_via_storage_property p) ≡ none
unfolding get temp_via_storage_property
property_pass none = refl
property_pass (some (buf, ret)) = ground (arith, temperature_pass buf)

property_warning : (p : Reply) → get "critical_warning" (temp_via_storage_property p) ≡ none
unfolding get temp_via_storage_property
property_warning none = refl
property_warning (some (buf, ret)) = ground (arith, temperature_warning buf)

log_pass : (p : Reply) → get "health_pass" (health_via_nvme p) ≡ none
unfolding get health_via_nvme
log_pass none = refl
log_pass (some (buf, ret)) = ground (arith, nvme_pass (slice buf (u32 buf 24) 512))

clear_if :
    (n : ℕ) → is_clear (as_num (if n == 0 then none else some (HealthValue.num (pos n)))) ≡ false
clear_if n = ground arith

nvme_clear : (page : List ℕ) → is_clear (num_of (nvme_fields page) "critical_warning") ≡ false
nvme_clear page = ap (λ t. is_clear (as_num t)) (nvme_warning page) ∙ clear_if (get_or page 0 0)

-- a warning of 0 is never reported
log_clear : (p : Reply) → is_clear (num_of (health_via_nvme p) "critical_warning") ≡ false
unfolding get health_via_nvme
log_clear none = refl
log_clear (some (buf, ret)) = ground (arith, nvme_clear (slice buf (u32 buf 24) 512))

table_keys :
    (t : Option (ℕ × String)) (d : Dict Attr) (l : List (ℕ × ℕ))
    → let h : Health = unless_empty d (table_fields (record { smart = d; ids = l; temp = t })) in
      (get "health_pass" h ≡ none) × (get "critical_warning" h ≡ none)
unfolding get
table_keys none [] l = (refl, refl)
table_keys none (a ∷ d) l = (refl, refl)
table_keys (some t) [] l = (refl, refl)
table_keys (some t) (a ∷ d) l = (refl, refl)

table_silent :
    (b : Bool) (p : Reply)
    → (get "health_pass" (health_via_ata_smart b p) ≡ none)
      × (get "critical_warning" (health_via_ata_smart b p) ≡ none)
unfolding get health_via_ata_smart
table_silent false p = (refl, refl)
table_silent true none = (refl, refl)
table_silent true (some (out, ret)) =
    let t : Table = attribute_loop 30 (slice out 16 512) 2 no_table in
    let (p, w) = table_keys t.temp t.smart t.ids in (ground (arith, p), ground (arith, w))

status_silent : (p : Reply) → get "critical_warning" (smart_overall_health p) ≡ none
unfolding get smart_overall_health
status_silent none = refl
status_silent (some (out, ret)) = ground arith

last_answer :
    (a b c d : Option HealthValue)
    → a ≡ none
    → b ≡ none
    → c ≡ none
    → or_else a (or_else b (or_else c (or_else d none))) ≡ d
last_answer none none none none p q r = refl
last_answer none none none (some d) p q r = refl
last_answer (some a) b c d p q r = cc
last_answer none (some b) c d p q r = cc
last_answer none none (some c) d p q r = cc

second_answer :
    (a b c d : Option HealthValue)
    → a ≡ none
    → c ≡ none
    → d ≡ none
    → or_else a (or_else b (or_else c (or_else d none))) ≡ b
second_answer none none none none p q r = refl
second_answer none (some b) none none p q r = refl
second_answer (some a) b c d p q r = cc
second_answer none b (some c) d p q r = cc
second_answer none b none (some d) p q r = cc

-- what the four ways to ask give
abbrev answers : Replies → List (Option Health)
answers r =
    some (temp_via_storage_property r.property)
    ∷ some (health_via_nvme r.nvme)
    ∷ some (health_via_ata_smart r.supported r.attributes)
    ∷ some (smart_overall_health r.status)
    ∷ []

probe_pass :
    (r : Replies)
    → get "health_pass" (probe (some r)) ≡ get "health_pass" (smart_overall_health r.status)
unfolding probe first_answer
probe_pass r =
    merge_all-first "health_pass" (answers r)
    ∙ last_answer (get "health_pass" (temp_via_storage_property r.property))
        (get "health_pass" (health_via_nvme r.nvme))
        (get "health_pass" (health_via_ata_smart r.supported r.attributes))
        (get "health_pass" (smart_overall_health r.status)) (property_pass r.property)
        (log_pass r.nvme) (table_silent r.supported r.attributes).0

probe_warning :
    (r : Replies)
    → get "critical_warning" (probe (some r)) ≡ get "critical_warning" (health_via_nvme r.nvme)
unfolding probe first_answer
probe_warning r =
    merge_all-first "critical_warning" (answers r)
    ∙ second_answer (get "critical_warning" (temp_via_storage_property r.property))
        (get "critical_warning" (health_via_nvme r.nvme))
        (get "critical_warning" (health_via_ata_smart r.supported r.attributes))
        (get "critical_warning" (smart_overall_health r.status)) (property_warning r.property)
        (table_silent r.supported r.attributes).1 (status_silent r.status)

-- By the disk's own assessment, by whether its NVMe log has a warning, and by whether it is degraded or hot.
abbrev pub graded : Option Bool → Bool → Bool → DiskState
graded (some false) warned worn = critical
graded none true worn = critical
graded (some true) true worn = critical
graded none false worn = unknown
graded (some true) false true = warning
graded (some true) false false = ok

graded_if :
    (hp : Option Bool) (warned clear worn : Bool)
    → clear ≡ false
    → (if failed hp || warned
        then critical
        else if passed hp || clear
        then (if worn then warning else ok)
        else unknown)
      ≡ graded hp warned worn
graded_if none true clear worn h = refl
graded_if none false false worn h = refl
graded_if none false true worn h = cc
graded_if (some false) warned clear worn h = refl
graded_if (some true) true clear worn h = refl
graded_if (some true) false clear true h = refl
graded_if (some true) false clear false h = refl

-- The state of a disk that was asked is critical if its own assessment fails or its NVMe log has a warning;
-- without either answer it is unknown, also for an NVMe disk whose log has no warning; and with an assessment
-- that passes and no warning it is ok, or a warning if sectors are degraded or the disk is at 70 degrees or
-- more.
pub disk_state-probe :
    (r : Replies) (temp : Option ℤ)
    → disk_state (probe (some r)) temp
      ≡ graded
          (as_flag (get "health_pass" (smart_overall_health r.status)))
          (warns (num_of (health_via_nvme r.nvme) "critical_warning"))
          (is_degraded (probe (some r)) || is_hot temp)
unfolding disk_state
disk_state-probe r temp =
    graded_if (as_flag (get "health_pass" (probe (some r))))
      (warns (num_of (probe (some r)) "critical_warning"))
      (is_clear (num_of (probe (some r)) "critical_warning"))
      (is_degraded (probe (some r)) || is_hot temp)
      (ap (λ t. is_clear (as_num t)) (probe_warning r) ∙ log_clear r.nvme)
    ∙ ap₂
        (λ a b. graded (as_flag a) (warns (as_num b)) (is_degraded (probe (some r)) || is_hot temp))
        (probe_pass r) (probe_warning r)
