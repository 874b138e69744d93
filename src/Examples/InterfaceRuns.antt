-- ===== src/Examples/InterfaceRuns.antt =====
-- Two runs of `get_interfaces`, between which the system reports the adapters in another order.
use jt_snmpd.Prelude.{true, ℕ, ◌≡◌, refl, false, none, some, [], ◌∷◌, get_elem?, ◌↔◌}
use jt_snmpd.Prelude.Dict.{get, put}
use jt_snmpd.Storage.{Disk, ends, open_fails, replace_fails, load, save, try_save}
use jt_snmpd.Interfaces.{
  IfRow, Interface, Parsed, IndexMap, load_index_map, is_published, assign, enumerate, given,
  sort_interfaces, get_interfaces,
}
use jt_snmpd.Interfaces.Assign.{IsValid, Extends, AllRecorded}
use jt_snmpd.Interfaces.Persist.{IsLeft, get_interfaces-recorded, if_index_persists}

abbrev ethernet : IfRow
ethernet = record {
  flags = 1;
  if_type = 6;
  connection_type = 1;
  luid = "0006008000000000";
  alias = "Ethernet";
  description = "Intel";
  counters = [];
}

abbrev wifi : IfRow
wifi = record ethernet { if_type = 71; luid = "0047008000000000"; alias = "Wi-Fi" }

abbrev filter_driver : IfRow
filter_driver = record ethernet { flags = 3; luid = "0006008000000001" }

abbrev fresh_disk : Disk Parsed
fresh_disk = record { main = none; bak = none; tmp = none }

fresh_disk-IsValid : IsValid (load_index_map fresh_disk)
unfolding load_index_map load get
fresh_disk-IsValid = record { below = λ k e h. cc; distinct = λ j k a b p q s. cc }

abbrev at : ℕ → IfRow → Interface
at i r = record { idx = i; alias = given r.alias; descr = r.description; row = r }

first_run :
    get_elem?
      (get_interfaces (ends false) fresh_disk (some (ethernet ∷ filter_driver ∷ wifi ∷ [])) "t").1
      1
    ≡ some (at 2 wifi)
unfolding get_interfaces enumerate assign is_published load_index_map load get put sort_interfaces
first_run = refl

second_run :
    get_elem?
      (get_interfaces
        (ends false)
        (get_interfaces (ends false) fresh_disk (some (ethernet ∷ filter_driver ∷ wifi ∷ [])) "t").0
        (some (wifi ∷ ethernet ∷ []))
        "u").1
      1
    ≡ some (at 2 wifi)
unfolding get_interfaces enumerate assign is_published load_index_map load try_save save get put
    sort_interfaces
second_run = refl

if_index_persists_example : (wifi.luid ≡ wifi.luid) ↔ ((at 2 wifi).idx ≡ (at 2 wifi).idx)
if_index_persists_example =
    if_index_persists false (ends false) fresh_disk (ethernet ∷ filter_driver ∷ wifi ∷ [])
      (wifi ∷ ethernet ∷ []) "t" "u" 1 1 (at 2 wifi) (at 2 wifi) fresh_disk-IsValid first_run
      second_run

-- the write fails: nothing is recorded, and the index is published all the same
unrecorded :
    get_interfaces open_fails fresh_disk (some (ethernet ∷ [])) "t"
    ≡ (fresh_disk, at 1 ethernet ∷ [])
unfolding get_interfaces enumerate assign is_published load_index_map load try_save get put
    sort_interfaces
unrecorded = refl

get_interfaces-recorded_example :
    (m : IndexMap) × Extends (load_index_map fresh_disk) m
    × IsValid m
    × AllRecorded m (get_interfaces (replace_fails true) fresh_disk (some (ethernet ∷ [])) "t").1
    × IsLeft
        (replace_fails true)
        fresh_disk
        (get_interfaces (replace_fails true) fresh_disk (some (ethernet ∷ [])) "t").0
        m
get_interfaces-recorded_example =
    get_interfaces-recorded (replace_fails true) fresh_disk (ethernet ∷ []) "t" fresh_disk-IsValid
