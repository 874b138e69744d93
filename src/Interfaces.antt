-- ===== src/Interfaces.antt =====
-- The interface table of deploy/jt_agent.py: `get_interfaces`, which hands out a persistent ifIndex for
-- each interface it publishes, and the index map on disk.
pub mod Assign
pub mod Persist
use jt_snmpd.Prelude.{
  ℕ, suc, ◌+◌, ◌/◌, ◌%◌, String, Bool, true, false, not, ◌&&◌, ◌||◌, Option, none, some, List, [],
  ◌∷◌, ltb, ◌==◌, if◌then◌else◌, str_eq,
}
use jt_snmpd.Prelude.Dict.{Dict, get, put}
use jt_snmpd.Storage.{Disk, Write, load, try_save}

-- What is read of a row of MIB_IF_TABLE2: the fields that are tested or keyed on, and `counters` for the
-- thirty others, which are copied as they are. `luid` is the text f"{r.InterfaceLuid:016x}".
pub record IfRow : Type 0 where
  pub flags : ℕ
  pub if_type : ℕ
  pub connection_type : ℕ
  pub luid : String
  pub alias : String
  pub description : String
  pub counters : List ℕ

pub record Entry : Type 0 where
  pub if_index : ℕ
  pub if_name : String
  pub first_seen : String

pub record IndexMap : Type 0 where
  pub interfaces : Dict Entry
  pub next_if_index : ℕ

abbrev pub empty_map : IndexMap
empty_map = record { interfaces = []; next_if_index = 1 }

-- what a state file parses to
pub data Parsed : Type 0 where
  index_map : IndexMap → Parsed
  unusable : Parsed

-- isinstance(data, dict) and isinstance(data.get("interfaces"), dict)
abbrev pub is_index_map : Parsed → Bool
is_index_map (index_map m) = true
is_index_map unusable = false

abbrev pub or_empty_map : Option Parsed → IndexMap
or_empty_map none = empty_map
or_empty_map (some unusable) = empty_map
or_empty_map (some (index_map m)) = m

unfoldable pub load_index_map : Disk Parsed → IndexMap
load_index_map d = or_empty_map (load is_index_map d)

abbrev pub if_type_software_loopback : ℕ
if_type_software_loopback = 24

-- a hardware interface that is no filter, no loopback and no team member
unfoldable pub is_published : IfRow → Bool
is_published r =
    if not (r.flags % 2 == 1) || r.flags / 2 % 2 == 1
    then false
    else if r.if_type == if_type_software_loopback
    then false
    else not (r.connection_type == 2)

-- ifAlias, or f"if{if_index}" where the row has none
pub data IfName : Type 0 where
  given : String → IfName
  numbered : ℕ → IfName

pub record Interface : Type 0 where
  pub idx : ℕ
  pub alias : IfName
  pub descr : String
  pub row : IfRow

abbrev pub or_text : String → String → String
or_text s t = if str_eq s "" then t else s

abbrev pub publish : IfRow → Entry → Interface
publish r e = record {
  idx = e.if_index;
  alias = (if str_eq r.alias "" then numbered e.if_index else given r.alias);
  descr = or_text r.description r.alias;
  row = r;
}

abbrev pub new_entry : IndexMap → IfRow → String → Entry
new_entry m r now = record { if_index = m.next_if_index; if_name = r.alias; first_seen = now }

abbrev pub add_entry : IndexMap → String → Entry → IndexMap
add_entry m luid e = record {
  interfaces = put luid e m.interfaces;
  next_if_index = m.next_if_index + 1;
}

-- The map after a row, the row's entry, and whether the map changed.
unfoldable pub assign : IndexMap → IfRow → String → IndexMap × Entry × Bool
assign m r now = elim (get r.luid m.interfaces) [
  | some e ↦ (m, e, false)
  | none ↦ (add_entry m r.luid (new_entry m r now), new_entry m r now, true)
]

-- the loop over the rows: the map, the published interfaces and `changed`
unfoldable pub enumerate : IndexMap → List IfRow → String → IndexMap × List Interface × Bool
enumerate m [] now = (m, [], false)
enumerate m (r ∷ rs) now =
    let a : IndexMap × Entry × Bool = assign m r now in
    let next : IndexMap × List Interface × Bool = enumerate a.0 rs now in
    let skipped : IndexMap × List Interface × Bool = enumerate m rs now in
    if is_published r then (next.0, publish r a.1 ∷ next.1, a.2 || next.2) else skipped

-- out.sort(key=lambda x: x["idx"])
insert_interface : Interface → List Interface → List Interface
insert_interface x [] = x ∷ []
insert_interface x (y ∷ ys) = if ltb y.idx x.idx then y ∷ insert_interface x ys else x ∷ y ∷ ys

unfoldable pub sort_interfaces : List Interface → List Interface
unfolding insert_interface
sort_interfaces [] = []
sort_interfaces (x ∷ xs) = insert_interface x (sort_interfaces xs)

-- `_save_index_map` where the map changed: an exception goes no further, and neither does whether it ended
abbrev pub save_if : Bool → Write → IndexMap → Disk Parsed → Disk Parsed
save_if true w m d = (try_save w (index_map m) d).0
save_if false w m d = d

-- `get_interfaces` on the rows that GetIfTable2 returns, `none` where the call fails. The map is written
-- only if it changed, and `w` says how far the write comes.
unfoldable pub get_interfaces :
    Write → Disk Parsed → Option (List IfRow) → String → Disk Parsed × List Interface
get_interfaces w d none now = (d, [])
get_interfaces w d (some rows) now =
    let r : IndexMap × List Interface × Bool = enumerate (load_index_map d) rows now in
    (save_if r.2 w r.0 d, sort_interfaces r.1)
