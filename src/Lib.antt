-- ===== src/Lib.antt =====
-- The core logic of jt-snmpd, a read-only SNMP agent for Windows, as a model over the native numbers.
--
-- The agent answers UDP datagrams in one chain: the transport hands each datagram to the gate, which
-- drops what is not allowed, too long, too frequent or not framed as one SEQUENCE; pysnmp, which is
-- not part of this repository, decodes the rest and calls the controller, which answers GET, GETNEXT
-- and GETBULK from a snapshot, an array of rows sorted by object identifier. The snapshot is rebuilt
-- every few seconds by collectors, some of which keep state on disk: the engine identity with its
-- boot counter, and the map of interface indices.
--
-- Files and what they model:
--   Gate                 deploy/preauth.py: addresses and networks, the outer TLV, the token buckets,
--                        `check` and `prune`. Times are ticks of a clock, and tokens are counted in
--                        ticks, so that the refill is exact where the source computes with floats; the
--                        parser of source addresses and the ticks of a second are parameters (`Host`).
--                        `parse_networks` takes the parser of networks as a parameter, which gives them as numbers.
--   Gate/Tlv, Gate/Order, Gate/Table, Gate/Rate  what the gate promises
--   Mib                  deploy/jt_agent.py: identifiers, bisection, the BER sizes (`_varbind_size`), the
--                        controller (`SnapshotController`, `CappedBulkResponder`) and the end of
--                        `build_snapshot`. The fuel of a bisection is the length of the array, which is
--                        enough since each round shrinks the range; the fuel of a walk is the number of
--                        requests, with a theorem that one more than there are rows is enough. What
--                        pysnmp's access check and encoder answer is a parameter (`Reader`).
--   Storage              deploy/jt_agent.py: the loaders and savers of state files, with the disk after
--                        each step of a save, and the points at which a save may raise
--   Engine               deploy/jt_agent.py: `_plan_engine_state`, `_new_engine_id`, `_engine_id`; in
--                        Engine/State `_load_engine_state` and `_engine_state`, whose inputs are what
--                        `_machine_guid` answers, the instant of the boot and how the save goes; in Engine/Starts
--                        one start after another. SHA-256 is a parameter.
--   Interfaces           deploy/jt_agent.py: `get_interfaces` and the index map, whose write may fail
--   Sensors              deploy/sensors.py: `parse_wnode_all_data`, `parse_thermal_zone`. Text is a list of code
--                        points; the decoder of UTF-16, `isprintable` and the float arithmetic of the
--                        conversion to Celsius are parameters (`Host`).
--   Smbios               deploy/smbios.py: `parse_smbios`, `_strings`, `_s` and the extraction per type. `decode`, `strip` and
--                        `lower` of Python are parameters (`Host`). The loop runs on what is left of
--                        MAX_STRUCTURES, since every round adds a structure.
--   Usm                  deploy/usm.py: `check_algorithms`, `store_to_json`, `store_from_json`, `load_store`. Decryption, the
--                        text of the JSON and `fromhex` are a parameter (`Host`), so a document is given
--                        by the tests that the loader makes on it. `save_store` writes as in Storage.
--   Disks                deploy/jt_agent.py: `storage_units`, on as much fuel as the size, which is enough since each
--                        round doubles the unit, and `observed_max_temp` as a step on its cache
--   Smart                deploy/diskhealth.py: the dict of what is known of a disk; in Smart/Nvme, Ata and Probe the
--                        parsers, from the bytes that each call leaves in its buffer, and `probe`. The 30
--                        attributes of ATA are a loop on 30. Smart/Json is deploy/smartjson.py:
--                        `build_disk_entry`, `_disk_status_fields`, `looks_like_librenms_base64`.
--   Tables               deploy/jt_agent.py: the rows of `build_snapshot`, table by table, from what the collectors
--                        return; `_collector`, `_prefix_mask`, `_disk_label`, `_extend_index`, `_config_warnings`. `utf8` and
--                        other text functions of Python are parameters (`Host`), and so is the encoder of the
--                        JSON of the disks. The rows of a table stand together, where the source adds those of
--                        some tables in turn: they are sorted at the end. The loop that drops disks runs on as
--                        much fuel as there are disks, since each round drops one.
--   Tables/Rows, Keys, Regions, Covers, Parts  which names each part of the snapshot may use
--   Tables/Masks, Layout, Unique, Served, Clash  the snapshot as a whole
--   Service              deploy/jt_agent.py: the loop of `main_co` that rebuilds the snapshot, as rounds on what the
--                        collectors return; the failures of a build that are modelled are a duplicate name and a
--                        netmask that cannot be computed
--   Examples             runs on concrete inputs
--   Prelude              shared names, tests, lists, byte strings, dictionaries, integers
--
-- Not modelled: the calls of Windows (ctypes, the registry, services, DPAPI), pysnmp and its event loop,
-- pyasn1's checks of the range of a number, the collectors that only copy fields from such calls,
-- logging, the command line, and the tools, benchmarks and packaging scripts of the repository.
pub mod Prelude
pub mod Gate
pub mod Mib
pub mod Storage
pub mod Engine
pub mod Interfaces
pub mod Sensors
pub mod Smbios
pub mod Usm
pub mod Disks
pub mod Smart
pub mod Tables
pub mod Service
pub mod Examples
