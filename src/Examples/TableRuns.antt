-- ===== src/Examples/TableRuns.antt =====
-- A machine with two interfaces, two disks, an address on each interface and a route, and what the agent
-- makes of it; and the same machine with one address on both interfaces.
use mathlib.Core.List.{Perm}
use jt_snmpd.Prelude.{
  ℕ, zero, suc, ◌≤◌, ◌<◌, ◌≡◌, refl, ◌↔◌, true, false, none, some, List, [], ◌∷◌, arith, length,
  take, get_elem?, ◌⊎◌,
}
use jt_snmpd.Prelude.Int.{pos}
use jt_snmpd.Mib.Oid.{Oid, oid_eq}
use jt_snmpd.Mib.Value.{Value, Row, value, no_such_instance, unsigned}
use jt_snmpd.Mib.Snapshot.{built, duplicate, negative_shift, finish, name_count}
use jt_snmpd.Mib.Snapshot.Guard.{finish-built_iff}
use jt_snmpd.Mib.Controller.{read_variables}
use jt_snmpd.Mib.Controller.Sorted.{IsSorted}
use jt_snmpd.Smart.{num, flag}
use jt_snmpd.Tables.{Host, flatten}
use jt_snmpd.Tables.Network.{Nic, Address, Route, our_if, masks_raise}
use jt_snmpd.Tables.Devices.{DiskInfo}
use jt_snmpd.Tables.Extend.{max_extend_bytes, fitting}
use jt_snmpd.Tables.Extend.Fitting.{fitting-largest}
use jt_snmpd.Tables.Build.{Collected, parts, build_snapshot}
use jt_snmpd.Tables.Unique.{IsWellFormed, build_snapshot-built}
use jt_snmpd.Tables.Served.{serves_parts}
use jt_snmpd.Tables.Masks.{build_snapshot-shift_iff}
use jt_snmpd.Tables.Clash.{build_snapshot-clash}

abbrev pub host : Host
host = record {
  utf8 = λ s. 63 ∷ [];
  strip = λ s. s;
  rstrip = λ s. s;
  upper = λ s. s;
  words = λ s. s ∷ [];
  chars = λ s. 4;
  first = λ n s. s;
  without = λ t s. s;
}

abbrev nic : ℕ → ℕ → Nic
nic i win = record {
  idx = i;
  win_idx = win;
  alias = "Ethernet";
  descr = "Intel Ethernet";
  if_type = 6;
  mtu = 1500;
  speed = 1000000000;
  mac = 0 ∷ 1 ∷ 2 ∷ 3 ∷ 4 ∷ 5 ∷ [];
  oper = 1;
  admin = 1;
  in_octets = 5000000000;
  in_ucast = 7;
  in_nucast = 0;
  in_disc = 0;
  in_err = 0;
  in_unk = 0;
  in_mcast = 0;
  in_bcast = 0;
  out_octets = 9;
  out_ucast = 3;
  out_nucast = 0;
  out_disc = 0;
  out_err = 0;
  out_qlen = 0;
  out_mcast = 0;
  out_bcast = 0;
}

abbrev disk : ℕ → DiskInfo
disk i = record {
  index = i;
  model = "DISK";
  serial = "S1";
  bus = "NVMe";
  removable = false;
  size_bytes = 256000000000;
  vendor = none;
  temp_c = some (pos 41);
  health = ("percentage_used", num (pos 3)) ∷ ("health_pass", flag true) ∷ [];
}

abbrev address : List ℕ → ℕ → Address
address raw win = record { is_v4 = true; raw = raw; prefix_len = 24; if_index = win }

abbrev local_net : ℕ → ℕ → Route
local_net win metric = record {
  dest_raw = 224 ∷ 0 ∷ 0 ∷ 0 ∷ [];
  mask = 240 ∷ 0 ∷ 0 ∷ 0 ∷ [];
  next_hop = 0 ∷ 0 ∷ 0 ∷ 0 ∷ [];
  if_index = win;
  metric = metric;
  proto = 2;
  kind = 3;
}

abbrev machine : List Address → Collected
machine addrs = record {
  system = record {
    product_type = "server";
    computer_name = "HOST";
    sysdescr = "Hardware - Software: Windows";
    contact = "";
    location = "";
    up = 4294967300;
    tick_seconds = 42949673;
    engine_id = 128 ∷ 0 ∷ 1 ∷ [];
    engine_boots = 3;
  };
  software = "Windows";
  now = 1000;
  agent = record {
    version = "1";
    build_date = "";
    start = 100;
    built = 0;
    build_ms = 4;
    rss = none;
    threads = 3;
    handles = some 200;
    config_source = "file";
    config_path = "";
    log_dir = "";
    install_dir = "";
    community = "";
    failures = 0;
  };
  gate = none;
  collectors = [];
  nics = nic 1 12 ∷ nic 2 7 ∷ [];
  addresses = addrs;
  neighbors = [];
  enable_arp_table = false;
  routes = local_net 12 20 ∷ local_net 7 10 ∷ [];
  date = [];
  sessions = some 1;
  processes = none;
  perf = none;
  memory = record {
    total_phys = 1000000;
    avail_phys = 400000;
    total_page_file = 0;
    avail_page_file = 0;
  };
  volumes = [];
  cpu_name = "CPU";
  loads = 5 ∷ 90 ∷ [];
  inventory = record {
    bios = none;
    system = none;
    baseboard = none;
    processors = [];
    memory = [];
    disks = disk 0 ∷ disk 2 ∷ [];
  };
  disk_ios = [];
  ip_stats = none;
  icmp_stats = none;
  tcp_stats = none;
  udp_stats = none;
  zones = ("CPUZ", pos 52) ∷ [];
  frequencies = [];
  battery = none;
  cpu_times = none;
  sys_perf = none;
}

abbrev pub encode : List DiskInfo → List ℕ
encode disks = 65 ∷ 66 ∷ []

abbrev pub sound : Collected
sound = machine (address (10 ∷ 0 ∷ 0 ∷ 1 ∷ []) 12 ∷ address (10 ∷ 0 ∷ 1 ∷ 1 ∷ []) 7 ∷ [])

abbrev pub clashing : Collected
clashing = machine (address (10 ∷ 0 ∷ 0 ∷ 1 ∷ []) 12 ∷ address (10 ∷ 0 ∷ 0 ∷ 1 ∷ []) 7 ∷ [])

pub sound-IsWellFormed : IsWellFormed sound
unfolding our_if oid_eq
sound-IsWellFormed = record {
  nics_differ = ((refl, tt), (tt, tt));
  nics_in_range = (omega arith, (omega arith, tt));
  loads_in_range = omega arith;
  disks_differ = ((refl, tt), (tt, tt));
  disks_in_range = (omega arith, (omega arith, tt));
  processors_in_range = omega arith;
  memory_in_range = omega arith;
  zones_in_range = omega arith;
  masks_exist = ((λ i p v. omega arith), ((λ i p v. omega arith), tt));
  addresses_differ = ((refl, tt), (tt, tt));
  neighbors_differ = tt;
}

build_snapshot-built_example :
    (rows : List Row) × (build_snapshot host encode sound ≡ built rows)
    × IsSorted rows
    × Perm rows (flatten (parts host encode sound))
build_snapshot-built_example = build_snapshot-built host encode sound sound-IsWellFormed

serves_parts_example :
    (rows : List Row) × (build_snapshot host encode sound ≡ built rows)
    × ((i : ℕ) (o : Oid) (v : Value)
        → get_elem? (flatten (parts host encode sound)) i ≡ some (o, v)
        → read_variables rows (o ∷ []) ≡ (o, value v) ∷ [])
    × ((o : Oid)
        → name_count o (flatten (parts host encode sound)) ≡ 0
        → read_variables rows (o ∷ []) ≡ (o, no_such_instance) ∷ [])
serves_parts_example = serves_parts host encode sound sound-IsWellFormed

build_snapshot-clash_example :
    ((masks_raise clashing.nics clashing.addresses ≡ false)
      × ((o : Oid) × (build_snapshot host encode clashing ≡ duplicate o)))
    ⊎ ((masks_raise clashing.nics clashing.addresses ≡ true)
        × (build_snapshot host encode clashing ≡ negative_shift))
unfolding our_if
build_snapshot-clash_example =
    build_snapshot-clash host encode clashing 0 1 (address (10 ∷ 0 ∷ 0 ∷ 1 ∷ []) 12)
      (address (10 ∷ 0 ∷ 0 ∷ 1 ∷ []) 7) 1 2 (omega arith) refl refl refl refl refl

-- the prefix length that Windows gives for an illegal one
abbrev pub illegal : Collected
illegal = machine (record (address (10 ∷ 0 ∷ 0 ∷ 1 ∷ []) 12) { prefix_len = 255 } ∷ [])

build_snapshot-shift_iff_example : build_snapshot host encode illegal ≡ negative_shift
unfolding our_if
build_snapshot-shift_iff_example = (build_snapshot-shift_iff host encode illegal).1 (
  0,
  record (address (10 ∷ 0 ∷ 0 ∷ 1 ∷ []) 12) { prefix_len = 255 },
  1,
  refl,
  refl,
  refl,
  omega arith,
)

abbrev two_rows : List Row
two_rows = (1 ∷ 3 ∷ [], unsigned 4) ∷ (1 ∷ 2 ∷ [], unsigned 5) ∷ []

finish-built_iff_example :
    ((rows : List Row) × (finish two_rows ≡ built rows)) ↔ ((o : Oid) → name_count o two_rows ≤ 1)
finish-built_iff_example = finish-built_iff two_rows

-- 700 bytes for each disk
abbrev pad : ℕ → List ℕ → List ℕ
pad zero xs = xs
pad (suc n) xs = 65 ∷ pad n xs

abbrev long_output : List ℕ → List ℕ
long_output [] = []
long_output (d ∷ ds) = pad 700 (long_output ds)

first_of_three : fitting long_output (0 ∷ 1 ∷ 2 ∷ []) ≡ 0 ∷ []
unfolding fitting
first_of_three = refl

fitting-largest_example :
    (n : ℕ) × (fitting long_output (0 ∷ 1 ∷ 2 ∷ []) ≡ take n (0 ∷ 1 ∷ 2 ∷ []))
    × (n ≤ 3)
    × ((length (long_output (take n (0 ∷ 1 ∷ 2 ∷ []))) ≤ max_extend_bytes) ⊎ (n ≤ 1))
    × ((m : ℕ) → n < m → m ≤ 3 → max_extend_bytes < length (long_output (take m (0 ∷ 1 ∷ 2 ∷ []))))
fitting-largest_example = fitting-largest long_output (0 ∷ 1 ∷ 2 ∷ [])
