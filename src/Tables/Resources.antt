-- ===== src/Tables/Resources.antt =====
-- `build_snapshot` of deploy/jt_agent.py: HOST-RESOURCES-MIB, the disk counters and UCD's system
-- statistics.
use jt_snmpd.Prelude.{
  ℕ, ◌+◌, ◌-◌, ◌*◌, ◌/◌, min, Option, none, some, List, [], ◌∷◌, ◌++◌, map, ◌==◌, if◌then◌else◌,
  str_eq,
}
use jt_snmpd.Mib.Oid.{Oid}
use jt_snmpd.Prelude.Int.{ℤ, pos, difference, floor_div, min_int}
use jt_snmpd.Mib.Value.{octets, object, integer, Row}
use jt_snmpd.Disks.{storage_units, int32_max}
use jt_snmpd.Tables.{
  Text, Host, int32, capped_int32, ticks, gauge32, octet, Cells, at, for_each, numbered, if_some,
  ◌&◌,
}
use jt_snmpd.Tables.Names.{hr, hr_system, hr_memory, hr_storage}

-- of PERFORMANCE_INFORMATION
pub record Perf : Type 0 where
  pub process_count : ℕ
  pub page_size : ℕ
  pub commit_limit : ℕ
  pub commit_total : ℕ
  pub physical_total : ℕ
  pub system_cache : ℕ
  pub kernel_paged : ℕ
  pub kernel_nonpaged : ℕ

-- of MEMORYSTATUSEX
pub record Memory : Type 0 where
  pub total_phys : ℕ
  pub avail_phys : ℕ
  pub total_page_file : ℕ
  pub avail_page_file : ℕ

-- `sessions` and `processes` are left out where they cannot be measured
abbrev pub hr_system_cells : Host → ℕ → List ℕ → Option ℕ → Option ℕ → Cells
hr_system_cells host up date sessions nproc =
    (1, ticks up)
    ∷ (2, octets date)
    ∷ (3, int32 0)
    ∷ (4, octet host "")
    ∷ (if_some sessions (λ n. (5, gauge32 n) ∷ [])
        ++ (if_some nproc (λ n. (6, gauge32 n) ∷ []) ++ ((7, int32 0) ∷ [])))

abbrev pub process_count : Option Perf → Option ℕ → Option ℕ
process_count none processes = processes
process_count (some p) processes = some p.process_count

unfoldable pub hr_system_rows : Host → ℕ → List ℕ → Option ℕ → Option Perf → Option ℕ → List Row
unfolding at
hr_system_rows host up date sessions perf processes =
    at hr_system (0 ∷ []) (hr_system_cells host up date sessions (process_count perf processes))

abbrev pub memory_cells : Memory → Cells
memory_cells mem = (0, capped_int32 (mem.total_phys / 1024)) ∷ []

unfoldable pub memory_rows : Memory → List Row
unfolding at
memory_rows mem = at hr_memory (0 ∷ []) (memory_cells mem)

-- Description, type, size and use in bytes. What is used may come out negative, where Windows reports more
-- available than there is.
pub record Pool : Type 0 where
  pub descr : Text
  pub kind : Oid
  pub total : ℕ
  pub used : ℤ

abbrev pub pool : Text → ℕ → ℕ → ℤ → Pool
pool descr kind total used = record {
  descr = descr;
  kind = hr ++ (2 ∷ 1 ∷ kind ∷ []);
  total = total;
  used = used;
}

abbrev pub unless_zero : ℕ → List Pool → List Pool
unless_zero n pools = if n == 0 then [] else pools

-- `max(commit_total - (phys_total - avail), 0)`, where the inner difference may be negative
unfoldable pub swap_used : ℕ → ℕ → ℕ → ℕ
swap_used commit_total phys_total avail = commit_total + avail - phys_total

unfoldable pub perf_pools : Memory → Perf → List Pool
unfolding swap_used
perf_pools mem p =
    let page : ℕ = if p.page_size == 0 then 4096 else p.page_size in
    let cache : ℕ = p.system_cache * page in
    let swap_total : ℕ = p.commit_limit * page - p.physical_total * page in
    let used : ℕ = swap_used (p.commit_total * page) (p.physical_total * page) mem.avail_phys in
    pool "Cached Memory" 1 cache (pos cache)
    ∷ (unless_zero swap_total (pool "Swap Space" 3 swap_total (pos (min used swap_total)) ∷ [])
        ++ (unless_zero (p.kernel_paged * page) (
              pool "Kernel Paged Pool" 1 (p.kernel_paged * page) (pos (p.kernel_paged * page)) ∷ [])
            ++ unless_zero (p.kernel_nonpaged * page) (
                pool "Kernel Nonpaged Pool" 1 (p.kernel_nonpaged * page)
                  (pos (p.kernel_nonpaged * page))
                ∷ [])))

-- `root` is given without its backslash at the end
pub record Volume : Type 0 where
  pub root : Text
  pub label : Text
  pub serial : Text
  pub fs : Text
  pub total : ℕ
  pub used : ℤ

abbrev pub volume_pool : Volume → Pool
volume_pool v = pool (if str_eq v.label "" then v.root else v.root & " " & v.label) 4 v.total v.used

unfoldable pub pools : Memory → Option Perf → List Volume → List Pool
unfolding perf_pools difference
pools mem perf vols =
    pool "Physical Memory" 2 mem.total_phys (difference mem.total_phys mem.avail_phys)
    ∷ pool "Virtual Memory" 3 mem.total_page_file
        (difference mem.total_page_file mem.avail_page_file)
    ∷ (if_some perf (perf_pools mem) ++ map volume_pool vols)

unfoldable pub storage_cells : Host → ℕ × Pool → Cells
unfolding storage_units floor_div
storage_cells host (idx, p) =
    let unit : ℕ = storage_units p.total in
    (1, int32 idx)
    ∷ (2, object p.kind)
    ∷ (3, octet host p.descr)
    ∷ (4, int32 unit)
    ∷ (5, capped_int32 (p.total / unit))
    ∷ (6, integer (min_int (floor_div p.used unit) int32_max))
    ∷ []

-- hrStorageTable
unfoldable pub storage_rows : Host → List Pool → List Row
unfolding at for_each numbered storage_cells
storage_rows host ps =
    for_each (numbered 1 ps) (λ p. at hr_storage (p.0 ∷ []) (storage_cells host p))
