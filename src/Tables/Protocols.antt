-- ===== src/Tables/Protocols.antt =====
-- `build_snapshot` of deploy/jt_agent.py: the counters of IP, ICMP, TCP and UDP.
use jt_snmpd.Prelude.{
  ℕ, ◌+◌, ◌%◌, ◌^◌, Bool, true, false, Option, List, [], ◌∷◌, ◌++◌, ◌==◌, if◌then◌else◌, take,
}
use jt_snmpd.Prelude.Int.{negsuc}
use jt_snmpd.Mib.Value.{integer, Row}
use jt_snmpd.Tables.{capped_int32, counter32, gauge32, Cells, at, if_some}
use jt_snmpd.Tables.Names.{ip_group, icmp_group, tcp_group, udp_group}

-- The statistics of a protocol are the fields of the call's result in the order of their columns.
abbrev pub ip_kinds : List Bool
ip_kinds =
    false ∷ false ∷ true ∷ true ∷ true ∷ true ∷ true ∷ true ∷ true ∷ true ∷ true ∷ true ∷ false
    ∷ true ∷ true ∷ true ∷ true ∷ true ∷ true ∷ []

-- `true` is a counter
abbrev pub ip_cells : ℕ → List Bool → List ℕ → Cells
ip_cells col [] vals = []
ip_cells col (k ∷ ks) [] = []
ip_cells col (k ∷ ks) (v ∷ vals) =
    (col, (if k then counter32 v else capped_int32 v)) ∷ ip_cells (col + 1) ks vals

abbrev pub counter_cells : ℕ → List ℕ → Cells
counter_cells col [] = []
counter_cells col (v ∷ vals) = (col, counter32 v) ∷ counter_cells (col + 1) vals

unfoldable pub ip_rows : Option (List ℕ) → List Row
unfolding at
ip_rows stats = if_some stats (λ vals. at ip_group (0 ∷ []) (ip_cells 1 ip_kinds vals))

-- 13 counters of what came in, and 13 of what went out
unfoldable pub icmp_rows : Option (List ℕ × List ℕ) → List Row
unfolding at
icmp_rows stats =
    if_some stats (λ s. at icmp_group (0 ∷ []) (counter_cells 1 (take 13 s.0 ++ take 13 s.1)))

pub record TcpStats : Type 0 where
  pub rto_algorithm : ℕ
  pub rto_min : ℕ
  pub rto_max : ℕ
  pub max_conn : ℕ
  pub active_opens : ℕ
  pub passive_opens : ℕ
  pub attempt_fails : ℕ
  pub estab_resets : ℕ
  pub curr_estab : ℕ
  pub in_segs : ℕ
  pub out_segs : ℕ
  pub retrans_segs : ℕ
  pub in_errs : ℕ
  pub out_rsts : ℕ

-- 0xFFFFFFFF stands for -1, a dynamic number of connections
abbrev pub tcp_cells : TcpStats → Cells
tcp_cells t =
    (1, capped_int32 t.rto_algorithm)
    ∷ (2, capped_int32 t.rto_min)
    ∷ (3, capped_int32 t.rto_max)
    ∷ (4, (if t.max_conn == 0xFFFFFFFF then integer (negsuc 0) else capped_int32 t.max_conn))
    ∷ (5, counter32 t.active_opens)
    ∷ (6, counter32 t.passive_opens)
    ∷ (7, counter32 t.attempt_fails)
    ∷ (8, counter32 t.estab_resets)
    ∷ (9, gauge32 (t.curr_estab % 2 ^ 32))
    ∷ (10, counter32 t.in_segs)
    ∷ (11, counter32 t.out_segs)
    ∷ (12, counter32 t.retrans_segs)
    ∷ (14, counter32 t.in_errs)
    ∷ (15, counter32 t.out_rsts)
    ∷ []

unfoldable pub tcp_rows : Option TcpStats → List Row
unfolding at
tcp_rows stats = if_some stats (λ t. at tcp_group (0 ∷ []) (tcp_cells t))

pub record UdpStats : Type 0 where
  pub in_datagrams : ℕ
  pub no_ports : ℕ
  pub in_errors : ℕ
  pub out_datagrams : ℕ

abbrev pub udp_cells : UdpStats → Cells
udp_cells u =
    (1, counter32 u.in_datagrams)
    ∷ (2, counter32 u.no_ports)
    ∷ (3, counter32 u.in_errors)
    ∷ (4, counter32 u.out_datagrams)
    ∷ []

unfoldable pub udp_rows : Option UdpStats → List Row
unfolding at
udp_rows stats = if_some stats (λ u. at udp_group (0 ∷ []) (udp_cells u))
