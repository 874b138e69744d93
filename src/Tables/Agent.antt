-- ===== src/Tables/Agent.antt =====
-- `_collector` of deploy/jt_agent.py and the rows by which the agent reports its own health. Times are in
-- hundredths of a second.
use jt_snmpd.Prelude.{
  ℕ, ◌+◌, ◌-◌, ◌/◌, Bool, Option, none, some, List, [], ◌∷◌, ◌++◌, ◌==◌, if◌then◌else◌, str_eq,
}
use jt_snmpd.Prelude.Dict.{Dict, get, put}
use jt_snmpd.Mib.Value.{Row}
use jt_snmpd.Gate.Defs.{Counters}
use jt_snmpd.Tables.{
  Text, Host, int32, counter32, ticks, gauge32, octet, Cells, at, for_each, numbered, if_some,
}
use jt_snmpd.Tables.Names.{jt_agent, jt_collector}

-- 1 = ok, 3 = failed; `last_ok` is 0 where there was no success yet
pub record Status : Type 0 where
  pub status : ℕ
  pub last_ok : ℕ
  pub duration_ms : ℕ
  pub errors : ℕ
  pub last_error : Text

abbrev pub no_runs : Status
no_runs = record { status = 1; last_ok = 0; duration_ms = 0; errors = 0; last_error = "" }

-- what the collector's function did: a result, or an exception with its text, cut to 200 characters
pub data Ran (A : Type 0) : Type 0 where
  returned : A → Ran A
  raised : Text → Ran A

abbrev pub status_of : Text → Dict Status → Status
status_of name d = elim (get name d) [ none ↦ no_runs | some s ↦ s ]

abbrev pub ran_ok : Status → ℕ → ℕ → Status
ran_ok s now ms = record s { status = 1; last_ok = now; last_error = ""; duration_ms = ms }

abbrev pub ran_failing : Status → Text → ℕ → Status
ran_failing s e ms = record s {
  status = 3;
  errors = s.errors + 1;
  last_error = e;
  duration_ms = ms;
}

-- The result, and the statuses after it. A failing collector gives its default.
unfoldable pub collector : {A : Type 0} → Text → Ran A → A → ℕ → ℕ → Dict Status → A × Dict Status
collector name (returned a) default now ms d = (a, put name (ran_ok (status_of name d) now ms) d)
collector name (raised e) default now ms d =
    (default, put name (ran_failing (status_of name d) e ms) d)

abbrev pub collector_cells : Host → ℕ → ℕ × (Text × Status) → Cells
collector_cells host now (ci, (cname, st)) =
    (1, int32 ci)
    ∷ (2, octet host cname)
    ∷ (3, int32 1)
    ∷ (4, int32 st.status)
    ∷ (5, ticks (if st.last_ok == 0 then 0 else now - st.last_ok))
    ∷ (6, gauge32 st.duration_ms)
    ∷ (7, counter32 st.errors)
    ∷ (8, octet host st.last_error)
    ∷ []

-- jtAgentCollectorTable, over the statuses sorted by name
unfoldable pub collector_rows : Host → ℕ → List (Text × Status) → List Row
unfolding at for_each numbered
collector_rows host now statuses =
    for_each (numbered 1 statuses) (λ c. at jt_collector (c.0 ∷ []) (collector_cells host now c))

pub record AgentInfo : Type 0 where
  pub version : Text
  pub build_date : Text
  pub start : ℕ
  pub built : ℕ
  pub build_ms : ℕ
  pub rss : Option ℕ
  pub threads : ℕ
  pub handles : Option ℕ
  pub config_source : Text
  pub config_path : Text
  pub log_dir : Text
  pub install_dir : Text
  pub community : Text
  pub failures : ℕ

-- `_config_warnings`
unfoldable pub config_warnings : Text → Text
config_warnings community =
    if str_eq community ""
    then "none"
    else if str_eq community "public"
    then "v2c enabled; default community 'public'"
    else if str_eq community "private"
    then "v2c enabled; default community 'private'"
    else "v2c enabled"

-- in seconds, 0 before the first snapshot
unfoldable pub snapshot_age : ℕ → ℕ → ℕ
snapshot_age now built = if built == 0 then 0 else (now - built) / 100

abbrev pub gate_cells : Option Counters → Cells
gate_cells none =
    (31, counter32 0)
    ∷ (32, counter32 0)
    ∷ (33, counter32 0)
    ∷ (34, counter32 0)
    ∷ (35, counter32 0)
    ∷ (36, counter32 0)
    ∷ []
gate_cells (some c) =
    (31, counter32 c.acl)
    ∷ (32, counter32 c.oversize)
    ∷ (33, counter32 c.rate_limit)
    ∷ (34, counter32 c.malformed)
    ∷ (35, counter32 c.passed)
    ∷ (36, counter32 c.source_table_full)
    ∷ []

-- what is not to be read is left out
abbrev pub agent_cells : Host → ℕ → AgentInfo → Cells
agent_cells host now a =
    (1, octet host a.version)
    ∷ (2, octet host a.build_date)
    ∷ (3, ticks (now - a.start))
    ∷ (if_some a.rss (λ n. (6, gauge32 n) ∷ [])
        ++ ((7, gauge32 a.threads)
            ∷ (if_some a.handles (λ n. (8, gauge32 n) ∷ [])
                ++ ((9, gauge32 (snapshot_age now a.built))
                    ∷ (10, gauge32 a.build_ms)
                    ∷ (11, int32 1)
                    ∷ (12, octet host a.config_source)
                    ∷ (13, octet host "none")
                    ∷ (20, octet host a.config_path)
                    ∷ (21, octet host a.log_dir)
                    ∷ (22, octet host a.install_dir)
                    ∷ (23, octet host (config_warnings a.community))
                    ∷ (30, counter32 a.failures)
                    ∷ []))))

unfoldable pub agent_rows : Host → ℕ → AgentInfo → Option Counters → List Row
unfolding at snapshot_age config_warnings
agent_rows host now a gate = at jt_agent (0 ∷ []) (agent_cells host now a ++ gate_cells gate)

-- the battery, in the agent's own subtree
pub record Battery : Type 0 where
  pub percent : ℕ
  pub on_ac : Bool
  pub seconds_left : Option ℕ

abbrev pub battery_cells : Battery → Cells
battery_cells b =
    (40, gauge32 b.percent)
    ∷ (41, int32 (if b.on_ac then 1 else 2))
    ∷ if_some b.seconds_left (λ n. (42, gauge32 n) ∷ [])

unfoldable pub battery_rows : Option Battery → List Row
unfolding at
battery_rows b = if_some b (λ bat. at jt_agent (0 ∷ []) (battery_cells bat))
