-- ===== src/Service.antt =====
-- The loop of the service in deploy/jt_agent.py that rebuilds the snapshot, and what is served meanwhile.
pub mod Refresh
use jt_snmpd.Prelude.{ℕ, ◌+◌, Option, none, some, List, [], ◌∷◌}
use jt_snmpd.Gate.Defs.{Gate, prune}
use jt_snmpd.Mib.Value.{Row}
use jt_snmpd.Mib.Snapshot.{Snapshot, built, duplicate, negative_shift}
use jt_snmpd.Tables.{Host}
use jt_snmpd.Tables.Devices.{DiskInfo}
use jt_snmpd.Tables.Build.{Collected, build_snapshot}

-- the rows of the controller, the figures of the agent's health, and the gate
pub record Agent : Type 0 where
  pub rows : List Row
  pub built_at : ℕ
  pub generation : ℕ
  pub failures : ℕ
  pub gate : Option Gate

-- `_gate.prune()`, with the idle time after which a source is forgotten
abbrev pub pruned : ℕ → ℕ → Option Gate → Option Gate
pruned idle now none = none
pruned idle now (some g) = some (prune g now idle).0

abbrev pub begin : List Row → ℕ → Option Gate → Agent
begin rows now gate = record {
  rows = rows;
  built_at = now;
  generation = 1;
  failures = 0;
  gate = gate;
}

-- a round of the loop: the rows are handed over at once, and if the build fails the old ones stay
unfoldable pub refresh : ℕ → ℕ → Snapshot → Agent → Agent
refresh idle now (built rows) a = record a {
  rows = rows;
  built_at = now;
  generation = a.generation + 1;
  gate = pruned idle now a.gate;
}
refresh idle now (duplicate o) a = record a { failures = a.failures + 1 }
refresh idle now negative_shift a = record a { failures = a.failures + 1 }

-- rounds, each at a time and on what the collectors return then
unfoldable pub run : Host → (List DiskInfo → List ℕ) → ℕ → List (ℕ × Collected) → Agent → Agent
unfolding refresh
run host encode idle [] a = a
run host encode idle ((now, c) ∷ rounds) a =
    run host encode idle rounds (refresh idle now (build_snapshot host encode c) a)
