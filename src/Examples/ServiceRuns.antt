-- ===== src/Examples/ServiceRuns.antt =====
-- A service that starts well and whose next two rounds find one address on two interfaces.
use jt_snmpd.Prelude.{ℕ, ◌+◌, ◌≡◌, none, List, [], ◌∷◌, map}
use jt_snmpd.Mib.Oid.{Oid}
use jt_snmpd.Mib.Controller.{read_variables}
use jt_snmpd.Mib.Controller.Lookup.{search_row, answer}
use jt_snmpd.Tables.{flatten}
use jt_snmpd.Tables.Build.{Collected, parts}
use jt_snmpd.Tables.Unique.{build_snapshot-built}
use jt_snmpd.Service.{Agent, begin, run}
use jt_snmpd.Service.Refresh.{last_good, run-serves}
use jt_snmpd.Examples.TableRuns.{host, encode, sound, clashing, sound-IsWellFormed}

abbrev started : Agent
started = begin (build_snapshot-built host encode sound sound-IsWellFormed).0 7 none

abbrev rounds : List (ℕ × Collected)
rounds = (12, clashing) ∷ (17, clashing) ∷ []

abbrev uptime : Oid
uptime = 1 ∷ 3 ∷ 6 ∷ 1 ∷ 2 ∷ 1 ∷ 1 ∷ 3 ∷ 0 ∷ []

run-serves_example :
    (read_variables (run host encode 600 rounds started).rows (uptime ∷ [])
      ≡ map
          (λ name.
            answer name
              (search_row name (flatten (parts host encode (last_good host encode rounds sound)))))
          (uptime ∷ []))
    × ((run host encode 600 rounds started).generation
          + (run host encode 600 rounds started).failures
        ≡ 1 + 0 + 2)
run-serves_example =
    run-serves host encode 600 rounds sound started (uptime ∷ [])
      (build_snapshot-built host encode sound sound-IsWellFormed).1
