-- ===== src/Service/Refresh.antt =====
-- Whatever fails in between, the data of the last build that succeeded is served.
use jt_snmpd.Prelude.{ℕ, ◌+◌, ◌≡◌, refl, List, [], ◌∷◌, map, arith, length}
use jt_snmpd.Mib.Oid.{Oid}
use jt_snmpd.Mib.Snapshot.{Snapshot, built, duplicate, negative_shift}
use jt_snmpd.Mib.Controller.{read_variables}
use jt_snmpd.Mib.Controller.Lookup.{search_row, answer}
use jt_snmpd.Tables.{Host, flatten}
use jt_snmpd.Tables.Devices.{DiskInfo}
use jt_snmpd.Tables.Build.{Collected, parts, build_snapshot}
use jt_snmpd.Tables.Served.{read_build_snapshot}
use jt_snmpd.Service.{Agent, refresh, run}

-- the one, if its snapshot was built, or else the other
abbrev pub newer : Snapshot → Collected → Collected → Collected
newer (built rows) c old = c
newer (duplicate o) c old = old
newer negative_shift c old = old

module _ (host : Host) (encode : List DiskInfo → List ℕ) where
  -- the data of the last round whose snapshot was built
  abbrev pub last_good : List (ℕ × Collected) → Collected → Collected
  last_good [] old = old
  last_good ((now, c) ∷ rounds) old = last_good rounds (newer (build_snapshot host encode c) c old)

  refresh-built :
      (idle now : ℕ) (c old : Collected) (s : Snapshot) (a : Agent)
      → build_snapshot host encode c ≡ s
      → build_snapshot host encode old ≡ built a.rows
      → build_snapshot host encode (newer s c old) ≡ built (refresh idle now s a).rows
  unfolding refresh
  refresh-built idle now c old (built rows) a e h = e
  refresh-built idle now c old (duplicate o) a e h = h
  refresh-built idle now c old negative_shift a e h = h

  run-built :
      (idle : ℕ) (rounds : List (ℕ × Collected)) (old : Collected) (a : Agent)
      → build_snapshot host encode old ≡ built a.rows
      → build_snapshot host encode (last_good rounds old)
        ≡ built (run host encode idle rounds a).rows
  unfolding run
  run-built idle [] old a h = h
  run-built idle ((now, c) ∷ rounds) old a h =
      let s : Snapshot = build_snapshot host encode c in
      run-built idle rounds (newer s c old) (refresh idle now s a)
        (refresh-built idle now c old s a refl h)

  refresh-count :
      (idle now : ℕ) (s : Snapshot) (a : Agent)
      → (refresh idle now s a).generation + (refresh idle now s a).failures
        ≡ a.generation + a.failures + 1
  unfolding refresh
  refresh-count idle now (built rows) a = omega arith
  refresh-count idle now (duplicate o) a = omega arith
  refresh-count idle now negative_shift a = omega arith

  run-count :
      (idle : ℕ) (rounds : List (ℕ × Collected)) (a : Agent)
      → (run host encode idle rounds a).generation + (run host encode idle rounds a).failures
        ≡ a.generation + a.failures + length rounds
  unfolding run
  run-count idle [] a = omega arith
  run-count idle ((now, c) ∷ rounds) a =
      let s : Snapshot = build_snapshot host encode c in
      omega (arith, run-count idle rounds (refresh idle now s a), refresh-count idle now s a)

  -- After any rounds GET answers from the rows that the parts add for the data of the last round whose snapshot
  -- was built, or of the first snapshot if there was none; each round counts as a generation or as a failure.
  pub run-serves :
      (idle : ℕ) (rounds : List (ℕ × Collected)) (start : Collected) (a : Agent) (names : List Oid)
      → build_snapshot host encode start ≡ built a.rows
      → (read_variables (run host encode idle rounds a).rows names
          ≡ map
              (λ name.
                answer name
                  (search_row name (flatten (parts host encode (last_good rounds start)))))
              names)
        × ((run host encode idle rounds a).generation + (run host encode idle rounds a).failures
            ≡ a.generation + a.failures + length rounds)
  run-serves idle rounds start a names h = (
    read_build_snapshot host encode (last_good rounds start) (run host encode idle rounds a).rows
        names (run-built idle rounds start a h),
    run-count idle rounds a,
  )
