-- ===== src/Engine/Plan.antt =====
-- The three properties that `_plan_engine_state` promises: the counter's range, that it does not go back
-- while the identity stays, and that a clone gets an identity of its own.
use jt_snmpd.Prelude.{
  ◌+◌, ◌≤◌, ◌<◌, max, String, ◌≡◌, ◌≢◌, refl, true, Option, some, [], ◌∷◌, arith, leb,
  if◌then◌else◌, str_eq, eq_iff, Bool-cases, inl, inr, ◌⊎◌,
}
use jt_snmpd.Prelude.Int.{ℤ, int_eq}
use jt_snmpd.Prelude.Dict.{Dict, get}
use jt_snmpd.Engine.{
  Json, engine_boots_max, renamed, cloned, ceiling, EngineState, Identified, whole_part,
  nonempty_text, is_text, is_int, identify, plan_engine_state, to_json,
}

-- Whatever the file held, the counter is at least 1 and at most 2^31 - 1, and the state is for this
-- machine and this boot.
pub plan-boots_range :
    (prev : Option (Dict Json)) (guid : String) (key : ℤ) (fresh : String)
    → (1 ≤ (plan_engine_state prev guid key fresh).0.boots)
      × ((plan_engine_state prev guid key fresh).0.boots ≤ engine_boots_max)
      × ((plan_engine_state prev guid key fresh).0.machine_guid ≡ guid)
      × ((plan_engine_state prev guid key fresh).0.boot_key ≡ key)
unfolding plan_engine_state
plan-boots_range prev guid key fresh = (omega arith, omega arith, refl, refl)

-- what the identity rests on
abbrev IsKept : Dict Json → String → Identified → String → Type 0
IsKept prev guid found engine_id =
    (found.reasons ≡ [])
    × (found.id ≡ engine_id)
    × (is_text (get "machine_guid" prev) guid ≡ true)
    × (whole_part (get "boots" prev) < engine_boots_max)
    × (found.count ≡ whole_part (get "boots" prev))

identify-IsKept :
    (prev : Dict Json) (guid fresh engine_id : String)
    → IsKept prev guid (identify prev guid fresh (some engine_id)) engine_id
      ⊎ (((identify prev guid fresh (some engine_id)).reasons ≢ [])
          × ((identify prev guid fresh (some engine_id)).id ≡ fresh)
          × ((identify prev guid fresh (some engine_id)).count ≡ 0))
unfolding identify
identify-IsKept prev guid fresh engine_id =
    elim (Bool-cases (is_text (get "machine_guid" prev) guid)) [
      | inr other ↦ inr (ground arith)
      | inl same ↦ elim (Bool-cases (leb engine_boots_max (whole_part (get "boots" prev)))) [
        | inl over ↦ inr (ground arith)
        | inr below ↦ inl (ground arith)
      ]
    ]

-- The engine ID of the file stays in use exactly if no reason is given. Then the file has it as a text
-- that is not empty, it was made for this machine, and the counter is the file's, below the ceiling,
-- plus one if the boot is another; otherwise the ID is the fresh one.
pub plan-identity :
    (prev : Dict Json) (guid : String) (key : ℤ) (fresh : String) (engine_id : String)
    → nonempty_text (get "engine_id" prev) ≡ some engine_id
    → (((plan_engine_state (some prev) guid key fresh).1 ≡ [])
        × ((plan_engine_state (some prev) guid key fresh).0.engine_id ≡ engine_id)
        × (is_text (get "machine_guid" prev) guid ≡ true)
        × (whole_part (get "boots" prev) < engine_boots_max)
        × ((plan_engine_state (some prev) guid key fresh).0.boots
            ≡ max 1 (
                whole_part (get "boots" prev)
                + (if is_int (get "boot_key" prev) key then 0 else 1))))
      ⊎ (((plan_engine_state (some prev) guid key fresh).1 ≢ [])
          × ((plan_engine_state (some prev) guid key fresh).0.engine_id ≡ fresh)
          × ((plan_engine_state (some prev) guid key fresh).0.boots ≡ 1))
unfolding plan_engine_state
plan-identity prev guid key fresh engine_id e =
    rw e (elim (identify-IsKept prev guid fresh engine_id) [
      | inl k ↦ inl (k.0, k.1, k.2, k.3, ground arith)
      | inr k ↦ inr (k.0, k.1, ground arith)
    ])

-- Once a state is on file, the next plan on the same machine keeps its engine ID and counts the boot
-- exactly if the boot instant changed: a restart of the service leaves the counter, and a boot adds one.
-- The state has an engine ID that is not empty, and a counter from 1 to below the ceiling.
pub plan-next :
    (s : EngineState) (source : String) (key : ℤ) (fresh : String)
    → s.engine_id ≢ ""
    → 1 ≤ s.boots
    → s.boots < engine_boots_max
    → plan_engine_state (some (to_json s source)) s.machine_guid key fresh ≡ (
      record s { boot_key = key; boots = (if int_eq s.boot_key key then s.boots else s.boots + 1) },
      [],
    )
unfolding plan_engine_state identify to_json get is_text nonempty_text whole_part is_int
plan-next s source key fresh n l h = ground (
  arith,
  eq_iff s.engine_id "",
  eq_iff s.machine_guid s.machine_guid,
  Bool-cases (int_eq s.boot_key key),
)

-- On another machine a state on file yields the fresh engine ID and starts the counter at 1, and says
-- whether the machine was renamed (the identity came from its hostname) or cloned.
pub plan_clone :
    (s : EngineState) (source guid : String) (key : ℤ) (fresh : String)
    → s.engine_id ≢ ""
    → s.machine_guid ≢ guid
    → plan_engine_state (some (to_json s source)) guid key fresh ≡ (
      record { machine_guid = guid; engine_id = fresh; boot_key = key; boots = 1 },
      (if str_eq source "hostname" then renamed else cloned) ∷ [],
    )
unfolding plan_engine_state identify to_json get is_text nonempty_text whole_part is_int
plan_clone s source guid key fresh n h =
    ground
      (arith, eq_iff s.engine_id "", eq_iff s.machine_guid guid, Bool-cases (int_eq s.boot_key key))

-- At the ceiling the plan starts over under the fresh engine ID, with a counter of 1.
pub plan_ceiling :
    (s : EngineState) (source : String) (key : ℤ) (fresh : String)
    → s.engine_id ≢ ""
    → engine_boots_max ≤ s.boots
    → plan_engine_state (some (to_json s source)) s.machine_guid key fresh
      ≡ (record s { engine_id = fresh; boot_key = key; boots = 1 }, ceiling ∷ [])
unfolding plan_engine_state identify to_json get is_text nonempty_text whole_part is_int
plan_ceiling s source key fresh n h = ground (
  arith,
  eq_iff s.engine_id "",
  eq_iff s.machine_guid s.machine_guid,
  Bool-cases (int_eq s.boot_key key),
)
