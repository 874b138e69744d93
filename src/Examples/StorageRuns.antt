-- ===== src/Examples/StorageRuns.antt =====
-- A save of the number 2 over a disk that holds 1.
use jt_snmpd.Prelude.{ℕ, ◌≡◌, refl, Bool, true, false, none, some, ◌⊎◌}
use jt_snmpd.Storage.{whole, torn, Disk, save, save_steps, load, back_up, write_tmp, open_tmp}
use jt_snmpd.Storage.Crash.{All, load-save, load-save_steps, damaged_main_lost}

abbrev any : ℕ → Bool
any n = true

abbrev one : Disk ℕ
one = record { main = some (whole 1); bak = none; tmp = none }

abbrev recovered : Disk ℕ
recovered = record { main = some torn; bak = some (whole 1); tmp = none }

load-save_example : load any (save false 2 one) ≡ some 2
load-save_example = load-save any 2 refl false one

load-save_steps_example :
    All (λ d. (load any d ≡ some 1) ⊎ (load any d ≡ some 2)) (save_steps false 2 one)
load-save_steps_example = load-save_steps any 2 refl false one 1 refl refl

damaged_main_lost_example :
    (load any recovered ≡ some 1)
    × (load any (back_up false (write_tmp 2 (open_tmp recovered))) ≡ none)
damaged_main_lost_example = damaged_main_lost any 2 refl recovered 1 refl refl refl
