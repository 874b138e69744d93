-- ===== src/Examples/SmbiosRuns.antt =====
-- A table with a baseboard of one string, a handle of 258, and the end of the table.
use jt_snmpd.Prelude.{ℕ, ◌^◌, ◌<◌, ◌≡◌, refl, List, [], ◌∷◌, inl, arith}
use jt_snmpd.Smbios.{Host, parse_smbios}
use jt_snmpd.Smbios.RoundTrip.{Entry, all_bytes, all_read, parse_smbios-all_bytes}
use jt_snmpd.Smbios.Fields.{size_in_mb, u16_or_zero}
use jt_snmpd.Smbios.Inventory.{size_in_mb-lt}

abbrev host : Host
host = record { decode = λ bytes. "text"; strip = λ s. s; lower = λ s. s }

abbrev board : Entry
board = record { kind = 2; handle = 258; body = 1 ∷ 0 ∷ []; texts = (65 ∷ 66 ∷ []) ∷ [] }

abbrev last : Entry
last = record { kind = 127; handle = 0; body = []; texts = [] }

parse_smbios-all_bytes_example :
    parse_smbios host
      (0 ∷ 3 ∷ 2 ∷ 0 ∷ 0 ∷ 0 ∷ 0 ∷ 0 ∷ all_bytes host last refl tt (7 ∷ []) (board ∷ []))
    ≡ all_read host last refl tt (7 ∷ []) (board ∷ [])
parse_smbios-all_bytes_example =
    parse_smbios-all_bytes host last refl tt (7 ∷ []) (board ∷ []) 0 3 2 0 0 0 0 0 (omega arith)
      (refl, (omega arith, (refl, (refl, tt)), tt), tt) (inl refl)

abbrev sized : List ℕ
sized = 17 ∷ 14 ∷ 0 ∷ 0 ∷ 0 ∷ 0 ∷ 0 ∷ 0 ∷ 0 ∷ 0 ∷ 0 ∷ 0 ∷ 0 ∷ 64 ∷ []

size_in_mb-lt_example : size_in_mb sized (u16_or_zero sized 0x0C) < 2 ^ 31
size_in_mb-lt_example = size_in_mb-lt sized (ground arith)
