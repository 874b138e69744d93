-- ===== src/Smart/Nvme.antt =====
-- deploy/diskhealth.py: the temperature property and the health log of NVMe, from the bytes that
-- DeviceIoControl leaves in its buffer.
use jt_snmpd.Prelude.{
  ℕ, zero, suc, ◌+◌, ◌-◌, ◌*◌, Bool, false, Option, none, some, List, [], ◌∷◌, ◌++◌, ltb, leb, ◌==◌,
  if◌then◌else◌, length, get_or,
}
use jt_snmpd.Prelude.Int.{ℤ, pos, negsuc}
use jt_snmpd.Prelude.Bytes.{u16, u32, slice}
use jt_snmpd.Smart.{Health, num, text}

-- the buffer, and how much of it the call says it has filled; `none` where the call fails
abbrev pub Reply : Type 0
Reply = Option (List ℕ × ℕ)

-- c_short
abbrev pub short_at : List ℕ → ℕ → ℤ
short_at raw off = let v : ℕ = u16 raw off in if ltb v 32768 then pos v else negsuc (65535 - v)

abbrev pub is_positive : ℤ → Bool
is_positive (pos n) = ltb 0 n
is_positive (negsuc n) = false

-- -273 or below, or 0
abbrev pub is_no_temperature : ℤ → Bool
is_no_temperature (pos n) = n == 0
is_no_temperature (negsuc n) = leb 272 n

abbrev pub when_positive : ℤ → Health → Health
when_positive v fields = if is_positive v then fields else []

-- the size of the descriptor with one sensor, and the offsets of its fields
abbrev pub temperature_size : ℕ
temperature_size = 56

unfoldable pub temperature_of : List ℕ → Health
temperature_of d =
    let t : ℤ = short_at d 42 in
    if u16 d 12 == 0
    then []
    else if is_no_temperature t
    then []
    else ("temp_c", num t)
      ∷ ("temp_source", text "storage-property")
      ∷ (when_positive (short_at d 10) (("temp_warn_c", num (short_at d 10)) ∷ [])
          ++ when_positive (short_at d 8) (("temp_crit_c", num (short_at d 8)) ∷ []))

unfoldable pub temp_via_storage_property : Reply → Health
unfolding temperature_of
temp_via_storage_property none = []
temp_via_storage_property (some (buf, ret)) =
    if ltb ret temperature_size then [] else temperature_of buf

-- int.from_bytes(raw[off:off + n], "little")
unfoldable pub le : ℕ → List ℕ → ℕ → ℕ
le zero raw off = 0
le (suc n) raw off = get_or raw off 0 + 256 * le n raw (off + 1)

-- A critical warning of 0 is left out.
unfoldable pub nvme_fields : List ℕ → Health
unfolding le
nvme_fields log =
    let crit : ℕ = get_or log 0 0 in
    let comp_k : ℕ = le 2 log 1 in
    ("health_source", text "nvme")
    ∷ ((if crit == 0 then [] else ("critical_warning", num (pos crit)) ∷ [])
        ++ ((if ltb 273 comp_k
              then ("temp_c", num (pos (comp_k - 273))) ∷ ("temp_source", text "nvme") ∷ []
              else [])
            ++ (("available_spare_pct", num (pos (get_or log 3 0)))
                ∷ ("available_spare_threshold_pct", num (pos (get_or log 4 0)))
                ∷ ("percentage_used", num (pos (get_or log 5 0)))
                ∷ ("power_on_hours", num (pos (le 16 log 128)))
                ∷ ("unsafe_shutdowns", num (pos (le 16 log 160)))
                ∷ ("media_errors", num (pos (le 16 log 176)))
                ∷ [])))

-- sizeof(_STORAGE_PROTOCOL_DATA_DESCRIPTOR); the offset and the length of the data are in it, and the offset
-- is taken from the start of the buffer
abbrev pub header_size : ℕ
header_size = 48

unfoldable pub health_via_nvme : Reply → Health
unfolding nvme_fields
health_via_nvme none = []
health_via_nvme (some (buf, ret)) =
    let off : ℕ = u32 buf 24 in
    let ln : ℕ = u32 buf 28 in
    if ltb ret header_size
    then []
    else if ltb ln 512
    then []
    else if ltb (length buf) (off + ln)
    then []
    else nvme_fields (slice buf off 512)
