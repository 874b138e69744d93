-- ===== src/Gate/Tlv.antt =====
-- `_tlv_sane` of deploy/preauth.py: the rough check of the outer TLV, on the bytes as numbers.
pub mod Frames
use jt_snmpd.Prelude.{
  ℕ, ◌+◌, ◌-◌, ◌*◌, Bool, false, ◌||◌, List, [], ◌∷◌, ltb, ◌==◌, if◌then◌else◌, length, take,
}

-- int.from_bytes(bytes, "big")
unfoldable pub from_bytes : ℕ → List ℕ → ℕ
from_bytes acc [] = acc
from_bytes acc (b ∷ bs) = from_bytes (acc * 256 + b) bs

-- `data[1]` and what stands behind it; `n = first & 0x7F` is `first - 0x80` for a byte of 0x80 or more
unfoldable pub length_sane : ℕ → List ℕ → Bool
unfolding from_bytes
length_sane first rest =
    if ltb first 0x80
    then first == length rest
    else let n : ℕ = first - 0x80 in
      if n == 0 || ltb 4 n || ltb (length rest) n
      then false
      else from_bytes 0 (take n rest) == length rest - n

unfoldable pub tlv_sane : List ℕ → Bool
unfolding length_sane
tlv_sane [] = false
tlv_sane (tag ∷ []) = false
tlv_sane (tag ∷ first ∷ rest) = if tag == 0x30 then length_sane first rest else false
