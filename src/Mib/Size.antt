-- ===== src/Mib/Size.antt =====
-- The response size budget of deploy/jt_agent.py: BER sizes that are computed, not encoded.
pub mod Bits
pub mod Encoding
use jt_snmpd.Prelude.{
  ℕ, zero, suc, ◌+◌, ◌*◌, ◌/◌, Option, none, some, List, [], ◌∷◌, ltb, ◌==◌, if◌then◌else◌, length,
}
use jt_snmpd.Mib.Oid.{Oid}
use jt_snmpd.Mib.Value.{ℤ, magnitude, Value, octets, unsigned, object, integer, other}

-- int.bit_length of Python: how often a number can be halved before it is zero
bits : ℕ → ℕ → ℕ
bits zero n = 0
bits (suc fuel) n = let rest = bits fuel (n / 2) in if n == 0 then 0 else suc rest

unfoldable pub bit_length : ℕ → ℕ
unfolding bits
bit_length n = bits n n

unfoldable pub tlv_len : ℕ → ℕ
tlv_len content_len =
    if ltb content_len 0x80
    then 1 + 1 + content_len
    else 1 + 1 + (bit_length content_len + 7) / 8 + content_len

unfoldable pub sub_len : ℕ → ℕ
sub_len sub = if ltb sub 0x80 then 1 else (bit_length sub + 6) / 7

-- `for sub in (oid[0] * 40 + oid[1], *oid[2:])`
unfoldable pub subs_len : List ℕ → ℕ
unfolding sub_len
subs_len [] = 0
subs_len (sub ∷ subs) = sub_len sub + subs_len subs

unfoldable pub oid_content_len : Oid → ℕ
oid_content_len [] = 1
oid_content_len (a ∷ []) = 1
oid_content_len (a ∷ b ∷ rest) = subs_len ((a * 40 + b) ∷ rest)

unfoldable pub int_content_len : ℤ → ℕ
int_content_len v = bit_length (magnitude v) / 8 + 1

-- For a value of another type the source asks pyasn1's encoder for the size of the whole varbind;
-- `none` stands for an exception of the encoder.
unfoldable pub varbind_size : (Oid → ℕ → Option ℕ) → Oid → Value → ℕ
varbind_size encoded oid (octets bytes) =
    tlv_len (tlv_len (oid_content_len oid) + tlv_len (length bytes))
varbind_size encoded oid (unsigned n) =
    tlv_len (tlv_len (oid_content_len oid) + tlv_len (int_content_len (ℤ.pos n)))
varbind_size encoded oid (object o) =
    tlv_len (tlv_len (oid_content_len oid) + tlv_len (oid_content_len o))
varbind_size encoded oid (integer v) =
    tlv_len (tlv_len (oid_content_len oid) + tlv_len (int_content_len v))
varbind_size encoded oid (other tag) = elim (encoded oid tag) [ none ↦ 128 | some size ↦ size ]
