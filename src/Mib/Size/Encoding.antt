-- ===== src/Mib/Size/Encoding.antt =====
-- The BER encoding that the sizes predict (X.690, with the encoding of SNMP's types), written as an
-- encoder, and the theorem that the sizes are its lengths.
use jt_snmpd.Prelude.{
  ℕ, zero, suc, ◌+◌, ◌*◌, ◌/◌, ◌%◌, ◌≤◌, ◌<◌, ◌≡◌, refl, ap, Option, List, [], ◌∷◌, ◌++◌, arith,
  ltb, if◌then◌else◌, length, length-append, Bool-cases, inl, inr, ltb→lt, lt→ltb,
}
use jt_snmpd.Mib.Oid.{Oid}
use jt_snmpd.Mib.Value.{ℤ, Value, octets, unsigned, object, integer}
use jt_snmpd.Mib.Size.{
  bit_length, tlv_len, sub_len, subs_len, oid_content_len, int_content_len, varbind_size,
}
use jt_snmpd.Mib.Size.Bits.{
  bit_length_zero, bit_length-128, bit_length-256, bit_length-le, bit_length-pos,
}

-- the digits of `n` in a base, most significant first, before the digits that stand already; a number
-- below the limit is one digit
digits : ℕ → ℕ → ℕ → ℕ → List ℕ → List ℕ
digits base limit zero n tail = n ∷ tail
digits base limit (suc fuel) n tail =
    let more = digits base limit fuel (n / base) (n % base ∷ tail) in
    if ltb n limit then n ∷ tail else more

-- big-endian bytes
bytes : ℕ → List ℕ
bytes n = digits 256 256 n n []

-- big-endian bytes, with a sign bit of zero
pub signed_bytes : ℕ → List ℕ
signed_bytes n = digits 256 128 n n []

-- base 128, with the high bit set on every byte but the last
mark : List ℕ → List ℕ
mark [] = []
mark (d ∷ []) = d ∷ []
mark (d ∷ e ∷ ds) = (128 + d) ∷ mark (e ∷ ds)

sub_bytes : ℕ → List ℕ
sub_bytes n = mark (digits 128 128 n n [])

pub tlv : ℕ → List ℕ → List ℕ
tlv tag content =
    if ltb (length content) 0x80
    then tag ∷ length content ∷ content
    else tag ∷ (0x80 + length (bytes (length content))) ∷ (bytes (length content) ++ content)

subs_bytes : List ℕ → List ℕ
subs_bytes [] = []
subs_bytes (sub ∷ subs) = sub_bytes sub ++ subs_bytes subs

-- the first two sub-identifiers are one number; an identifier has two of them or more
pub oid_bytes : ℕ → ℕ → List ℕ → List ℕ
oid_bytes a b rest = subs_bytes ((a * 40 + b) ∷ rest)

length-digits :
    (base limit fuel n : ℕ) (tail : List ℕ)
    → length (digits base limit fuel n tail) ≡ length (digits base limit fuel n []) + length tail
unfolding digits
length-digits base limit zero n tail = omega arith
length-digits base limit (suc fuel) n tail = ground (
  arith,
  length-digits base limit fuel (n / base) (n % base ∷ tail),
  length-digits base limit fuel (n / base) (n % base ∷ []),
)

length-digits_128 :
    (fuel n : ℕ) → n ≤ fuel → 0 < n → length (digits 128 128 fuel n []) ≡ (bit_length n + 6) / 7
unfolding digits
length-digits_128 zero n p q = absurd (omega arith)
length-digits_128 (suc fuel) n p q = elim (Bool-cases (ltb n 128)) [
  | inl one ↦ rw one (omega (arith, bit_length-le 7 n (ltb→lt n 128 one), bit_length-pos n q))
  | inr more ↦ rw more (
      let big : 128 ≤ n = ground arith in
      omega (
        arith,
        length-digits 128 128 fuel (n / 128) (n % 128 ∷ []),
        length-digits_128 fuel (n / 128) (omega arith) (omega arith),
        bit_length-128 n (omega arith),
      ))
]

length-bytes :
    (fuel n : ℕ) → n ≤ fuel → 0 < n → length (digits 256 256 fuel n []) ≡ (bit_length n + 7) / 8
unfolding digits
length-bytes zero n p q = absurd (omega arith)
length-bytes (suc fuel) n p q = elim (Bool-cases (ltb n 256)) [
  | inl one ↦ rw one (omega (arith, bit_length-le 8 n (ltb→lt n 256 one), bit_length-pos n q))
  | inr more ↦ rw more (
      let big : 256 ≤ n = ground arith in
      omega (
        arith,
        length-digits 256 256 fuel (n / 256) (n % 256 ∷ []),
        length-bytes fuel (n / 256) (omega arith) (omega arith),
        bit_length-256 n (omega arith),
      ))
]

length-signed : (fuel n : ℕ) → n ≤ fuel → length (digits 256 128 fuel n []) ≡ bit_length n / 8 + 1
unfolding digits
length-signed zero n p = let e : n ≡ 0 = omega arith in rw (e, bit_length_zero) (omega arith)
length-signed (suc fuel) n p = elim (Bool-cases (ltb n 128)) [
  | inl one ↦ rw one (omega (arith, bit_length-le 7 n (ltb→lt n 128 one)))
  | inr more ↦ rw more (
      let big : 128 ≤ n = ground arith in
      omega (
        arith,
        length-digits 256 128 fuel (n / 256) (n % 256 ∷ []),
        length-signed fuel (n / 256) (omega arith),
        bit_length-256 n big,
      ))
]

length-mark : (ds : List ℕ) → length (mark ds) ≡ length ds
unfolding mark
length-mark [] = refl
length-mark (d ∷ []) = refl
length-mark (d ∷ e ∷ ds) = ap suc (length-mark (e ∷ ds))

length-sub_bytes : (n : ℕ) → length (sub_bytes n) ≡ sub_len n
unfolding sub_bytes sub_len digits
length-sub_bytes n = elim (Bool-cases (ltb n 0x80)) [
  | inl one ↦ rw (one, length-mark) (small n (ltb→lt n 0x80 one))
  | inr more ↦ rw (more, length-mark) (length-digits_128 n n (omega arith) (ground arith))
]
  where
    small : (n : ℕ) → n < 128 → length (digits 128 128 n n []) ≡ 1
    small zero h = refl
    small (suc n) h = rw (lt→ltb (suc n) 128 h)

length-subs_bytes : (subs : List ℕ) → length (subs_bytes subs) ≡ subs_len subs
unfolding subs_bytes subs_len
length-subs_bytes [] = refl
length-subs_bytes (sub ∷ subs) = omega (
  arith,
  length-append (sub_bytes sub) (subs_bytes subs),
  length-sub_bytes sub,
  length-subs_bytes subs,
)

length-tlv : (tag : ℕ) (content : List ℕ) → length (tlv tag content) ≡ tlv_len (length content)
unfolding tlv tlv_len bytes
length-tlv tag content = elim (Bool-cases (ltb (length content) 0x80)) [
  | inl short ↦ rw short (omega arith)
  | inr long ↦ rw long (
      omega (
        arith,
        length-append (digits 256 256 (length content) (length content) []) content,
        length-bytes (length content) (length content) (omega arith) (ground arith),
      ))
]

-- The values whose encoding is written out here, and their contents; negative integers and values of
-- other types are left to pyasn1.
pub data Encodes : Value → List ℕ → Type 0 where
  octets_as : (bs : List ℕ) → Encodes (octets bs) bs
  unsigned_as : (n : ℕ) → Encodes (unsigned n) (signed_bytes n)
  integer_as : (n : ℕ) → Encodes (integer (ℤ.pos n)) (signed_bytes n)
  object_as : (a b : ℕ) (rest : List ℕ) → Encodes (object (a ∷ b ∷ rest)) (oid_bytes a b rest)

-- SEQUENCE { OBJECT IDENTIFIER, value }
pub varbind_bytes : ℕ → ℕ → List ℕ → ℕ → List ℕ → List ℕ
varbind_bytes a b rest tag content = tlv 0x30 (tlv 0x06 (oid_bytes a b rest) ++ tlv tag content)

varbind_length :
    (a b : ℕ) (rest : List ℕ) (tag : ℕ) (content : List ℕ)
    → length (varbind_bytes a b rest tag content)
      ≡ tlv_len (tlv_len (oid_content_len (a ∷ b ∷ rest)) + tlv_len (length content))
unfolding varbind_bytes oid_bytes oid_content_len
varbind_length a b rest tag content = simp (length-tlv, length-append, length-subs_bytes)

-- The size computed for a varbind is the length of its BER encoding: for every name of two or more
-- sub-identifiers, every tag, and a value that is an octet string, a counter, a gauge, a time, a
-- non-negative integer or an identifier.
pub varbind_size-length :
    (encoded : Oid → ℕ → Option ℕ) (a b : ℕ) (rest : List ℕ) (tag : ℕ) {v : Value}
    {content : List ℕ}
    → Encodes v content
    → varbind_size encoded (a ∷ b ∷ rest) v ≡ length (varbind_bytes a b rest tag content)
unfolding varbind_size signed_bytes int_content_len
varbind_size-length encoded a b rest tag (octets_as bs) = rw varbind_length
varbind_size-length encoded a b rest tag (unsigned_as n) =
    rw (varbind_length, length-signed n n (omega arith))
varbind_size-length encoded a b rest tag (integer_as n) =
    rw (varbind_length, length-signed n n (omega arith))
varbind_size-length encoded a b rest tag (object_as c d more) =
    unfold oid_bytes oid_content_len in rw (varbind_length, length-subs_bytes)
