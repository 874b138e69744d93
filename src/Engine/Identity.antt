-- ===== src/Engine/Identity.antt =====
-- `_new_engine_id` and `_engine_id`: the identifier, written as hexadecimal text and read back.
use jt_snmpd.Prelude.{
  ℕ, zero, suc, ◌+◌, ◌-◌, ◌*◌, ◌/◌, ◌%◌, ◌<◌, ◌^◌, String, ◌≡◌, refl, ap, ◌&&◌, Option, none, some,
  List, [], ◌∷◌, ◌++◌, arith, ltb, leb, if◌then◌else◌, length, take, length-take,
}

abbrev pub engine_pen : ℕ
engine_pen = 99999

-- bytes([(PEN >> 24) & 0xFF | 0x80, (PEN >> 16) & 0xFF, (PEN >> 8) & 0xFF, PEN & 0xFF, 4])
abbrev pub head : List ℕ
head =
    (engine_pen / 2 ^ 24 % 256 + 0x80)
    ∷ (engine_pen / 2 ^ 16 % 256)
    ∷ (engine_pen / 2 ^ 8 % 256)
    ∷ (engine_pen % 256)
    ∷ 4
    ∷ []

-- one hexadecimal digit, as its ASCII code
abbrev pub hex_digit : ℕ → ℕ
hex_digit n = if ltb n 10 then b'0' + n else b'a' + (n - 10)

-- bytes.hex()
unfoldable pub hex : List ℕ → List ℕ
hex [] = []
hex (b ∷ bs) = hex_digit (b / 16) ∷ hex_digit (b % 16) ∷ hex bs

-- the digits that `bytes.fromhex` takes
unfoldable pub hex_value : ℕ → Option ℕ
hex_value c =
    if leb b'0' c && leb c b'9'
    then some (c - b'0')
    else if leb b'a' c && leb c b'f'
    then some (c - b'a' + 10)
    else if leb b'A' c && leb c b'F'
    then some (c - b'A' + 10)
    else none

abbrev pub join : Option ℕ → Option ℕ → Option (List ℕ) → Option (List ℕ)
join (some h) (some l) (some bs) = some ((h * 16 + l) ∷ bs)
join _ _ _ = none

-- bytes.fromhex of a text without blanks; `none` is its `ValueError`
unfoldable pub fromhex : List ℕ → Option (List ℕ)
unfolding hex_value
fromhex [] = some []
fromhex (c ∷ []) = none
fromhex (c ∷ d ∷ cs) = join (hex_value c) (hex_value d) (fromhex cs)

-- `sha256` is hashlib's digest of a GUID's UTF-8 bytes
unfoldable pub new_engine_id : (String → List ℕ) → String → List ℕ
unfolding hex
new_engine_id sha256 machine_guid = hex (head ++ take 16 (sha256 machine_guid))

abbrev pub AreBytes : List ℕ → Type 0
AreBytes [] = Unit
AreBytes (b ∷ bs) = (b < 256) × AreBytes bs

hex_value-hex_digit : (n : ℕ) → n < 16 → hex_value (hex_digit n) ≡ some n
unfolding hex_value
hex_value-hex_digit n h = ground arith

fromhex-hex : (bs : List ℕ) → AreBytes bs → fromhex (hex bs) ≡ some bs
unfolding fromhex hex
fromhex-hex [] h = refl
fromhex-hex (b ∷ bs) h =
    rw
      (
        hex_value-hex_digit (b / 16) (omega arith),
        hex_value-hex_digit (b % 16) (omega arith),
        fromhex-hex bs h.1,
      )
      (ap (λ n. some (n ∷ bs)) (omega arith))

AreBytes-take : (n : ℕ) (bs : List ℕ) → AreBytes bs → AreBytes (take n bs)
AreBytes-take zero bs h = tt
AreBytes-take (suc n) [] h = tt
AreBytes-take (suc n) (b ∷ bs) h = (h.0, AreBytes-take n bs h.1)

length-take_16 : (bs : List ℕ) → length bs ≡ 32 → length (take 16 bs) ≡ 16
length-take_16 bs h = omega (arith, length-take 16 bs)

-- The engine ID that is served is the one that was written: the hexadecimal text of a new identity reads
-- back as its bytes, which are 21, at most the 32 of RFC 3411, with the top bit of the first one set. The
-- digest is one of 32 bytes, as SHA-256 gives.
pub fromhex-new_engine_id :
    (sha256 : String → List ℕ) (guid : String)
    → length (sha256 guid) ≡ 32
    → AreBytes (sha256 guid)
    → (fromhex (new_engine_id sha256 guid) ≡ some (head ++ take 16 (sha256 guid)))
      × (length (head ++ take 16 (sha256 guid)) ≡ 21)
unfolding new_engine_id
fromhex-new_engine_id sha256 guid l h = (
  fromhex-hex (head ++ take 16 (sha256 guid)) (
    omega arith,
    (omega arith, (omega arith, (omega arith, (omega arith, AreBytes-take 16 _ h)))),
  ),
  omega (arith, length-take_16 (sha256 guid) l),
)
