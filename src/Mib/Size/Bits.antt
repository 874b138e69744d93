-- ===== src/Mib/Size/Bits.antt =====
-- `bit_length` by its equation, and the steps that the encodings take.
use native.Mathlib.Nat.{pow-suc}
use jt_snmpd.Prelude.{ℕ, zero, suc, ◌+◌, ◌/◌, ◌≤◌, ◌<◌, ◌≡◌, refl, ap, ◌^◌, arith}
use jt_snmpd.Mib.Size.{bits, bit_length}

bits-fuel : (f g n : ℕ) → n ≤ f → n ≤ g → bits f n ≡ bits g n
unfolding bits
bits-fuel zero zero n p q = refl
bits-fuel zero (suc g) n p q = ground arith
bits-fuel (suc f) zero n p q = ground arith
bits-fuel (suc f) (suc g) n p q = ground (arith, bits-fuel f g (n / 2))

pub bit_length_zero : bit_length 0 ≡ 0
unfolding bit_length
bit_length_zero = refl

pub bit_length-half : (n : ℕ) → 0 < n → bit_length n ≡ suc (bit_length (n / 2))
unfolding bit_length
bit_length-half zero h = absurd (omega arith)
bit_length-half (suc n) h = ground (arith, bits-fuel n (suc n / 2) (suc n / 2))

bit_length-quarter : (n : ℕ) → 2 ≤ n → bit_length n ≡ 2 + bit_length (n / 4)
bit_length-quarter n h =
    let e : n / 2 / 2 ≡ n / 4 = omega arith in
    omega (
      arith,
      bit_length-half n (omega arith),
      bit_length-half (n / 2) (omega arith),
      ap bit_length e,
    )

bit_length-16 : (n : ℕ) → 8 ≤ n → bit_length n ≡ 4 + bit_length (n / 16)
bit_length-16 n h =
    let e : n / 4 / 4 ≡ n / 16 = omega arith in
    omega (
      arith,
      bit_length-quarter n (omega arith),
      bit_length-quarter (n / 4) (omega arith),
      ap bit_length e,
    )

-- seven bits are one base-128 digit
pub bit_length-128 : (n : ℕ) → 64 ≤ n → bit_length n ≡ 7 + bit_length (n / 128)
bit_length-128 n h =
    let e : n / 16 / 4 / 2 ≡ n / 128 = omega arith in
    omega (
      arith,
      bit_length-16 n (omega arith),
      bit_length-quarter (n / 16) (omega arith),
      bit_length-half (n / 16 / 4) (omega arith),
      ap bit_length e,
    )

-- eight bits are one byte
pub bit_length-256 : (n : ℕ) → 128 ≤ n → bit_length n ≡ 8 + bit_length (n / 256)
bit_length-256 n h =
    let e : n / 16 / 16 ≡ n / 256 = omega arith in
    omega
      (arith, bit_length-16 n (omega arith), bit_length-16 (n / 16) (omega arith), ap bit_length e)

pub bit_length-le : (k n : ℕ) → n < 2 ^ k → bit_length n ≤ k
bit_length-le zero n h = let e : n ≡ 0 = omega arith in rw (e, bit_length_zero) (omega arith)
bit_length-le (suc k) zero h = rw bit_length_zero (omega arith)
bit_length-le (suc k) (suc n) h = omega (
  arith,
  bit_length-half (suc n) (omega arith),
  bit_length-le k (suc n / 2) (omega (arith, rw pow-suc at h)),
)

pub bit_length-pos : (n : ℕ) → 0 < n → 0 < bit_length n
bit_length-pos n h = omega (arith, bit_length-half n h)
