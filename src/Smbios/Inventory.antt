-- ===== src/Smbios/Inventory.antt =====
-- What the inventory is told of a structure's fields.
use jt_snmpd.Prelude.{
  ℕ, zero, suc, ◌+◌, ◌-◌, ◌%◌, ◌^◌, ◌<◌, ◌≡◌, refl, false, some, List, [], ◌∷◌, ◌==◌, get_or,
  get_elem?, String, arith, ◌⊎◌, inl, inr, Bool-cases, Option-cases,
}
use jt_snmpd.Smbios.{Host}
use jt_snmpd.Smbios.Text.{is_repeated}
use jt_snmpd.Smbios.Fields.{
  is_placeholder, real_text, text_at, size_in_mb, u16_or_zero, u32_or_zero,
}

module _ (host : Host) where
  -- What an index into the strings of a structure gives: the empty text, or the string of that index,
  -- counted from 1 and stripped, and then it is no placeholder and not one character repeated.
  pub text_at-real :
      (strings : List String) (idx : ℕ)
      → (text_at host strings idx ≡ "")
        ⊎ ((s : String) × (0 < idx)
            × (get_elem? strings (idx - 1) ≡ some s)
            × (text_at host strings idx ≡ host.strip s)
            × (is_placeholder (host.lower (host.strip s)) ≡ false)
            × (is_repeated (host.strip s) ≡ false))
  unfolding text_at real_text
  text_at-real strings zero = inl refl
  text_at-real strings (suc idx) = elim (Option-cases (get_elem? strings idx)) [
    | inl e ↦ inl (rw (e, text_at) refl)
    | inr (s, e) ↦ elim (Bool-cases (is_placeholder (host.lower (host.strip s)))) [
      | inl p ↦ inl (rw (e, text_at, p) refl)
      | inr p ↦ elim (Bool-cases (is_repeated (host.strip s))) [
        | inl r ↦ inl (rw (e, text_at, p, r) refl)
        | inr r ↦
            let i : suc idx - 1 ≡ idx = omega arith in
            inr (s, omega arith, rw i e, rw (e, text_at, p, r) refl, p, r)
      ]
    ]
  ]

-- every number is a byte
abbrev pub AreBytes : List ℕ → Type 0
AreBytes [] = Unit
AreBytes (b ∷ bs) = (b < 256) × AreBytes bs

get_or-lt : (bs : List ℕ) (i : ℕ) → AreBytes bs → get_or bs i 0 < 256
get_or-lt [] i h = omega arith
get_or-lt (b ∷ bs) zero h = h.0
get_or-lt (b ∷ bs) (suc i) h = get_or-lt bs i h.1

u16_or_zero-lt : (d : List ℕ) (off : ℕ) → AreBytes d → u16_or_zero d off < 65536
u16_or_zero-lt d off h = ground (arith, get_or-lt d off h, get_or-lt d (off + 1) h)

-- a number below 2^31, by the bound on a remainder
rem_lt : (x : ℕ) → x % 2 ^ 31 < 2 ^ 31
rem_lt x = omega arith

size_lt : (d : List ℕ) (size : ℕ) → size < 65536 → size_in_mb d size < 2 ^ 31
unfolding size_in_mb
size_lt d size b = elim (Bool-cases (size == 0x7FFF)) [
  | inl e ↦ rw e (rem_lt (u32_or_zero d 0x1C))
  | inr n ↦ rw n (ground (arith, b))
]

-- The capacity of a memory device is below 2^31 MB, so that it fits an INTEGER of 32 bits, whatever the
-- bytes of the structure are.
pub size_in_mb-lt : (d : List ℕ) → AreBytes d → size_in_mb d (u16_or_zero d 0x0C) < 2 ^ 31
size_in_mb-lt d h = size_lt d (u16_or_zero d 0x0C) (u16_or_zero-lt d 0x0C h)
