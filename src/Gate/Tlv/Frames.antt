-- ===== src/Gate/Tlv/Frames.antt =====
-- What `_tlv_sane` accepts: exactly the packets that are one SEQUENCE with a definite length of at
-- most four bytes, and nothing behind it.
use jt_snmpd.Prelude.{
  ℕ, ◌+◌, ◌-◌, ◌≤◌, ◌<◌, ◌≡◌, refl, sym, ap, true, List, [], ◌∷◌, ◌++◌, arith, length, take, drop,
  ◌↔◌, ◌⊎◌, inl, inr, length-append, take-append-drop, length-take, length-drop, Bool-cases, ltb,
}
use jt_snmpd.Gate.Tlv.{from_bytes, length_sane, tlv_sane}

-- A length below 128 stands in the byte itself; a longer one, in `n` bytes behind 0x80 + n.
abbrev pub HasLength : ℕ → List ℕ → Type 0
HasLength first rest =
    ((first < 0x80) × (first ≡ length rest))
    ⊎ ((field : List ℕ) × (content : List ℕ) × (first ≡ 0x80 + length field)
        × (0 < length field)
        × (length field ≤ 4)
        × (rest ≡ field ++ content)
        × (from_bytes 0 field ≡ length content))

abbrev pub IsFramed : List ℕ → Type 0
IsFramed [] = ⊥
IsFramed (tag ∷ []) = ⊥
IsFramed (tag ∷ first ∷ rest) = (tag ≡ 0x30) × HasLength first rest

take-append {ℓ} : {A : Type ℓ} (xs ys : List A) → take (length xs) (xs ++ ys) ≡ xs
take-append [] ys = refl
take-append (x ∷ xs) ys = ap (◌∷◌ x) (take-append xs ys)

HasLength-of_sane :
    (first : ℕ) (rest : List ℕ) → length_sane first rest ≡ true → HasLength first rest
unfolding length_sane
HasLength-of_sane first rest h = elim (Bool-cases (ltb first 0x80)) [
  | inl short ↦ inl (ground arith, ground arith)
  | inr long ↦ inr (
    take (first - 0x80) rest,
    drop (first - 0x80) rest,
    ground (arith, length-take (first - 0x80) rest),
    ground (arith, length-take (first - 0x80) rest),
    ground (arith, length-take (first - 0x80) rest),
    sym (take-append-drop (first - 0x80) rest),
    ground (arith, length-drop (first - 0x80) rest),
  )
]

sane_of_HasLength :
    (first : ℕ) (rest : List ℕ) → HasLength first rest → length_sane first rest ≡ true
unfolding length_sane
sane_of_HasLength first rest (inl short) = ground arith
sane_of_HasLength first rest (inr (field, content, e, p, q, f, v)) = ground (
  arith,
  length-append field content,
  take-append field content,
  ap length f,
  ap (take (length field)) f,
)

-- The check accepts a packet if and only if it starts with 0x30 and the length field behind it
-- gives, in the short or in the long form of up to four bytes, exactly the bytes that are left.
pub tlv_sane-IsFramed : (packet : List ℕ) → (tlv_sane packet ≡ true) ↔ IsFramed packet
unfolding tlv_sane
tlv_sane-IsFramed [] = (λ h. cc, λ h. absurd h)
tlv_sane-IsFramed (tag ∷ []) = (λ h. cc, λ h. absurd h)
tlv_sane-IsFramed (tag ∷ first ∷ rest) = (
  λ h. (ground arith, HasLength-of_sane first rest (ground arith)),
  λ h. ground (arith, sane_of_HasLength first rest h.1),
)
