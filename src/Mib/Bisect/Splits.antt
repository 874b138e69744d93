-- ===== src/Mib/Bisect/Splits.antt =====
-- On a test that stays true once it is true, the loop finds where it becomes true.
use jt_snmpd.Prelude.{
  ℕ, zero, suc, ◌+◌, ◌-◌, ◌/◌, ◌≤◌, ◌<◌, ◌≡◌, Bool, true, false, arith, inl, inr, Bool-cases, ltb,
  leb, leb→le,
}
use jt_snmpd.Mib.Bisect.{bisect_loop}

-- `r` splits [lo, hi) into the indices that fail the test and those that pass it
abbrev pub Splits : (ℕ → Bool) → ℕ → ℕ → ℕ → Type 0
Splits goes_left lo hi r =
    (lo ≤ r)
    × (r ≤ hi)
    × ((i : ℕ) → lo ≤ i → i < r → goes_left i ≡ false)
    × ((i : ℕ) → r ≤ i → i < hi → goes_left i ≡ true)

module _ (goes_left : ℕ → Bool) (n : ℕ)
    (mono : (i j : ℕ) → i ≤ j → j < n → goes_left i ≡ true → goes_left j ≡ true) where
  Splits-left :
      (lo mid hi r : ℕ)
      → mid < hi
      → hi ≤ n
      → goes_left mid ≡ true
      → Splits goes_left lo mid r
      → Splits goes_left lo hi r
  Splits-left lo mid hi r p q h s = (
    s.0,
    omega arith,
    s.2,
    λ i a b. elim (Bool-cases (leb mid i)) [
      | inl after ↦ mono mid i (leb→le mid i after) (omega arith) h
      | inr before ↦ s.3 i a (ground arith)
    ],
  )

  not_before : (i j : ℕ) → i ≤ j → j < n → goes_left j ≡ false → goes_left i ≡ false
  not_before i j p q h = ground (arith, mono i j)

  Splits-right :
      (lo mid hi r : ℕ)
      → lo ≤ mid
      → mid < hi
      → hi ≤ n
      → goes_left mid ≡ false
      → Splits goes_left (mid + 1) hi r
      → Splits goes_left lo hi r
  Splits-right lo mid hi r o p q h s = (
    omega arith,
    s.1,
    λ i a b. elim (Bool-cases (leb i mid)) [
      | inl before ↦ not_before i mid (leb→le i mid before) (omega arith) h
      | inr after ↦ s.2 i (ground arith) b
    ],
    s.3,
  )

  pub bisect_loop-Splits :
      (fuel lo hi : ℕ)
      → lo ≤ hi
      → hi ≤ n
      → hi - lo ≤ fuel
      → Splits goes_left lo hi (bisect_loop goes_left fuel lo hi)
  unfolding bisect_loop
  bisect_loop-Splits zero lo hi p b q =
      (omega arith, omega arith, λ i c d. absurd (omega arith), λ i c d. absurd (omega arith))
  bisect_loop-Splits (suc fuel) lo hi p b q = elim (Bool-cases (ltb lo hi)) [
    | inr done ↦
        rw done
          (omega arith, omega arith, λ i c d. absurd (omega arith), λ i c d. absurd (ground arith))
    | inl more ↦ rw more (elim (Bool-cases (goes_left ((lo + hi) / 2))) [
      | inl left ↦ rw left (
          Splits-left lo _ hi _ (ground arith) b left (
            bisect_loop-Splits fuel lo ((lo + hi) / 2) (ground arith) (ground arith)
              (ground arith)))
      | inr right ↦ rw right (
          Splits-right lo _ hi _ (ground arith) (ground arith) b right
            (bisect_loop-Splits fuel ((lo + hi) / 2 + 1) hi (ground arith) b (ground arith)))
    ])
  ]
