-- ===== src/Tables/Extend/Fitting.antt =====
-- The disks of the row of NET-SNMP-EXTEND-MIB: as many of the first as fit.
use jt_snmpd.Prelude.{
  ℕ, zero, suc, ◌+◌, ◌-◌, ◌≤◌, ◌<◌, ◌==◌, ◌≡◌, refl, ap, sym, ◌∙◌, Bool, true, false, ◌&&◌, List,
  [], ◌∷◌, arith, ltb, length, take, Bool-cases, inl, inr, ◌⊎◌,
}
use jt_snmpd.Tables.Extend.{max_extend_bytes, pop, drop_loop, fitting}

module _ {A : Type 0} (encode : List A → List ℕ) where
  length-pop : (xs : List A) → length (pop encode xs) ≡ length xs - 1
  unfolding pop
  length-pop [] = refl
  length-pop (x ∷ []) = refl
  length-pop (x ∷ y ∷ ys) = omega (arith, length-pop (y ∷ ys))

  take-pop : (xs : List A) (n : ℕ) → n + 1 ≤ length xs → take n (pop encode xs) ≡ take n xs
  unfolding pop
  take-pop [] n h = absurd (omega (arith, h))
  take-pop (x ∷ []) zero h = refl
  take-pop (x ∷ []) (suc n) h = absurd (omega (arith, h))
  take-pop (x ∷ y ∷ ys) zero h = refl
  take-pop (x ∷ y ∷ ys) (suc n) h = ap (λ t. x ∷ t) (take-pop (y ∷ ys) n (omega (arith, h)))

  take_all : (xs : List A) → take (length xs) xs ≡ xs
  take_all [] = refl
  take_all (x ∷ xs) = ap (λ t. x ∷ t) (take_all xs)

  -- what a number of first disks is to the disks: it fits, or it is one disk, and no more disks fit
  abbrev IsLargest : List A → ℕ → Type 0
  IsLargest xs n =
      (n ≤ length xs)
      × ((length (encode (take n xs)) ≤ max_extend_bytes) ⊎ (n ≤ 1))
      × ((m : ℕ) → n < m → m ≤ length xs → max_extend_bytes < length (encode (take m xs)))

  all_of_them :
      (xs : List A)
      → (length (encode xs) ≤ max_extend_bytes) ⊎ (length xs ≤ 1)
      → IsLargest xs (length xs)
  all_of_them xs (inl fits) =
      (omega arith, inl (rw (take_all xs) fits), λ m p q. absurd (omega (arith, p, q)))
  all_of_them xs (inr one) = (omega arith, inr one, λ m p q. absurd (omega (arith, p, q)))

  not_fitting :
      (xs : List A) (n : ℕ)
      → max_extend_bytes < length (encode xs)
      → 1 < length xs
      → IsLargest (pop encode xs) n
      → IsLargest xs n
  not_fitting xs n over many (le, fit, big) =
      let short : n + 1 ≤ length xs = omega (arith, le, many, length-pop xs) in
      let same : take n (pop encode xs) ≡ take n xs = take-pop xs n short in
      (
        omega (arith, short),
        rw same at fit,
        λ m p q. elim (Bool-cases (m == length xs)) [
          | inl whole ↦
              let e : m ≡ length xs = ground (arith, whole) in
              rw (ap (λ t. take t xs) e ∙ take_all xs) over
          | inr less ↦
              let lt : m + 1 ≤ length xs = ground (arith, less, q) in
              rw (← take-pop xs m lt) (big m p (omega (arith, lt, length-pop xs)))
        ],
      )

  abbrev Dropped : List A → List A → Type 0
  Dropped xs kept = (n : ℕ) × (kept ≡ take n xs) × IsLargest xs n

  -- a round of the loop, on its two tests
  round :
      (xs kept : List A) (over many : Bool)
      → ltb max_extend_bytes (length (encode xs)) ≡ over
      → ltb 1 (length xs) ≡ many
      → Dropped (pop encode xs) kept
      → Dropped xs (elim (over && many) [ true ↦ kept | false ↦ xs ])
  round xs kept false many p q d =
      (length xs, sym (take_all xs), all_of_them xs (inl (ground (arith, p))))
  round xs kept true false p q d =
      (length xs, sym (take_all xs), all_of_them xs (inr (ground (arith, q))))
  round xs kept true true p q (n, e, large) =
      let more : 1 < length xs = ground (arith, q) in
      (
        n,
        e ∙ take-pop xs n (omega (arith, large.0, length-pop xs, more)),
        not_fitting xs n (ground (arith, p)) more large,
      )

  drop_loop_lem :
      (fuel : ℕ) (xs : List A) → length xs ≤ fuel → Dropped xs (drop_loop encode fuel xs)
  unfolding drop_loop
  drop_loop_lem zero xs h = (length xs, sym (take_all xs), all_of_them xs (inr (omega (arith, h))))
  drop_loop_lem (suc fuel) xs h =
      round xs (drop_loop encode fuel (pop encode xs)) (ltb max_extend_bytes (length (encode xs)))
        (ltb 1 (length xs)) refl refl
        (drop_loop_lem fuel (pop encode xs) (omega (arith, h, length-pop xs)))

  -- The loop that drops disks ends with the most of the first disks whose output fits in 1100 bytes: it fits,
  -- or one disk is left, and with more disks it does not fit.
  pub fitting-largest :
      (xs : List A)
      → (n : ℕ) × (fitting encode xs ≡ take n xs)
        × (n ≤ length xs)
        × ((length (encode (take n xs)) ≤ max_extend_bytes) ⊎ (n ≤ 1))
        × ((m : ℕ) → n < m → m ≤ length xs → max_extend_bytes < length (encode (take m xs)))
  unfolding fitting
  fitting-largest xs =
      let (n, e, (le, fit, big)) = drop_loop_lem (length xs) xs (omega arith) in
      (n, e, le, fit, big)
