-- ===== src/Smbios/Area.antt =====
-- The string area behind a structure: what the parser makes of the area that a list of strings has.
use jt_snmpd.Prelude.{
  ap₂, ℕ, suc, ◌+◌, ◌-◌, ◌<◌, ◌≡◌, refl, sym, ap, ◌∙◌, true, false, List, [], ◌∷◌, ◌++◌, map, ◌==◌,
  if◌then◌else◌, length, take, drop, String, arith, length-append,
}
use jt_snmpd.Prelude.Bytes.{slice}
use jt_snmpd.Smbios.{Host, strings_loop, strings, starts_with_nul}

-- no byte is zero
abbrev pub NoNul : List ℕ → Type 0
NoNul [] = Unit
NoNul (b ∷ bs) = ((b == 0) ≡ false) × NoNul bs

-- each string has a byte, and no byte is zero
abbrev pub AreTexts : List (List ℕ) → Type 0
AreTexts [] = Unit
AreTexts (t ∷ ts) = (0 < length t) × NoNul t × AreTexts ts

-- each string with a zero byte behind it, and another zero byte at the end
unfoldable pub terminated : List (List ℕ) → List ℕ
terminated [] = 0 ∷ []
terminated (t ∷ ts) = t ++ (0 ∷ terminated ts)

-- with no string there are two zero bytes
unfoldable pub area_of : List (List ℕ) → List ℕ
unfolding terminated
area_of [] = 0 ∷ 0 ∷ []
area_of (t ∷ ts) = terminated (t ∷ ts)

pub append_assoc : (xs ys zs : List ℕ) → (xs ++ ys) ++ zs ≡ xs ++ (ys ++ zs)
append_assoc [] ys zs = refl
append_assoc (x ∷ xs) ys zs = ap (λ zs. x ∷ zs) (append_assoc xs ys zs)

pub drop-append : (xs ys : List ℕ) → drop (length xs) (xs ++ ys) ≡ ys
drop-append [] ys = refl
drop-append (x ∷ xs) ys = drop-append xs ys

pub take-append : (xs ys : List ℕ) → take (length xs) (xs ++ ys) ≡ xs
take-append [] ys = refl
take-append (x ∷ xs) ys = ap (λ zs. x ∷ zs) (take-append xs ys)

-- a piece in the middle
pub slice_middle : (pre t post : List ℕ) → slice (pre ++ (t ++ post)) (length pre) (length t) ≡ t
unfolding slice
slice_middle pre t post = rw (drop-append pre (t ++ post)) (take-append t post)

starts_with_nul-terminated :
    (t : List ℕ) (ts : List (List ℕ)) (tail : List ℕ)
    → AreTexts (t ∷ ts)
    → starts_with_nul (terminated (t ∷ ts) ++ tail) ≡ false
unfolding terminated starts_with_nul
starts_with_nul-terminated [] ts tail h = absurd (omega (arith, h.0))
starts_with_nul-terminated (b ∷ bs) ts tail h = h.1.0

module _ (host : Host) (blob : List ℕ) where
  abbrev loop : ℕ → ℕ → List ℕ → List String × ℕ
  loop = strings_loop host blob

  -- the scan runs over the bytes of a string
  loop_over :
      (start pos : ℕ) (t rest : List ℕ)
      → NoNul t
      → loop start pos (t ++ rest) ≡ loop start (pos + length t) rest
  unfolding strings_loop
  loop_over start pos [] rest h = ap (λ p. loop start p rest) (omega arith)
  loop_over start pos (b ∷ bs) rest h =
      let e : (pos + 1) + length bs ≡ pos + suc (length bs) = omega arith in
      rw (h.0) (loop_over start (pos + 1) bs rest h.1 ∙ ap (λ p. loop start p rest) e)

  -- what the loop returns at the zero byte behind a string; `p` is the place behind that byte
  abbrev after : List ℕ → ℕ → List ℕ → List String × ℕ
  after t p rest =
      if starts_with_nul rest
      then (host.decode t ∷ [], p + 1)
      else (host.decode t ∷ (loop p p rest).0, (loop p p rest).1)

  loop_end :
      (start n : ℕ) (rest : List ℕ)
      → 0 < n
      → loop start (start + n) (0 ∷ rest) ≡ after (slice blob start n) (start + n + 1) rest
  unfolding strings_loop
  loop_end start n rest h =
      let e : start + n - start ≡ n = omega arith in
      let f : (start + n == start) ≡ false = ground arith in
      let g : start + n + 2 ≡ start + n + 1 + 1 = omega arith in rw (f, e, g) refl

  -- one string of the area, and what follows it
  loop-text :
      (pre t rest : List ℕ)
      → blob ≡ pre ++ (t ++ (0 ∷ rest))
      → 0 < length t
      → NoNul t
      → loop (length pre) (length pre) (t ++ (0 ∷ rest))
        ≡ after t (length (pre ++ (t ++ (0 ∷ [])))) rest
  loop-text pre t rest e h n =
      let f : slice blob (length pre) (length t) ≡ t = rw e (slice_middle pre t (0 ∷ rest)) in
      let g : length pre + length t + 1 ≡ length (pre ++ (t ++ (0 ∷ []))) =
        omega (arith, length-append pre (t ++ (0 ∷ [])), length-append t (0 ∷ [])) in
      loop_over (length pre) (length pre) t (0 ∷ rest) n
      ∙ (loop_end (length pre) (length t) rest h ∙ ap₂ (λ w p. after w p rest) f g)

terminated-append :
    (t : List ℕ) (ts : List (List ℕ)) (tail : List ℕ)
    → terminated (t ∷ ts) ++ tail ≡ t ++ (0 ∷ (terminated ts ++ tail))
unfolding terminated
terminated-append t ts tail = append_assoc t (0 ∷ terminated ts) tail

length-terminated :
    (t : List ℕ) (ts : List (List ℕ))
    → length (terminated (t ∷ ts)) ≡ length t + 1 + length (terminated ts)
unfolding terminated
length-terminated t ts = omega (arith, length-append t (0 ∷ terminated ts))

-- the text before it, its zero byte and the rest
split_at_text : (pre t rest : List ℕ) → pre ++ (t ++ (0 ∷ rest)) ≡ (pre ++ (t ++ (0 ∷ []))) ++ rest
split_at_text pre t rest =
    sym
      (append_assoc pre (t ++ (0 ∷ [])) rest ∙ ap (λ zs. pre ++ zs) (append_assoc t (0 ∷ []) rest))

module _ (host : Host) (blob tail : List ℕ) where
  abbrev area_read : List ℕ → List (List ℕ) → List String × ℕ
  area_read pre ts = (map host.decode ts, length pre + length (terminated ts))

  after_last :
      (pre t : List ℕ)
      → after host blob t (length (pre ++ (t ++ (0 ∷ [])))) (terminated [] ++ tail)
        ≡ area_read pre (t ∷ [])
  unfolding terminated starts_with_nul
  after_last pre t =
      ap (λ n. (host.decode t ∷ [], n))
        (omega (
          arith,
          length-append pre (t ++ (0 ∷ [])),
          length-append t (0 ∷ []),
          length-append t (0 ∷ 0 ∷ []),
        ))

  loop-terminated :
      (pre t : List ℕ) (ts : List (List ℕ))
      → blob ≡ pre ++ (terminated (t ∷ ts) ++ tail)
      → AreTexts (t ∷ ts)
      → strings_loop host blob (length pre) (length pre) (terminated (t ∷ ts) ++ tail)
        ≡ area_read pre (t ∷ ts)
  loop-terminated pre t [] e h =
      let f = terminated-append t [] tail in
      rw f
        (loop-text host blob pre t (terminated [] ++ tail) (rw f at e) h.0 h.1 ∙ after_last pre t)
  loop-terminated pre t (u ∷ us) e h =
      let f = terminated-append t (u ∷ us) tail in
      let rest = terminated (u ∷ us) ++ tail in
      let e' : blob ≡ pre ++ (t ++ (0 ∷ rest)) = rw f at e in
      let pre' = pre ++ (t ++ (0 ∷ [])) in
      let z = starts_with_nul-terminated u us tail h.2 in
      let r = loop-terminated pre' u us (e' ∙ split_at_text pre t rest) h.2 in
      let k : length pre' + length (terminated (u ∷ us))
          ≡ length pre + length (terminated (t ∷ u ∷ us)) =
        omega (
          arith,
          length-append pre (t ++ (0 ∷ [])),
          length-append t (0 ∷ []),
          length-terminated t (u ∷ us),
        ) in
      let step : after host blob t (length pre') rest ≡ area_read pre (t ∷ u ∷ us) =
        rw z (
          ap (λ x. (host.decode t ∷ x.0, x.1)) r ∙ ap (λ n. (map host.decode (t ∷ u ∷ us), n)) k) in
      rw f (loop-text host blob pre t rest e' h.0 h.1 ∙ step)

  -- The string area of a list of strings is read as those strings, and the next structure begins
  -- behind it.
  pub strings-area_of :
      (pre : List ℕ) (ts : List (List ℕ))
      → blob ≡ pre ++ (area_of ts ++ tail)
      → AreTexts ts
      → strings host blob (length pre) ≡ (map host.decode ts, length pre + length (area_of ts))
  unfolding strings area_of strings_loop
  strings-area_of pre [] e h =
      let d : drop (length pre) blob ≡ 0 ∷ 0 ∷ tail = rw e (drop-append pre (0 ∷ 0 ∷ tail)) in
      let f : (length pre == length pre) ≡ true = ground arith in rw (d, f) refl
  strings-area_of pre (t ∷ ts) e h =
      let d : drop (length pre) blob ≡ terminated (t ∷ ts) ++ tail =
        rw e (drop-append pre (terminated (t ∷ ts) ++ tail)) in
      rw d (loop-terminated pre t ts e h)
