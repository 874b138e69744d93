-- ===== src/Sensors/Bounds.antt =====
-- What the parser of a WMI data block returns on any buffer.
use jt_snmpd.Prelude.Bytes.{u32_at-some}
use jt_snmpd.Prelude.{
  ℕ, zero, suc, ◌+◌, ◌-◌, ◌*◌, ◌/◌, ◌≤◌, ◌<◌, ◌≡◌, refl, Option, some, List, [], ◌∷◌, ltb, length,
  arith, tests, Bool-cases, inl, inr,
}
use jt_snmpd.Sensors.{
  Span, fixed_spans, checked_fixed_spans, keep_span, table_spans, find_spans, is_fixed,
}

-- a span that is not empty and ends by the limit
abbrev pub IsInside : ℕ → Span → Type 0
IsInside limit s = (0 < s.1) × (s.0 + s.1 ≤ limit)

abbrev pub AllInside : ℕ → List Span → Type 0
AllInside limit [] = Unit
AllInside limit (s ∷ ss) = IsInside limit s × AllInside limit ss

fixed_spans-inside :
    (k i data_off inst_size limit : ℕ)
    → 0 < inst_size
    → AllInside limit (fixed_spans k i data_off inst_size limit)
unfolding fixed_spans
fixed_spans-inside zero i data_off inst_size limit p = tt
fixed_spans-inside (suc k) i data_off inst_size limit p =
    ground (arith, fixed_spans-inside k (i + 1) data_off inst_size limit)

length-fixed_spans-le :
    (k i data_off inst_size limit : ℕ) → length (fixed_spans k i data_off inst_size limit) ≤ k
unfolding fixed_spans
length-fixed_spans-le zero i data_off inst_size limit = omega arith
length-fixed_spans-le (suc k) i data_off inst_size limit =
    ground (arith, length-fixed_spans-le k (i + 1) data_off inst_size limit)

-- what the scan of either layout returns
abbrev pub Found : ℕ → ℕ → Option (List Span) → Type 0
Found k limit o =
    (spans : List Span) × (o ≡ some spans) × (length spans ≤ k) × AllInside limit spans

keep_span-inside :
    (k limit off n : ℕ) (spans : List Span)
    → length spans ≤ k
    → AllInside limit spans
    → (length (keep_span limit off n spans) ≤ suc k) × AllInside limit (keep_span limit off n spans)
unfolding keep_span
keep_span-inside k limit off n spans h a = ground arith

table_spans-Found :
    (k i : ℕ) (raw : List ℕ) (limit : ℕ)
    → limit ≤ length raw
    → 60 + (i + k) * 8 ≤ limit
    → Found k limit (table_spans k i raw limit)
unfolding table_spans
table_spans-Found zero i raw limit h b = ([], refl, omega arith, tt)
table_spans-Found (suc k) i raw limit h b =
    let (off, e) = u32_at-some raw (60 + i * 8) (omega arith) in
    let (n, f) = u32_at-some raw (60 + i * 8 + 4) (omega arith) in
    let (spans, g, l, a) = table_spans-Found k (i + 1) raw limit h (omega arith) in
    let (m, b') = keep_span-inside k limit off n spans l a in
    rw (e, f, g) (keep_span limit off n spans, refl, m, b')

pub find_spans-Found :
    (raw : List ℕ) (flags data_off count limit : ℕ)
    → limit ≤ length raw
    → 64 ≤ limit
    → Found count limit (find_spans raw flags data_off count limit)
unfolding find_spans checked_fixed_spans
find_spans-Found raw flags data_off count limit h b = elim (Bool-cases (is_fixed flags)) [
  | inl fixed ↦
      let (size, e) = u32_at-some raw 60 (omega arith) in
      rw (fixed, e)
        (
          checked_fixed_spans size data_off count limit,
          refl,
          ground (arith, length-fixed_spans-le count 0 data_off size limit),
          ground (arith, fixed_spans-inside count 0 data_off size limit),
        )
  | inr variable ↦ rw variable (elim (Bool-cases (ltb limit (60 + count * 8))) [
    | inl cut ↦
        let (spans, e, l, a) = table_spans-Found ((limit - 60) / 8) 0 raw limit h (omega arith) in
        rw cut (spans, e, omega (tests), a)
    | inr all ↦ rw all (table_spans-Found count 0 raw limit h (ground arith))
  ])
]
