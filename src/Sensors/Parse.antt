-- ===== src/Sensors/Parse.antt =====
-- Any buffer is parsed, without an exception, into instances that can be published.
use jt_snmpd.Prelude.Bytes.{slice, u16_at, u32_at, u32_at-some}
use jt_snmpd.Prelude.{
  ◌&&◌, ◌↔◌, ℕ, zero, suc, ◌+◌, ◌*◌, ◌≤◌, min, ◌≡◌, refl, true, Option, some, List, [], ◌∷◌, ltb,
  leb, ◌==◌, length, take, get_or, arith, length-take, Bool-cases, inl, inr, Option-cases, ap,
}
use jt_snmpd.Sensors.{
  Text, Host, Span, WnodeInstance, claimed_limit, ThermalZone, tenths_kelvin_to_celsius, zone_name,
  instances, is_clean, cleaned, sanitise_name, string_at, rstrip_nul, counted_name, names_from,
  parse_instance_names, read_instances, parse_wnode_all_data, parse_thermal_zone, max_name_chars,
}
use jt_snmpd.Sensors.Bounds.{IsInside, AllInside, find_spans-Found}

module _ (host : Host) where
  abbrev pub AllClean : Text → Type 0
  AllClean [] = Unit
  AllClean (c ∷ cs) = (is_clean host c ≡ true) × AllClean cs

  -- at most 128 characters, all of them printable and no line break or tab
  abbrev pub IsName : Text → Type 0
  IsName s = (length s ≤ max_name_chars) × AllClean s

  cleaned-AllClean : (s : Text) → AllClean (cleaned host s)
  unfolding cleaned
  cleaned-AllClean [] = tt
  cleaned-AllClean (c ∷ cs) = ground (arith, cleaned-AllClean cs)

  take-AllClean : (n : ℕ) (s : Text) → AllClean s → AllClean (take n s)
  take-AllClean zero s a = tt
  take-AllClean (suc n) [] a = tt
  take-AllClean (suc n) (c ∷ cs) a = (a.0, take-AllClean n cs a.1)

  sanitise_name-IsName : (s : Text) → IsName (sanitise_name host s)
  unfolding sanitise_name
  sanitise_name-IsName s = (
    omega (arith, length-take max_name_chars (cleaned host s)),
    take-AllClean max_name_chars (cleaned host s) (cleaned-AllClean s),
  )

  string_at-IsName :
      (raw : List ℕ) (off nbytes limit : ℕ) → IsName (string_at host raw off nbytes limit)
  unfolding string_at
  string_at-IsName raw off nbytes limit =
      ground (arith, sanitise_name-IsName (rstrip_nul (host.decode (slice raw (off + 2) nbytes))))

  abbrev AllNames : List Text → Type 0
  AllNames [] = Unit
  AllNames (s ∷ ss) = IsName s × AllNames ss

  counted_name-IsName :
      (raw : List ℕ) (entry limit : ℕ) (s : Text)
      → counted_name host raw entry limit ≡ some s
      → IsName s
  unfolding counted_name
  counted_name-IsName raw entry limit s h = elim (Option-cases (u32_at raw entry)) [
    | inl e ↦ ground (arith, e)
    | inr (off, e) ↦ elim (Option-cases (u16_at raw off)) [
      | inl f ↦ ground (arith, e, f)
      | inr (nbytes, f) ↦ ground (arith, e, f, string_at-IsName raw off nbytes limit)
    ]
  ]

  names_from-AllNames :
      (k i : ℕ) (raw : List ℕ) (name_off limit : ℕ)
      → AllNames (names_from host k i raw name_off limit)
  unfolding names_from
  names_from-AllNames zero i raw name_off limit = tt
  names_from-AllNames (suc k) i raw name_off limit =
      elim (Option-cases (counted_name host raw (name_off + i * 4) limit)) [
        | inl e ↦
            rw (e, AllNames) ((omega arith, tt), names_from-AllNames k (i + 1) raw name_off limit)
        | inr (s, e) ↦
            rw (e, AllNames)
              (
                counted_name-IsName raw (name_off + i * 4) limit s e,
                names_from-AllNames k (i + 1) raw name_off limit,
              )
      ]

  parse_instance_names-AllNames :
      (raw : List ℕ) (name_off count limit : ℕ)
      → AllNames (parse_instance_names host raw name_off count limit)
  unfolding parse_instance_names
  parse_instance_names-AllNames raw name_off count limit =
      ground (arith, names_from-AllNames count 0 raw name_off limit)

  get_or-IsName : (names : List Text) (i : ℕ) → AllNames names → IsName (get_or names i [])
  get_or-IsName [] i a = (omega arith, tt)
  get_or-IsName (s ∷ ss) zero a = a.0
  get_or-IsName (s ∷ ss) (suc i) a = get_or-IsName ss i a.1

  -- an instance whose data is a piece of the buffer that is not empty
  abbrev pub IsPublishable : List ℕ → WnodeInstance → Type 0
  IsPublishable raw inst =
      ((s : Span) × IsInside (length raw) s × (inst.content ≡ slice raw s.0 s.1)) × IsName inst.name

  -- numbered from `i` on
  abbrev pub AllPublishable : List ℕ → ℕ → List WnodeInstance → Type 0
  AllPublishable raw i [] = Unit
  AllPublishable raw i (inst ∷ insts) =
      (inst.index ≡ i) × IsPublishable raw inst × AllPublishable raw (i + 1) insts

  instances-AllPublishable :
      (i limit : ℕ) (spans : List Span) (raw : List ℕ) (names : List Text)
      → limit ≤ length raw
      → AllInside limit spans
      → AllNames names
      → AllPublishable raw i (instances i spans raw names)
  unfolding instances
  instances-AllPublishable i limit [] raw names h a n = tt
  instances-AllPublishable i limit (s ∷ spans) raw names h a n = (
    refl,
    ((s, (a.0.0, omega (arith, a.0.1)), refl), get_or-IsName names i n),
    instances-AllPublishable (i + 1) limit spans raw names h a.1 n,
  )

  length-instances :
      (i : ℕ) (spans : List Span) (raw : List ℕ) (names : List Text)
      → length (instances i spans raw names) ≡ length spans
  unfolding instances
  length-instances i [] raw names = refl
  length-instances i (s ∷ spans) raw names = ap suc (length-instances (i + 1) spans raw names)

  limit-le :
      (size held : ℕ)
      → 64 ≤ held
      → (64 ≤ claimed_limit size held) × (claimed_limit size held ≤ held)
  unfolding claimed_limit
  limit-le size held h = ground arith

  abbrev Parsed : List ℕ → ℕ → Option (List WnodeInstance) → Type 0
  Parsed raw count o =
      (out : List WnodeInstance) × (o ≡ some out) × (length out ≤ count) × AllPublishable raw 0 out

  read_instances-Parsed :
      (raw : List ℕ) (flags data_off name_off count limit : ℕ)
      → 64 ≤ limit
      → limit ≤ length raw
      → Parsed raw count (read_instances host raw flags data_off name_off count limit)
  unfolding read_instances
  read_instances-Parsed raw flags data_off name_off count limit b h =
      let (spans, e, l, a) = find_spans-Found raw flags data_off count limit h b in
      let names : List Text = parse_instance_names host raw name_off (length spans) limit in
      rw e (
        instances 0 spans raw names,
        refl,
        omega (arith, length-instances 0 spans raw names),
        instances-AllPublishable 0 limit spans raw names h a
            (parse_instance_names-AllNames raw name_off (length spans) limit),
      )

  -- Whatever the buffer holds, the parser raises no exception and returns at most `max_instances`
  -- instances, numbered from 0, each with data that is a piece of the buffer and not empty, and with a
  -- name of at most 128 characters that are all printable.
  pub parse_wnode_all_data-AllPublishable :
      (raw : List ℕ) (max_count : ℕ)
      → (out : List WnodeInstance) × (parse_wnode_all_data host raw max_count ≡ some out)
        × (length out ≤ max_count)
        × AllPublishable raw 0 out
  unfolding parse_wnode_all_data
  parse_wnode_all_data-AllPublishable raw max_count = elim (Bool-cases (ltb (length raw) 64)) [
    | inl short ↦ rw short ([], refl, omega arith, tt)
    | inr long ↦
        let h : 64 ≤ length raw = ground arith in
        let (size, e0) = u32_at-some raw 0 (omega arith) in
        let (flags, e1) = u32_at-some raw 44 (omega arith) in
        let (data_off, e2) = u32_at-some raw 48 (omega arith) in
        let (inst_count, e3) = u32_at-some raw 52 (omega arith) in
        let (name_off, e4) = u32_at-some raw 56 (omega arith) in
        let (b, l) = limit-le size (length raw) h in
        elim (Bool-cases (inst_count == 0)) [
          | inl nothing ↦ rw (long, e0, e1, e2, e3, e4, nothing) ([], refl, omega arith, tt)
          | inr some_there ↦
              let (out, e, m, p) =
                read_instances-Parsed raw flags data_off name_off (min inst_count max_count)
                  (claimed_limit size (length raw)) b l in
              rw (long, e0, e1, e2, e3, e4, some_there) (out, e, omega arith, p)
        ]
  ]

  -- A record is reported as a thermal zone if and only if it has 36 bytes and its current temperature,
  -- the number at byte 20, is from 2332 to 4732 tenths of a kelvin.
  pub parse_thermal_zone-reported :
      (inst : WnodeInstance)
      → ((zone : ThermalZone) × (parse_thermal_zone host inst ≡ some zone)) ↔ (
          (36 ≤ length inst.content)
          × (v : ℕ) × (u32_at inst.content 20 ≡ some v)
          × (2332 ≤ v)
          × (v ≤ 4732))
  unfolding parse_thermal_zone tenths_kelvin_to_celsius
  parse_thermal_zone-reported inst = elim (Bool-cases (ltb (length inst.content) 36)) [
    | inl short ↦ ground (arith, short)
    | inr long ↦
        let h : 36 ≤ length inst.content = ground (arith, long) in
        let (current, e) = u32_at-some inst.content 20 (omega arith) in
        let (passive, f) = u32_at-some inst.content 24 (omega arith) in
        let (critical, g) = u32_at-some inst.content 28 (omega arith) in
        let zone : ThermalZone = record {
          name = zone_name host inst.name;
          celsius = host.celsius_of current;
          critical_c = tenths_kelvin_to_celsius host critical;
          passive_c = tenths_kelvin_to_celsius host passive;
        } in
        elim (Bool-cases (leb 2332 current && leb current 4732)) [
          | inl inside ↦
              rw (long, e, f, g, inside)
                (
                  (λ _. (h, current, refl, ground (arith, inside), ground (arith, inside))),
                  (λ _. (zone, refl)),
                )
          | inr outside ↦ rw (long, e, f, g, outside) (ground (arith, outside))
        ]
  ]
