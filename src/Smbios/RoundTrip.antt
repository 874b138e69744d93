-- ===== src/Smbios/RoundTrip.antt =====
-- The parser reads back the table that a firmware lays out for a list of structures.
use jt_snmpd.Prelude.{
  ap₂, ◌⊎◌, String, ap, ℕ, zero, suc, ◌+◌, ◌*◌, ◌/◌, ◌%◌, ◌≤◌, ◌<◌, ◌≡◌, refl, sym, ◌∙◌, true,
  false, List, [], ◌∷◌, ◌++◌, map, ltb, ◌==◌, if◌then◌else◌, length, take, get_or, arith,
  length-append,
}
use jt_snmpd.Prelude.Bytes.{slice, u16}
use jt_snmpd.Smbios.{
  add_structure, Host, Structure, strings, parse_loop, table, parse_smbios, max_structures,
}
use jt_snmpd.Smbios.Area.{AreTexts, area_of, append_assoc, slice_middle, strings-area_of}

-- a structure as the firmware has it
pub record Entry : Type 0 where
  pub kind : ℕ
  pub handle : ℕ
  pub body : List ℕ
  pub texts : List (List ℕ)

-- the header of 4 bytes and the formatted area
abbrev pub formatted : Entry → List ℕ
formatted e = e.kind ∷ (4 + length e.body) ∷ (e.handle % 256) ∷ (e.handle / 256) ∷ e.body

abbrev pub entry_bytes : Entry → List ℕ
entry_bytes e = formatted e ++ area_of e.texts

abbrev pub table_bytes : List Entry → List ℕ
table_bytes [] = []
table_bytes (e ∷ es) = entry_bytes e ++ table_bytes es

-- what the parser should say of it
abbrev pub structure_of : Host → Entry → Structure
structure_of host e = record {
  kind = e.kind;
  handle = e.handle;
  content = formatted e;
  strings = map host.decode e.texts;
}

get_or-append :
    (pre ys : List ℕ) (i n : ℕ) → n ≡ length pre + i → get_or (pre ++ ys) n 0 ≡ get_or ys i 0
get_or-append [] ys i n h = ap (λ m. get_or ys m 0) (omega (arith, h))
get_or-append (x ∷ xs) ys i zero h = absurd (omega (arith, h))
get_or-append (x ∷ xs) ys i (suc n) h = get_or-append xs ys i n (omega (arith, h))

-- a body that ends behind where it began goes on there, unless it was the last structure
add_structure_on :
    (host : Host) (again : ℕ → List Structure) (pos kind len handle : ℕ) (content : List ℕ)
    (area : List String × ℕ)
    → 4 ≤ len
    → pos < area.1
    → add_structure host again pos kind len handle content area
      ≡ record { kind = kind; handle = handle; content = content; strings = area.0 }
        ∷ (if kind == 127 then [] else again area.1)
unfolding add_structure
add_structure_on host again pos kind len handle content area h p = ground arith

module _ (host : Host) (room : ℕ) (pre tail : List ℕ) (e : Entry) (texts : AreTexts e.texts) where
  abbrev blob : List ℕ
  blob = pre ++ (formatted e ++ (area_of e.texts ++ tail))

  abbrev behind : ℕ
  behind = length (pre ++ formatted e) + length (area_of e.texts)

  header_fits : ltb (length blob) (length pre + 4) ≡ false
  header_fits = ground (
    arith,
    length-append pre (formatted e ++ (area_of e.texts ++ tail)),
    length-append (formatted e) (area_of e.texts ++ tail),
  )

  strings_read :
      strings host blob (length pre + (4 + length e.body)) ≡ (map host.decode e.texts, behind)
  strings_read =
      let b : blob ≡ (pre ++ formatted e) ++ (area_of e.texts ++ tail) =
        sym (append_assoc pre (formatted e) (area_of e.texts ++ tail)) in
      let n : length (pre ++ formatted e) ≡ length pre + (4 + length e.body) =
        omega (arith, length-append pre (formatted e)) in
      ap (strings host blob) (sym n)
      ∙ strings-area_of host blob tail (pre ++ formatted e) e.texts b texts

  content_read : slice blob (length pre) (4 + length e.body) ≡ formatted e
  content_read =
      let n : 4 + length e.body ≡ length (formatted e) = omega arith in
      ap (slice blob (length pre)) n ∙ slice_middle pre (formatted e) (area_of e.texts ++ tail)

  byte :
      (i : ℕ)
      → get_or blob (length pre + i) 0 ≡ get_or (formatted e ++ (area_of e.texts ++ tail)) i 0
  byte i = get_or-append pre (formatted e ++ (area_of e.texts ++ tail)) i (length pre + i) refl

  handle_read : u16 blob (length pre + 2) ≡ e.handle
  handle_read =
      let n : length pre + 2 + 1 ≡ length pre + 3 = omega arith in
      rw (n, byte 2, byte 3) (omega arith)

  -- one structure, and what follows it
  pub parse_loop-entry :
      parse_loop host (suc room) blob (length pre)
      ≡ structure_of host e ∷ (if e.kind == 127 then [] else parse_loop host room blob behind)
  unfolding parse_loop
  parse_loop-entry =
      let k : get_or blob (length pre) 0 ≡ e.kind =
        get_or-append pre (formatted e ++ (area_of e.texts ++ tail)) 0 (length pre) (omega arith) in
      rw (header_fits, parse_loop, k, byte 1, handle_read, content_read, strings_read)
        (add_structure_on host (λ nxt. parse_loop host room blob nxt) (length pre) e.kind
          (4 + length e.body) e.handle (formatted e) (map host.decode e.texts, behind) (omega arith)
          (omega (arith, length-append pre (formatted e))))

-- structures before the end of the table
abbrev pub AreOpen : List Entry → Type 0
AreOpen [] = Unit
AreOpen (e ∷ es) = ((e.kind == 127) ≡ false) × AreTexts e.texts × AreOpen es

take_all : (bytes : List ℕ) → take (length bytes) bytes ≡ bytes
take_all [] = refl
take_all (x ∷ xs) = ap (λ zs. x ∷ zs) (take_all xs)

take_claimed : (bytes : List ℕ) (n : ℕ) → n ≡ length bytes → take n bytes ≡ bytes
take_claimed bytes n e = ap (λ k. take k bytes) e ∙ take_all bytes

-- the table behind the header, if the length in it is 0 or covers what follows
table_all :
    (host : Host) (a b c d l m n o : ℕ) (bytes : List ℕ)
    → (l + 256 * m + 65536 * n + 16777216 * o ≡ 0)
      ⊎ (length bytes ≤ l + 256 * m + 65536 * n + 16777216 * o)
    → table host (a ∷ b ∷ c ∷ d ∷ l ∷ m ∷ n ∷ o ∷ bytes) ≡ bytes
unfolding table slice
table_all host a b c d l m n o bytes claim =
    ground (arith, claim, take_claimed bytes (l + 256 * m + 65536 * n + 16777216 * o))

parse_behind_header :
    (host : Host) (raw bytes : List ℕ)
    → 8 ≤ length raw
    → table host raw ≡ bytes
    → parse_smbios host raw ≡ parse_loop host max_structures bytes 0
unfolding parse_smbios
parse_behind_header host raw bytes h e =
    let long : ltb (length raw) 8 ≡ false = ground arith in rw (long, e) refl

module _ (host : Host) (last : Entry) (is_last : (last.kind == 127) ≡ true)
    (texts : AreTexts last.texts) (tail : List ℕ) where
  abbrev pub all_bytes : List Entry → List ℕ
  all_bytes es = table_bytes es ++ (entry_bytes last ++ tail)

  abbrev pub all_read : List Entry → List Structure
  all_read es = map (structure_of host) es ++ (structure_of host last ∷ [])

  parse_loop-last :
      (room : ℕ) (pre : List ℕ)
      → parse_loop host (suc room) (pre ++ (entry_bytes last ++ tail)) (length pre)
        ≡ structure_of host last ∷ []
  parse_loop-last room pre =
      rw (append_assoc (formatted last) (area_of last.texts) tail)
        (parse_loop-entry host room pre tail last texts ∙ rw is_last refl)

  split_first :
      (e : Entry) (es : List Entry)
      → all_bytes (e ∷ es) ≡ formatted e ++ (area_of e.texts ++ all_bytes es)
  split_first e es =
      append_assoc (entry_bytes e) (table_bytes es) (entry_bytes last ++ tail)
      ∙ append_assoc (formatted e) (area_of e.texts) (all_bytes es)

  parse_loop-all_bytes :
      (room : ℕ) (pre : List ℕ) (es : List Entry)
      → length es < room
      → AreOpen es
      → parse_loop host room (pre ++ all_bytes es) (length pre) ≡ all_read es
  parse_loop-all_bytes zero pre es h o = absurd (omega arith)
  parse_loop-all_bytes (suc room) pre [] h o = parse_loop-last room pre
  parse_loop-all_bytes (suc room) pre (e ∷ es) h o =
      let pre' = pre ++ entry_bytes e in
      let n : behind host room pre (all_bytes es) e o.1 ≡ length pre' = omega (
        arith,
        length-append pre (formatted e),
        length-append pre (entry_bytes e),
        length-append (formatted e) (area_of e.texts),
      ) in
      let b : blob host room pre (all_bytes es) e o.1 ≡ pre' ++ all_bytes es =
        ap (λ zs. pre ++ zs) (sym (append_assoc (formatted e) (area_of e.texts) (all_bytes es)))
        ∙ sym (append_assoc pre (entry_bytes e) (all_bytes es)) in
      let rest : parse_loop host room (blob host room pre (all_bytes es) e o.1)
            (behind host room pre (all_bytes es) e o.1)
          ≡ all_read es =
        ap₂ (parse_loop host room) b n ∙ parse_loop-all_bytes room pre' es (omega arith) o.2 in
      ap (λ zs. parse_loop host (suc room) (pre ++ zs) (length pre)) (split_first e es)
      ∙ (parse_loop-entry host room pre (all_bytes es) e o.1
          ∙ rw (o.0) (ap (λ ss. structure_of host e ∷ ss) rest))

  -- A table of up to 4095 structures and the end-of-table structure behind them is read back as it was
  -- laid out, whatever follows it: each structure with its type, handle, formatted area and decoded
  -- strings, if no string is empty or has a zero byte and the length that the header gives is 0, or that
  -- of the table and what follows, or more.
  pub parse_smbios-all_bytes :
      (es : List Entry) (a b c d l m n o : ℕ)
      → length es < max_structures
      → AreOpen es
      → (l + 256 * m + 65536 * n + 16777216 * o ≡ 0)
        ⊎ (length (all_bytes es) ≤ l + 256 * m + 65536 * n + 16777216 * o)
      → parse_smbios host (a ∷ b ∷ c ∷ d ∷ l ∷ m ∷ n ∷ o ∷ all_bytes es) ≡ all_read es
  parse_smbios-all_bytes es a b c d l m n o h op claim =
      parse_behind_header host (a ∷ b ∷ c ∷ d ∷ l ∷ m ∷ n ∷ o ∷ all_bytes es) (all_bytes es)
        (omega arith) (table_all host a b c d l m n o (all_bytes es) claim)
      ∙ parse_loop-all_bytes max_structures [] es h op
