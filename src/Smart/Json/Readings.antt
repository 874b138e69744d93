-- ===== src/Smart/Json/Readings.antt =====
-- What LibreNMS is told was read: no number is made up for what a disk did not answer.
use jt_snmpd.Prelude.{
  ℕ, suc, ◌≡◌, refl, sym, subst, Bool, true, false, Option, none, some, List, [], ◌∷◌, ◌++◌,
  if◌then◌else◌, eq_iff, str_eq, String, Bool-cases, inl, inr, get_elem?,
}
use jt_snmpd.Prelude.Int.{ℤ, pos}
use jt_snmpd.Prelude.Dict.{Dict, get, put}
use jt_snmpd.Smart.{Attr, Health, as_attrs, as_ids, num_of}
use jt_snmpd.Smart.Json.{
  Field, null, whole, blank_disk, nulls, librenms_smart_ids, selftest_keys, nvme_to_smart_id,
  ata_name_to_smart_id, put_for, add_named, is_open, add_ids, is_unset, put_reading, add_nvme,
  put_max, build_disk_entry,
}
use jt_snmpd.Tables.{decimal}

-- A number that is told under a key is the raw value of a named attribute that goes there, the raw value of
-- the attribute of that id, a field of the NVMe log or the temperature, or the highest temperature observed.
pub data IsReading (h : Health) (highest : Option ℤ) : String → ℤ → Type 0 where
  named :
      (i : ℕ) (name sid : String) (a : Attr)
      → get_elem? (as_attrs (get "smart" h)) i ≡ some (name, a)
      → get name ata_name_to_smart_id ≡ some sid
      → IsReading h highest sid (pos a.raw)
  by_number :
      (i aid raw : ℕ)
      → get_elem? (as_ids (get "smart_by_id" h)) i ≡ some (aid, raw)
      → IsReading h highest (decimal aid) (pos raw)
  field :
      (i : ℕ) (key sid : String) (v : ℤ)
      → get_elem? nvme_to_smart_id i ≡ some (key, sid)
      → num_of h key ≡ some v
      → IsReading h highest sid v
  observed : (v : ℤ) → highest ≡ some v → IsReading h highest "max_temp" v

module _ (P : String → ℤ → Type 0) where
  abbrev Holds : String → Field → Type 0
  Holds k null = Unit
  Holds k (whole v) = P k v

  abbrev All : Dict Field → Type 0
  All [] = Unit
  All ((k, f) ∷ d) = Holds k f × All d

  All-put : (k : String) (v : ℤ) (d : Dict Field) → P k v → All d → All (put k (whole v) d)
  unfolding put
  All-put k v [] p a = (p, tt)
  All-put k v ((j, w) ∷ d) p a = elim (Bool-cases (str_eq j k)) [
    | inl same ↦ rw same (subst (λ t. P t v) (sym ((eq_iff j k).0 same)) p, a.1)
    | inr other ↦ rw other (a.0, All-put k v d p a.1)
  ]

  All-get : (k : String) (v : ℤ) (d : Dict Field) → All d → get k d ≡ some (whole v) → P k v
  unfolding get
  All-get k v [] a e = cc
  All-get k v ((j, f) ∷ d) a e = elim (Bool-cases (str_eq j k)) [
    | inr other ↦ All-get k v d a.1 (rw other at e)
    | inl same ↦
        let q : some f ≡ some (whole v) = rw same at e in
        let p : f ≡ whole v = cc in
        let held : Holds j (whole v) = subst (λ t. Holds j t) p a.0 in
        subst (λ t. P t v) ((eq_iff j k).0 same) held
  ]

  All-nulls : (ks : List String) → All (nulls ks)
  All-nulls [] = tt
  All-nulls (k ∷ ks) = (tt, All-nulls ks)

  All-put_for :
      (o : Option String) (v : ℤ) (d : Dict Field)
      → ((sid : String) → o ≡ some sid → P sid v)
      → All d
      → All (put_for o v d)
  All-put_for none v d p a = a
  All-put_for (some sid) v d p a = All-put sid v d (p sid refl) a

  add_named-All :
      (l : Dict Attr) (d : Dict Field)
      → ((i : ℕ) (name sid : String) (a : Attr)
          → get_elem? l i ≡ some (name, a)
          → get name ata_name_to_smart_id ≡ some sid
          → P sid (pos a.raw))
      → All d
      → All (add_named l d)
  unfolding add_named
  add_named-All [] d p a = a
  add_named-All ((name, b) ∷ l) d p a =
      add_named-All l (put_for (get name ata_name_to_smart_id) (pos b.raw) d) (λ i. p (suc i))
        (All-put_for (get name ata_name_to_smart_id) (pos b.raw) d (λ sid e. p 0 name sid b refl e)
          a)

  All-put_if :
      (b : Bool) (k : String) (v : ℤ) (d : Dict Field)
      → P k v
      → All d
      → All (if b then put k (whole v) d else d)
  All-put_if true k v d p a = All-put k v d p a
  All-put_if false k v d p a = a

  add_ids-All :
      (l : List (ℕ × ℕ)) (d : Dict Field)
      → ((i aid raw : ℕ) → get_elem? l i ≡ some (aid, raw) → P (decimal aid) (pos raw))
      → All d
      → All (add_ids l d)
  unfolding add_ids
  add_ids-All [] d p a = a
  add_ids-All ((aid, raw) ∷ l) d p a =
      add_ids-All l
        (if is_open (get (decimal aid) d) then put (decimal aid) (whole (pos raw)) d else d)
        (λ i. p (suc i))
        (All-put_if (is_open (get (decimal aid) d)) (decimal aid) (pos raw) d (p 0 aid raw refl) a)

  put_reading-All :
      (sid : String) (o : Option ℤ) (d : Dict Field)
      → ((v : ℤ) → o ≡ some v → P sid v)
      → All d
      → All (put_reading sid o d)
  put_reading-All sid none d p a = a
  put_reading-All sid (some v) d p a = All-put_if (is_unset (get sid d)) sid v d (p v refl) a

  add_nvme-All :
      (h : Health) (l : List (String × String)) (d : Dict Field)
      → ((i : ℕ) (key sid : String) (v : ℤ)
          → get_elem? l i ≡ some (key, sid)
          → num_of h key ≡ some v
          → P sid v)
      → All d
      → All (add_nvme h l d)
  unfolding add_nvme
  add_nvme-All h [] d p a = a
  add_nvme-All h ((key, sid) ∷ l) d p a =
      add_nvme-All h l (put_reading sid (num_of h key) d) (λ i. p (suc i))
        (put_reading-All sid (num_of h key) d (λ v e. p 0 key sid v refl e) a)

  put_max-All :
      (o : Option ℤ) (d : Dict Field)
      → ((v : ℤ) → o ≡ some v → P "max_temp" v)
      → All d
      → All (put_max o d)
  put_max-All none d p a = a
  put_max-All (some v) d p a = All-put "max_temp" v d (p v refl) a

build_disk_entry-All :
    (h : Health) (highest : Option ℤ) → All (IsReading h highest) (build_disk_entry h highest)
unfolding build_disk_entry
build_disk_entry-All [] highest =
    All-nulls (IsReading [] highest) (librenms_smart_ids ++ selftest_keys)
build_disk_entry-All (x ∷ h) highest =
    let R : String → ℤ → Type 0 = IsReading (x ∷ h) highest in
    let attrs : Dict Attr = as_attrs (get "smart" (x ∷ h)) in
    let numbers : List (ℕ × ℕ) = as_ids (get "smart_by_id" (x ∷ h)) in
    let first : Dict Field = add_named attrs blank_disk in
    let second : Dict Field = add_ids numbers first in
    let third : Dict Field = add_nvme (x ∷ h) nvme_to_smart_id second in
    put_max-All R highest (put_reading "194" (num_of (x ∷ h) "temp_c") third) observed (
      put_reading-All R "194" (num_of (x ∷ h) "temp_c") third
        (λ v e. field 1 "temp_c" "194" v refl e)
        (add_nvme-All R (x ∷ h) nvme_to_smart_id second field (
          add_ids-All R numbers first by_number (
            add_named-All R attrs blank_disk named
              (All-nulls R (librenms_smart_ids ++ selftest_keys))))))

-- Every number in the entry of a disk was read: it is the raw value of an attribute that is named for that key,
-- of the attribute with that id, a field of the NVMe log or the temperature, or the highest temperature
-- observed. What was not read stays null, and no zero stands for it.
pub build_disk_entry-IsReading :
    (h : Health) (highest : Option ℤ) (k : String) (v : ℤ)
    → get k (build_disk_entry h highest) ≡ some (whole v)
    → IsReading h highest k v
build_disk_entry-IsReading h highest k v e =
    All-get (IsReading h highest) k v (build_disk_entry h highest) (build_disk_entry-All h highest)
      e
