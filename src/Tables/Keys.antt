-- ===== src/Tables/Keys.antt =====
-- The rows of a table by the base of the table and the index: rows of other bases or other indices have
-- other names.
use jt_snmpd.Prelude.{
  ℕ, ◌≡◌, refl, ◌∙◌, Bool, true, false, not, ◌&&◌, ◌||◌, List, [], ◌∷◌, ◌++◌, arith, ltb, ◌==◌,
  if◌then◌else◌, Bool-cases, inl, inr, ◌⊎◌,
}
use jt_snmpd.Mib.Oid.{Oid, oid_eq, oid_eq→eq}
use jt_snmpd.Mib.Value.{Row}
use jt_snmpd.Mib.Snapshot.{name_count}
use jt_snmpd.Tables.{Cells, at, for_each}
use jt_snmpd.Tables.Rows.{
  AreDisjoint, IsUnique, append-IsUnique, AreDisjoint-append_right, AreDisjoint-nil,
}

-- neither begins with the other
unfoldable pub apart : Oid → Oid → Bool
apart [] ys = false
apart (x ∷ xs) [] = false
apart (x ∷ xs) (y ∷ ys) = if x == y then apart xs ys else true

oid_eq_of_apart : (a b x y : Oid) → apart a b ≡ true → oid_eq (a ++ x) (b ++ y) ≡ false
unfolding apart oid_eq
oid_eq_of_apart [] b x y h = absurd (ground (arith, h))
oid_eq_of_apart (p ∷ a) [] x y h = absurd (ground (arith, h))
oid_eq_of_apart (p ∷ a) (q ∷ b) x y h = ground (arith, oid_eq_of_apart a b x y)

oid_eq-append : (a x y : Oid) → oid_eq (a ++ x) (a ++ y) ≡ oid_eq x y
unfolding oid_eq
oid_eq-append [] x y = refl
oid_eq-append (p ∷ a) x y = ground (arith, oid_eq-append a x y)

-- a base and an index
abbrev pub Key : Type 0
Key = Oid × Oid

-- two keys under which no name is the same
unfoldable pub keys_apart : Key → Key → Bool
unfolding apart
keys_apart (a, i) (b, j) = apart a b || (oid_eq a b && not (oid_eq i j))

unfoldable pub apart_from : Key → List Key → Bool
unfolding keys_apart
apart_from k [] = true
apart_from k (l ∷ ls) = keys_apart k l && apart_from k ls

unfoldable pub all_apart : List Key → List Key → Bool
unfolding apart_from
all_apart [] ls = true
all_apart (k ∷ ks) ls = apart_from k ls && all_apart ks ls

oid_eq_of_keys :
    (a i b j : Oid) (c d : ℕ)
    → keys_apart (a, i) (b, j) ≡ true
    → oid_eq (a ++ (c ∷ i)) (b ++ (d ∷ j)) ≡ false
unfolding keys_apart oid_eq
oid_eq_of_keys a i b j c d h = elim (Bool-cases (apart a b)) [
  | inl far ↦ oid_eq_of_apart a b (c ∷ i) (d ∷ j) far
  | inr near ↦
      let same : oid_eq a b ≡ true = ground (arith, h, near) in
      let other : oid_eq i j ≡ false = ground (arith, h, near) in
      let e : a ≡ b = oid_eq→eq a b same in
      rw (← e) (oid_eq-append a (c ∷ i) (d ∷ j) ∙ ground (arith, other))
]

-- the names of a base and an index
abbrev pub IsUnder : Key → Oid → Type 0
IsUnder k o = (c : ℕ) × (o ≡ k.0 ++ (c ∷ k.1))

abbrev pub IsUnderAny : List Key → Oid → Type 0
IsUnderAny [] o = ⊥
IsUnderAny (k ∷ ks) o = IsUnder k o ⊎ IsUnderAny ks o

-- every row is under one of the keys
abbrev pub AreKeyed : List Key → List Row → Type 0
AreKeyed ks [] = Unit
AreKeyed ks (r ∷ rs) = IsUnderAny ks r.0 × AreKeyed ks rs

oid_eq_sym : (a b : Oid) → oid_eq a b ≡ oid_eq b a
unfolding oid_eq
oid_eq_sym [] [] = refl
oid_eq_sym [] (y ∷ ys) = refl
oid_eq_sym (x ∷ xs) [] = refl
oid_eq_sym (x ∷ xs) (y ∷ ys) = ground (arith, oid_eq_sym xs ys)

apart_one :
    (k : Key) (o p : Oid) (ls : List Key)
    → apart_from k ls ≡ true
    → IsUnder k o
    → IsUnderAny ls p
    → oid_eq p o ≡ false
unfolding apart_from
apart_one k o p [] h u v = absurd v
apart_one k o p (l ∷ ls) h (c, e) (inl (d, f)) =
    rw (e, f)
      (oid_eq_sym (l.0 ++ (d ∷ l.1)) (k.0 ++ (c ∷ k.1))
        ∙ oid_eq_of_keys k.0 k.1 l.0 l.1 c d (ground (arith, h)))
apart_one k o p (l ∷ ls) h u (inr v) = apart_one k o p ls (ground (arith, h)) u v

apart_any :
    (ks ls : List Key) (o p : Oid)
    → all_apart ks ls ≡ true
    → IsUnderAny ks o
    → IsUnderAny ls p
    → oid_eq p o ≡ false
unfolding all_apart
apart_any [] ls o p h u v = absurd u
apart_any (k ∷ ks) ls o p h (inl u) v = apart_one k o p ls (ground (arith, h)) u v
apart_any (k ∷ ks) ls o p h (inr u) v = apart_any ks ls o p (ground (arith, h)) u v

not_counted :
    (ks ls : List Key) (o : Oid) (ss : List Row)
    → all_apart ks ls ≡ true
    → IsUnderAny ks o
    → AreKeyed ls ss
    → name_count o ss ≡ 0
unfolding name_count
not_counted ks ls o [] h u v = refl
not_counted ks ls o (s ∷ ss) h u v =
    rw (apart_any ks ls o s.0 h u v.0) (omega (arith, not_counted ks ls o ss h u v.1))

pub AreKeyed-AreDisjoint :
    (ks ls : List Key) (rs ss : List Row)
    → all_apart ks ls ≡ true
    → AreKeyed ks rs
    → AreKeyed ls ss
    → AreDisjoint rs ss
AreKeyed-AreDisjoint ks ls [] ss h u v = tt
AreKeyed-AreDisjoint ks ls (r ∷ rs) ss h u v =
    (not_counted ks ls r.0 ss h u.0 v, AreKeyed-AreDisjoint ks ls rs ss h u.1 v)

pub at-AreKeyed :
    (base index : Oid) (cells : Cells) → AreKeyed ((base, index) ∷ []) (at base index cells)
unfolding at
at-AreKeyed base index [] = tt
at-AreKeyed base index ((c, v) ∷ cells) = (inl (c, refl), at-AreKeyed base index cells)

weaken_left : (ks ls : List Key) (o : Oid) → IsUnderAny ks o → IsUnderAny (ks ++ ls) o
weaken_left [] ls o u = absurd u
weaken_left (k ∷ ks) ls o (inl u) = inl u
weaken_left (k ∷ ks) ls o (inr u) = inr (weaken_left ks ls o u)

weaken_right : (ks ls : List Key) (o : Oid) → IsUnderAny ls o → IsUnderAny (ks ++ ls) o
weaken_right [] ls o u = u
weaken_right (k ∷ ks) ls o u = inr (weaken_right ks ls o u)

all_right : (ks ls : List Key) (ss : List Row) → AreKeyed ls ss → AreKeyed (ks ++ ls) ss
all_right ks ls [] v = tt
all_right ks ls (s ∷ ss) v = (weaken_right ks ls s.0 v.0, all_right ks ls ss v.1)

pub append-AreKeyed :
    (ks ls : List Key) (rs ss : List Row)
    → AreKeyed ks rs
    → AreKeyed ls ss
    → AreKeyed (ks ++ ls) (rs ++ ss)
append-AreKeyed ks ls [] ss u v = all_right ks ls ss v
append-AreKeyed ks ls (r ∷ rs) ss u v =
    (weaken_left ks ls r.0 u.0, append-AreKeyed ks ls rs ss u.1 v)

-- columns in ascending order
abbrev pub is_below : ℕ → Cells → Bool
is_below c [] = true
is_below c ((d, v) ∷ cells) = ltb c d && is_below c cells

abbrev pub is_ascending : Cells → Bool
is_ascending [] = true
is_ascending ((c, v) ∷ cells) = is_below c cells && is_ascending cells

oid_eq_column :
    (base index : Oid) (c d : ℕ)
    → ltb c d ≡ true
    → oid_eq (base ++ (d ∷ index)) (base ++ (c ∷ index)) ≡ false
unfolding oid_eq
oid_eq_column base index c d h = oid_eq-append base (d ∷ index) (c ∷ index) ∙ ground (arith, h)

below_not_counted :
    (base index : Oid) (c : ℕ) (cells : Cells)
    → is_below c cells ≡ true
    → name_count (base ++ (c ∷ index)) (at base index cells) ≡ 0
unfolding at name_count
below_not_counted base index c [] h = refl
below_not_counted base index c ((d, v) ∷ cells) h =
    let e : ltb c d ≡ true = ground (arith, h) in
    rw (oid_eq_column base index c d e)
      (omega (arith, below_not_counted base index c cells (ground (arith, h))))

pub at-IsUnique :
    (base index : Oid) (cells : Cells) → is_ascending cells ≡ true → IsUnique (at base index cells)
unfolding at
at-IsUnique base index [] h = tt
at-IsUnique base index ((c, v) ∷ cells) h = (
  below_not_counted base index c cells (ground (arith, h)),
  at-IsUnique base index cells (ground (arith, h)),
)

-- the rows of each of some items, if the keys of two of them are apart
module _ {A : Type 0} (keys : A → List Key) (f : A → List Row)
    (keyed : (x : A) → AreKeyed (keys x) (f x)) where
  abbrev pub AreApartFrom : A → List A → Type 0
  AreApartFrom x [] = Unit
  AreApartFrom x (y ∷ ys) = (all_apart (keys x) (keys y) ≡ true) × AreApartFrom x ys

  abbrev pub AreApart : List A → Type 0
  AreApart [] = Unit
  AreApart (x ∷ xs) = AreApartFrom x xs × AreApart xs

  for_each-AreDisjoint :
      (x : A) (ys : List A) → AreApartFrom x ys → AreDisjoint (f x) (for_each ys f)
  unfolding for_each
  for_each-AreDisjoint x [] h = AreDisjoint-nil (f x)
  for_each-AreDisjoint x (y ∷ ys) h =
      AreDisjoint-append_right (f x) (f y) (for_each ys f)
        (AreKeyed-AreDisjoint (keys x) (keys y) (f x) (f y) h.0 (keyed x) (keyed y))
        (for_each-AreDisjoint x ys h.1)

  pub for_each-IsUnique :
      ((x : A) → IsUnique (f x)) → (xs : List A) → AreApart xs → IsUnique (for_each xs f)
  unfolding for_each
  for_each-IsUnique u [] h = tt
  for_each-IsUnique u (x ∷ xs) h =
      append-IsUnique (f x) (for_each xs f) (u x) (for_each-IsUnique u xs h.1)
        (for_each-AreDisjoint x xs h.0)
