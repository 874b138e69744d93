-- ===== src/Tables/Regions.antt =====
-- Parts of the tree of names: the names below a base whose next sub-identifier is in a range. Parts of the
-- snapshot in other regions share no name.
use jt_snmpd.Prelude.{
  ℕ, ◌≡◌, refl, ap, Bool, true, false, ◌&&◌, ◌||◌, List, [], ◌∷◌, arith, ltb, leb, ◌==◌,
  if◌then◌else◌, Bool-cases, inl, inr,
}
use jt_snmpd.Mib.Oid.{Oid, oid_eq, oid_eq→eq}
use jt_snmpd.Mib.Value.{Row}
use jt_snmpd.Mib.Snapshot.{name_count}
use jt_snmpd.Tables.{flatten}
use jt_snmpd.Tables.Rows.{
  AreDisjoint, IsUnique, append-IsUnique, AreDisjoint-append_right, AreDisjoint-nil,
}

-- a base, and the range of what follows it
abbrev pub Region : Type 0
Region = Oid × ℕ × ℕ

unfoldable pub covers : Oid → ℕ → ℕ → Oid → Bool
covers [] lo hi [] = false
covers [] lo hi (x ∷ xs) = leb lo x && ltb x hi
covers (b ∷ bs) lo hi [] = false
covers (b ∷ bs) lo hi (x ∷ xs) = if b == x then covers bs lo hi xs else false

unfoldable pub regions_apart : Oid → ℕ → ℕ → Oid → ℕ → ℕ → Bool
regions_apart [] lo hi [] lo' hi' = leb hi lo' || leb hi' lo
regions_apart [] lo hi (y ∷ ys) lo' hi' = ltb y lo || leb hi y
regions_apart (x ∷ xs) lo hi [] lo' hi' = ltb x lo' || leb hi' x
regions_apart (x ∷ xs) lo hi (y ∷ ys) lo' hi' =
    if x == y then regions_apart xs lo hi ys lo' hi' else true

covers_apart :
    (a : Oid) (lo hi : ℕ) (b : Oid) (lo' hi' : ℕ) (o : Oid)
    → regions_apart a lo hi b lo' hi' ≡ true
    → covers a lo hi o ≡ true
    → covers b lo' hi' o ≡ false
unfolding covers regions_apart
covers_apart [] lo hi [] lo' hi' [] h c = refl
covers_apart [] lo hi [] lo' hi' (x ∷ xs) h c = ground (arith, h, c)
covers_apart [] lo hi (y ∷ ys) lo' hi' [] h c = refl
covers_apart [] lo hi (y ∷ ys) lo' hi' (x ∷ xs) h c = ground (arith, h, c)
covers_apart (p ∷ a) lo hi [] lo' hi' [] h c = refl
covers_apart (p ∷ a) lo hi [] lo' hi' (x ∷ xs) h c = ground (arith, h, c)
covers_apart (p ∷ a) lo hi (y ∷ ys) lo' hi' [] h c = refl
covers_apart (p ∷ a) lo hi (y ∷ ys) lo' hi' (x ∷ xs) h c =
    ground (arith, h, c, covers_apart a lo hi ys lo' hi' xs)

unfoldable pub covers_any : List Region → Oid → Bool
unfolding covers
covers_any [] o = false
covers_any ((b, lo, hi) ∷ regs) o = covers b lo hi o || covers_any regs o

unfoldable pub apart_from_all : Region → List Region → Bool
unfolding regions_apart
apart_from_all r [] = true
apart_from_all (a, lo, hi) ((b, lo', hi') ∷ regs) =
    regions_apart a lo hi b lo' hi' && apart_from_all (a, lo, hi) regs

unfoldable pub all_regions_apart : List Region → List Region → Bool
unfolding apart_from_all
all_regions_apart [] regs = true
all_regions_apart (r ∷ rs) regs = apart_from_all r regs && all_regions_apart rs regs

both : (x y : Bool) → (x && y) ≡ true → (x ≡ true) × (y ≡ true)
both true true h = (refl, refl)
both true false h = absurd (ground (arith, h))
both false y h = absurd (ground (arith, h))

neither : (x y : Bool) → x ≡ false → y ≡ false → (x || y) ≡ false
neither x y p q = ground (arith, p, q)

apart_covers :
    (a : Oid) (lo hi : ℕ) (regs : List Region) (o : Oid)
    → apart_from_all (a, lo, hi) regs ≡ true
    → covers a lo hi o ≡ true
    → covers_any regs o ≡ false
unfolding apart_from_all covers_any
apart_covers a lo hi [] o h c = refl
apart_covers a lo hi ((b, lo', hi') ∷ regs) o h c =
    let (p, q) = both (regions_apart a lo hi b lo' hi') (apart_from_all (a, lo, hi) regs) h in
    neither (covers b lo' hi' o) (covers_any regs o) (covers_apart a lo hi b lo' hi' o p c)
      (apart_covers a lo hi regs o q c)

all_apart_covers :
    (rs regs : List Region) (o : Oid)
    → all_regions_apart rs regs ≡ true
    → covers_any rs o ≡ true
    → covers_any regs o ≡ false
unfolding all_regions_apart covers_any
all_apart_covers [] regs o h c = absurd (ground (arith, c))
all_apart_covers ((a, lo, hi) ∷ rs) regs o h c =
    ground (arith, h, c, apart_covers a lo hi regs o, all_apart_covers rs regs o)

abbrev pub AreCovered : List Region → List Row → Type 0
AreCovered regs [] = Unit
AreCovered regs (r ∷ rs) = (covers_any regs r.0 ≡ true) × AreCovered regs rs

covered_elsewhere :
    (regs : List Region) (o : Oid) (ss : List Row)
    → covers_any regs o ≡ false
    → AreCovered regs ss
    → name_count o ss ≡ 0
unfolding name_count
covered_elsewhere regs o [] h c = refl
covered_elsewhere regs o (s ∷ ss) h c = elim (Bool-cases (oid_eq s.0 o)) [
  | inl same ↦
      let e : covers_any regs s.0 ≡ covers_any regs o =
        ap (covers_any regs) (oid_eq→eq s.0 o same) in
      cc (e, h, c.0)
  | inr other ↦ rw other (omega (arith, covered_elsewhere regs o ss h c.1))
]

pub AreCovered-AreDisjoint :
    (regs regs' : List Region) (rs ss : List Row)
    → all_regions_apart regs regs' ≡ true
    → AreCovered regs rs
    → AreCovered regs' ss
    → AreDisjoint rs ss
AreCovered-AreDisjoint regs regs' [] ss h c d = tt
AreCovered-AreDisjoint regs regs' (r ∷ rs) ss h c d = (
  covered_elsewhere regs' r.0 ss (all_apart_covers regs regs' r.0 h c.0) d,
  AreCovered-AreDisjoint regs regs' rs ss h c.1 d,
)

-- the parts of a snapshot, each with its regions
abbrev pub Part : Type 0
Part = List Region × List Row

unfoldable pub apart_from_parts : List Region → List (List Region) → Bool
apart_from_parts regs [] = true
apart_from_parts regs (qs ∷ qss) = all_regions_apart regs qs && apart_from_parts regs qss

unfoldable pub all_parts_apart : List (List Region) → Bool
unfolding apart_from_parts all_regions_apart
all_parts_apart [] = true
all_parts_apart (qs ∷ qss) = apart_from_parts qs qss && all_parts_apart qss

abbrev pub IsPart : List Region → List Row → Type 0
IsPart regs rs = IsUnique rs × AreCovered regs rs

abbrev pub AreParts : List (List Region) → List (List Row) → Type 0
AreParts [] [] = Unit
AreParts [] (rs ∷ rss) = ⊥
AreParts (qs ∷ qss) [] = ⊥
AreParts (qs ∷ qss) (rs ∷ rss) = IsPart qs rs × AreParts qss rss

flatten-AreDisjoint :
    (regs : List Region) (qss : List (List Region)) (rs : List Row) (rss : List (List Row))
    → apart_from_parts regs qss ≡ true
    → AreCovered regs rs
    → AreParts qss rss
    → AreDisjoint rs (flatten rss)
unfolding flatten apart_from_parts
flatten-AreDisjoint regs [] rs [] h c p = AreDisjoint-nil rs
flatten-AreDisjoint regs [] rs (ss ∷ rss) h c p = absurd p
flatten-AreDisjoint regs (qs ∷ qss) rs [] h c p = absurd p
flatten-AreDisjoint regs (qs ∷ qss) rs (ss ∷ rss) h c p =
    AreDisjoint-append_right rs ss (flatten rss)
      (AreCovered-AreDisjoint regs qs rs ss (ground (arith, h)) c p.0.1)
      (flatten-AreDisjoint regs qss rs rss (ground (arith, h)) c p.1)

-- parts in regions apart have no name twice in all
pub flatten-IsUnique :
    (qss : List (List Region)) (rss : List (List Row))
    → all_parts_apart qss ≡ true
    → AreParts qss rss
    → IsUnique (flatten rss)
unfolding flatten all_parts_apart
flatten-IsUnique [] [] h p = tt
flatten-IsUnique [] (rs ∷ rss) h p = absurd p
flatten-IsUnique (qs ∷ qss) [] h p = absurd p
flatten-IsUnique (qs ∷ qss) (rs ∷ rss) h p =
    append-IsUnique rs (flatten rss) p.0.0 (flatten-IsUnique qss rss (ground (arith, h)) p.1)
      (flatten-AreDisjoint qs qss rs rss (ground (arith, h)) p.0.1 p.1)
