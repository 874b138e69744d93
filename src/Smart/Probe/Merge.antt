-- ===== src/Smart/Probe/Merge.antt =====
-- The first answer for a key wins, and what the state of a disk is by the answers of the disk.
use jt_snmpd.Prelude.{
  ◌≡◌, refl, ap, sym, ◌∙◌, Bool, true, false, Option, none, some, List, [], ◌∷◌, arith,
  if◌then◌else◌, eq_iff, str_eq, String, Bool-cases, inl, inr,
}
use jt_snmpd.Prelude.Dict.{get, put, has, get-put, has_of_get}
use jt_snmpd.Smart.{Health, HealthValue}
use jt_snmpd.Smart.Probe.{merge, merge_all}

-- the one, or else the other
abbrev pub or_else : {A : Type 0} → Option A → Option A → Option A
or_else none b = b
or_else (some a) b = some a

or_else-none : {A : Type 0} (a : Option A) → or_else a none ≡ a
or_else-none none = refl
or_else-none (some a) = refl

or_else_assoc : {A : Type 0} (a b c : Option A) → or_else (or_else a b) c ≡ or_else a (or_else b c)
or_else_assoc none b c = refl
or_else_assoc (some a) b c = refl

has_of_none : (k : String) (r : Health) → get k r ≡ none → has k r ≡ false
unfolding get has
has_of_none k [] h = refl
has_of_none k ((i, w) ∷ r) h = ground (arith, h, has_of_none k r)

get_added :
    (k j : String) (v : HealthValue) (r : Health)
    → get k (if has j r then r else put j v r)
      ≡ or_else (get k r) (if str_eq j k then some v else none)
get_added k j v r = elim (Bool-cases (str_eq j k)) [
  | inr other ↦ rw other (
      sides (has j r) (get-put j k v r ∙ ap (λ t. if t then some v else get k r) other)
      ∙ sym (or_else-none (get k r)))
  | inl same ↦
      let e : j ≡ k = (eq_iff j k).0 same in rw (e, (eq_iff k k).1 refl) (known (get k r) refl)
]
  where
    sides : (b : Bool) → get k (put j v r) ≡ get k r → get k (if b then r else put j v r) ≡ get k r
    sides true p = refl
    sides false p = p

    known :
        (o : Option HealthValue)
        → get k r ≡ o
        → get k (if has k r then r else put k v r) ≡ or_else (get k r) (some v)
    known none h =
        rw (has_of_none k r h, h)
          (get-put k k v r ∙ ap (λ t. if t then some v else get k r) ((eq_iff k k).1 refl))
    known (some w) h = rw (has_of_get k w r h, h) refl

or_else_if :
    (a : Option HealthValue) (b : Bool) (v : HealthValue) (c : Option HealthValue)
    → or_else (or_else a (if b then some v else none)) c ≡ or_else a (if b then some v else c)
or_else_if none true v c = refl
or_else_if none false v c = refl
or_else_if (some a) b v c = refl

get-merge : (k : String) (r got : Health) → get k (merge r got) ≡ or_else (get k r) (get k got)
unfolding merge get
get-merge k r [] = sym (or_else-none (get k r))
get-merge k r ((j, v) ∷ got) =
    get-merge k (if has j r then r else put j v r) got
    ∙ ap (λ t. or_else t (get k got)) (get_added k j v r)
    ∙ or_else_if (get k r) (str_eq j k) v (get k got)

-- the first of the answers that has the key
unfoldable pub first_answer : String → List (Option Health) → Option HealthValue
first_answer k [] = none
first_answer k (none ∷ rest) = first_answer k rest
first_answer k (some got ∷ rest) = or_else (get k got) (first_answer k rest)

merge_all_from :
    (k : String) (r : Health) (answers : List (Option Health))
    → get k (merge_all r answers) ≡ or_else (get k r) (first_answer k answers)
unfolding merge_all first_answer
merge_all_from k r [] = sym (or_else-none (get k r))
merge_all_from k r (none ∷ rest) = merge_all_from k r rest
merge_all_from k r (some got ∷ rest) =
    merge_all_from k (merge r got) rest
    ∙ ap (λ t. or_else t (first_answer k rest)) (get-merge k r got)
    ∙ or_else_assoc (get k r) (get k got) (first_answer k rest)

-- For every key, the merged result has the value of the first way to ask that gave one; a way that failed with
-- an exception changes nothing.
pub merge_all-first :
    (k : String) (answers : List (Option Health))
    → get k (merge_all [] answers) ≡ first_answer k answers
unfolding get
merge_all-first k answers = merge_all_from k [] answers
