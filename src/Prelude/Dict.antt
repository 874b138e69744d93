-- ===== src/Prelude/Dict.antt =====
-- Python's `dict` with text keys, as an association list in insertion order.
use Prim.Native.Nat.{suc, ◌≤◌}
use Prim.Native.String.{String}
use mathlib.Core.Path.{◌≡◌, refl}
use mathlib.Core.Bool.{Bool, true, false}
use mathlib.Core.Option.{Option, none, some}
use mathlib.Core.List.{List, [], ◌∷◌}
use native.Mathlib.Omega.{arith}
use text.Mathlib.Text.{◌==◌}
use text.Mathlib.TextEquality.{eq_iff}
use jt_snmpd.Prelude.Tests.{if◌then◌else◌}
use jt_snmpd.Prelude.Lists.{length}

abbrev pub Dict {ℓ} : Type ℓ → Type ℓ
Dict V = List (String × V)

module _ {ℓ} {V : Type ℓ} where
  -- d.get(k)
  unfoldable pub get : String → Dict V → Option V
  get k [] = none
  get k ((j, v) ∷ d) = if j == k then some v else get k d

  -- d[k] = v: an existing key keeps its place, a new one goes last
  unfoldable pub put : String → V → Dict V → Dict V
  put k v [] = (k, v) ∷ []
  put k v ((j, w) ∷ d) = if j == k then (j, v) ∷ d else (j, w) ∷ put k v d

  -- k in d
  unfoldable pub has : String → Dict V → Bool
  has k [] = false
  has k ((j, v) ∷ d) = if j == k then true else has k d

  pub get-put :
      (k j : String) (v : V) (d : Dict V) → get j (put k v d) ≡ (if k == j then some v else get j d)
  unfolding get put
  get-put k j v [] = refl
  get-put k j v ((i, w) ∷ d) = ground (arith, eq_iff k j, eq_iff i k, eq_iff i j, get-put k j v d)

  pub has-put :
      (k j : String) (v : V) (d : Dict V) → has j (put k v d) ≡ (if k == j then true else has j d)
  unfolding has put
  has-put k j v [] = refl
  has-put k j v ((i, w) ∷ d) = ground (arith, eq_iff k j, eq_iff i k, eq_iff i j, has-put k j v d)

  -- a put adds one entry exactly if the key is new
  pub length-put :
      (k : String) (v : V) (d : Dict V)
      → length (put k v d) ≡ (if has k d then length d else suc (length d))
  unfolding has put
  length-put k v [] = refl
  length-put k v ((i, w) ∷ d) = ground (arith, length-put k v d)

  pub get_of_not-has : (k : String) (d : Dict V) → has k d ≡ false → get k d ≡ none
  unfolding get has
  get_of_not-has k [] h = refl
  get_of_not-has k ((i, w) ∷ d) h = ground (arith, get_of_not-has k d)

  pub has_of_get : (k : String) (v : V) (d : Dict V) → get k d ≡ some v → has k d ≡ true
  unfolding get has
  has_of_get k v [] h = ground arith
  has_of_get k v ((i, w) ∷ d) h = ground (arith, has_of_get k v d)

  -- {k: v for k, v in d.items() if p(v)}
  unfoldable pub keep : (V → Bool) → Dict V → Dict V
  keep p [] = []
  keep p ((j, v) ∷ d) = let rest = keep p d in if p v then (j, v) ∷ rest else rest

  -- no key stands twice
  abbrev pub IsUnique : Dict V → Type 0
  IsUnique [] = Unit
  IsUnique ((j, v) ∷ d) = (has j d ≡ false) × IsUnique d

  pub put-IsUnique : (k : String) (v : V) (d : Dict V) → IsUnique d → IsUnique (put k v d)
  unfolding put has
  put-IsUnique k v [] u = (refl, tt)
  put-IsUnique k v ((i, w) ∷ d) u =
      ground (arith, eq_iff i k, eq_iff k i, has-put k i v d, put-IsUnique k v d)

  pub has-keep :
      (p : V → Bool) (k : String) (d : Dict V) → has k d ≡ false → has k (keep p d) ≡ false
  unfolding has keep
  has-keep p k [] h = refl
  has-keep p k ((i, w) ∷ d) h = ground (arith, has-keep p k d)

  pub keep-IsUnique : (p : V → Bool) (d : Dict V) → IsUnique d → IsUnique (keep p d)
  unfolding keep
  keep-IsUnique p [] u = tt
  keep-IsUnique p ((i, w) ∷ d) u = ground (arith, has-keep p i d, keep-IsUnique p d)

  pub length-keep-le : (p : V → Bool) (d : Dict V) → length (keep p d) ≤ length d
  unfolding keep
  length-keep-le p [] = omega arith
  length-keep-le p ((i, w) ∷ d) = ground (arith, length-keep-le p d)

  abbrev pub kept : (V → Bool) → Option V → Option V
  kept p none = none
  kept p (some v) = if p v then some v else none

  pub get-keep :
      (p : V → Bool) (k : String) (d : Dict V) → IsUnique d → get k (keep p d) ≡ kept p (get k d)
  unfolding get keep
  get-keep p k [] u = refl
  get-keep p k ((i, w) ∷ d) u =
      ground (arith, eq_iff i k, get-keep p k d, get_of_not-has i (keep p d), has-keep p i d)

  pub get-put_self : (k : String) (v : V) (d : Dict V) → get k (put k v d) ≡ some v
  get-put_self k v d = ground (arith, eq_iff k k, get-put k k v d)

  pub get-put_ne :
      (k j : String) (v : V) (d : Dict V) → (k == j) ≡ false → get j (put k v d) ≡ get j d
  get-put_ne k j v d h = ground (arith, get-put k j v d)
