-- ===== src/Mib/Controller/Walk.antt =====
-- A walk by GETNEXT: the manager asks for what is behind the last name it got, until the end.
use jt_snmpd.Prelude.{
  ℕ, zero, suc, ◌≤◌, ◌<◌, ◌≡◌, refl, ap, sym, ◌∙◌, true, List, [], ◌∷◌, arith, length, Bool-cases,
  inl, inr,
}
use jt_snmpd.Mib.Oid.{Oid, oid_lt, oid_lt_irrefl, oid_lt_trans}
use jt_snmpd.Mib.Value.{Row, VarBind, value, no_such_instance, end_of_mib_view}
use jt_snmpd.Mib.Controller.{following, read_next_variable}
use jt_snmpd.Mib.Controller.Sorted.{IsBelow, IsSorted, select, after, head?}
use jt_snmpd.Mib.Controller.Lookup.{read_next_variable-after}

pub after-all : (a : Oid) (rs : List Row) → IsBelow a rs → after a rs ≡ rs
unfolding select
after-all a [] b = refl
after-all a (r ∷ rs) b = rw b.0 (ap (◌∷◌ r) (after-all a rs b.1))

pub IsBelow-after : (a name : Oid) (rs : List Row) → IsBelow a rs → IsBelow a (after name rs)
unfolding select
IsBelow-after a name [] b = tt
IsBelow-after a name (r ∷ rs) b = elim (Bool-cases (oid_lt name r.0)) [
  | inl keep ↦ rw keep (b.0, IsBelow-after a name rs b.1)
  | inr skip ↦ rw skip (IsBelow-after a name rs b.1)
]

pub after-IsSorted : (name : Oid) (rows : List Row) → IsSorted rows → IsSorted (after name rows)
unfolding select
after-IsSorted name [] s = tt
after-IsSorted name (r ∷ rs) s = elim (Bool-cases (oid_lt name r.0)) [
  | inl keep ↦ rw keep (IsBelow-after r.0 name rs s.0, after-IsSorted name rs s.1)
  | inr skip ↦ rw skip (after-IsSorted name rs s.1)
]

-- behind a name `b` that is not before `a`, what is behind `a` is all that counts
pub after-after :
    (a b : Oid) (rows : List Row)
    → ((o : Oid) → oid_lt b o ≡ true → oid_lt a o ≡ true)
    → after b (after a rows) ≡ after b rows
unfolding select
after-after a b [] h = refl
after-after a b (r ∷ rs) h = elim (Bool-cases (oid_lt a r.0)) [
  | inl keep ↦ rw keep (elim (Bool-cases (oid_lt b r.0)) [
    | inl k ↦ rw k (ap (◌∷◌ r) (after-after a b rs h))
    | inr k ↦ rw k (after-after a b rs h)
  ])
  | inr skip ↦ rw skip (elim (Bool-cases (oid_lt b r.0)) [
    | inl k ↦ cc (h r.0 k)
    | inr k ↦ rw k (after-after a b rs h)
  ])
]

pub IsBelow-after_self : (name : Oid) (rows : List Row) → IsBelow name (after name rows)
unfolding select
IsBelow-after_self name [] = tt
IsBelow-after_self name (r ∷ rs) = elim (Bool-cases (oid_lt name r.0)) [
  | inl keep ↦ rw keep (keep, IsBelow-after_self name rs)
  | inr skip ↦ rw skip (IsBelow-after_self name rs)
]

pub after_self : (r : Row) (rs : List Row) → IsSorted (r ∷ rs) → after r.0 (r ∷ rs) ≡ rs
unfolding select
after_self r rs s = rw (oid_lt_irrefl r.0) (after-all r.0 rs s.0)

-- what is behind the first row behind `name`
after-next :
    (name : Oid) (rows : List Row) (r : Row) (rest : List Row)
    → IsSorted rows
    → after name rows ≡ r ∷ rest
    → after r.0 rows ≡ rest
after-next name rows r rest s e =
    let sorted : IsSorted (r ∷ rest) = rw e at (after-IsSorted name rows s) in
    let above : oid_lt name r.0 ≡ true = (rw e at (IsBelow-after_self name rows)).0 in
    sym (after-after name r.0 rows (λ o h. oid_lt_trans name r.0 o above h))
    ∙ ap (after r.0) e
    ∙ after_self r rest sorted

-- the manager goes on from the name that it got
abbrev pub walk_step : (Oid → List Row) → VarBind → List Row
walk_step again (o, value v) = (o, v) ∷ again o
walk_step again (o, no_such_instance) = []
walk_step again (o, end_of_mib_view) = []

-- the rows that a manager collects with so many requests
unfoldable pub walk : ℕ → List Row → Oid → List Row
walk zero rows name = []
walk (suc fuel) rows name = walk_step (walk fuel rows) (read_next_variable rows name)

pub length-after-le : (name : Oid) (rows : List Row) → length (after name rows) ≤ length rows
unfolding select
length-after-le name [] = omega arith
length-after-le name (r ∷ rs) = ground (arith, length-after-le name rs)

walk-fuel :
    (fuel : ℕ) (rows : List Row) (name : Oid) (rest : List Row)
    → IsSorted rows
    → after name rows ≡ rest
    → length rest < fuel
    → walk fuel rows name ≡ rest
unfolding walk
walk-fuel zero rows name rest s e h = absurd (omega arith)
walk-fuel (suc fuel) rows name [] s e h =
    ap (walk_step (walk fuel rows))
      (read_next_variable-after rows name s ∙ ap (λ l. following name (head? l)) e)
walk-fuel (suc fuel) rows name (r ∷ rest) s e h =
    ap (walk_step (walk fuel rows))
      (read_next_variable-after rows name s ∙ ap (λ l. following name (head? l)) e)
    ∙ ap (◌∷◌ r) (walk-fuel fuel rows r.0 rest s (after-next name rows r rest s e) (omega arith))

-- A walk by GETNEXT from any name returns every row of the snapshot behind that name once, in order,
-- and ends: on a snapshot in strictly ascending order one request more than it has rows is enough.
pub walk-after :
    (rows : List Row) (name : Oid) (fuel : ℕ)
    → IsSorted rows
    → length rows < fuel
    → walk fuel rows name ≡ after name rows
walk-after rows name fuel s h =
    walk-fuel fuel rows name (after name rows) s refl (omega (arith, length-after-le name rows))
