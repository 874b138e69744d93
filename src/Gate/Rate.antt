-- ===== src/Gate/Rate.antt =====
-- The credit of a source: what its bucket lets it spend, now and later.
pub mod Step
pub mod Run
use native.Mathlib.Nat.{add-mul, mul-le-mul_right}
use jt_snmpd.Prelude.{
  ℕ, zero, suc, ◌+◌, ◌-◌, ◌*◌, ◌≤◌, ◌<◌, min, String, ◌≡◌, ◌≢◌, refl, ap, Bool, true, false, Option,
  List, [], ◌∷◌, arith, length, ◌⊎◌, inl, inr, not, ◌&&◌, Bool-cases, ltb, leb, if◌then◌else◌,
  Option-cases, some, none, str_eq, eq_iff,
}
use jt_snmpd.Prelude.Dict.{get, put, keep, kept, get-put_self, get-put_ne, get-keep}
use jt_snmpd.Gate.Address.{Host}
use jt_snmpd.Gate.Defs.{
  Gate, Bucket, Outcome, DropReason, passed, dropped, acl, oversize, rate_limit, malformed,
  source_table_full, increment, fresh, check, admit, rate_ok, spend, refill, prune, is_live,
  idle_seconds,
}
use jt_snmpd.Gate.Table.{IsValid, check-Way}

-- the bucket is not from the future, and holds no more than a full one
abbrev pub IsSound : ℕ → ℕ → Option Bucket → Type 0
IsSound top now none = Unit
IsSound top now (some b) = (b.last ≤ now) × (b.tokens ≤ top)

-- what a source may still spend at a time: a source without a bucket starts with a full one
abbrev pub level : ℕ → ℕ → ℕ → Option Bucket → ℕ
level top rate now none = top
level top rate now (some b) = min top (b.tokens + (now - b.last) * rate)

pub elapsed_add :
    (last t now rate : ℕ)
    → last ≤ t
    → t ≤ now
    → (now - last) * rate ≡ (t - last) * rate + (now - t) * rate
elapsed_add last t now rate p q =
    let e : now - last ≡ (t - last) + (now - t) = omega arith in rw e (add-mul _ _ rate)

pub elapsed_zero : (last now rate : ℕ) → now ≤ last → (now - last) * rate ≡ 0
elapsed_zero last now rate p = let e : now - last ≡ 0 = omega arith in rw e (omega arith)

-- credit grows at the rate
pub level-later :
    (top rate t now : ℕ) (o : Option Bucket)
    → IsSound top t o
    → t ≤ now
    → level top rate now o ≤ level top rate t o + (now - t) * rate
level-later top rate t now none p q = omega arith
level-later top rate t now (some b) p q = omega (arith, elapsed_add b.last t now rate p.0 q)

idle-le : (now last idle : ℕ) → last + idle < now → idle ≤ now - last
idle-le now last idle h = omega arith

-- an idle bucket is full, so that dropping it gives its source nothing
pub level-kept :
    (top rate now idle : ℕ) (o : Option Bucket)
    → top ≤ idle * rate
    → level top rate now (kept (is_live now idle) o) ≡ level top rate now o
level-kept top rate now idle none h = refl
level-kept top rate now idle (some b) h = elim (Bool-cases (ltb (b.last + idle) now)) [
  | inr live ↦ rw live
  | inl gone ↦
      rw gone (omega (arith, mul-le-mul_right rate (idle-le now b.last idle (ground arith))))
]

pub IsSound-later :
    (top t now : ℕ) (o : Option Bucket) → IsSound top t o → t ≤ now → IsSound top now o
IsSound-later top t now none p q = tt
IsSound-later top t now (some b) p q = omega arith

pub IsSound-kept :
    (top now idle : ℕ) (o : Option Bucket)
    → IsSound top now o
    → IsSound top now (kept (is_live now idle) o)
IsSound-kept top now idle none p = tt
IsSound-kept top now idle (some b) p = elim (Bool-cases (ltb (b.last + idle) now)) [
  | inr live ↦ rw live p
  | inl gone ↦ rw gone tt
]

module _ (host : Host) (g : Gate) where
  open host use {second}

  -- the most that a bucket holds
  abbrev pub top : ℕ
  top = g.burst * second

  pub refill_now :
      (b : Bucket) (now : ℕ)
      → IsSound top now (some b)
      → ((refill host g b now).last ≡ now)
        × ((refill host g b now).tokens ≡ level top g.rate_pps now (some b))
  unfolding refill
  refill_now b now p = ground (arith, elapsed_zero b.last now g.rate_pps)

  -- the packet's price, and what its source can still spend afterwards
  pub spend-level :
      (src : String) (b : Bucket) (now : ℕ)
      → b.last ≡ now
      → b.tokens ≤ top
      → ((if (spend host g src b).1 then second else 0)
            + level top g.rate_pps now (get src (spend host g src b).0.buckets)
          ≤ b.tokens)
        × IsSound top now (get src (spend host g src b).0.buckets)
  unfolding spend
  spend-level src b now e h = elim (Bool-cases (leb second b.tokens)) [
    | inl enough ↦
        rw (enough, get-put_self)
          (ground (arith, elapsed_zero b.last now g.rate_pps), (omega arith, omega arith))
    | inr less ↦
        rw (less, get-put_self)
          (ground (arith, elapsed_zero b.last now g.rate_pps), (omega arith, omega arith))
  ]
