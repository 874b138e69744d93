-- ===== src/Gate/Rate/Step.antt =====
-- One call of `check` spends at most the credit that its source has, and takes nothing from others.
use jt_snmpd.Prelude.{
  ℕ, ◌+◌, ◌≤◌, String, ◌≡◌, refl, sym, subst, Bool, true, false, List, arith, inl, inr, ◌&&◌,
  Bool-cases, if◌then◌else◌, Option-cases, str_eq, eq_iff,
}
use jt_snmpd.Prelude.Dict.{get, get-put_self, get-put_ne}
use jt_snmpd.Gate.Address.{Host}
use jt_snmpd.Gate.Tlv.{tlv_sane}
use jt_snmpd.Gate.Defs.{
  Gate, Outcome, passed, dropped, rate_limit, malformed, increment, admit, rate_ok, refill,
}
use jt_snmpd.Gate.Table.{rate_ok-put}
use jt_snmpd.Gate.Rate.{IsSound, level, top, refill_now, spend-level, elapsed_zero}

-- the outcomes of packets that the rate limit let through
abbrev pub is_through : Outcome → Bool
is_through passed = true
is_through (dropped malformed) = true
is_through _ = false

-- a packet of `src`, in the eyes of `s`
abbrev pub price : ℕ → String → String → Bool → ℕ
price second src s through = if str_eq src s && through then second else 0

module _ (host : Host) (g : Gate) (src : String) (now : ℕ) where
  open host use {second}

  pub rate_ok-settings :
      ((rate_ok host g src now).0.burst ≡ g.burst)
      × ((rate_ok host g src now).0.rate_pps ≡ g.rate_pps)
  unfolding rate_ok
  rate_ok-settings = ground arith

  rate_ok-level :
      IsSound (top host g) now (get src g.buckets)
      → second ≤ top host g
      → ((if (rate_ok host g src now).1 then second else 0)
            + level (top host g) g.rate_pps now (get src (rate_ok host g src now).0.buckets)
          ≤ level (top host g) g.rate_pps now (get src g.buckets))
        × IsSound (top host g) now (get src (rate_ok host g src now).0.buckets)
  rate_ok-level sound one = elim (Option-cases (get src g.buckets)) [
    | inl e ↦
        unfold rate_ok in
        rw (e, rate_ok, get-put_self)
          (ground (arith, elapsed_zero now now g.rate_pps), (omega arith, omega arith))
    | inr (b, e) ↦
        let (last_now, filled) = refill_now host g b now (rw e at sound) in
        let (paid, sound') =
          spend-level host g src (refill host g b now) now last_now (omega (arith, filled)) in
        unfold rate_ok in rw (e, rate_ok) (omega (arith, paid, filled), sound')
  ]

module _ (host : Host) (g : Gate) (src s : String) (now : ℕ) where
  open host use {second}

  abbrev pub credit : Gate → ℕ
  credit g' = level (top host g) g.rate_pps now (get s g'.buckets)

  -- What became of `g` is fair to `s`: it pays for its own packets only, from its credit, and the
  -- settings stay.
  pub record IsFair (g' : Gate) (through : Bool) : Type 0 where
    pub paid : price second src s through + credit g' ≤ credit g
    pub sound : IsSound (top host g) now (get s g'.buckets)
    pub same_burst : g'.burst ≡ g.burst
    pub same_rate : g'.rate_pps ≡ g.rate_pps

module _ (host : Host) (g : Gate) (src : String) (now : ℕ) where
  rate_ok-IsFair_self :
      IsSound (top host g) now (get src g.buckets)
      → host.second ≤ top host g
      → IsFair host g src src now (rate_ok host g src now).0 (rate_ok host g src now).1
  rate_ok-IsFair_self sound one =
      let (paid, sound') = rate_ok-level host g src now sound one in
      record {
        paid = rw ((eq_iff src src).1 refl) paid;
        sound = sound';
        same_burst = (rate_ok-settings host g src now).0;
        same_rate = (rate_ok-settings host g src now).1;
      }

  rate_ok-IsFair_other :
      (s : String)
      → str_eq src s ≡ false
      → IsSound (top host g) now (get s g.buckets)
      → IsFair host g src s now (rate_ok host g src now).0 (rate_ok host g src now).1
  rate_ok-IsFair_other s other sound =
      let (b, e) = rate_ok-put host g src now in
      let kept : get s (rate_ok host g src now).0.buckets ≡ get s g.buckets =
        rw e (get-put_ne src s b g.buckets other) in
      record {
        paid = rw (other, kept) (omega arith);
        sound = rw kept sound;
        same_burst = (rate_ok-settings host g src now).0;
        same_rate = (rate_ok-settings host g src now).1;
      }

  rate_ok-IsFair :
      (s : String)
      → IsSound (top host g) now (get s g.buckets)
      → host.second ≤ top host g
      → IsFair host g src s now (rate_ok host g src now).0 (rate_ok host g src now).1
  rate_ok-IsFair s sound one = elim (Bool-cases (str_eq src s)) [
    | inr other ↦ rate_ok-IsFair_other s other sound
    | inl same ↦
        let e : src ≡ s = (eq_iff src s).0 same in
        subst (λ x. IsFair host g src x now (rate_ok host g src now).0 (rate_ok host g src now).1) e
          (rate_ok-IsFair_self (rw e sound) one)
  ]

-- an outcome that is counted changes no bucket
module _ (host : Host) (g : Gate) (src s : String) (now : ℕ) where
  pub IsFair-count :
      (g' : Gate) (o : Outcome) (through : Bool)
      → is_through o ≡ through
      → IsFair host g src s now g' through
      → IsFair host g src s now (increment o g') (is_through o)
  IsFair-count g' o through e f = record {
    paid = rw e f.paid;
    sound = f.sound;
    same_burst = f.same_burst;
    same_rate = f.same_rate;
  }

  pub admit-IsFair :
      (packet : List ℕ)
      → IsSound (top host g) now (get s g.buckets)
      → host.second ≤ top host g
      → IsFair host g src s now
          (admit host g packet src now).0
          (is_through (admit host g packet src now).1)
  unfolding admit
  admit-IsFair packet sound one =
      let fair = rate_ok-IsFair host g src now s sound one in
      elim (Bool-cases (rate_ok host g src now).1) [
        | inr slow ↦
            rw slow (IsFair-count _ (dropped rate_limit) (rate_ok host g src now).1 (sym slow) fair)
        | inl fast ↦ rw fast (elim (Bool-cases (tlv_sane packet)) [
          | inl sane ↦ rw sane (IsFair-count _ passed (rate_ok host g src now).1 (sym fast) fair)
          | inr bad ↦
              rw bad (IsFair-count _ (dropped malformed) (rate_ok host g src now).1 (sym fast) fair)
        ])
      ]
