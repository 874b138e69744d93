-- ===== src/Gate/Rate/Run.antt =====
-- The rate limit over a whole run: what one source gets through the gate, whatever others send.
use jt_snmpd.Prelude.{
  ℕ, ◌+◌, ◌-◌, ◌*◌, ◌≤◌, String, ◌≡◌, ◌≢◌, refl, ap, Bool, true, false, Option, List, [], ◌∷◌,
  arith, inl, inr, ◌&&◌, if◌then◌else◌, some, none, str_eq,
}
use jt_snmpd.Prelude.Dict.{get, kept, IsUnique, get-keep}
use jt_snmpd.Gate.Address.{Host}
use jt_snmpd.Gate.Defs.{
  Gate, Bucket, Outcome, DropReason, dropped, malformed, source_table_full, check, prune, is_live,
  idle_seconds,
}
use jt_snmpd.Gate.Table.{IsValid, check-Way, check-IsValid}
use jt_snmpd.Gate.Rate.{
  IsSound, level, level-kept, level-later, elapsed_add, IsSound-kept, IsSound-later, top,
}
use jt_snmpd.Gate.Rate.Step.{IsFair, IsFair-count, is_through, admit-IsFair}

-- A datagram, and when it arrives.
pub record Packet : Type 0 where
  pub bytes : List ℕ
  pub source : String
  pub arrival : ℕ

-- the settings of a gate under which the limit means what it says: a burst of one packet or more,
-- refilled before its bucket counts as idle
pub record HasLimits (host : Host) (g : Gate) : Type 0 where
  pub one : host.second ≤ top host g
  pub refilled : top host g ≤ (idle_seconds * host.second) * g.rate_pps

not_through : (o : DropReason) → o ≢ malformed → is_through (dropped o) ≡ false
not_through malformed h = absurd (h refl)
not_through _ h = refl

-- no packet came through, and no bucket changed
IsFair-refl :
    (host : Host) (g : Gate) (src s : String) (now : ℕ)
    → IsSound (top host g) now (get s g.buckets)
    → IsFair host g src s now g false
IsFair-refl host g src s now sound = record {
  paid = ground arith;
  sound = sound;
  same_burst = refl;
  same_rate = refl;
}

module _ (host : Host) (g : Gate) (src s : String) (now : ℕ) (limits : HasLimits host g) where
  abbrev pruned : Gate
  pruned = (prune g now (idle_seconds * host.second)).0

  get-pruned :
      IsUnique g.buckets
      → get s pruned.buckets ≡ kept (is_live now (idle_seconds * host.second)) (get s g.buckets)
  unfolding prune
  get-pruned u = get-keep _ s g.buckets u

  settings-pruned : (pruned.burst ≡ g.burst) × (pruned.rate_pps ≡ g.rate_pps)
  unfolding prune
  settings-pruned = (refl, refl)

  pruned-IsFair :
      (g' : Gate) (through : Bool)
      → IsUnique g.buckets
      → IsFair host pruned src s now g' through
      → IsFair host g src s now g' through
  unfolding prune
  pruned-IsFair g' through u f = record {
    paid = omega (
      arith,
      f.paid,
      ap (level (top host g) g.rate_pps now) (get-pruned u),
      level-kept (top host g) g.rate_pps now (idle_seconds * host.second) (get s g.buckets)
          limits.refilled,
    );
    sound = f.sound;
    same_burst = f.same_burst;
    same_rate = f.same_rate;
  }

  pruned-IsSound :
      IsUnique g.buckets
      → IsSound (top host g) now (get s g.buckets)
      → IsSound (top host g) now (get s pruned.buckets)
  pruned-IsSound u sound = rw (get-pruned u) (IsSound-kept _ now _ (get s g.buckets) sound)

module _ (host : Host) (g : Gate) (src s : String) (now : ℕ) (limits : HasLimits host g) where
  pub check-IsFair :
      (packet : List ℕ)
      → IsValid g.buckets
      → IsSound (top host g) now (get s g.buckets)
      → IsFair host g src s now
          (check host g packet src now).0
          (is_through (check host g packet src now).1)
  unfolding prune
  check-IsFair packet v sound =
      let pr : Gate = pruned host g src s now limits in
      let ps = pruned-IsSound host g src s now limits v.unique sound in
      elim (check-Way host g packet src now) [
        | inl (o, e, n) ↦ rw e (
            IsFair-count host g src s now g (dropped o) false (not_through o n)
              (IsFair-refl host g src s now sound))
        | inr (inl e) ↦ rw e (
            pruned-IsFair host g src s now limits _ false v.unique (
              IsFair-count host pr src s now pr (dropped source_table_full) false refl
                (IsFair-refl host pr src s now ps)))
        | inr (inr (inl (room, e))) ↦ rw e (
            pruned-IsFair host g src s now limits _ _ v.unique
              (admit-IsFair host pr src s now packet ps (limits.one)))
        | inr (inr (inr (room, e))) ↦ rw e (admit-IsFair host g src s now packet sound limits.one)
      ]

-- the datagrams in the order in which they arrive
abbrev pub IsOrdered : ℕ → List Packet → Type 0
IsOrdered t [] = Unit
IsOrdered t (p ∷ ps) = (t ≤ p.arrival) × IsOrdered p.arrival ps

abbrev pub last_arrival : ℕ → List Packet → ℕ
last_arrival t [] = t
last_arrival t (p ∷ ps) = last_arrival p.arrival ps

last_arrival-le : (t : ℕ) (ps : List Packet) → IsOrdered t ps → t ≤ last_arrival t ps
last_arrival-le t [] h = omega arith
last_arrival-le t (p ∷ ps) h = omega (arith, last_arrival-le p.arrival ps h.1)

-- how many datagrams of `s` the rate limit lets through, sane or not, in a run of `check`
unfoldable pub through_of : Host → Gate → String → List Packet → ℕ
through_of host g s [] = 0
through_of host g s (p ∷ ps) =
    let r : Gate × Outcome = check host g p.bytes p.source p.arrival in
    (if str_eq p.source s && is_through r.1 then 1 else 0) + through_of host r.0 s ps

level-le : (top rate now : ℕ) (o : Option Bucket) → level top rate now o ≤ top
level-le top rate now none = omega arith
level-le top rate now (some b) = omega arith

price_eq : (second : ℕ) (b : Bool) → (if b then second else 0) ≡ (if b then 1 else 0) * second
price_eq second true = omega arith
price_eq second false = omega arith

module _ (host : Host) (s : String) where
  open host use {second}

  HasLimits-next :
      (g g' : Gate)
      → g'.burst ≡ g.burst
      → g'.rate_pps ≡ g.rate_pps
      → HasLimits host g
      → HasLimits host g'
  HasLimits-next g g' b r l = record { one = rw b l.one; refilled = rw (b, r) l.refilled }

  -- the bound by the credit at the start, for the induction over the run
  through_of-credit :
      (g : Gate) (t : ℕ) (ps : List Packet)
      → HasLimits host g
      → IsValid g.buckets
      → IsSound (top host g) t (get s g.buckets)
      → IsOrdered t ps
      → through_of host g s ps * second
        ≤ level (top host g) g.rate_pps t (get s g.buckets) + (last_arrival t ps - t) * g.rate_pps
  unfolding through_of
  through_of-credit g t [] l v sound ordered = omega arith
  through_of-credit g t (p ∷ ps) l v sound ordered =
      let n : ℕ = p.arrival in
      let g' : Gate = (check host g p.bytes p.source n).0 in
      let f =
        check-IsFair host g p.source s n l p.bytes v
          (IsSound-later (top host g) t n (get s g.buckets) sound ordered.0) in
      let ih =
        through_of-credit g' n ps (HasLimits-next g g' f.same_burst f.same_rate l)
          (check-IsValid host g p.bytes p.source n v) (rw f.same_burst f.sound) ordered.1 in
      omega (
        arith,
        rw (f.same_burst, f.same_rate) at ih,
        f.paid,
        level-later (top host g) g.rate_pps t n (get s g.buckets) sound ordered.0,
        elapsed_add t n (last_arrival n ps) g.rate_pps ordered.0 (last_arrival-le n ps ordered.1),
        price_eq second (str_eq p.source s && is_through (check host g p.bytes p.source n).1),
      )

  -- However other sources behave, and whatever the packets hold: in a run of datagrams in the order of
  -- their arrival, from a gate with a well-formed table in which the bucket of the source `s`, if it
  -- has one, is sound, the rate limit lets through at most a burst of datagrams from `s`, and one
  -- more for each 1 / rate_pps of a second between the start of the run and its last arrival. The
  -- gate's burst is one packet or more and refills within the time after which a bucket is pruned.
  pub through_of-le :
      (g : Gate) (t : ℕ) (ps : List Packet)
      → HasLimits host g
      → IsValid g.buckets
      → IsSound (top host g) t (get s g.buckets)
      → IsOrdered t ps
      → through_of host g s ps * second ≤ g.burst * second + (last_arrival t ps - t) * g.rate_pps
  through_of-le g t ps l v sound ordered = omega (
    arith,
    through_of-credit g t ps l v sound ordered,
    level-le (top host g) g.rate_pps t (get s g.buckets),
  )
