-- ===== src/Gate/Order.antt =====
-- What one call of `check` does to its caller and to the counters, whatever the packet.
use jt_snmpd.Prelude.{
  Bool, if◌then◌else◌, refl, ap, ◌∙◌, ℕ, ◌+◌, ◌*◌, ◌≤◌, ◌<◌, String, ◌≡◌, ◌≢◌, true, false, List,
  arith, length, ◌⊎◌, inl, inr,
}
use jt_snmpd.Prelude.Dict.{has}
use jt_snmpd.Gate.Address.{Host}
use jt_snmpd.Gate.Tlv.{tlv_sane}
use jt_snmpd.Gate.Defs.{
  Gate, Counters, Outcome, DropReason, passed, dropped, acl, oversize, rate_limit, malformed,
  source_table_full, idle_seconds, bump, check, admit, rate_ok, prune, ip_allowed,
}

-- the counter of an outcome
abbrev pub counter : Outcome → Counters → ℕ
counter passed c = c.passed
counter (dropped acl) c = c.acl
counter (dropped oversize) c = c.oversize
counter (dropped rate_limit) c = c.rate_limit
counter (dropped malformed) c = c.malformed
counter (dropped source_table_full) c = c.source_table_full

abbrev pub same_reason : DropReason → DropReason → Bool
same_reason acl acl = true
same_reason oversize oversize = true
same_reason rate_limit rate_limit = true
same_reason malformed malformed = true
same_reason source_table_full source_table_full = true
same_reason _ _ = false

abbrev pub same_outcome : Outcome → Outcome → Bool
same_outcome passed passed = true
same_outcome (dropped r) (dropped s) = same_reason r s
same_outcome _ _ = false

counter-bump :
    (o p : Outcome) (c : Counters)
    → counter o (bump p c) ≡ (if same_outcome o p then counter o c + 1 else counter o c)
unfolding bump
counter-bump passed passed c = refl
counter-bump (dropped r) passed c = ground arith
counter-bump o (dropped r) c = ground arith

module _ (host : Host) (g : Gate) (packet : List ℕ) (src : String) (now : ℕ) where
  rate_ok-counters : (rate_ok host g src now).0.counters ≡ g.counters
  unfolding rate_ok
  rate_ok-counters = ground arith

  admit-counters :
      (admit host g packet src now).0.counters ≡ bump (admit host g packet src now).1 g.counters
  unfolding admit
  admit-counters = ground (arith, rate_ok-counters)

  admit-passed : (admit host g packet src now).1 ≡ passed → tlv_sane packet ≡ true
  unfolding admit
  admit-passed h = ground arith

module _ (host : Host) (g : Gate) (packet : List ℕ) (src : String) (now : ℕ) where
  counted :
      (check host g packet src now).0.counters ≡ bump (check host g packet src now).1 g.counters
  unfolding check
  counted = ground (
    arith,
    admit-counters host g packet src now,
    admit-counters host (prune g now (idle_seconds * host.second)).0 packet src now,
  )

  -- Every call counts the outcome that it returns and no other: of the six counters, the one of the
  -- returned reason, or of "passed", goes up by one, and each of the others stays as it was.
  pub check-counters :
      (o : Outcome)
      → counter o (check host g packet src now).0.counters ≡ (
          if same_outcome o (check host g packet src now).1
          then counter o g.counters + 1
          else counter o g.counters)
  check-counters o =
      ap (counter o) counted ∙ counter-bump o (check host g packet src now).1 g.counters

  -- A packet that passes comes from an allowed address, is within the size limit and has a sane
  -- outer TLV: the decoder sees no other.
  pub check-passed :
      (check host g packet src now).1 ≡ passed
      → (ip_allowed host g src ≡ true) × (length packet ≤ g.max_bytes) × (tlv_sane packet ≡ true)
  unfolding check
  check-passed h = ground (
    arith,
    admit-passed host g packet src now,
    admit-passed host (prune g now (idle_seconds * host.second)).0 packet src now,
  )

  -- An address that is not allowed, or a packet over the limit, is turned away before anything is
  -- tracked: the buckets stay as they were.
  pub check-untracked :
      (ip_allowed host g src ≡ false) ⊎ (g.max_bytes < length packet)
      → (check host g packet src now).0.buckets ≡ g.buckets
  unfolding check
  check-untracked (inl denied) = ground arith
  check-untracked (inr long) = ground arith

  -- A source that has a bucket is never turned away for a full table.
  pub check-known :
      has src g.buckets ≡ true → (check host g packet src now).1 ≢ dropped source_table_full
  unfolding check admit
  check-known known e = ground arith
