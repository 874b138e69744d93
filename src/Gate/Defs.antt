-- ===== src/Gate/Defs.antt =====
-- deploy/preauth.py: the gate in front of the decoder. Times are ticks of the host's clock, and a
-- bucket's tokens are in units of one token per second and tick, where the source has floats.
use jt_snmpd.Prelude.{
  Option, str_eq, ℕ, ◌+◌, ◌-◌, ◌*◌, min, String, Bool, true, false, not, ◌&&◌, none, some, List, [],
  ◌∷◌, ltb, leb, ◌==◌, if◌then◌else◌, length,
}
use jt_snmpd.Prelude.Dict.{Dict, get, put, has, keep}
use jt_snmpd.Gate.Address.{Address, Network, Host, is_member, is_loopback}
use jt_snmpd.Gate.Tlv.{tlv_sane}

abbrev pub max_packet_bytes : ℕ
max_packet_bytes = 4096

abbrev pub default_rate_pps : ℕ
default_rate_pps = 50

abbrev pub default_burst : ℕ
default_burst = 300

abbrev pub max_tracked_sources : ℕ
max_tracked_sources = 4096

abbrev pub idle_seconds : ℕ
idle_seconds = 300

pub data DropReason : Type 0 where
  acl oversize rate_limit malformed source_table_full : DropReason

-- what `check` returns: `(True, None)`, or `(False, reason)`
pub data Outcome : Type 0 where
  passed : Outcome
  dropped : DropReason → Outcome

pub record Counters : Type 0 where
  pub acl : ℕ
  pub oversize : ℕ
  pub rate_limit : ℕ
  pub malformed : ℕ
  pub source_table_full : ℕ
  pub passed : ℕ

-- `counters[key] += 1`; the key is a reason, or "passed"
unfoldable pub bump : Outcome → Counters → Counters
bump Outcome.passed c = record c { passed = c.passed + 1 }
bump (dropped DropReason.acl) c = record c { acl = c.acl + 1 }
bump (dropped DropReason.oversize) c = record c { oversize = c.oversize + 1 }
bump (dropped DropReason.rate_limit) c = record c { rate_limit = c.rate_limit + 1 }
bump (dropped DropReason.malformed) c = record c { malformed = c.malformed + 1 }
bump (dropped DropReason.source_table_full) c = record c {
  source_table_full = c.source_table_full + 1;
}

pub record Bucket : Type 0 where
  pub tokens : ℕ
  pub last : ℕ

pub record Gate : Type 0 where
  pub allowed_networks : List Network
  pub rate_pps : ℕ
  pub burst : ℕ
  pub max_bytes : ℕ
  pub buckets : Dict Bucket
  pub counters : Counters

abbrev pub no_counts : Counters
no_counts = record {
  acl = 0;
  oversize = 0;
  rate_limit = 0;
  malformed = 0;
  source_table_full = 0;
  passed = 0;
}

-- PreAuthGate(allowed_networks=networks), with the defaults of the class
abbrev pub new_gate : List Network → Gate
new_gate networks = record {
  allowed_networks = networks;
  rate_pps = default_rate_pps;
  burst = default_burst;
  max_bytes = max_packet_bytes;
  buckets = [];
  counters = no_counts;
}

abbrev pub with_network : Option Network → Option (List Network) → Option (List Network)
with_network none nets = none
with_network (some net) none = none
with_network (some net) (some nets) = some (net ∷ nets)

-- `parse_networks`: `strip` is str.strip, and `ip_network` is the parser of Python's library for networks with
-- host bits, whose `ValueError` is `none`
unfoldable pub parse_networks :
    (String → String) → (String → Option Network) → List String → Option (List Network)
parse_networks strip ip_network [] = some []
parse_networks strip ip_network (spec ∷ specs) =
    let rest = parse_networks strip ip_network specs in
    if str_eq (strip spec) "" then rest else with_network (ip_network (strip spec)) rest

-- `for net in self.allowed_networks`
unfoldable pub in_networks : Address → List Network → Bool
in_networks addr [] = false
in_networks addr (net ∷ nets) = if is_member addr net then true else in_networks addr nets

abbrev pub is_live : ℕ → ℕ → Bucket → Bool
is_live now idle b = not (ltb (b.last + idle) now)

-- the gate without its idle buckets, and how many were removed
unfoldable pub prune : Gate → ℕ → ℕ → Gate × ℕ
prune g now idle =
    let rest = keep (is_live now idle) g.buckets in
    (record g { buckets = rest }, length g.buckets - length rest)

abbrev pub is_full : Gate → Bool
is_full g = leb max_tracked_sources (length g.buckets)

-- `self.counters[key] += 1`
abbrev pub increment : Outcome → Gate → Gate
increment key g = record g { counters = bump key g.counters }

module _ (host : Host) where
  open host use {ip_address, second}

  -- the empty list is denied by a test of its own
  unfoldable pub address_allowed : Gate → Address → Bool
  address_allowed g addr =
      if is_loopback addr
      then true
      else if length g.allowed_networks == 0
      then false
      else in_networks addr g.allowed_networks

  unfoldable pub ip_allowed : Gate → String → Bool
  ip_allowed g src = elim (ip_address src) [ none ↦ false | some addr ↦ address_allowed g addr ]

  -- the refill of a known bucket, made only if time has passed
  unfoldable pub refill : Gate → Bucket → ℕ → Bucket
  refill g b now =
      if ltb b.last now
      then record {
        tokens = min (g.burst * second) (b.tokens + (now - b.last) * g.rate_pps);
        last = now;
      }
      else b

  -- `if b.tokens >= 1`
  unfoldable pub spend : Gate → String → Bucket → Gate × Bool
  spend g src b =
      if leb second b.tokens
      then (
        record g { buckets = put src (record b { tokens = b.tokens - second }) g.buckets },
        true,
      )
      else (record g { buckets = put src b g.buckets }, false)

  -- A new source pays for its packet from a full bucket. With a burst of zero the source writes -1
  -- where this writes 0; no later packet passes either way, since the cap is below one token.
  abbrev pub fresh : Gate → ℕ → Bucket
  fresh g now = record { tokens = g.burst * second - second; last = now }

  unfoldable pub rate_ok : Gate → String → ℕ → Gate × Bool
  unfolding refill spend
  rate_ok g src now = elim (get src g.buckets) [
    | none ↦ (record g { buckets = put src (fresh g now) g.buckets }, true)
    | some b ↦ spend g src (refill g b now)
  ]

  -- the two checks behind the table of sources
  unfoldable pub admit : Gate → List ℕ → String → ℕ → Gate × Outcome
  admit g packet src now =
      let (g', ok) = rate_ok g src now in
      if ok
      then (if tlv_sane packet
          then (increment Outcome.passed g', Outcome.passed)
          else (increment (dropped DropReason.malformed) g', dropped DropReason.malformed))
      else (increment (dropped DropReason.rate_limit) g', dropped DropReason.rate_limit)

  -- behind the attempt to make room
  unfoldable pub admit_if_room : Gate → List ℕ → String → ℕ → Gate × Outcome
  admit_if_room g packet src now =
      if is_full g
      then (
        increment (dropped DropReason.source_table_full) g,
        dropped DropReason.source_table_full,
      )
      else admit g packet src now

  -- A full table is pruned before an unknown source is turned away.
  unfoldable pub check : Gate → List ℕ → String → ℕ → Gate × Outcome
  unfolding prune admit_if_room
  check g packet src now =
      if not (ip_allowed g src)
      then (increment (dropped DropReason.acl) g, dropped DropReason.acl)
      else if ltb g.max_bytes (length packet)
      then (increment (dropped DropReason.oversize) g, dropped DropReason.oversize)
      else if not (has src g.buckets) && is_full g
      then admit_if_room (prune g now (idle_seconds * second)).0 packet src now
      else admit g packet src now
