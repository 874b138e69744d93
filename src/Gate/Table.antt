-- ===== src/Gate/Table.antt =====
-- The table of tracked sources: never two buckets for one source, and never more than the limit.
use jt_snmpd.Prelude.{
  ℕ, ◌-◌, ◌*◌, ◌≤◌, ◌<◌, String, ◌≡◌, ◌≢◌, true, List, arith, length, ◌⊎◌, inl, inr, not, ◌&&◌,
  Bool-cases, ltb, leb, Option-cases,
}
use jt_snmpd.Prelude.Dict.{
  Dict, get, put, has, IsUnique, put-IsUnique, keep-IsUnique, length-keep-le, length-put,
}
use jt_snmpd.Gate.Address.{Host}
use jt_snmpd.Gate.Defs.{
  Gate, Bucket, DropReason, dropped, acl, oversize, malformed, source_table_full, increment, fresh,
  check, admit, ip_allowed, rate_ok, spend, refill, prune, is_live, is_full, max_tracked_sources,
  idle_seconds,
}

pub record IsValid (table : Dict Bucket) : Type 0 where
  pub unique : IsUnique table
  pub bounded : length table ≤ max_tracked_sources

-- there is a bucket to use, or room for one more
abbrev HasRoom : Dict Bucket → String → Type 0
HasRoom table src = (has src table ≡ true) ⊎ (length table < max_tracked_sources)

put-IsValid :
    (table : Dict Bucket) (src : String) (b : Bucket)
    → HasRoom table src
    → IsValid table
    → IsValid (put src b table)
put-IsValid table src b room v = record {
  unique = put-IsUnique src b table v.unique;
  bounded = ground (arith, v.bounded, length-put src b table);
}

module _ (host : Host) where
  spend-put :
      (g : Gate) (src : String) (b : Bucket)
      → (b' : Bucket) × ((spend host g src b).0.buckets ≡ put src b' g.buckets)
  unfolding spend
  spend-put g src b = elim (Bool-cases (leb host.second b.tokens)) [
    | inl enough ↦ (record b { tokens = b.tokens - host.second }, rw enough)
    | inr less ↦ (b, rw less)
  ]

  -- however the rate limit decides, one bucket is written
  pub rate_ok-put :
      (g : Gate) (src : String) (now : ℕ)
      → (b : Bucket) × ((rate_ok host g src now).0.buckets ≡ put src b g.buckets)
  rate_ok-put g src now = elim (Option-cases (get src g.buckets)) [
    | inl e ↦ (fresh host g now, unfold rate_ok in rw (e, rate_ok))
    | inr (b, e) ↦
        let (b', f) = spend-put g src (refill host g b now) in
        (b', unfold rate_ok in rw (e, rate_ok) f)
  ]

  pub buckets-admit :
      (g : Gate) (packet : List ℕ) (src : String) (now : ℕ)
      → (admit host g packet src now).0.buckets ≡ (rate_ok host g src now).0.buckets
  unfolding admit
  buckets-admit g packet src now = ground arith

  admit-IsValid :
      (g : Gate) (packet : List ℕ) (src : String) (now : ℕ)
      → HasRoom g.buckets src
      → IsValid g.buckets
      → IsValid (admit host g packet src now).0.buckets
  admit-IsValid g packet src now room v =
      let (b, e) = rate_ok-put g src now in
      rw (buckets-admit g packet src now, e) (put-IsValid g.buckets src b room v)

  pub prune-IsValid :
      (g : Gate) (now idle : ℕ) → IsValid g.buckets → IsValid (prune g now idle).0.buckets
  unfolding prune
  prune-IsValid g now idle v = record {
    unique = keep-IsUnique (is_live now idle) g.buckets v.unique;
    bounded = omega (arith, v.bounded, length-keep-le (is_live now idle) g.buckets);
  }

  -- The ways through `check`, with the room that the last two have.
  abbrev pub Way : Gate → List ℕ → String → ℕ → Type 0
  Way g packet src now =
      let pruned : Gate = (prune g now (idle_seconds * host.second)).0 in
      ((o : DropReason) × (check host g packet src now ≡ (increment (dropped o) g, dropped o))
        × (o ≢ malformed))
      ⊎ (check host g packet src now
          ≡ (increment (dropped source_table_full) pruned, dropped source_table_full))
      ⊎ (HasRoom pruned.buckets src
          × (check host g packet src now ≡ admit host pruned packet src now))
      ⊎ (HasRoom g.buckets src × (check host g packet src now ≡ admit host g packet src now))

  pub check-Way : (g : Gate) (packet : List ℕ) (src : String) (now : ℕ) → Way g packet src now
  unfolding check
  check-Way g packet src now =
      let pruned : Gate = (prune g now (idle_seconds * host.second)).0 in
      elim (Bool-cases (ip_allowed host g src)) [
        | inr denied ↦ inl (acl, rw denied, λ e. cc)
        | inl allowed ↦ elim (Bool-cases (ltb g.max_bytes (length packet))) [
          | inl long ↦ inl (oversize, rw (allowed, long), λ e. cc)
          | inr fits ↦ elim (Bool-cases (not (has src g.buckets) && is_full g)) [
            | inr room ↦ inr (inr (inr (ground arith, rw (allowed, fits, room))))
            | inl full ↦ elim (Bool-cases (is_full pruned)) [
              | inl still ↦ inr (inl (rw (allowed, fits, full, still)))
              | inr room ↦ inr (inr (inl (inr (ground arith), rw (allowed, fits, full, room))))
            ]
          ]
        ]
      ]

  -- `check` keeps the table of sources well formed: a source has at most one bucket, and at most
  -- 4096 sources are tracked, however many addresses packets claim to come from.
  pub check-IsValid :
      (g : Gate) (packet : List ℕ) (src : String) (now : ℕ)
      → IsValid g.buckets
      → IsValid (check host g packet src now).0.buckets
  check-IsValid g packet src now v =
      let pruned : Gate = (prune g now (idle_seconds * host.second)).0 in
      let pv : IsValid pruned.buckets = prune-IsValid g now (idle_seconds * host.second) v in
      elim (check-Way g packet src now) [
        | inl (o, e, _) ↦ rw e v
        | inr (inl e) ↦ rw e pv
        | inr (inr (inl (room, e))) ↦ rw e (admit-IsValid pruned packet src now room pv)
        | inr (inr (inr (room, e))) ↦ rw e (admit-IsValid g packet src now room v)
      ]
