-- ===== src/Tables/Masks.antt =====
-- Addresses whose netmask deploy/jt_agent.py cannot compute, and what they do to the snapshot.
use jt_snmpd.Prelude.{
  ℕ, zero, suc, ◌≤◌, ◌<◌, ◌≡◌, refl, ◌↔◌, true, false, none, some, Option, List, [], ◌∷◌, arith,
  get_elem?, Bool-cases, inl, inr, sym, ◌∙◌,
}
use jt_snmpd.Mib.Value.{Row}
use jt_snmpd.Mib.Snapshot.{built, negative_shift, finish, finish-no_shift}
use jt_snmpd.Tables.{Host, flatten}
use jt_snmpd.Tables.Network.{Nic, Address, our_if, prefix_mask, mask_raises, masks_raise}
use jt_snmpd.Tables.Devices.{DiskInfo}
use jt_snmpd.Tables.Build.{Collected, parts, build_snapshot}
use jt_snmpd.Tables.Covers.{All}

mask_fits :
    (o : Option ℕ) (a : Address)
    → ((i : ℕ) → o ≡ some i → a.is_v4 ≡ true → a.prefix_len ≤ 32)
    → mask_raises o a ≡ false
unfolding prefix_mask
mask_fits none a h = refl
mask_fits (some i) a h = ground (arith, h i refl)

-- an IPv4 address on a published interface has a prefix of at most 32 bits
abbrev pub HasMask : List Nic → Address → Type 0
HasMask nics a = (i : ℕ) → our_if nics a.if_index ≡ some i → a.is_v4 ≡ true → a.prefix_len ≤ 32

pub masks_fit :
    (nics : List Nic) (addrs : List Address)
    → All (HasMask nics) addrs
    → masks_raise nics addrs ≡ false
unfolding masks_raise
masks_fit nics [] h = refl
masks_fit nics (a ∷ addrs) h =
    ground (arith, mask_fits (our_if nics a.if_index) a h.0, masks_fit nics addrs h.1)

-- an IPv4 address on a published interface, whose prefix has more than 32 bits
abbrev pub LacksMask : Option ℕ → Address → Type 0
LacksMask o a = (n : ℕ) × (o ≡ some n) × (a.is_v4 ≡ true) × (32 < a.prefix_len)

mask_raises-LacksMask : (o : Option ℕ) (a : Address) → mask_raises o a ≡ true → LacksMask o a
unfolding prefix_mask
mask_raises-LacksMask none a h = cc
mask_raises-LacksMask (some n) a h = (n, refl, ground arith, ground arith)

LacksMask-mask_raises : (o : Option ℕ) (a : Address) → LacksMask o a → mask_raises o a ≡ true
unfolding prefix_mask
LacksMask-mask_raises none a (n, e, h, k) = cc
LacksMask-mask_raises (some m) a (n, e, h, k) = ground arith

-- the position of an address that lacks a mask
abbrev pub Lacking : List Nic → List Address → Type 0
Lacking nics addrs =
    (i : ℕ) × (a : Address) × (get_elem? addrs i ≡ some a) × LacksMask (our_if nics a.if_index) a

masks_raise-Lacking :
    (nics : List Nic) (addrs : List Address) → masks_raise nics addrs ≡ true → Lacking nics addrs
unfolding masks_raise
masks_raise-Lacking nics [] h = cc
masks_raise-Lacking nics (a ∷ addrs) h =
    elim (Bool-cases (mask_raises (our_if nics a.if_index) a)) [
      | inl raises ↦ (0, a, refl, mask_raises-LacksMask (our_if nics a.if_index) a raises)
      | inr fine ↦
          let (i, b, m, l) = masks_raise-Lacking nics addrs (ground arith) in (suc i, b, m, l)
    ]

Lacking-masks_raise :
    (nics : List Nic) (addrs : List Address) (i : ℕ) (a : Address)
    → get_elem? addrs i ≡ some a
    → LacksMask (our_if nics a.if_index) a
    → masks_raise nics addrs ≡ true
unfolding masks_raise
Lacking-masks_raise nics [] i a m l = cc
Lacking-masks_raise nics (b ∷ addrs) zero a m l =
    let e : b ≡ a = cc in
    let r : mask_raises (our_if nics b.if_index) b ≡ true =
      rw e (LacksMask-mask_raises (our_if nics a.if_index) a l) in
    ground arith
Lacking-masks_raise nics (b ∷ addrs) (suc i) a m l =
    ground (arith, Lacking-masks_raise nics addrs i a m l)

module _ (host : Host) (encode : List DiskInfo → List ℕ) (c : Collected) where
  pub finish_of_masks :
      masks_raise c.nics c.addresses ≡ false
      → build_snapshot host encode c ≡ finish (flatten (parts host encode c))
  unfolding build_snapshot
  finish_of_masks h = rw h refl

  -- a snapshot that is built comes from the end
  pub finish_of_built :
      (rows : List Row)
      → build_snapshot host encode c ≡ built rows
      → finish (flatten (parts host encode c)) ≡ built rows
  unfolding build_snapshot
  finish_of_built rows e = ground (arith, Bool-cases (masks_raise c.nics c.addresses))

  shift_only_of_masks :
      build_snapshot host encode c ≡ negative_shift → masks_raise c.nics c.addresses ≡ true
  shift_only_of_masks e = elim (Bool-cases (masks_raise c.nics c.addresses)) [
    | inl raises ↦ raises
    | inr fine ↦
        absurd (finish-no_shift (flatten (parts host encode c)) (sym (finish_of_masks fine) ∙ e))
  ]

  -- The rebuild of the snapshot ends with the `ValueError` of a negative shift if and only if some IPv4
  -- address on a published interface has a prefix length above 32, such as the 255 that stands for an illegal
  -- one: the length is taken from Windows as it is.
  pub build_snapshot-shift_iff : (build_snapshot host encode c ≡ negative_shift) ↔ (
      (i : ℕ) × (a : Address) × (n : ℕ) × (get_elem? c.addresses i ≡ some a)
      × (our_if c.nics a.if_index ≡ some n)
      × (a.is_v4 ≡ true)
      × (32 < a.prefix_len))
  build_snapshot-shift_iff = (
    λ e.
        let (i, a, m, (n, p, q, r)) =
          masks_raise-Lacking c.nics c.addresses (shift_only_of_masks e) in
        (i, a, n, m, p, q, r),
    λ t.
        let (i, a, n, m, p, q, r) = t in
        unfold build_snapshot in
        rw (Lacking-masks_raise c.nics c.addresses i a m (n, p, q, r)) refl,
  )
