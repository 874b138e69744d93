-- ===== src/Gate/Address.antt =====
-- Addresses and networks, as deploy/preauth.py uses the `ipaddress` module of Python's library,
-- and the host that the gate runs on: the parser of source addresses and the clock's resolution.
use jt_snmpd.Prelude.{ℕ, ◌*◌, ◌/◌, ◌^◌, ◌<◌, String, Bool, true, false, ◌&&◌, Option, ◌==◌}

-- an address of version 4 or 6, as the number that `int(addr)` gives
pub data Address : Type 0 where
  v4 v6 : ℕ → Address

pub data Version : Type 0 where
  four six : Version

abbrev pub version : Address → Version
version (v4 n) = Version.four
version (v6 n) = Version.six

abbrev pub number : Address → ℕ
number (v4 n) = n
number (v6 n) = n

-- `network_address` and the bits that lie outside the prefix: 32 - prefixlen, or 128 - prefixlen
pub record Network : Type 0 where
  pub of_version : Version
  pub base : ℕ
  pub host_bits : ℕ

abbrev pub same_version : Version → Version → Bool
same_version Version.four Version.four = true
same_version Version.six Version.six = true
same_version _ _ = false

-- `addr in net`: `addr & netmask == network_address`
unfoldable pub is_member : Address → Network → Bool
is_member addr net =
    let block : ℕ = 2 ^ net.host_bits in
    same_version (version addr) net.of_version && number addr / block * block == net.base

-- 127.0.0.0/8, and ::1
unfoldable pub is_loopback : Address → Bool
is_loopback (v4 n) = n / 2 ^ 24 == 127
is_loopback (v6 n) = n == 1

-- What the gate takes from its host: `ipaddress.ip_address`, whose `ValueError` is `none`, and the
-- ticks of the monotonic clock in a second. Tokens are counted in ticks, so that refilling is exact.
pub record Host : Type 0 where
  pub ip_address : String → Option Address
  pub second : ℕ
  pub second_pos : 0 < second
