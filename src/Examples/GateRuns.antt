-- ===== src/Examples/GateRuns.antt =====
-- The gate (deploy/preauth.py) on a management network and a few datagrams.
use jt_snmpd.Prelude.{
  ℕ, ◌+◌, ◌-◌, ◌*◌, ◌≤◌, String, ◌≡◌, refl, true, false, Option, none, some, List, [], ◌∷◌, arith,
  inl, length, if◌then◌else◌, str_eq,
}
use jt_snmpd.Prelude.Dict.{get, put, has}
use jt_snmpd.Gate.Address.{Address, Network, v4, Version, Host, is_member, is_loopback}
use jt_snmpd.Gate.Tlv.{tlv_sane}
use jt_snmpd.Gate.Defs.{
  Gate, passed, dropped, acl, new_gate, check, ip_allowed, address_allowed, in_networks, admit,
  rate_ok, parse_networks,
}
use jt_snmpd.Gate.Order.{check-passed, check-untracked, check-counters, counter}
use jt_snmpd.Gate.Table.{IsValid, check-IsValid}
use jt_snmpd.Gate.Tlv.Frames.{IsFramed, tlv_sane-IsFramed}
use jt_snmpd.Gate.Rate.Run.{Packet, HasLimits, through_of, through_of-le}

abbrev parse : String → Option Address
parse s =
    if str_eq s "127.0.0.1"
    then some (v4 0x7f000001)
    else if str_eq s "192.0.2.7"
    then some (v4 0xc0000207)
    else if str_eq s "198.51.100.5"
    then some (v4 0xc6336405)
    else none

-- a clock of milliseconds
abbrev host : Host
host = record { ip_address = parse; second = 1000; second_pos = omega arith }

-- 192.0.2.0/24
abbrev gate : Gate
gate = new_gate (record { of_version = Version.four; base = 0xc0000200; host_bits = 8 } ∷ [])

abbrev parse_network : String → Option Network
parse_network s =
    if str_eq s "192.0.2.0/24"
    then some (record { of_version = Version.four; base = 0xc0000200; host_bits = 8 })
    else none

networks_are_read :
    parse_networks (λ s. s) parse_network ("192.0.2.0/24" ∷ "" ∷ []) ≡ some gate.allowed_networks
unfolding parse_networks
networks_are_read = refl

abbrev manager : String
manager = "192.0.2.7"

-- SEQUENCE { INTEGER 1 }
abbrev request : List ℕ
request = 0x30 ∷ 3 ∷ 2 ∷ 1 ∷ 1 ∷ []

request_passes : (check host gate request manager 5000).1 ≡ passed
unfolding check ip_allowed address_allowed in_networks is_member is_loopback admit rate_ok get has
    put tlv_sane
request_passes = refl

stranger_is_dropped : (check host gate request "198.51.100.5" 5000).1 ≡ dropped acl
unfolding check ip_allowed address_allowed in_networks is_member is_loopback
stranger_is_dropped = refl

loopback_passes : (check host (new_gate []) request "127.0.0.1" 5000).1 ≡ passed
unfolding check ip_allowed address_allowed in_networks is_loopback admit rate_ok get has put
    tlv_sane
loopback_passes = refl

trailing_byte : tlv_sane (0x30 ∷ 3 ∷ 2 ∷ 1 ∷ 1 ∷ 0 ∷ []) ≡ false
unfolding tlv_sane
trailing_byte = refl

tlv_sane-IsFramed_example : IsFramed (0x30 ∷ 0x81 ∷ 1 ∷ 7 ∷ [])
unfolding tlv_sane
tlv_sane-IsFramed_example = (tlv_sane-IsFramed (0x30 ∷ 0x81 ∷ 1 ∷ 7 ∷ [])).0 refl

check-passed_example :
    (ip_allowed host gate manager ≡ true)
    × (length request ≤ gate.max_bytes)
    × (tlv_sane request ≡ true)
check-passed_example = check-passed host gate request manager 5000 request_passes

check-counters_example :
    counter (dropped acl) (check host gate request "198.51.100.5" 5000).0.counters ≡ 1
unfolding check ip_allowed address_allowed in_networks is_member is_loopback
check-counters_example = check-counters host gate request "198.51.100.5" 5000 (dropped acl)

stranger_denied : ip_allowed host gate "198.51.100.5" ≡ false
unfolding ip_allowed address_allowed in_networks is_member is_loopback
stranger_denied = refl

check-untracked_example : (check host gate request "198.51.100.5" 5000).0.buckets ≡ []
check-untracked_example =
    check-untracked host gate request "198.51.100.5" 5000 (inl stranger_denied)

abbrev known : Gate
known = record gate { buckets = (manager, record { tokens = 1000; last = 4000 }) ∷ [] }

known-has : has manager known.buckets ≡ true
unfolding has
known-has = refl

empty-IsValid : IsValid gate.buckets
empty-IsValid = record { unique = tt; bounded = omega arith }

check-IsValid_example : IsValid (check host gate request manager 5000).0.buckets
check-IsValid_example = check-IsValid host gate request manager 5000 empty-IsValid

abbrev traffic : List Packet
traffic =
    record { bytes = request; source = manager; arrival = 5000 }
    ∷ record { bytes = request; source = "198.51.100.5"; arrival = 5010 }
    ∷ record { bytes = []; source = manager; arrival = 5020 }
    ∷ []

gate-HasLimits : HasLimits host gate
gate-HasLimits = record { one = omega arith; refilled = omega arith }

through_of-le_example :
    through_of host gate manager traffic * 1000 ≤ 300 * 1000 + (5020 - 5000) * 50
unfolding get
through_of-le_example =
    through_of-le host manager gate 5000 traffic gate-HasLimits empty-IsValid tt (omega arith)
