-- ===== src/Firewall/Packet.antt =====
-- nebula-firewall/src/packet.rs: protocols and the 5-tuple that the firewall judges.
use nebula_rs.Prelude.{
  ℕ, ◌≡◌, ◌↔◌, Bool, true, false, ◌&&◌, arith, PartialEq, nat_eq, ◌==◌, if◌then◌else◌,
}
use nebula_rs.Net.{IpAddr, addr_eq, addr_beq_iff}

pub data Protocol : Type 0 where
  any tcp udp icmp icmp_v6 : Protocol
  other : ℕ → Protocol

pub record Packet : Type 0 where
  pub local_addr : IpAddr
  pub remote_addr : IpAddr
  pub local_port : ℕ
  pub remote_port : ℕ
  pub protocol : Protocol
  pub fragment : Bool

-- `Protocol::from(v)` on a byte.
unfoldable pub protocol_from : ℕ → Protocol
protocol_from v =
    if v == 0
    then any
    else if v == 6
    then tcp
    else if v == 17
    then udp
    else if v == 1
    then icmp
    else if v == 58
    then icmp_v6
    else other v

unfoldable pub as_u8 : Protocol → ℕ
as_u8 any = 0
as_u8 tcp = 6
as_u8 udp = 17
as_u8 icmp = 1
as_u8 icmp_v6 = 58
as_u8 (other v) = v

abbrev pub protocol_beq : Protocol → Protocol → Bool
protocol_beq any any = true
protocol_beq tcp tcp = true
protocol_beq udp udp = true
protocol_beq icmp icmp = true
protocol_beq icmp_v6 icmp_v6 = true
protocol_beq (other a) (other b) = a == b
protocol_beq _ _ = false

pub protocol_beq_iff : (p q : Protocol) → (protocol_beq p q ≡ true) ↔ (p ≡ q)
protocol_beq_iff any q = ground arith
protocol_beq_iff tcp q = ground arith
protocol_beq_iff udp q = ground arith
protocol_beq_iff icmp q = ground arith
protocol_beq_iff icmp_v6 q = ground arith
protocol_beq_iff (other a) q = ground arith

instance abbrev pub protocol_eq : PartialEq Protocol
protocol_eq = record { test = protocol_beq; test_iff = protocol_beq_iff }

abbrev bool_beq : Bool → Bool → Bool
bool_beq true b = b
bool_beq false true = false
bool_beq false false = true

abbrev pub packet_beq : Packet → Packet → Bool
packet_beq p q =
    p.local_addr == q.local_addr
    && p.remote_addr == q.remote_addr
    && p.local_port == q.local_port
    && p.remote_port == q.remote_port
    && p.protocol == q.protocol
    && bool_beq p.fragment q.fragment

pub packet_beq_iff : (p q : Packet) → (packet_beq p q ≡ true) ↔ (p ≡ q)
packet_beq_iff p q = ground (
  arith,
  addr_beq_iff p.local_addr q.local_addr,
  addr_beq_iff p.remote_addr q.remote_addr,
  protocol_beq_iff p.protocol q.protocol,
)

instance abbrev pub packet_eq : PartialEq Packet
packet_eq = record { test = packet_beq; test_iff = packet_beq_iff }

-- The protocol number of the protocol that a byte stands for is that byte.
pub as_u8-protocol_from : (v : ℕ) → as_u8 (protocol_from v) ≡ v
unfolding as_u8 protocol_from
as_u8-protocol_from v = ground arith
