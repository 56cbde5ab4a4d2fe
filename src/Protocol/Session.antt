-- ===== src/Protocol/Session.antt =====
-- nebula-protocol/src/session.rs: the state of a session. The lock shows as state passing: each critical
-- section is one function. A oneshot channel is a number; `State` is snow's `HandshakeState`.
pub mod Receive
pub mod Send
pub mod Checks
pub mod Change
pub mod Leads
pub mod Steps
pub mod Invariant
pub mod Replay
pub mod Inbox
pub mod Delivery
pub mod Failure
pub mod Establish
pub mod Connect
pub mod Toy
pub mod Tests
use Prim.Native.Nat.{bit_xor}
use nebula_rs.Prelude.{
  ℕ, Bool, true, false, not, ◌&&◌, Option, none, some, List, [], ◌∷◌, ◌++◌, length, is_empty,
  nat_eq, ◌==◌, if◌then◌else◌,
}
use nebula_rs.Prelude.Bytes.{Bytes}
use nebula_rs.Prelude.Map.{HashMap, get, insert}
use nebula_rs.Prelude.Result.{Result, ok, err, ok_or, ◌>>=◌, ◌>>◌}
use nebula_rs.Net.{IpAddr, addr_eq}
use nebula_rs.Protocol.Error.{Error, cert_no_networks, pem}
use nebula_rs.Protocol.Header.{Header, encode_header}
use nebula_rs.Protocol.Transport.{Cipher, Transport}
use nebula_rs.Protocol.Handshake.{Noise}
use nebula_rs.Protocol.Lighthouse.{SocketAddr}
use nebula_rs.Protocol.Cert.Values.{Network}
use nebula_rs.Protocol.Cert.Certificate.{Certificate, decode_certificate}
use nebula_rs.Protocol.Cert.Pem.{
  PemCrate, pem_decode, certificate_v2_banner, x25519_private_key_banner,
}

pub record SessionConfig : Type 0 where
  pub ca_cert_pem : Bytes
  pub host_cert_pem : Bytes
  pub host_key_pem : Bytes
  pub cipher : Cipher
  pub bind_addr : SocketAddr
  pub lighthouses : List IpAddr
  pub static_hosts : List (IpAddr × SocketAddr)

-- The fields of `PeerState::Established`.
pub record Established : Type 0 where
  pub transport : Transport
  pub remote : SocketAddr
  pub vpn_addr : IpAddr
  pub cert : Certificate
  pub remote_index : ℕ

pub data PeerState (State : Type 0) : Type 0 where
  handshaking : State → PeerState State
  established : Established → PeerState State

abbrev pub Peers : Type 0 → Type 0
Peers State = HashMap ℕ (PeerState State)

pub record Inner (State : Type 0) : Type 0 where
  pub ca_cert : Certificate
  pub host_cert : Certificate
  pub host_private_key : Bytes
  pub cipher : Cipher
  pub vpn_addr : IpAddr
  pub lighthouses : List IpAddr
  pub known_addrs : HashMap IpAddr SocketAddr
  pub peers_by_index : Peers State
  pub index_by_vpn_addr : HashMap IpAddr ℕ
  pub connected : HashMap IpAddr ℕ
  pub lighthouse_waiters : HashMap IpAddr ℕ

-- What a critical section does beside the state: `socket.send_to`, `inbox_tx.send`, a `send` on a
-- channel of `connected` or of `lighthouse_waiters`, and the drop of a sender, which its receiver sees.
pub data Effect : Type 0 where
  send_to : Bytes → SocketAddr → Effect
  deliver : IpAddr → Bytes → Effect
  wake : ℕ → Effect
  answer : ℕ → List SocketAddr → Effect
  cancel : ℕ → Effect

-- The sender that an `insert` replaces is dropped.
abbrev pub replaced : Option ℕ → List Effect
replaced none = []
replaced (some channel) = cancel channel ∷ []

unfoldable pub rand_index : ℕ → ℕ
rand_index nanos = bit_xor nanos 0x9E37_79B9

module _ {State : Type 0} where
  abbrev pub is_free : ℕ → Peers State → Bool
  is_free i peers = elim (get i peers) [ none ↦ true | some p ↦ false ]

  -- The loop runs on the readings of the clock; `none` while none of them has given an index.
  unfoldable pub allocate_index : List ℕ → Peers State → Option ℕ
  allocate_index [] peers = none
  allocate_index (nanos ∷ later) peers =
      let rest = allocate_index later peers in
      let candidate = rand_index nanos in
      if not (candidate == 0) && is_free candidate peers then some candidate else rest

abbrev pub first_addr : Certificate → Option IpAddr
first_addr cert = elim cert.details.networks [ [] ↦ none | n ∷ ns ↦ some n.addr ]

abbrev pub wire_header : ℕ → ℕ → ℕ → Header
wire_header type_ remote_index counter = record {
  version = 1;
  type_ = type_;
  subtype = 0;
  remote_index = remote_index;
  message_counter = counter;
}

unfoldable pub packet : ℕ → ℕ → ℕ → Bytes → Bytes
packet type_ remote_index counter body =
    encode_header (wire_header type_ remote_index counter) ++ body

-- The entries of a vector of pairs, `into_iter().collect()`.
unfoldable pub collect_map :
    List (IpAddr × SocketAddr) → HashMap IpAddr SocketAddr → HashMap IpAddr SocketAddr
collect_map [] m = m
collect_map (x ∷ xs) m = collect_map xs (insert x.0 x.1 m)

module _ ⦃noise : Noise⦄ ⦃crate : PemCrate⦄ where
  -- `Session::build`, as far as the first use of the socket.
  unfoldable pub session_build : SessionConfig → Result Error (Inner noise.State)
  session_build config = pem_decode config.ca_cert_pem certificate_v2_banner >>= λ ca_der.
      decode_certificate ca_der >>= λ ca_cert.
      pem_decode config.host_cert_pem certificate_v2_banner >>= λ host_der.
      decode_certificate host_der >>= λ host_cert.
      pem_decode config.host_key_pem x25519_private_key_banner >>= λ key_bytes.
      (if length key_bytes == 32 then ok tt else err pem)
      >> (ok_or cert_no_networks (first_addr host_cert) >>= λ vpn_addr. ok (record {
        ca_cert = ca_cert;
        host_cert = host_cert;
        host_private_key = key_bytes;
        cipher = config.cipher;
        vpn_addr = vpn_addr;
        lighthouses = config.lighthouses;
        known_addrs = collect_map config.static_hosts [];
        peers_by_index = [];
        index_by_vpn_addr = [];
        connected = [];
        lighthouse_waiters = [];
      }))

pub record PeerInfo : Type 0 where
  pub name : Bytes
  pub groups : List Bytes
  pub networks : List Network
  pub unsafe_networks : List Network

abbrev pub info_of : Certificate → PeerInfo
info_of cert = record {
  name = cert.details.name;
  groups = cert.details.groups;
  networks = cert.details.networks;
  unsafe_networks = cert.details.unsafe_networks;
}

module _ {State : Type 0} where
  abbrev pub peer_state_info : Option (PeerState State) → Option PeerInfo
  peer_state_info none = none
  peer_state_info (some (handshaking hs)) = none
  peer_state_info (some (established p)) = some (info_of p.cert)

  abbrev pub info_at : Option ℕ → Inner State → Option PeerInfo
  info_at none inner = none
  info_at (some index) inner = peer_state_info (get index inner.peers_by_index)

  unfoldable pub peer_info : IpAddr → Inner State → Option PeerInfo
  peer_info vpn_addr inner = info_at (get vpn_addr inner.index_by_vpn_addr) inner
