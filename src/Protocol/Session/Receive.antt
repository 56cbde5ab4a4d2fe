-- ===== src/Protocol/Session/Receive.antt =====
-- nebula-protocol/src/session.rs: what the receive loop does with a datagram. `none` is a panic, or an index
-- that is still looked for.
mod Packets
mod Handshakes
use nebula_rs.Prelude.{Option, none, some, List, [], take, drop, nat_eq, ◌==◌, if◌then◌else◌}
use nebula_rs.Prelude.Bytes.{Bytes}
use nebula_rs.Prelude.Result.{Result, ok, err}
use nebula_rs.Protocol.Error.{Error}
use nebula_rs.Protocol.Header.{Header, header_len, parse_header}
use nebula_rs.Protocol.Header.MessageType.{handshake, message, lighthouse}
use nebula_rs.Protocol.Transport.{Aead}
use nebula_rs.Protocol.Wire.{Prost}
use nebula_rs.Protocol.Handshake.{Noise}
use nebula_rs.Protocol.Lighthouse.{SocketAddr}
use nebula_rs.Protocol.Cert.Certificate.Verify.{Crypto}
use nebula_rs.Protocol.Session.{Inner, Effect}
unfoldable pub use Packets.*
unfoldable pub use Handshakes.*

module _ ⦃noise : Noise⦄ ⦃prost : Prost⦄ ⦃crypto : Crypto⦄ ⦃aead : Aead⦄ where
  -- The `match` on the type of a packet.
  unfoldable pub dispatch :
      World
      → Header
      → Bytes
      → Bytes
      → SocketAddr
      → Inner noise.State
      → Option (Inner noise.State × List Effect)
  dispatch world hdr header_bytes body from inner =
      if hdr.type_ == handshake
      then handle_handshake world hdr body from inner
      else if hdr.type_ == message
      then handle_message hdr header_bytes body inner
      else if hdr.type_ == lighthouse
      then handle_lighthouse_packet hdr header_bytes body inner
      else some (inner, [])

  abbrev pub receive_parsed :
      World
      → Result Error Header
      → Bytes
      → SocketAddr
      → Inner noise.State
      → Option (Inner noise.State × List Effect)
  receive_parsed world (err e) datagram from inner = some (inner, [])
  receive_parsed world (ok hdr) datagram from inner =
      dispatch world hdr (take header_len datagram) (drop header_len datagram) from inner

  -- One round of the loop of `spawn_recv_loop`, for a datagram of at most 65535 bytes.
  unfoldable pub receive :
      World → Bytes → SocketAddr → Inner noise.State → Option (Inner noise.State × List Effect)
  receive world datagram from inner =
      receive_parsed world (parse_header datagram) datagram from inner
