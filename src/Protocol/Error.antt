-- ===== src/Protocol/Error.antt =====
-- nebula-protocol/src/error.rs: the errors that the modelled functions return. The texts of the
-- source are left out; an error of another crate is kept as its kind.
use nebula_rs.Prelude.{ℕ}
use nebula_rs.Net.{IpAddr}

pub data Error : Type 0 where
  header_too_short : ℕ → ℕ → Error
  der cert_expired cert_signature_invalid cert_unsupported_curve cert_untrusted cert_no_networks :
      Error
  replayed_packet decrypt_failed noise protobuf_decode io pem : Error
  handshake_failed handshake_invalid_remote_index : Error
  peer_unreachable : IpAddr → Error
  timeout : Error
