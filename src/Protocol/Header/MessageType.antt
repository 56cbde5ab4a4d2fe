-- ===== src/Protocol/Header/MessageType.antt =====
-- The constants of `message_type` in nebula-protocol/src/header.rs.
use nebula_rs.Prelude.{ℕ}

abbrev pub handshake : ℕ
handshake = 0

abbrev pub message : ℕ
message = 1

abbrev pub lighthouse : ℕ
lighthouse = 3
