-- ===== src/Protocol.antt =====
-- nebula-protocol: packet header, replay window, packet encryption, certificates.
pub mod Error
pub mod Header
pub mod Window
pub mod Transport
pub mod Cert
pub mod Wire
pub mod Lighthouse
pub mod Handshake
pub mod Session
pub mod Tests
