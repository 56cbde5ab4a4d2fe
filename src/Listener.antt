-- ===== src/Listener.antt =====
-- nebula-listener: from the bytes of an IP packet and a certificate to what the firewall is asked.
pub mod Parse
pub mod Identity
pub mod Forward
pub mod Tests
