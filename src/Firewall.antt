-- ===== src/Firewall.antt =====
-- The nebula-firewall crate.
pub mod Packet
pub mod Identity
pub mod Tree
pub mod Builder
pub mod RuleSpec
pub mod Conntrack
pub mod Engine
pub mod Tests
