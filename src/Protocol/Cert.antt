-- ===== src/Protocol/Cert.antt =====
-- nebula-protocol/src/cert: certificates, their encoding and their verification.
pub mod Der
pub mod Values
pub mod Details
pub mod Certificate
pub mod Pem
pub mod Tests
