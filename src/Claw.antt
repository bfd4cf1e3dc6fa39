-- ===== src/Claw.antt =====
-- cmd/claw: the daemon.
pub mod RingLog
pub mod Protocol
pub mod Primitives
pub mod Toy
pub mod Channel
pub mod Crypto
pub mod Spake2
pub mod ToyCrypto
pub mod Handshake
