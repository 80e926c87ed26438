-- ===== src/Contracts.antt =====
-- packages/contracts: the types and checks that every other part shares.
pub mod Command
pub mod Engine
pub mod Envelope
