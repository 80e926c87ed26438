-- ===== src/GameEngine.antt =====
-- packages/game-engine: the adapter that turns a worker's messages into the engine port.
pub mod Protocol
pub mod Checks
pub mod Adapter
