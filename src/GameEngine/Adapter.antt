-- ===== src/GameEngine/Adapter.antt =====
-- packages/game-engine/src/worker-engine-adapter.ts, class `WorkerEngineAdapter`.
-- `State` is what the object keeps, `Guards` and `Replies` the code between two waits,
-- `Operations` the methods; the other modules are proofs.
pub mod State
pub mod Guards
pub mod Replies
pub mod Operations
pub mod Steps
pub mod Exclusion
pub mod Booted
pub mod Lifecycle
pub mod History
pub mod Execute
pub mod Restore
pub mod Allowed
pub mod Recovery
mod Tests
