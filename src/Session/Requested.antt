-- ===== src/Session/Requested.antt =====
-- The engine executes only what the log has asked for: before each call of `execute` a turn has
-- appended the request's own event (packages/session/src/semantic-turn-coordinator.ts).
pub mod Rules
pub mod Turns
pub mod Parts
pub mod Execution
pub mod Submission
