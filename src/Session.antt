-- ===== src/Session.antt =====
-- packages/session: the coordinator of the player's turns.
pub mod Excerpt
pub mod Segments
pub mod Events
pub mod State
pub mod Turn
pub mod Narrate
pub mod Finish
pub mod Guide
pub mod Run
pub mod Journal
pub mod Submit
pub mod Records
pub mod Replay
pub mod Once
pub mod Free
pub mod Requested
mod Tests
