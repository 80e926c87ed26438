-- ===== src/DorkWorker/Runtime.antt =====
-- spikes/dork-worker/dork-worker-runtime.ts: the runtime that answers the adapter's messages.
pub mod State
pub mod Checks
pub mod Receipts
pub mod Execute
pub mod Operations
pub mod Restore
pub mod Exchange
pub mod Meanwhile
pub mod Answers
pub mod Repeats
pub mod Recorded
pub mod Once
mod Tests
pub mod Sound
pub mod Journal
pub mod Saved
pub mod Restored
pub mod Resumed
mod SnapshotTests
pub mod Reserved
mod ReservedTests
