-- ===== src/DorkWorker/Snapshot.antt =====
-- spikes/dork-worker/worker-snapshot-envelope.ts: the bytes of a worker's snapshot.
pub mod Format
pub mod Prepare
pub mod Relative
pub mod Envelope
pub mod Writer
pub mod Encode
pub mod Reader
pub mod Records
pub mod Decode
pub mod RoundTrip
mod Tests
