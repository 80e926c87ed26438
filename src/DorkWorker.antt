-- ===== src/DorkWorker.antt =====
-- spikes/dork-worker: the worker's side of the engine protocol, with its request receipts, and the
-- format in which it saves them.
pub mod Snapshot
pub mod Runtime
mod Ascii
