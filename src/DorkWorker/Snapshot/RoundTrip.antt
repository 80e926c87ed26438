-- ===== src/DorkWorker/Snapshot/RoundTrip.antt =====
-- What the encoder writes, the decoder reads back.
pub mod Writes
pub mod Reads
pub mod Prepared
pub mod Receipts
pub mod Journal
pub mod Whole
pub mod Header
pub mod Envelope
