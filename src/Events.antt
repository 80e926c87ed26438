-- ===== src/Events.antt =====
-- packages/events: the allocator of the session's event order.
pub mod Sequence
pub mod Order
mod Tests
