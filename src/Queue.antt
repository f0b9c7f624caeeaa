-- ===== src/Queue.antt =====
-- include/queue.h and src/queue.c: the queue, from its ring buffer to its limits, alarms and
-- consume tracking.
pub mod Ring
pub mod RingFifo
pub mod State
pub mod Flow
pub mod Ops
pub mod Spec
pub mod Refcount
pub mod Refine
pub mod Enqueue
pub mod Track
pub mod Insertion
pub mod Watermark
pub mod Leave
pub mod Bounds
pub mod Lifetime
pub mod Snapshot
mod Tests
mod LifetimeTests
