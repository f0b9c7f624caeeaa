-- ===== src/Dispatch.antt =====
-- src/dispatch.c: the dispatcher of a worker: its consumers, and the deliveries that they have not settled.
pub mod State
pub mod Settle
pub mod Service
pub mod Registry
pub mod Settled
pub mod Acks
pub mod Window
pub mod Interest
mod Tests
pub mod Serving
