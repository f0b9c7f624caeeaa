-- ===== src/Broker.antt =====
-- include/broker.h and src/broker.c: the registry of queues and exchanges, and the routing of messages.
mod Tests
pub mod Registry
pub mod Deletion
pub mod Stats
pub mod Publish
pub mod Unbound
pub mod Declared
pub mod Enqueues
pub mod Routed
