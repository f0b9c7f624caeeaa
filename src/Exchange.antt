-- ===== src/Exchange.antt =====
-- include/exchange.h and src/exchange.c: exchange types, bindings, topic patterns and routing.
pub mod Topic
pub mod TopicSpec
pub mod TopicMatch
pub mod Bindings
pub mod Bind
pub mod Unbind
pub mod Routing
pub mod Route
mod Tests
