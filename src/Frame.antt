-- ===== src/Frame.antt =====
-- include/frame.h and src/frame.c: the AMQP 0-9-1 wire format.
pub mod Reader
pub mod Buffer
pub mod Envelope
pub mod Capacity
pub mod Cursor
pub mod Codec
pub mod RoundTrip
pub mod Parse
pub mod Write
mod Tests
