-- ===== src/AuthStore.antt =====
-- src/authstore.c: the replicated store of virtual hosts, users and permissions.
mod Tests
pub mod Password
pub mod State
pub mod File
pub mod Store
pub mod Rows
pub mod Invariant
pub mod Keeps
pub mod Grants
pub mod Reads
pub mod Access
pub mod History
pub mod Load
pub mod Codec
pub mod RoundTrip
pub mod Restart
pub mod Verify
