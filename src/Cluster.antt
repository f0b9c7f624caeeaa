-- ===== src/Cluster.antt =====
-- include/cluster.h and src/cluster.c: the consensus core of the cluster.
pub mod State
pub mod Log
pub mod Commit
pub mod Message
pub mod Replicate
pub mod Election
pub mod Follower
pub mod Events
pub mod Votes
pub mod Terms
pub mod Slice
pub mod Majority
pub mod Accept
pub mod Matching
pub mod Batch
pub mod Replica
pub mod Backup
mod Tests
pub mod Ballots
pub mod Header
