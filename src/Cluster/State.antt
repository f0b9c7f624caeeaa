-- ===== src/Cluster/State.antt =====
-- include/cluster.h and src/cluster.c: the state of a node that takes part in the consensus, its
-- health and its congestion flag. What the outside answers in one event is a record of answers.
use beaver_mq.Prelude.{
  ℕ, ◌+◌, Bool, true, false, ◌&&◌, Option, none, some, List, [], ◌∷◌, Bytes, length, ltb, leb,
  if◌then◌else◌, sub_size,
}

pub data Role : Type 0 where
  follower candidate leader : Role

-- cluster_log_entry_t; its index is its place. `payload` is none where the pointer is NULL.
pub record LogEntry : Type 0 where
  pub term : ℕ
  pub op_type : ℕ
  pub len : ℕ
  pub payload : Option Bytes

-- cluster_log_t: `entries` holds the indices from base_index + 1 on.
pub record Log : Type 0 where
  pub base_index : ℕ
  pub base_term : ℕ
  pub entries : List LogEntry
  pub commit_index : ℕ
  pub applied_index : ℕ
  pub durable_index : ℕ
  pub compacted_to : ℕ

abbrev pub last_index : Log → ℕ
last_index log = log.base_index + length log.entries

-- cluster_peer_t, as far as the consensus reads it; `link_up` is link_state == CL_LINK_UP.
pub record Peer : Type 0 where
  pub node_id : ℕ
  pub link_up : Bool
  pub snap_active : Bool
  pub next_index : ℕ
  pub match_index : ℕ
  pub durable_index : ℕ
  pub inflight : ℕ

-- cluster_node_t, as far as the consensus reads it. -1 is none.
pub record Node : Type 0 where
  pub self_id : ℕ
  pub nnodes : ℕ
  pub quorum : ℕ
  pub durable_commit : Bool
  pub peers : List Peer
  pub current_term : ℕ
  pub voted_for : Option ℕ
  pub role : Role
  pub leader_id : Option ℕ
  pub votes_granted : ℕ
  pub prevotes_granted : ℕ
  pub in_prevote : Bool
  pub last_leader_contact : ℕ
  pub election_min_ms : ℕ
  pub log : Log
  pub throttle : Bool
  pub leader_commit_seen : ℕ
  pub compact_hint : ℕ
  pub log_dirty : Bool
  pub heartbeat_on : Bool
  pub health_ok : Bool
  pub storage_failed : Bool

-- How persist_append ends: the record is buffered; it is buffered, but an earlier write failed; or
-- it is refused, which is a failure too.
pub data Recorded : Type 0 where
  recorded recorded_after_failure refused : Recorded

-- The answers of the allocator, the files and the clock during one event: memory and WAL for the
-- entry at an index, the writes before a truncation and after a batch, the write of term and vote,
-- the buffer for an AppendEntries that starts at an index, and whether a state transfer to a peer goes
-- on after it was started or driven.
pub record Answers : Type 0 where
  pub memory : ℕ → Bool
  pub wal : ℕ → Recorded
  pub truncate_write : Bool
  pub batch_write : Bool
  pub meta_write : Bool
  pub append_buffer : ℕ → Bool
  pub transfer_goes_on : ℕ → Bool
  pub now : ℕ

abbrev pub is_leader : Role → Bool
is_leader leader = true
is_leader _ = false

abbrev pub is_candidate : Role → Bool
is_candidate candidate = true
is_candidate _ = false

abbrev pub is_known : Option ℕ → Bool
is_known none = false
is_known (some i) = true

abbrev pub count_up : List Peer → ℕ
count_up [] = 0
count_up (p ∷ ps) = (if p.link_up then 1 else 0) + count_up ps

abbrev pub healthy : Role → Option ℕ → ℕ → ℕ → Bool
healthy leader lead reachable quorum = leb quorum reachable
healthy follower lead reachable quorum = is_known lead
healthy candidate lead reachable quorum = false

unfoldable pub update_health : Node → Node
update_health n = record n {
  health_ok =
      if n.storage_failed
      then false
      else healthy n.role n.leader_id (1 + count_up n.peers) n.quorum;
}

-- The election timer, which it arms, is not part of the state: its expiry may come at any time.
unfoldable pub storage_write_failed : Node → Node
unfolding update_health
storage_write_failed n =
    let failed = record n { storage_failed = true } in
    update_health (
      if is_leader n.role
      then record failed { heartbeat_on = false; role = follower; leader_id = none }
      else failed)

-- the write of term and vote to the meta file
unfoldable pub persist_meta : Bool → Node → Node
unfolding storage_write_failed
persist_meta written n = if written then n else storage_write_failed n

abbrev pub flow_high : ℕ
flow_high = 16000

abbrev pub flow_low : ℕ
flow_low = 6000

unfoldable pub leader_update_flow : Node → Node
leader_update_flow n =
    let backlog = sub_size (last_index n.log) n.log.commit_index in
    if (if n.throttle then false else ltb flow_high backlog)
    then record n { throttle = true }
    else if n.throttle && ltb backlog flow_low
    then record n { throttle = false }
    else n
