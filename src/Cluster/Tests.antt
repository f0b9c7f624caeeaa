-- ===== src/Cluster/Tests.antt =====
-- A cluster of three nodes: runs of a node, and the theorems on it at concrete inputs.
use beaver_mq.Prelude.{
  ℕ, ◌+◌, ◌-◌, drop, ◌≤◌, ◌<◌, ◌≡◌, refl, ◌⊎◌, inr, true, false, Option, none, some, List, [], ◌∷◌,
  take, arith,
}
use beaver_mq.Cluster.Header.{
  Header, IsHeader, put_be32, cluster_hdr_pack, cluster_hdr_parse,
  cluster_hdr_parse-cluster_hdr_pack,
}
use beaver_mq.Cluster.State.{
  Role, follower, leader, LogEntry, Log, Peer, Node, Answers, recorded, update_health, persist_meta,
}
use beaver_mq.Cluster.Log.{
  log_at, log_term_at, log_append, log_truncate_from, free_payloads, compact_payloads, to_apply,
  apply_committed,
}
use beaver_mq.Cluster.Commit.{
  all_durable_index, progress, front, descending, majority_index, advance_commit,
}
use beaver_mq.Cluster.Message.{VoteBody, AppendBody, append_resp, send, header_term, send_vote_resp}
use beaver_mq.Cluster.Replicate.{
  batch_count, to_send, append_body, persist_write_flush, find_peer, put_peer, with_peer,
}
use beaver_mq.Cluster.Election.{
  log_is_current, observe_term, up_to_date, grants, answer_vote, on_vote_req,
}
use beaver_mq.Cluster.Follower.{
  send_append_resp, affirm, append_entries, take_commit, take_entries, take_batch, take_append,
  on_append, cl_dispatch,
}
use beaver_mq.Cluster.Events.{election_timeout, heartbeat, step, run}
use beaver_mq.Cluster.Votes.{Votes}
use beaver_mq.Cluster.Terms.{run-Votes, one_vote_per_term}
use beaver_mq.Cluster.Majority.{count_ge, majority_index_lem, advance_commit_lem}
use beaver_mq.Cluster.Matching.{stamps, Accepted, on_append-Accepted}
use beaver_mq.Cluster.Replica.{on_append-append_body}
use beaver_mq.Cluster.Backup.{refusal, refusal_backs_up}

abbrev granted : Answers
granted = record {
  memory = λ i. true;
  wal = λ i. recorded;
  truncate_write = true;
  batch_write = true;
  meta_write = true;
  append_buffer = λ i. true;
  transfer_goes_on = λ i. true;
  now = 5000;
}

abbrev entry : ℕ → LogEntry
entry t = record { term = t; op_type = 1; len = 1; payload = some (7 ∷ []) }

abbrev log_of : List LogEntry → ℕ → Log
log_of es commit = record {
  base_index = 0;
  base_term = 0;
  entries = es;
  commit_index = commit;
  applied_index = commit;
  durable_index = 2;
  compacted_to = 0;
}

abbrev peer_of : ℕ → ℕ → ℕ → Peer
peer_of i next have = record {
  node_id = i;
  link_up = true;
  snap_active = false;
  next_index = next;
  match_index = have;
  durable_index = have;
  inflight = 0;
}

abbrev node_of : ℕ → Role → ℕ → Log → Node
node_of i r t l = record {
  self_id = i;
  nnodes = 3;
  quorum = 2;
  durable_commit = true;
  peers = peer_of 1 3 2 ∷ peer_of 2 3 1 ∷ [];
  current_term = t;
  voted_for = none;
  role = r;
  leader_id = none;
  votes_granted = 0;
  prevotes_granted = 0;
  in_prevote = false;
  last_leader_contact = 0;
  election_min_ms = 150;
  log = l;
  throttle = false;
  leader_commit_seen = 0;
  compact_hint = 0;
  log_dirty = false;
  heartbeat_on = false;
  health_ok = true;
  storage_failed = false;
}

-- The leader of term 2 holds three entries; the follower's second is of another term.
abbrev lead : Node
lead = node_of 0 leader 2 (log_of (entry 1 ∷ entry 2 ∷ entry 2 ∷ []) 0)

abbrev apart : Node
apart = node_of 1 follower 1 (log_of (entry 1 ∷ entry 1 ∷ []) 0)

abbrev ballot : Option VoteBody
ballot = some (record { candidate = 1; last_log_index = 3; last_log_term = 2 })

abbrev behind : Peer
behind = peer_of 1 2 0

abbrev diverged : AppendBody
diverged = record {
  prev_index = 2;
  prev_term = 2;
  leader_commit = 0;
  compact_index = 0;
  count = 0;
  entries = [];
}

majority_of_lead : majority_index lead ≡ 2
unfolding majority_index progress descending front
majority_of_lead = refl

one_vote_per_term_example : ◌≡◌ {A = ℕ} 0 0
unfolding run step grants up_to_date log_is_current log_term_at log_at observe_term on_vote_req
    answer_vote persist_meta update_health cl_dispatch send_vote_resp
one_vote_per_term_example =
    one_vote_per_term granted granted 0 0 2 2 2 ballot ballot [] apart refl refl

run-Votes_example :
    Votes apart (run ((granted, election_timeout) ∷ (granted, heartbeat) ∷ []) apart)
run-Votes_example = run-Votes ((granted, election_timeout) ∷ (granted, heartbeat) ∷ []) apart

majority_index_lem_example :
    (lead.quorum ≤ count_ge (majority_index lead) (progress lead))
    × ((t : ℕ) → lead.quorum ≤ count_ge t (progress lead) → t ≤ majority_index lead)
unfolding progress
majority_index_lem_example = majority_index_lem lead (omega arith) (omega arith)

advance_commit_lem_example :
    let (ops, m) = advance_commit lead in
    let c = m.log.commit_index in
    (c ≡ 0) × (m.log.applied_index ≡ 0) × (ops ≡ [])
    ⊎ (0 < c)
      × (log_term_at lead.log c ≡ 2)
      × (2 ≤ count_ge c (progress lead))
      × (ops ≡ take (c - 0) (drop (0 - 0) lead.log.entries))
      × (m.log.applied_index ≡ c)
unfolding progress
advance_commit_lem_example =
    advance_commit_lem lead (omega arith) (omega arith) (omega arith) (omega arith)

on_append-Accepted_example :
    (apart.current_term ≤ 2)
    × Accepted
        (record diverged { prev_index = 1; prev_term = 1 })
        apart
        (on_append granted 0 2 false
          (some (record diverged { prev_index = 1; prev_term = 1 }))
          apart).1
unfolding on_append observe_term persist_meta update_health affirm take_append take_batch
    take_entries log_truncate_from append_entries persist_write_flush take_commit apply_committed
    to_apply compact_payloads free_payloads send_append_resp log_term_at log_at
on_append-Accepted_example =
    on_append-Accepted granted 0 2 false (record diverged { prev_index = 1; prev_term = 1 }) apart
      (omega arith) refl

on_append-append_body_example :
    stamps (on_append granted 0 2 false (some (append_body lead behind)) apart).1.log.entries
    ≡ stamps (take (1 + to_send lead behind) lead.log.entries)
unfolding on_append observe_term persist_meta update_health affirm take_append take_batch
    take_entries log_truncate_from append_entries persist_write_flush take_commit apply_committed
    to_apply compact_payloads free_payloads send_append_resp log_term_at log_at append_body to_send
    batch_count all_durable_index log_append
on_append-append_body_example =
    on_append-append_body granted 0 2 false lead apart behind refl (omega arith) (omega arith)
      (refl, (refl, tt)) refl refl

refusal_backs_up_example :
    let r = refusal diverged apart.log in
    ((on_append granted 0 2 false (some diverged) apart).0
      ≡ send 0 (append_resp (header_term 2) (some r)) ∷ [])
    × ((on_append granted 0 2 false (some diverged) apart).1.log ≡ apart.log)
    × (q : Peer) × (cl_dispatch granted 1 (append_resp (header_term 2) (some r)) lead
        ≡ with_peer granted (record lead { peers = put_peer q lead.peers }) q)
    × (q.node_id ≡ 1)
    × (q.next_index ≤ diverged.prev_index)
    × (q.match_index < q.next_index)
    × (q.inflight ≡ 0)
unfolding log_term_at log_at find_peer
refusal_backs_up_example =
    refusal_backs_up granted granted 0 1 2 false diverged apart lead (peer_of 1 3 2) (omega arith)
      (omega arith) (inr (omega arith, λ e. omega arith)) refl refl refl (omega arith)

abbrev vote_header : Header
vote_header = record {
  magic = 183;
  version = 1;
  frame_type = 12;
  flags = 0;
  term = 258;
  payload_length = 20;
  crc32 = 4294967295;
}

packed :
    cluster_hdr_pack vote_header []
    ≡ 183 ∷ 1 ∷ 12 ∷ 0 ∷ 0 ∷ 0 ∷ 1 ∷ 2 ∷ 0 ∷ 0 ∷ 0 ∷ 20 ∷ 255 ∷ 255 ∷ 255 ∷ 255 ∷ []
unfolding cluster_hdr_pack put_be32
packed = refl

cluster_hdr_parse-cluster_hdr_pack_example :
    IsHeader vote_header
      × (cluster_hdr_parse (cluster_hdr_pack vote_header (9 ∷ [])) ≡ some vote_header)
    ⊎ (¬ IsHeader vote_header) × (cluster_hdr_parse (cluster_hdr_pack vote_header (9 ∷ [])) ≡ none)
cluster_hdr_parse-cluster_hdr_pack_example =
    cluster_hdr_parse-cluster_hdr_pack vote_header (9 ∷ []) (omega arith) (omega arith)
      (omega arith)
