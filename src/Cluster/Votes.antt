-- ===== src/Cluster/Votes.antt =====
-- src/cluster.c: the term only grows, and within a term the vote stays.
use beaver_mq.Prelude.{
  ℕ, ◌+◌, ◌≤◌, ◌≡◌, refl, ◌∙◌, Bool, true, false, some, [], Bytes, arith, Bool-cases, inl, inr,
}
use beaver_mq.Cluster.State.{
  LogEntry, last_index, Peer, leader, Node, Answers, Recorded, recorded, recorded_after_failure,
  refused, update_health, storage_write_failed, persist_meta, leader_update_flow,
}
use beaver_mq.Cluster.Log.{appended, log_append, log_truncate_from}
use beaver_mq.Cluster.Commit.{advance_commit}
use beaver_mq.Cluster.Replicate.{replicate_to_peers, with_peer, persist_write_flush}
use beaver_mq.Cluster.Election.{op_noop, reset_peers, become_leader}

-- The operation keeps term and vote.
pub record Same (n m : Node) : Type 0 where
  pub term_same : m.current_term ≡ n.current_term
  pub vote_same : m.voted_for ≡ n.voted_for

-- The term does not shrink, and within a term a vote that is cast stays.
pub record Votes (n m : Node) : Type 0 where
  pub term_grows : n.current_term ≤ m.current_term
  pub vote_stays :
      (v : ℕ) → n.current_term ≡ m.current_term → n.voted_for ≡ some v → m.voted_for ≡ some v

pub Same-refl : (n : Node) → Same n n
Same-refl n = record { term_same = refl; vote_same = refl }

pub Same-trans : (n m k : Node) → Same n m → Same m k → Same n k
Same-trans n m k p q = record {
  term_same = q.term_same ∙ p.term_same;
  vote_same = q.vote_same ∙ p.vote_same;
}

pub Same→Votes : (n m : Node) → Same n m → Votes n m
Same→Votes n m p = record {
  term_grows = omega (arith, p.term_same);
  vote_stays = λ v e h. p.vote_same ∙ h;
}

pub Votes-trans : (n m k : Node) → Votes n m → Votes m k → Votes n k
Votes-trans n m k p q =
    let g = p.term_grows in
    let h = q.term_grows in
    record {
      term_grows = omega arith;
      vote_stays = λ v e s. q.vote_stays v (omega arith) (p.vote_stays v (omega arith) s);
    }

pub failed-Same : (n : Node) → Same n (storage_write_failed n)
unfolding storage_write_failed update_health
failed-Same n = record { term_same = ground arith; vote_same = ground arith }

pub persist_meta-Same : (w : Bool) (n : Node) → Same n (persist_meta w n)
unfolding persist_meta
persist_meta-Same true n = Same-refl n
persist_meta-Same false n = failed-Same n

pub appended-Same : (r : Recorded) (n : Node) (e : LogEntry) → Same n (appended r n e).1
appended-Same recorded n e = ground arith
appended-Same recorded_after_failure n e = let s = failed-Same n in ground arith
appended-Same refused n e = failed-Same n

pub log_append-Same :
    (a : Answers) (n : Node) (t op : ℕ) (b : Bytes) → Same n (log_append a n t op b).1
unfolding log_append
log_append-Same a n t op b = elim (Bool-cases (a.memory (last_index n.log + 1))) [
  | inl e ↦ rw e (appended-Same (a.wal (last_index n.log + 1)) n _)
  | inr e ↦ rw e (Same-refl n)
]

pub log_truncate_from-Same : (w : Bool) (n : Node) (i : ℕ) → Same n (log_truncate_from w n i)
unfolding log_truncate_from
log_truncate_from-Same w n i = let s = failed-Same n in ground arith

pub update_health-Same : (n : Node) → Same n (update_health n)
unfolding update_health
update_health-Same n = ground arith

pub replicate-Same : (a : Answers) (n : Node) → Same n (replicate_to_peers a n).1
unfolding replicate_to_peers
replicate-Same a n = ground arith

pub with_peer-Same : (a : Answers) (n : Node) (p : Peer) → Same n (with_peer a n p).1
unfolding with_peer
with_peer-Same a n p = ground arith

pub advance_commit-Same : (n : Node) → Same n (advance_commit n).1
unfolding advance_commit
advance_commit-Same n = ground arith

pub flow-Same : (n : Node) → Same n (leader_update_flow n)
unfolding leader_update_flow
flow-Same n = ground arith

pub flush-Same : (w : Bool) (n : Node) → Same n (persist_write_flush w n)
unfolding persist_write_flush
flush-Same true n = Same-refl n
flush-Same false n = failed-Same n

pub become_leader-Same : (a : Answers) (n : Node) → Same n (become_leader a n).1
unfolding become_leader
become_leader-Same a n =
    let l = record n {
      role = leader;
      leader_id = some n.self_id;
      in_prevote = false;
      peers = reset_peers (last_index n.log + 1) n.peers;
    } in
    let s = log_append-Same a l l.current_term op_noop [] in ground arith
