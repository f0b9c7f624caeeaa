-- ===== src/Cluster/Terms.antt =====
-- src/cluster.c: terms and votes over the events of a node.
use beaver_mq.Prelude.{
  ℕ, ◌+◌, ◌≡◌, refl, sym, ap, ◌∙◌, inl, inr, Bool-cases, Bool, true, false, Option, none, some,
  List, [], ◌∷◌, Bytes, arith,
}
use beaver_mq.Cluster.State.{
  last_index, Peer, Node, Answers, update_health, storage_write_failed, persist_meta,
}
use beaver_mq.Cluster.Commit.{advance_commit}
use beaver_mq.Cluster.Message.{
  VoteBody, ClusterFrame, Effect, send, send_vote_resp, prevote, prevote_resp, vote_req, vote_resp,
  append, append_resp,
}
use beaver_mq.Cluster.Replicate.{
  replicate_to_peers, peer_on_link_up, leader_append, persist_write_flush, leader_flush, find_peer,
  put_peer,
}
use beaver_mq.Cluster.Election.{
  observe_term, on_prevote, count_prevote, on_prevote_resp, grants, answer_vote, on_vote_req,
  count_vote, on_vote_resp,
}
use beaver_mq.Cluster.Follower.{lead_append_resp, on_append_resp, cl_dispatch, heartbeat_timer_cb}
use beaver_mq.Cluster.Events.{
  persist_sync, fsync_timer_cb, link_up, link_down, Event, receive, peer_up, peer_down,
  election_timeout, heartbeat, propose, flush, fsync, step, run,
}
use beaver_mq.Cluster.Votes.{
  Same, Votes, Same-refl, Same-trans, Same→Votes, Votes-trans, failed-Same, log_append-Same,
  update_health-Same, replicate-Same, with_peer-Same, advance_commit-Same, flow-Same, flush-Same,
}
use beaver_mq.Cluster.Ballots.{
  observe_term-Votes, election_timer-Votes, unless_stepped-Votes, count_prevote-Votes,
  count_vote-Votes, on_vote_req-Votes, on_append-Votes, lead_append_resp-Votes,
}

cl_dispatch-Votes :
    (a : Answers) (from : ℕ) (m : ClusterFrame) (n : Node) → Votes n (cl_dispatch a from m n).1
unfolding cl_dispatch on_prevote on_prevote_resp on_vote_resp on_append_resp
cl_dispatch-Votes a from (prevote t b) n = Same→Votes n n (Same-refl n)
cl_dispatch-Votes a from (prevote_resp t g) n =
    unless_stepped-Votes a t n (count_prevote a g) (count_prevote-Votes a g)
cl_dispatch-Votes a from (vote_req t b) n = on_vote_req-Votes a from t b n
cl_dispatch-Votes a from (vote_resp t g) n =
    unless_stepped-Votes a t n (count_vote a t g) (count_vote-Votes a t g)
cl_dispatch-Votes a from (append t c b) n = on_append-Votes a from t c b n
cl_dispatch-Votes a from (append_resp t b) n =
    unless_stepped-Votes a t n (λ m. lead_append_resp a (find_peer from m.peers) b m)
      (λ m. lead_append_resp-Votes a (find_peer from m.peers) b m)

heartbeat-Same : (a : Answers) (n : Node) → Same n (heartbeat_timer_cb a n).1
unfolding heartbeat_timer_cb
heartbeat-Same a n = let s = flow-Same n in ground arith

link_up-Same : (a : Answers) (p : Option Peer) (n : Node) → Same n (link_up a p n).1
unfolding link_up peer_on_link_up
link_up-Same a none n = Same-refl n
link_up-Same a (some p) n =
    let m = record n { peers = put_peer (record p { link_up = true }) n.peers } in
    let q = record p {
      link_up = true;
      snap_active = false;
      next_index = last_index n.log + 1;
      match_index = 0;
      durable_index = 0;
      inflight = 0;
    } in
    let s = update_health-Same m in
    Same-trans n (update_health m) _ (record { term_same = s.term_same; vote_same = s.vote_same })
      (with_peer-Same a (update_health m) q)

link_down-Same : (p : Option Peer) (n : Node) → Same n (link_down p n)
unfolding link_down update_health
link_down-Same none n = Same-refl n
link_down-Same (some p) n = record { term_same = refl; vote_same = refl }

leader_append-Same : (a : Answers) (n : Node) (op : ℕ) (b : Bytes) → Same n (leader_append a n op b)
unfolding leader_append
leader_append-Same a n op b = let s = log_append-Same a n n.current_term op b in ground arith

leader_flush-Same : (a : Answers) (n : Node) → Same n (leader_flush a n).1
unfolding leader_flush
leader_flush-Same a n =
    let d = record n { log_dirty = false } in
    let w = persist_write_flush a.batch_write d in
    let r = (replicate_to_peers a w).1 in
    let k = (advance_commit r).1 in
    let s1 = flush-Same a.batch_write d in
    let s2 = replicate-Same a w in
    let s3 = advance_commit-Same r in let s4 = flow-Same k in ground arith

fsync-Same : (a : Answers) (s : Bool) (n : Node) → Same n (fsync_timer_cb a s n).1
unfolding fsync_timer_cb persist_sync
fsync-Same a s n =
    let w = persist_write_flush a.batch_write n in
    let m = persist_sync a.batch_write s n in
    let s1 = flush-Same a.batch_write n in
    let s2 = failed-Same w in let s3 = advance_commit-Same m in ground arith

step-Votes : (a : Answers) (e : Event) (n : Node) → Votes n (step a e n).1
unfolding step
step-Votes a (receive from m) n = cl_dispatch-Votes a from m n
step-Votes a (peer_up i) n = Same→Votes n _ (link_up-Same a (find_peer i n.peers) n)
step-Votes a (peer_down i) n = Same→Votes n _ (link_down-Same (find_peer i n.peers) n)
step-Votes a election_timeout n = election_timer-Votes a n
step-Votes a heartbeat n = Same→Votes n _ (heartbeat-Same a n)
step-Votes a (propose op bytes) n = Same→Votes n _ (leader_append-Same a n op bytes)
step-Votes a flush n = Same→Votes n _ (leader_flush-Same a n)
step-Votes a (fsync synced) n = Same→Votes n _ (fsync-Same a synced n)

-- Whatever events reach a node, with whatever answers of memory, files and clock, its term does not shrink,
-- and as long as the term stays, a vote that was cast stays with the same candidate.
pub run-Votes : (es : List (Answers × Event)) (n : Node) → Votes n (run es n)
unfolding run
run-Votes [] n = Same→Votes n n (Same-refl n)
run-Votes ((a, e) ∷ es) n =
    Votes-trans n (step a e n).1 _ (step-Votes a e n) (run-Votes es (step a e n).1)

-- What a granted request leaves: the vote and the term.
answer_vote_granted :
    (a : Answers) (from t : ℕ) (b : Option VoteBody) (n : Node)
    → grants from t b n ≡ true
    → ((answer_vote a from t b n).1.voted_for ≡ some from)
      × ((answer_vote a from t b n).1.current_term ≡ t)
unfolding answer_vote grants persist_meta storage_write_failed update_health
answer_vote_granted a from t b n h = ground arith

grants_voted :
    (d t : ℕ) (b : Option VoteBody) (n : Node) (v : ℕ)
    → grants d t b n ≡ true
    → n.voted_for ≡ some v
    → v ≡ d
unfolding grants
grants_voted d t b n v h e = ground arith

grants_term :
    (d t : ℕ) (b : Option VoteBody) (n : Node) → grants d t b n ≡ true → n.current_term ≡ t
unfolding grants
grants_term d t b n h = ground arith

-- The answer says that the vote is granted only where it is.
answer_vote_sent :
    (a : Answers) (from t : ℕ) (b : Option VoteBody) (n : Node) (to x : ℕ)
    → (answer_vote a from t b n).0 ≡ send to (vote_resp x (some true)) ∷ []
    → grants from t b n ≡ true
unfolding answer_vote send_vote_resp
answer_vote_sent a from t b n to x e = elim (Bool-cases (grants from t b n)) [
  | inl g ↦ g
  | inr g ↦ absurd (refused (ap (λ r. vote_resp-granted r) e) g)
]
  where
    vote_resp-granted : List Effect → Bool
    vote_resp-granted (send i (vote_resp y (some h)) ∷ es) = h
    vote_resp-granted _ = true

    refused : grants from t b n ≡ true → grants from t b n ≡ false → ⊥
    refused h g = cc

-- A node never votes for two candidates in one term, as long as it does not restart: after it answered a
-- vote request for the term `t` from `c` with a granted vote, and whatever events follow, it answers a
-- request for the same term with a granted vote to no other candidate.
pub one_vote_per_term :
    (a b : Answers) (c d t x y : ℕ) (m k : Option VoteBody) (es : List (Answers × Event)) (n : Node)
    → (step a (receive c (vote_req t m)) n).0 ≡ send c (vote_resp x (some true)) ∷ []
    → (step b (receive d (vote_req t k)) (run es (step a (receive c (vote_req t m)) n).1)).0
      ≡ send d (vote_resp y (some true)) ∷ []
    → c ≡ d
unfolding step cl_dispatch on_vote_req
one_vote_per_term a b c d t x y m k es n sent again =
    let o = (observe_term a t n).1 in
    let n1 = (answer_vote a c t m o).1 in
    let n2 = run es n1 in
    let n3 = (observe_term b t n2).1 in
    let g = answer_vote_sent a c t m o c x sent in
    let h = answer_vote_sent b d t k n3 d y again in
    let v = answer_vote_granted a c t m o g in
    let w = Votes-trans n1 n2 n3 (run-Votes es n1) (observe_term-Votes b t n2) in
    let e = grants_term d t k n3 h in grants_voted d t k n3 c h (w.vote_stays c (v.1 ∙ sym e) v.0)
