-- ===== src/Cluster/Ballots.antt =====
-- src/cluster.c: elections and the handlers, with what they do to term and vote.
use beaver_mq.Prelude.{
  ℕ, zero, suc, ◌+◌, if◌then◌else◌, refl, Bool, true, false, Option, none, some, List, [], ◌∷◌,
  arith, leb, Bool-cases, inl, inr,
}
use beaver_mq.Cluster.State.{
  Peer, is_leader, Node, Answers, update_health, storage_write_failed, persist_meta,
}
use beaver_mq.Cluster.Log.{log_append, log_truncate_from}
use beaver_mq.Cluster.Commit.{advance_commit}
use beaver_mq.Cluster.Message.{VoteBody, WireEntry, AppendBody, AppendReply, Effect}
use beaver_mq.Cluster.Replicate.{persist_write_flush, take_append_resp, accepted, rewound, put_peer}
use beaver_mq.Cluster.Election.{
  observe_term, candidacy, become_candidate, speculating, start_prevote, election_timer_cb,
  unless_stepped, count_prevote, grants, answer_vote, on_vote_req, count_vote,
}
use beaver_mq.Cluster.Follower.{
  affirm, append_entries, take_commit, take_entries, take_batch, take_append, on_append,
  lead_append_resp,
}
use beaver_mq.Cluster.Votes.{
  persist_meta-Same, log_truncate_from-Same, Same, Votes, Same-refl, Same-trans, Same→Votes,
  Votes-trans, log_append-Same, with_peer-Same, advance_commit-Same, flush-Same, become_leader-Same,
}

pub observe_term-Votes : (a : Answers) (t : ℕ) (n : Node) → Votes n (observe_term a t n).1
unfolding observe_term persist_meta storage_write_failed update_health
observe_term-Votes a t n = ground arith

candidacy-Votes : (a : Answers) (n : Node) → Votes n (candidacy a n)
unfolding candidacy persist_meta storage_write_failed update_health
candidacy-Votes a n = ground arith

become_candidate-Votes : (a : Answers) (n : Node) → Votes n (become_candidate a n).1
unfolding become_candidate
become_candidate-Votes a n =
    let c = candidacy-Votes a n in
    let s =
      Votes-trans n (candidacy a n) _ c
        (Same→Votes (candidacy a n) _ (become_leader-Same a (candidacy a n))) in
    elim (Bool-cases (leb (candidacy a n).quorum (candidacy a n).votes_granted)) [
      | inl e ↦ rw e s
      | inr e ↦ rw e c
    ]

speculating-Same : (n : Node) → Same n (speculating n)
unfolding speculating update_health
speculating-Same n = ground arith

start_prevote-Votes : (a : Answers) (n : Node) → Votes n (start_prevote a n).1
unfolding start_prevote
start_prevote-Votes a n =
    let c = Same→Votes n (speculating n) (speculating-Same n) in
    elim (Bool-cases (leb (speculating n).quorum (speculating n).prevotes_granted)) [
      | inl e ↦ rw e (Votes-trans n (speculating n) _ c (become_candidate-Votes a (speculating n)))
      | inr e ↦ rw e c
    ]

pub election_timer-Votes : (a : Answers) (n : Node) → Votes n (election_timer_cb a n).1
unfolding election_timer_cb
election_timer-Votes a n = elim (Bool-cases (is_leader n.role)) [
  | inl e ↦ rw e (Same→Votes n n (Same-refl n))
  | inr e ↦ rw e (start_prevote-Votes a n)
]

-- After a term is observed, a handler goes on or ends.
pub unless_stepped-Votes :
    (a : Answers) (t : ℕ) (n : Node) (f : Node → List Effect × Node)
    → ((m : Node) → Votes m (f m).1)
    → Votes n (unless_stepped (observe_term a t n) f).1
unfolding unless_stepped
unless_stepped-Votes a t n f h = after (observe_term a t n) (observe_term-Votes a t n)
  where
    after : (r : Bool × Node) → Votes n r.1 → Votes n (unless_stepped r f).1
    after (true, m) v = v
    after (false, m) v = Votes-trans n m _ v (h m)

pub count_prevote-Votes :
    (a : Answers) (g : Option Bool) (n : Node) → Votes n (count_prevote a g n).1
unfolding count_prevote
count_prevote-Votes a g n =
    let m = record n { prevotes_granted = n.prevotes_granted + 1 } in
    let v =
      Votes-trans n m _ (Same→Votes n m (record { term_same = refl; vote_same = refl }))
        (become_candidate-Votes a m) in
    let s = Same→Votes n n (Same-refl n) in ground arith

pub count_vote-Votes :
    (a : Answers) (t : ℕ) (g : Option Bool) (n : Node) → Votes n (count_vote a t g n).1
unfolding count_vote
count_vote-Votes a t g n =
    let m = record n { votes_granted = n.votes_granted + 1 } in
    let v = become_leader-Same a m in ground arith

answer_vote-Votes :
    (a : Answers) (from t : ℕ) (b : Option VoteBody) (n : Node)
    → Votes n (answer_vote a from t b n).1
unfolding answer_vote grants
answer_vote-Votes a from t b n =
    let v = persist_meta-Same a.meta_write (record n { voted_for = some from }) in ground arith

pub on_vote_req-Votes :
    (a : Answers) (from t : ℕ) (b : Option VoteBody) (n : Node)
    → Votes n (on_vote_req a from t b n).1
unfolding on_vote_req
on_vote_req-Votes a from t b n =
    Votes-trans n (observe_term a t n).1 _ (observe_term-Votes a t n)
      (answer_vote-Votes a from t b (observe_term a t n).1)

append_entries-Same :
    (a : Answers) (k : ℕ) (es : List WireEntry) (n : Node) → Same n (append_entries a k es n).1
unfolding append_entries
append_entries-Same a zero es n = Same-refl n
append_entries-Same a (suc k) [] n = Same-refl n
append_entries-Same a (suc k) (e ∷ es) n =
    let m = log_append a n e.term e.op_type e.bytes in
    let s = log_append-Same a n e.term e.op_type e.bytes in
    let r = Same-trans n m.1 _ s (append_entries-Same a k es m.1) in ground arith

take_commit-Same : (b : AppendBody) (n : Node) → Same n (take_commit b n).1
unfolding take_commit
take_commit-Same b n = ground arith

take_entries-Same :
    (a : Answers) (from : ℕ) (b : AppendBody) (n : Node) → Same n (take_entries a from b n).1
unfolding take_entries
take_entries-Same a from b n =
    let t = log_truncate_from a.truncate_write n (b.prev_index + 1) in
    let m = append_entries a b.count b.entries t in
    let w = persist_write_flush a.batch_write m.1 in
    let s1 = log_truncate_from-Same a.truncate_write n (b.prev_index + 1) in
    let s2 = append_entries-Same a b.count b.entries t in
    let s3 = flush-Same a.batch_write m.1 in let s4 = take_commit-Same b w in ground arith

affirm-Same : (from now : ℕ) (c : Bool) (n : Node) → Same n (affirm from now c n)
unfolding affirm update_health
affirm-Same from now c n = ground arith

take_batch-Same :
    (a : Answers) (from : ℕ) (b : AppendBody) (n : Node) → Same n (take_batch a from b n).1
unfolding take_batch
take_batch-Same a from b n = let s = take_entries-Same a from b n in ground arith

take_append-Same :
    (a : Answers) (from : ℕ) (b : Option AppendBody) (n : Node) → Same n (take_append a from b n).1
unfolding take_append
take_append-Same a from none n = Same-refl n
take_append-Same a from (some b) n = take_batch-Same a from b n

pub on_append-Votes :
    (a : Answers) (from t : ℕ) (c : Bool) (b : Option AppendBody) (n : Node)
    → Votes n (on_append a from t c b n).1
unfolding on_append
on_append-Votes a from t c b n =
    let m = (observe_term a t n).1 in
    let v = observe_term-Votes a t n in
    let s = affirm-Same from a.now c m in
    let r =
      Same-trans m (affirm from a.now c m) _ s
        (take_append-Same a from b (affirm from a.now c m)) in
    let w = Votes-trans n m _ v (Same→Votes m _ r) in ground arith

take_append_resp-Same :
    (a : Answers) (n : Node) (p : Peer) (r : AppendReply) → Same n (take_append_resp a n p r).1
unfolding take_append_resp
take_append_resp-Same a n p r =
    let q = if r.success then accepted r p else rewound r p in
    let m = record n { peers = put_peer q n.peers } in
    let s = advance_commit-Same m in
    let u = with_peer-Same a m q in let v = with_peer-Same a (advance_commit m).1 q in ground arith

pub lead_append_resp-Votes :
    (a : Answers) (p : Option Peer) (r : Option AppendReply) (n : Node)
    → Votes n (lead_append_resp a p r n).1
unfolding lead_append_resp
lead_append_resp-Votes a (some p) (some r) n = let s = take_append_resp-Same a n p r in ground arith
lead_append_resp-Votes a none r n = Same→Votes n n (Same-refl n)
lead_append_resp-Votes a (some p) none n = Same→Votes n n (Same-refl n)
