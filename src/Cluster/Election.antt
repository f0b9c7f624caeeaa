-- ===== src/Cluster/Election.antt =====
-- src/cluster.c: terms, votes and elections.
use beaver_mq.Prelude.{
  ℕ, ◌+◌, Bool, true, false, not, ◌&&◌, ◌||◌, Option, none, some, List, [], ◌∷◌, ltb, leb, ◌==◌,
  if◌then◌else◌, sub_size,
}
use beaver_mq.Cluster.State.{
  follower, candidate, leader, Log, last_index, Peer, Node, Answers, is_leader, is_candidate,
  update_health, persist_meta,
}
use beaver_mq.Cluster.Log.{log_term_at, log_append}
use beaver_mq.Cluster.Message.{
  VoteBody, ClusterFrame, prevote, prevote_resp, vote_req, vote_resp, Effect, send, send_vote_resp,
  header_term,
}
use beaver_mq.Cluster.Replicate.{replicate_to_peers}

unfoldable pub log_is_current : Log → ℕ → ℕ → Bool
unfolding log_term_at
log_is_current log cand_idx cand_term =
    let my_idx = last_index log in
    let my_term = log_term_at log my_idx in
    if cand_term == my_term then leb my_idx cand_idx else ltb my_term cand_term

-- Whether it stepped down, and the node.
unfoldable pub observe_term : Answers → ℕ → Node → Bool × Node
unfolding update_health persist_meta
observe_term a term n = if leb term n.current_term then (false, n) else (
  true,
  persist_meta a.meta_write (
      update_health (record n {
        current_term = term;
        voted_for = none;
        in_prevote = false;
        role = follower;
        leader_id = none;
        throttle = false;
        heartbeat_on = false;
      })),
)

abbrev pub ask_up : ClusterFrame → List Peer → List Effect
ask_up m [] = []
ask_up m (p ∷ ps) = if p.link_up then send p.node_id m ∷ ask_up m ps else ask_up m ps

unfoldable pub send_vote_request : Bool → Node → List Effect
unfolding log_term_at
send_vote_request speculative n =
    let last = last_index n.log in
    let body : VoteBody = record {
      candidate = n.self_id;
      last_log_index = last;
      last_log_term = log_term_at n.log last;
    } in
    ask_up
      (if speculative
        then prevote (header_term (n.current_term + 1)) (some body)
        else vote_req (header_term n.current_term) (some body))
      n.peers

abbrev pub op_noop : ℕ
op_noop = 0

abbrev pub reset_peers : ℕ → List Peer → List Peer
reset_peers next [] = []
reset_peers next (p ∷ ps) =
    record p {
      snap_active = false;
      next_index = next;
      match_index = 0;
      durable_index = 0;
      inflight = 0;
    }
    ∷ reset_peers next ps

-- The default vhost, which it proposes through the inbox, is not part of the consensus' state.
unfoldable pub become_leader : Answers → Node → List Effect × Node
unfolding log_append update_health replicate_to_peers
become_leader a n =
    let l = record n {
      role = leader;
      leader_id = some n.self_id;
      in_prevote = false;
      peers = reset_peers (last_index n.log + 1) n.peers;
    } in
    let (ok, m) = log_append a l l.current_term op_noop [] in
    let (sent, r) = replicate_to_peers a (update_health m) in
    (sent, record r { heartbeat_on = true })

-- The node that become_candidate makes before it asks for votes.
unfoldable pub candidacy : Answers → Node → Node
unfolding persist_meta update_health
candidacy a n = update_health (
    persist_meta a.meta_write (record n {
      in_prevote = false;
      current_term = n.current_term + 1;
      voted_for = some n.self_id;
      role = candidate;
      leader_id = none;
      votes_granted = 1;
    }))

unfoldable pub become_candidate : Answers → Node → List Effect × Node
unfolding candidacy become_leader send_vote_request
become_candidate a n =
    let c = candidacy a n in
    if leb c.quorum c.votes_granted then become_leader a c else (send_vote_request false c, c)

-- The node that start_prevote makes before it asks for votes.
unfoldable pub speculating : Node → Node
unfolding update_health
speculating n =
    update_health (record n { in_prevote = true; prevotes_granted = 1; leader_id = none })

unfoldable pub start_prevote : Answers → Node → List Effect × Node
unfolding speculating become_candidate send_vote_request
start_prevote a n =
    let p = speculating n in
    if leb p.quorum p.prevotes_granted then become_candidate a p else (send_vote_request true p, p)

unfoldable pub election_timer_cb : Answers → Node → List Effect × Node
unfolding start_prevote
election_timer_cb a n = if is_leader n.role then ([], n) else start_prevote a n

-- A body that is too short counts as up to date.
unfoldable pub up_to_date : Log → Option VoteBody → Bool
unfolding log_is_current
up_to_date log none = true
up_to_date log (some b) = log_is_current log b.last_log_index b.last_log_term

unfoldable pub on_prevote : Answers → ℕ → ℕ → Option VoteBody → Node → List Effect × Node
unfolding up_to_date
on_prevote a from term body n =
    let fresh_leader =
      is_leader n.role || ltb (sub_size a.now n.last_leader_contact) n.election_min_ms in
    let grant = not fresh_leader && leb (n.current_term + 1) term && up_to_date n.log body in
    (send_vote_resp prevote_resp from n.current_term grant ∷ [], n)

abbrev pub is_granted : Option Bool → Bool
is_granted none = false
is_granted (some g) = g

-- The first component of observe_term ends a handler that stepped down.
unfoldable pub unless_stepped : Bool × Node → (Node → List Effect × Node) → List Effect × Node
unless_stepped (true, n) f = ([], n)
unless_stepped (false, n) f = f n

unfoldable pub count_prevote : Answers → Option Bool → Node → List Effect × Node
unfolding become_candidate
count_prevote a granted n =
    let m = record n { prevotes_granted = n.prevotes_granted + 1 } in
    if n.in_prevote && is_granted granted
    then (if leb m.quorum m.prevotes_granted then become_candidate a m else ([], m))
    else ([], n)

unfoldable pub on_prevote_resp : Answers → ℕ → Option Bool → Node → List Effect × Node
unfolding observe_term unless_stepped count_prevote
on_prevote_resp a term granted n = unless_stepped (observe_term a term n) (count_prevote a granted)

abbrev pub may_vote : Option ℕ → ℕ → Bool
may_vote none cand = true
may_vote (some v) cand = v == cand

-- Whether the node grants its vote, after it has observed the term.
unfoldable pub grants : ℕ → ℕ → Option VoteBody → Node → Bool
unfolding up_to_date
grants from term body n =
    (term == n.current_term && up_to_date n.log body) && may_vote n.voted_for from

unfoldable pub answer_vote : Answers → ℕ → ℕ → Option VoteBody → Node → List Effect × Node
unfolding grants persist_meta send_vote_resp
answer_vote a from term body n =
    let voted = persist_meta a.meta_write (record n { voted_for = some from }) in
    let grant = grants from term body n in
    (send_vote_resp vote_resp from n.current_term grant ∷ [], if grant then voted else n)

unfoldable pub on_vote_req : Answers → ℕ → ℕ → Option VoteBody → Node → List Effect × Node
unfolding observe_term answer_vote
on_vote_req a from term body n =
    let (stepped, m) = observe_term a term n in answer_vote a from term body m

unfoldable pub count_vote : Answers → ℕ → Option Bool → Node → List Effect × Node
unfolding become_leader
count_vote a term granted n =
    let m = record n { votes_granted = n.votes_granted + 1 } in
    if (is_candidate n.role && term == n.current_term) && is_granted granted
    then (if leb m.quorum m.votes_granted then become_leader a m else ([], m))
    else ([], n)

unfoldable pub on_vote_resp : Answers → ℕ → Option Bool → Node → List Effect × Node
unfolding observe_term unless_stepped count_vote
on_vote_resp a term granted n = unless_stepped (observe_term a term n) (count_vote a term granted)
