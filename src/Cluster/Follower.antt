-- ===== src/Cluster/Follower.antt =====
-- src/cluster.c: the follower's side of replication, and the events of a node.
use beaver_mq.Prelude.{
  ℕ, zero, suc, ◌+◌, ◌-◌, Bool, true, false, not, ◌&&◌, Option, none, some, List, [], ◌∷◌, ◌++◌,
  ltb, ◌==◌, if◌then◌else◌,
}
use beaver_mq.Cluster.State.{
  follower, last_index, Peer, Node, Answers, is_leader, update_health, leader_update_flow,
}
use beaver_mq.Cluster.Log.{
  log_term_at, log_append, log_truncate_from, compact_payloads, apply_committed,
}
use beaver_mq.Cluster.Message.{
  WireEntry, AppendBody, AppendReply, ClusterFrame, prevote, prevote_resp, vote_req, vote_resp,
  append, append_resp, Effect, send, header_term,
}
use beaver_mq.Cluster.Replicate.{
  pump_peer, send_append, applied, persist_write_flush, find_peer, take_append_resp,
}
use beaver_mq.Cluster.Election.{
  observe_term, unless_stepped, on_prevote, on_prevote_resp, on_vote_req, on_vote_resp,
}

unfoldable pub send_append_resp : ℕ → Node → Bool → ℕ → Effect
send_append_resp to n success hint = send to (
    append_resp (header_term n.current_term)
      (some (record { success = success; hint = hint; durable = some n.log.durable_index })))

-- The role and the contact of a valid leader.
unfoldable pub affirm : ℕ → ℕ → Bool → Node → Node
unfolding update_health
affirm from now congested n = update_health (record n {
  role = follower;
  leader_id = some from;
  in_prevote = false;
  last_leader_contact = now;
  throttle = congested;
  heartbeat_on = false;
})

-- The loop over the announced entries: whether all of them were there and were appended.
unfoldable pub append_entries : Answers → ℕ → List WireEntry → Node → Bool × Node
unfolding log_append
append_entries a zero es n = (true, n)
append_entries a (suc count) [] n = (false, n)
append_entries a (suc count) (e ∷ es) n =
    let (ok, m) = log_append a n e.term e.op_type e.bytes in
    let rest = append_entries a count es m in if ok then rest else (false, m)

-- leader_commit and the compaction index, taken over after the batch is written.
unfoldable pub take_commit : AppendBody → Node → List Effect × Node
unfolding apply_committed compact_payloads
take_commit b n =
    let last = last_index n.log in
    let newc = if ltb b.leader_commit last then b.leader_commit else last in
    let (ops, done) = apply_committed (record n.log { commit_index = newc }) in
    let raised = ltb n.log.commit_index newc in
    (
      if raised then applied ops else [],
      record n {
        leader_commit_seen = b.leader_commit;
        log = compact_payloads (if raised then done else n.log) b.compact_index;
        compact_hint = b.compact_index;
      },
    )

-- The batch, once prevLogIndex is known to match.
unfoldable pub take_entries : Answers → ℕ → AppendBody → Node → List Effect × Node
unfolding log_truncate_from append_entries persist_write_flush take_commit send_append_resp
take_entries a from b n =
    let (ok, m) =
      append_entries a b.count b.entries
        (log_truncate_from a.truncate_write n (b.prev_index + 1)) in
    let w = persist_write_flush a.batch_write m in
    let (ops, k) = take_commit b w in
    if not ok
    then (send_append_resp from m false (last_index m.log) ∷ [], m)
    else if w.storage_failed
    then (send_append_resp from w false (last_index w.log) ∷ [], w)
    else (ops ++ send_append_resp from k true (last_index w.log) ∷ [], k)

unfoldable pub take_batch : Answers → ℕ → AppendBody → Node → List Effect × Node
unfolding take_entries send_append_resp log_term_at
take_batch a from b n =
    if ltb (last_index n.log) b.prev_index
    then (send_append_resp from n false (last_index n.log) ∷ [], n)
    else if ltb 0 b.prev_index && not (log_term_at n.log b.prev_index == b.prev_term)
    then (send_append_resp from n false (b.prev_index - 1) ∷ [], n)
    else take_entries a from b n

unfoldable pub take_append : Answers → ℕ → Option AppendBody → Node → List Effect × Node
unfolding take_batch send_append_resp
take_append a from none n = (send_append_resp from n false (last_index n.log) ∷ [], n)
take_append a from (some b) n = take_batch a from b n

unfoldable pub on_append : Answers → ℕ → ℕ → Bool → Option AppendBody → Node → List Effect × Node
unfolding observe_term take_append affirm send_append_resp
on_append a from term congested body n =
    let (stepped, m) = observe_term a term n in
    if ltb term m.current_term
    then (send_append_resp from m false (last_index m.log) ∷ [], m)
    else take_append a from body (affirm from a.now congested m)

-- The guards of the APPEND_RESP handler after it has observed the term.
unfoldable pub lead_append_resp :
    Answers → Option Peer → Option AppendReply → Node → List Effect × Node
unfolding take_append_resp
lead_append_resp a (some p) (some r) n =
    if is_leader n.role then take_append_resp a n p r else ([], n)
lead_append_resp a none r n = ([], n)
lead_append_resp a (some p) none n = ([], n)

unfoldable pub on_append_resp : Answers → ℕ → ℕ → Option AppendReply → Node → List Effect × Node
unfolding observe_term unless_stepped lead_append_resp find_peer
on_append_resp a from term body n =
    unless_stepped (observe_term a term n) (λ m. lead_append_resp a (find_peer from m.peers) body m)

-- cl_dispatch, for the frames of the consensus.
unfoldable pub cl_dispatch : Answers → ℕ → ClusterFrame → Node → List Effect × Node
unfolding on_prevote on_prevote_resp on_vote_req on_vote_resp on_append on_append_resp
cl_dispatch a from (prevote term body) n = on_prevote a from term body n
cl_dispatch a from (prevote_resp term granted) n = on_prevote_resp a term granted n
cl_dispatch a from (vote_req term body) n = on_vote_req a from term body n
cl_dispatch a from (vote_resp term granted) n = on_vote_resp a term granted n
cl_dispatch a from (append term congested body) n = on_append a from term congested body n
cl_dispatch a from (append_resp term body) n = on_append_resp a from term body n

-- The heartbeat for one peer.
unfoldable pub beat_peer : Answers → Node → Peer → List Effect × Peer
unfolding pump_peer send_append
beat_peer a n p =
    let (sent, q) = pump_peer a n p in
    let (beat, r) = send_append a n q in
    if p.link_up
    then (if not q.snap_active && ltb (last_index n.log) q.next_index
        then (sent ++ beat, r)
        else (sent, q))
    else ([], p)

unfoldable pub beat_peers : Answers → Node → List Peer → List Effect × List Peer
unfolding beat_peer
beat_peers a n [] = ([], [])
beat_peers a n (p ∷ ps) =
    let (sent, q) = beat_peer a n p in let (more, qs) = beat_peers a n ps in (sent ++ more, q ∷ qs)

-- The status broadcast, which changes no state of the consensus, is left out.
unfoldable pub heartbeat_timer_cb : Answers → Node → List Effect × Node
unfolding leader_update_flow beat_peers
heartbeat_timer_cb a n =
    let m = leader_update_flow n in
    let (sent, ps) = beat_peers a m m.peers in
    if is_leader n.role
    then (sent, record m { peers = ps })
    else ([], record n { heartbeat_on = false })
