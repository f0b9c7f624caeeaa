-- ===== src/Cluster/Replicate.antt =====
-- src/cluster.c: the leader's side of replication.
use beaver_mq.Prelude.{
  ℕ, zero, suc, ◌+◌, ◌-◌, Bool, true, false, ◌&&◌, ◌||◌, Option, none, some, List, [], ◌∷◌, ◌++◌,
  Bytes, ltb, leb, ◌==◌, if◌then◌else◌, sub_size,
}
use beaver_mq.Cluster.State.{
  LogEntry, Log, last_index, Peer, Node, Answers, is_leader, storage_write_failed, update_health,
  leader_update_flow,
}
use beaver_mq.Cluster.Log.{log_at, log_term_at, log_append, to_apply}
use beaver_mq.Cluster.Commit.{all_durable_index, advance_commit}
use beaver_mq.Cluster.Message.{
  WireEntry, AppendBody, AppendReply, append, Effect, send, apply, transfer, header_term,
}

abbrev pub max_append_entries : ℕ
max_append_entries = 512

abbrev pub max_append_bytes : ℕ
max_append_bytes = 1048576

abbrev pub append_fixed : ℕ
append_fixed = 40

abbrev pub window_entries : ℕ
window_entries = 8192

abbrev pub wire_size : Option LogEntry → ℕ
wire_size none = 24
wire_size (some e) = 24 + e.len

-- The loop that counts the entries from `i` on that fit under both caps: `rounds` is what the cap on
-- entries leaves.
unfoldable pub batch_count : Log → ℕ → ℕ → ℕ → ℕ → ℕ → ℕ
unfolding log_at
batch_count log last zero i size cnt = cnt
batch_count log last (suc rounds) i size cnt =
    let grown = size + wire_size (log_at log i) in
    let rest = batch_count log last rounds (i + 1) grown (cnt + 1) in
    if ltb last i || (ltb 0 cnt && ltb max_append_bytes grown) then cnt else rest

abbrev pub bytes_of : Option Bytes → Bytes
bytes_of none = []
bytes_of (some b) = b

abbrev pub on_wire : List LogEntry → List WireEntry
on_wire [] = []
on_wire (e ∷ es) =
    record { term = e.term; op_type = e.op_type; bytes = bytes_of e.payload } ∷ on_wire es

-- the first index to send
abbrev pub first_to_send : Peer → ℕ
first_to_send p = if p.next_index == 0 then 1 else p.next_index

-- the last index to send, which is below the first where the peer needs entries that are compacted
abbrev pub last_to_send : Node → Peer → ℕ
last_to_send n p =
    if leb (first_to_send p) n.log.compacted_to then first_to_send p - 1 else last_index n.log

-- How many entries go out.
unfoldable pub to_send : Node → Peer → ℕ
to_send n p =
    batch_count n.log (last_to_send n p) max_append_entries (first_to_send p) append_fixed 0

unfoldable pub append_body : Node → Peer → AppendBody
unfolding log_term_at all_durable_index to_apply to_send
append_body n p =
    let prev = first_to_send p - 1 in
    record {
      prev_index = prev;
      prev_term = log_term_at n.log prev;
      leader_commit = n.log.commit_index;
      compact_index = all_durable_index n;
      count = to_send n p;
      entries = on_wire (to_apply n.log (first_to_send p) (to_send n p));
    }

unfoldable pub send_append : Answers → Node → Peer → List Effect × Peer
unfolding to_send append_body
send_append a n p =
    if a.append_buffer (first_to_send p)
    then (
      send p.node_id (append (header_term n.current_term) n.throttle (some (append_body n p))) ∷ [],
      record p { next_index = p.next_index + to_send n p; inflight = p.inflight + to_send n p },
    )
    else ([], p)

abbrev pub has_room : Node → Peer → Bool
has_room n p = leb p.next_index (last_index n.log) && ltb p.inflight window_entries

-- The loop of pump_peer, on fuel: each round but the last moves next_index on.
unfoldable pub pump_loop : Answers → Node → ℕ → Peer → List Effect × Peer
unfolding send_append
pump_loop a n zero p = ([], p)
pump_loop a n (suc fuel) p =
    let (sent, q) = send_append a n p in
    let (more, r) = pump_loop a n fuel q in
    if has_room n p
    then (if q.next_index == p.next_index then (sent, q) else (sent ++ more, r))
    else ([], p)

unfoldable pub pump_peer : Answers → Node → Peer → List Effect × Peer
unfolding pump_loop
pump_peer a n p =
    let pumped = pump_loop a n (last_index n.log + 1 - p.next_index) p in
    if is_leader n.role && p.link_up
    then (if p.snap_active || (ltb 0 n.log.compacted_to && leb p.next_index n.log.compacted_to)
        then (transfer p.node_id ∷ [], record p { snap_active = a.transfer_goes_on p.node_id })
        else pumped)
    else ([], p)

unfoldable pub pump_peers : Answers → Node → List Peer → List Effect × List Peer
unfolding pump_peer
pump_peers a n [] = ([], [])
pump_peers a n (p ∷ ps) =
    let (sent, q) = pump_peer a n p in let (more, qs) = pump_peers a n ps in (sent ++ more, q ∷ qs)

-- What a peer is sent depends on the other peers by their durable indices alone, which the pump keeps.
unfoldable pub replicate_to_peers : Answers → Node → List Effect × Node
unfolding pump_peers
replicate_to_peers a n = let (sent, ps) = pump_peers a n n.peers in (sent, record n { peers = ps })

-- The entry of the peer with an id.
unfoldable pub find_peer : ℕ → List Peer → Option Peer
find_peer i [] = none
find_peer i (p ∷ ps) = let rest = find_peer i ps in if p.node_id == i then some p else rest

unfoldable pub put_peer : Peer → List Peer → List Peer
put_peer q [] = []
put_peer q (p ∷ ps) =
    let rest = put_peer q ps in if p.node_id == q.node_id then q ∷ ps else p ∷ rest

unfoldable pub with_peer : Answers → Node → Peer → List Effect × Node
unfolding pump_peer put_peer
with_peer a n p =
    let m = record n { peers = put_peer p n.peers } in
    let (sent, q) = pump_peer a m p in (sent, record m { peers = put_peer q m.peers })

-- peer_on_link_up, with what its callers set before: the link's state and the health gate.
unfoldable pub peer_on_link_up : Answers → Node → Peer → List Effect × Node
unfolding with_peer update_health put_peer
peer_on_link_up a n p =
    let up = record p { link_up = true } in
    with_peer a (update_health (record n { peers = put_peer up n.peers })) (record up {
      snap_active = false;
      next_index = last_index n.log + 1;
      match_index = 0;
      durable_index = 0;
      inflight = 0;
    })

abbrev pub leader_appended : Node → Bool × Node → Node
leader_appended n (true, m) = record m { log_dirty = true }
leader_appended n (false, m) = m

unfoldable pub leader_append : Answers → Node → ℕ → Bytes → Node
unfolding log_append
leader_append a n op bytes =
    if is_leader n.role then leader_appended n (log_append a n n.current_term op bytes) else n

abbrev pub applied : List LogEntry → List Effect
applied [] = []
applied (e ∷ es) = apply e ∷ applied es

-- persist_write_flush
unfoldable pub persist_write_flush : Bool → Node → Node
unfolding storage_write_failed
persist_write_flush written n = if written then n else storage_write_failed n

unfoldable pub leader_flush : Answers → Node → List Effect × Node
unfolding persist_write_flush replicate_to_peers advance_commit leader_update_flow
leader_flush a n =
    let flushed = persist_write_flush a.batch_write (record n { log_dirty = false }) in
    let (sent, m) = replicate_to_peers a flushed in
    let (ops, k) = advance_commit m in
    if n.log_dirty then (sent ++ applied ops, leader_update_flow k) else ([], n)

abbrev pub take_durable : Option ℕ → Peer → Peer
take_durable none p = p
take_durable (some d) p = record p { durable_index = d }

abbrev pub raise_match : ℕ → Peer → Peer
raise_match hint p = record p {
  match_index = if ltb p.match_index hint then hint else p.match_index;
}

-- The peer's entry after an accepted batch.
unfoldable pub accepted : AppendReply → Peer → Peer
accepted r p =
    let m = raise_match r.hint (take_durable r.durable p) in
    record m { inflight = sub_size (sub_size m.next_index 1) m.match_index }

-- The peer's entry after a refused batch.
unfoldable pub rewound : AppendReply → Peer → Peer
rewound r p =
    let d = take_durable r.durable p in
    record d {
      next_index = if ltb (r.hint + 1) d.next_index then r.hint + 1 else d.next_index;
      match_index = if ltb r.hint d.match_index then r.hint else d.match_index;
      inflight = 0;
    }

-- The part of the APPEND_RESP handler that a leader reaches, for the peer's entry.
unfoldable pub take_append_resp : Answers → Node → Peer → AppendReply → List Effect × Node
unfolding accepted rewound put_peer with_peer advance_commit find_peer
take_append_resp a n p r =
    let q = if r.success then accepted r p else rewound r p in
    let m = record n { peers = put_peer q n.peers } in
    let (ops, k) = advance_commit m in
    if r.success
    then (let (sent, s) = with_peer a k q in (applied ops ++ sent, s))
    else with_peer a m q
