-- ===== src/Cluster/Events.antt =====
-- src/cluster.c: what can happen to a node, as one step function, and its runs.
use beaver_mq.Prelude.{
  ℕ, Bool, false, ◌&&◌, Option, none, some, List, [], ◌∷◌, Bytes, if◌then◌else◌,
}
use beaver_mq.Cluster.State.{
  last_index, Peer, Node, Answers, is_leader, update_health, storage_write_failed,
}
use beaver_mq.Cluster.Commit.{advance_commit}
use beaver_mq.Cluster.Message.{ClusterFrame, Effect}
use beaver_mq.Cluster.Replicate.{
  find_peer, put_peer, peer_on_link_up, leader_append, applied, persist_write_flush, leader_flush,
}
use beaver_mq.Cluster.Election.{election_timer_cb}
use beaver_mq.Cluster.Follower.{cl_dispatch, heartbeat_timer_cb}

-- Without persistence it does nothing. `synced` is the answer of fsync.
unfoldable pub persist_sync : Bool → Bool → Node → Node
unfolding persist_write_flush storage_write_failed
persist_sync written synced n =
    let w = persist_write_flush written n in
    if w.storage_failed
    then w
    else if synced
    then record w { log = record w.log { durable_index = last_index w.log } }
    else storage_write_failed w

unfoldable pub fsync_timer_cb : Answers → Bool → Node → List Effect × Node
unfolding persist_sync advance_commit
fsync_timer_cb a synced n =
    let m = persist_sync a.batch_write synced n in
    let (ops, k) = advance_commit m in
    if m.durable_commit && is_leader m.role then (applied ops, k) else ([], m)

unfoldable pub link_up : Answers → Option Peer → Node → List Effect × Node
unfolding peer_on_link_up
link_up a none n = ([], n)
link_up a (some p) n = peer_on_link_up a n p

-- drop_peer_link
unfoldable pub link_down : Option Peer → Node → Node
unfolding put_peer update_health
link_down none n = n
link_down (some p) n =
    update_health
      (record n { peers = put_peer (record p { link_up = false; snap_active = false }) n.peers })

pub data Event : Type 0 where
  receive : (from : ℕ) (m : ClusterFrame) → Event
  peer_up : (peer : ℕ) → Event
  peer_down : (peer : ℕ) → Event
  election_timeout : Event
  heartbeat : Event
  propose : (op : ℕ) (bytes : Bytes) → Event
  flush : Event
  fsync : (synced : Bool) → Event

unfoldable pub step : Answers → Event → Node → List Effect × Node
unfolding cl_dispatch link_up link_down election_timer_cb heartbeat_timer_cb leader_append
    leader_flush fsync_timer_cb find_peer
step a (receive from m) n = cl_dispatch a from m n
step a (peer_up i) n = link_up a (find_peer i n.peers) n
step a (peer_down i) n = ([], link_down (find_peer i n.peers) n)
step a election_timeout n = election_timer_cb a n
step a heartbeat n = heartbeat_timer_cb a n
step a (propose op bytes) n = ([], leader_append a n op bytes)
step a flush n = leader_flush a n
step a (fsync synced) n = fsync_timer_cb a synced n

-- The node after a sequence of events.
unfoldable pub run : List (Answers × Event) → Node → Node
unfolding step
run [] n = n
run ((a, e) ∷ es) n = run es (step a e n).1
