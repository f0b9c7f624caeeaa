-- ===== src/Cluster/Message.antt =====
-- src/cluster.c: the frames of the consensus, taken apart, and what a handler does to the outside.
use beaver_mq.Prelude.{ℕ, ◌%◌, Bool, Option, some, List, Bytes}
use beaver_mq.Cluster.State.{LogEntry}

pub record VoteBody : Type 0 where
  pub candidate : ℕ
  pub last_log_index : ℕ
  pub last_log_term : ℕ

-- An entry on the wire; its index is sent too, and the receiver skips it.
pub record WireEntry : Type 0 where
  pub term : ℕ
  pub op_type : ℕ
  pub bytes : Bytes

-- `entries` are those that the body holds in full, `count` the number that it announces.
pub record AppendBody : Type 0 where
  pub prev_index : ℕ
  pub prev_term : ℕ
  pub leader_commit : ℕ
  pub compact_index : ℕ
  pub count : ℕ
  pub entries : List WireEntry

-- `durable` is none where the body ends before it.
pub record AppendReply : Type 0 where
  pub success : Bool
  pub hint : ℕ
  pub durable : Option ℕ

-- The frame types of the consensus: the header's term, and the body or none where it is too short.
pub data ClusterFrame : Type 0 where
  prevote vote_req : (term : ℕ) (body : Option VoteBody) → ClusterFrame
  prevote_resp vote_resp : (term : ℕ) (granted : Option Bool) → ClusterFrame
  append : (term : ℕ) (congested : Bool) (body : Option AppendBody) → ClusterFrame
  append_resp : (term : ℕ) (body : Option AppendReply) → ClusterFrame

-- A frame handed to the link of the peer with an id, an operation applied to the broker, and the state
-- transfer to a peer driven on.
pub data Effect : Type 0 where
  send : (to : ℕ) (m : ClusterFrame) → Effect
  apply : (op : LogEntry) → Effect
  transfer : (to : ℕ) → Effect

-- the term in a frame's header: (uint32_t)
abbrev pub header_term : ℕ → ℕ
header_term t = t % 4294967296

-- A body with a flag: the reply to a vote request.
unfoldable pub send_vote_resp : (ℕ → Option Bool → ClusterFrame) → ℕ → ℕ → Bool → Effect
send_vote_resp reply to term granted = send to (reply (header_term term) (some granted))
