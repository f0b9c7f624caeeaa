-- ===== src/Cluster/Batch.antt =====
-- src/cluster.c: how much one AppendEntries carries, and how far the pump goes.
use beaver_mq.Prelude.{
  ℕ, zero, suc, ◌+◌, ◌-◌, ◌≤◌, ◌<◌, ◌≡◌, refl, ◌⊎◌, false, ◌&&◌, ◌||◌, ltb, arith, Bool-cases, inl,
  inr,
}
use beaver_mq.Cluster.State.{Log, last_index, Peer, Node}
use beaver_mq.Cluster.Log.{log_at}
use beaver_mq.Cluster.Replicate.{
  max_append_entries, max_append_bytes, append_fixed, window_entries, wire_size, batch_count,
  first_to_send, last_to_send, to_send, has_room,
}

-- The bytes of `k` entries on the wire, from the index `i` on.
unfoldable pub total_size : Log → ℕ → ℕ → ℕ
total_size log i zero = 0
total_size log i (suc k) = wire_size (log_at log i) + total_size log (i + 1) k

total_size_step :
    (log : Log) (i c k : ℕ)
    → c < k
    → total_size log i (k - c) ≡ wire_size (log_at log i) + total_size log (i + 1) (k - (c + 1))
unfolding total_size
total_size_step log i c k h = let e : k - c ≡ suc (k - (c + 1)) = omega arith in rw e refl

total_size_none : (log : Log) (i k : ℕ) → k ≡ 0 → total_size log i k ≡ 0
unfolding total_size
total_size_none log i zero h = refl
total_size_none log i (suc k) h = absurd (omega arith)

batch_count_range :
    (log : Log) (last rounds i size cnt : ℕ)
    → let k = batch_count log last rounds i size cnt in
      (cnt ≤ k) × (k ≤ cnt + rounds) × (k ≤ cnt + (last + 1 - i))
unfolding batch_count
batch_count_range log last zero i size cnt = (omega arith, omega arith, omega arith)
batch_count_range log last (suc rounds) i size cnt =
    let ih =
      batch_count_range log last rounds (i + 1) (size + wire_size (log_at log i)) (cnt + 1) in
    (ground arith, ground arith, ground arith)

batch_count_size :
    (log : Log) (last rounds i size cnt : ℕ)
    → let k = batch_count log last rounds i size cnt in
      (k ≤ cnt) ⊎ (k ≤ 1) ⊎ (size + total_size log i (k - cnt) ≤ max_append_bytes)
unfolding batch_count
batch_count_size log last zero i size cnt = inl (omega arith)
batch_count_size log last (suc rounds) i size cnt =
    let grown = size + wire_size (log_at log i) in
    let k = batch_count log last rounds (i + 1) grown (cnt + 1) in
    let ih = batch_count_size log last rounds (i + 1) grown (cnt + 1) in
    let r = batch_count_range log last rounds (i + 1) grown (cnt + 1) in
    let e = total_size_step log i cnt k (omega arith) in
    let z = total_size_none log (i + 1) (k - (cnt + 1)) in
    elim (Bool-cases (ltb last i || (ltb 0 cnt && ltb max_append_bytes grown))) [
      | inl t ↦ rw t (inl (omega arith))
      | inr t ↦ rw t (ground arith)
    ]

batch_count_first :
    (log : Log) (last rounds i size : ℕ)
    → 1 ≤ rounds
    → i ≤ last
    → 1 ≤ batch_count log last rounds i size 0
unfolding batch_count
batch_count_first log last zero i size h k = absurd (omega arith)
batch_count_first log last (suc rounds) i size h k =
    let r = batch_count_range log last rounds (i + 1) (size + wire_size (log_at log i)) 1 in
    ground arith

-- The first index is at least 1, and the entries that go out are no more than 512 and end with the log;
-- where the peer's next entry is in the log and not compacted, at least one goes out; and more than one
-- goes out only as far as the frame keeps within a mebibyte.
pub to_send_bounds :
    (n : Node) (p : Peer)
    → let k = to_send n p in
      let i = first_to_send p in
      (k ≤ max_append_entries)
      × ((k ≡ 0) ⊎ (i + k ≤ last_index n.log + 1))
      × (n.log.compacted_to < i → i ≤ last_index n.log → 1 ≤ k)
      × ((k ≤ 1) ⊎ (append_fixed + total_size n.log i k ≤ max_append_bytes))
unfolding to_send
to_send_bounds n p =
    let l = last_to_send n p in
    let i = first_to_send p in
    let r = batch_count_range n.log l max_append_entries i append_fixed 0 in
    let s = batch_count_size n.log l max_append_entries i append_fixed 0 in
    let f = batch_count_first n.log l max_append_entries i append_fixed (omega arith) in
    (omega arith, ground arith, λ h k. f (ground arith), ground arith)

-- What the pump's loop has reached.
record Pumped (n : Node) (p : Peer) : Type 0 where
  no_room : has_room n p ≡ false
  in_flight : p.inflight < window_entries + max_append_entries
  in_log : p.next_index ≤ last_index n.log + 1
