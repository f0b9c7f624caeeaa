-- ===== src/Queue/Leave.antt =====
-- src/queue.c: how messages leave a queue: dequeue, purge, and the drain of a replica.
use beaver_mq.Prelude.{
  ℕ, suc, ◌+◌, ◌<◌, ◌^◌, ◌≡◌, refl, sym, ap, ◌∙◌, inl, inr, true, false, none, some, List, [], ◌∷◌,
  length, Bool, Bool-cases, ltb, leb, ◌&&◌, ◌==◌, if◌then◌else◌, add_size, arith,
}
use mathlib.Core.Path.{subst}
use beaver_mq.Message.{Message}
use beaver_mq.Queue.Ring.{ring_pop}
use beaver_mq.Queue.State.{Globals, Queue}
use beaver_mq.Queue.Ops.{
  dequeued_head, queue_dequeue, purge_head, purge_loop, queue_purge, drains, drain_loop,
  queue_drain_consumed,
}
use beaver_mq.Queue.Spec.{IsQueue, sum_len}
use beaver_mq.Queue.Refine.{
  congestion_frame, congestion-IsQueue, head-IsQueue, dequeued_head-IsQueue,
}

-- A dequeue of a non-empty queue returns the oldest message, leaves the others in order, and counts
-- the message as dequeued.
pub queue_dequeue-cons :
    (g : Globals) {q : Queue} (m : Message) (ms : List Message)
    → IsQueue q (m ∷ ms)
    → sum_len (m ∷ ms) < 2 ^ 64
    → let (r, g', q') = queue_dequeue g q in
      (r ≡ some m) × IsQueue q' ms × (q'.totals.dequeued ≡ add_size q.totals.dequeued 1)
unfolding queue_dequeue
queue_dequeue-cons g {q} m ms v small =
    let some_left : ltb 0 q.ring.count ≡ true = ground (arith, v.ring.counted) in
    let d = dequeued_head q m (ring_pop q.ring).1 in
    let f = ap (λ t. t.totals.dequeued) (congestion_frame g d) in
    rw (some_left, head-IsQueue v small)
      (refl, congestion-IsQueue g (dequeued_head-IsQueue v small), f)

-- A dequeue of an empty queue returns NULL and changes nothing.
pub queue_dequeue-nil : (g : Globals) {q : Queue} → IsQueue q [] → queue_dequeue g q ≡ (none, g, q)
unfolding queue_dequeue
queue_dequeue-nil g {q} v =
    let none_left : ltb 0 q.ring.count ≡ false = ground (arith, v.ring.counted) in rw none_left

purge_head-IsQueue :
    {q : Queue} (m : Message) (ms : List Message)
    → IsQueue q (m ∷ ms)
    → sum_len (m ∷ ms) < 2 ^ 64
    → IsQueue (purge_head q (ring_pop q.ring)) ms
purge_head-IsQueue {q} m ms v small =
    let d = dequeued_head-IsQueue v small in
    rw (head-IsQueue v small) (record { ring = d.ring; bytes = d.bytes })

purge_loop-IsQueue :
    (q : Queue) (ms : List Message)
    → IsQueue q ms
    → sum_len ms < 2 ^ 64
    → IsQueue (purge_loop (length ms) q) []
unfolding purge_loop
purge_loop-IsQueue q [] v small = v
purge_loop-IsQueue q (m ∷ ms) v small =
    purge_loop-IsQueue (purge_head q (ring_pop q.ring)) ms (purge_head-IsQueue m ms v small)
      (omega arith)

-- A purge empties the queue, brings its byte count to 0, and returns how many messages it held.
pub queue_purge_lem :
    (g : Globals) {q : Queue} (ms : List Message)
    → IsQueue q ms
    → sum_len ms < 2 ^ 64
    → let (purged, g', q') = queue_purge g q in
      (purged ≡ length ms) × IsQueue q' [] × (q'.total_bytes ≡ 0)
unfolding queue_purge
queue_purge_lem g {q} ms v small =
    let p =
      subst (λ n. IsQueue (purge_loop n q) []) (sym v.ring.counted)
        (purge_loop-IsQueue q ms v small) in
    let done =
      congestion-IsQueue g {q = record (purge_loop q.ring.count q) { totals = _ }}
        (record { ring = p.ring; bytes = p.bytes }) in
    (v.ring.counted, done, done.bytes)

-- A replicated message, which has a positive id, with its id up to the watermark.
abbrev pub is_consumed : ℕ → Message → Bool
is_consumed w m = ltb 0 m.cluster_id && leb m.cluster_id w

-- What a drain up to a watermark takes: the longest prefix of such messages.
abbrev pub drained_by : ℕ → List Message → ℕ × List Message
drained_by w [] = (0, [])
drained_by w (m ∷ ms) =
    if is_consumed w m then (suc (drained_by w ms).0, (drained_by w ms).1) else (0, m ∷ ms)

drains_lem : (w : ℕ) (m : Message) → drains w (some m) ≡ is_consumed w m
drains_lem w m = ground arith

record Drained (w n : ℕ) (ms : List Message) (s : ℕ × Queue) : Type 0 where
  taken : s.0 ≡ n + (drained_by w ms).0
  left : IsQueue s.1 (drained_by w ms).1

drain_loop-Drained :
    (w n : ℕ) (q : Queue) (ms : List Message)
    → IsQueue q ms
    → sum_len ms < 2 ^ 64
    → Drained w n ms (drain_loop w (length ms) (n, q))
unfolding drain_loop
drain_loop-Drained w n q [] v small = record { taken = omega arith; left = v }
drain_loop-Drained w n q (m ∷ ms) v small =
    let head = head-IsQueue v small in
    let ih =
      drain_loop-Drained w (n + 1) (dequeued_head q m (ring_pop q.ring).1) ms
        (dequeued_head-IsQueue v small) (omega arith) in
    let same = drains_lem w m in
    elim (Bool-cases (drains w (some m))) [
      | inl go ↦
          rw (ap (λ p. p.0) head, go, head)
            (record {
              taken = rw (sym same ∙ go) (omega (arith, ih.taken));
              left = rw (sym same ∙ go) ih.left;
            })
      | inr stop ↦
          rw (ap (λ p. p.0) head, stop)
            (record { taken = rw (sym same ∙ stop) (omega arith); left = rw (sym same ∙ stop) v })
    ]

-- A drain up to a watermark takes exactly the longest prefix of replicated messages whose ids are at most
-- the watermark, returns their number, and leaves the rest in order with their byte count. The queue holds
-- the messages, and their sizes sum up to less than 2 ^ 64.
pub queue_drain_consumed_lem :
    (g : Globals) {q : Queue} (w : ℕ) (ms : List Message)
    → IsQueue q ms
    → sum_len ms < 2 ^ 64
    → let (drained, g', q') = queue_drain_consumed g q w in
      (drained ≡ (drained_by w ms).0) × IsQueue q' (drained_by w ms).1
unfolding queue_drain_consumed
queue_drain_consumed_lem g {q} w ms v small =
    let d =
      subst (λ n. Drained w 0 ms (drain_loop w n (0, q))) (sym v.ring.counted)
        (drain_loop-Drained w 0 q ms v small) in
    let s = drain_loop w q.ring.count (0, q) in
    let count : s.0 ≡ (drained_by w ms).0 = omega (arith, d.taken) in
    elim (Bool-cases (s.0 == 0)) [
      | inl z ↦ rw z (ground (arith, count), d.left)
      | inr nz ↦ rw nz (count, congestion-IsQueue g d.left)
    ]
