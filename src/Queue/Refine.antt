-- ===== src/Queue/Refine.antt =====
-- src/queue.c: what the steps that the operations share do to the sequence that the queue holds.
use beaver_mq.Prelude.{
  Bytes, Option, ℕ, ◌+◌, ◌<◌, ◌^◌, ◌≡◌, refl, Bool, true, false, some, List, [], ◌∷◌, ◌++◌, length,
  ◌==◌, add_size, sub_size, arith,
}
use beaver_mq.Message.{Message, body_len}
use beaver_mq.Queue.Ring.{ring_grow, ring_pop}
use beaver_mq.Queue.RingFifo.{ring_new-Holds, ring_grow-Holds, ring_push-Holds, ring_pop-Holds}
use beaver_mq.Queue.State.{queue_new, Globals, Queue}
use beaver_mq.Queue.Flow.{max_len, max_bytes, queue_would_overflow, queue_update_congestion}
use native.Mathlib.Decide.{dec_lt}
use beaver_mq.Queue.Ops.{
  Outcome, Status, ok, stored, store_tail, append_message, without_head, dequeued_head,
}
use beaver_mq.Queue.Spec.{IsQueue, sum_len, overflows, store_spec}

pub sum_len-append : (a b : List Message) → sum_len (a ++ b) ≡ sum_len a + sum_len b
sum_len-append [] b = omega arith
sum_len-append (m ∷ a) b = omega (arith, sum_len-append a b)

-- The code's overflow test is the specification's.
pub would_overflow-overflows :
    (g : Globals) {q : Queue} {ms : List Message} (len : ℕ)
    → IsQueue q ms
    → sum_len ms + len < 2 ^ 64
    → queue_would_overflow g q len ≡ overflows (max_len g q) (max_bytes g q) len ms
unfolding queue_would_overflow
would_overflow-overflows g {q} {ms} len v h =
    let e : add_size q.total_bytes len ≡ sum_len ms + len = omega (arith, v.bytes) in
    rw (e, v.ring.counted)

-- The congestion flag is all that its update changes in the queue.
pub congestion_frame :
    (g : Globals) (q : Queue)
    → (queue_update_congestion g q).1
      ≡ record q { congested = (queue_update_congestion g q).1.congested }
unfolding queue_update_congestion
congestion_frame g q = ground arith

pub congestion-IsQueue :
    (g : Globals) {q : Queue} {ms : List Message}
    → IsQueue q ms
    → IsQueue (queue_update_congestion g q).1 ms
congestion-IsQueue g {q} v =
    let f = congestion_frame g q in rw f (record { ring = v.ring; bytes = v.bytes })

module _ {q : Queue} {m : Message} {ms : List Message} (v : IsQueue q (m ∷ ms))
    (small : sum_len (m ∷ ms) < 2 ^ 64) where
  -- The head of the array is the oldest message.
  pub head-IsQueue : ring_pop q.ring ≡ (some m, (ring_pop q.ring).1)
  head-IsQueue = λ i. ((ring_pop-Holds v.ring).0 i, (ring_pop q.ring).1)

  bytes_left : sub_size q.total_bytes (body_len m) ≡ sum_len ms
  bytes_left = omega (arith, v.bytes)

  pub without_head-IsQueue : IsQueue (without_head q m (ring_pop q.ring).1) ms
  without_head-IsQueue = record { ring = (ring_pop-Holds v.ring).1; bytes = bytes_left }

  pub dequeued_head-IsQueue : IsQueue (dequeued_head q m (ring_pop q.ring).1) ms
  dequeued_head-IsQueue = record { ring = (ring_pop-Holds v.ring).1; bytes = bytes_left }

module _ (g : Globals) {q : Queue} (m : Message) {ms : List Message} (v : IsQueue q ms)
    (small : sum_len ms + body_len m < 2 ^ 64) where
  pub store_tail-IsQueue : q.ring.count < q.ring.cap → IsQueue (store_tail g q m).1 (ms ++ m ∷ [])
  unfolding store_tail
  store_tail-IsQueue free = congestion-IsQueue g (record {
    ring = ring_push-Holds v.ring m free;
    bytes = omega (arith, v.bytes, sum_len-append ms (m ∷ []));
  })

-- An operation left `out`: its status, what the queue holds, and the references it gave up.
pub record Leaves (status : Status) (ms dead released : List Message) (out : Outcome) : Type 0 where
  pub status_is : out.status ≡ status
  pub contents : IsQueue out.queue ms
  pub dead_is : out.dead ≡ dead
  pub released_is : out.released ≡ released

module _ (g : Globals) {q : Queue} (m : Message) {ms : List Message} (v : IsQueue q ms)
    (small : sum_len ms + body_len m < 2 ^ 64) (dead released gone : List Message) where
  abbrev pub Appends : Bool → Type 0
  Appends granted =
      let s = store_spec q.ring.cap granted ms m gone in
      Leaves s.0 s.1 dead released (append_message granted g q m dead released)

  stored-Leaves :
      (q' : Queue)
      → IsQueue (store_tail g q' m).1 (ms ++ m ∷ [])
      → Leaves ok (ms ++ m ∷ []) dead released (stored dead released (store_tail g q' m))
  stored-Leaves q' w = record { status_is = refl; contents = w; dead_is = refl; released_is = refl }

  append_full : (granted : Bool) → q.ring.count ≡ q.ring.cap → Appends granted
  unfolding append_message ring_grow
  append_full true e =
      let test : (q.ring.count == q.ring.cap) ≡ true = ground arith in
      let stest : (length ms == q.ring.cap) ≡ true = ground (arith, v.ring.counted) in
      let grown : IsQueue (record q { ring = (ring_grow true q.ring).1 }) ms = record {
        ring = ring_grow-Holds v.ring;
        bytes = v.bytes;
      } in
      rw (stest, test)
        (stored-Leaves _
          (store_tail-IsQueue g m grown small (omega (arith, v.ring.room, v.ring.head_in))))
  append_full false e =
      let test : (q.ring.count == q.ring.cap) ≡ true = ground arith in
      let stest : (length ms == q.ring.cap) ≡ true = ground (arith, v.ring.counted) in
      rw (stest, test)
        (record { status_is = refl; contents = v; dead_is = refl; released_is = refl })

  append_free : (granted : Bool) → q.ring.count < q.ring.cap → Appends granted
  unfolding append_message
  append_free granted e =
      let test : (q.ring.count == q.ring.cap) ≡ false = ground arith in
      let stest : (length ms == q.ring.cap) ≡ false = ground (arith, v.ring.counted) in
      rw (stest, test) (stored-Leaves _ (store_tail-IsQueue g m v small e))

  pub append_message-Leaves : (granted : Bool) → Appends granted
  append_message-Leaves granted = elim (dec_lt q.ring.count q.ring.cap) [
    | yes p ↦ append_free granted p
    | no p ↦ append_full granted (omega (arith, v.ring.room))
  ]

-- A new queue is well formed and empty.
pub queue_new-IsQueue : (name : Option Bytes) (flags : ℕ) → IsQueue (queue_new name flags) []
unfolding queue_new
queue_new-IsQueue name flags = record { ring = ring_new-Holds; bytes = refl }
