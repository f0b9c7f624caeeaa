-- ===== src/Queue/Tests.antt =====
-- Runs of the queue on concrete messages, and the theorems on it at concrete inputs.
use beaver_mq.Prelude.{
  ℕ, ◌≤◌, ◌<◌, ◌≡◌, refl, ◌⊎◌, inr, Bool, true, false, none, some, List, [], ◌∷◌, Bytes, codes,
  replicate, arith,
}
use beaver_mq.Message.{Message}
use beaver_mq.Queue.Ring.{Ring, linearize, ring_pop}
use beaver_mq.Queue.RingFifo.{Holds}
use beaver_mq.Queue.State.{Globals, Overflow, reject_publish, drop_head, Track, Queue, queue_new}
use beaver_mq.Queue.Flow.{max_len, max_bytes, queue_would_overflow}
use beaver_mq.Queue.Ops.{ok, full, queue_enqueue, queue_drain_consumed}
use beaver_mq.Queue.Spec.{IsQueue, enqueue_spec}
use beaver_mq.Queue.Enqueue.{Implements, queue_enqueue_lem}
use beaver_mq.Queue.Leave.{drained_by, queue_drain_consumed_lem}
use beaver_mq.Queue.Bounds.{queue_enqueue-limits}
use beaver_mq.Queue.Track.{consume_watermark}
use beaver_mq.Queue.Insertion.{In}
use beaver_mq.Queue.Watermark.{
  IsTracked, Event, deliver, ack, run, run-watermark, delivered-watermark,
}

abbrev pub message : ℕ → Bytes → Message
message cluster_id body = record {
  id = cluster_id;
  cluster_id = cluster_id;
  exchange = [];
  routing_key = codes "k";
  body = body;
  props = [];
  dl_hops = 0;
}

abbrev pub first : Message
first = message 1 (7 ∷ [])

abbrev pub second : Message
second = message 2 (8 ∷ 9 ∷ [])

abbrev third : Message
third = message 3 (5 ∷ [])

abbrev pub globals : Globals
globals = record {
  max_length = 2;
  max_bytes = 0;
  flow_alarm_count = 0;
  mem_alarm = false;
  mem_high_bytes = 1000;
}

abbrev refuse_all : ℕ → Bool
refuse_all n = false

-- The oldest message is in the last slot.
abbrev pub two_ring : Ring Message
two_ring = record {
  slots = some second ∷ none ∷ none ∷ some first ∷ [];
  head = 3;
  tail = 1;
  count = 2;
  cap = 4;
}

two_ring-Holds : Holds two_ring (first ∷ second ∷ [])
unfolding linearize
two_ring-Holds = record {
  size = refl;
  head_in = omega arith;
  counted = refl;
  room = omega arith;
  tail_at = refl;
  live = refl;
}

abbrev pub two_queue : Overflow → Queue
two_queue ov = record {
  name = [];
  vhost = none;
  flags = 0;
  limits = record { max_length = 0; max_bytes = 0; overflow = ov };
  congested = false;
  dead_letter = record { exchange = none; routing_key = none; fn = false };
  ring = two_ring;
  totals = record { enqueued = 2; dequeued = 0; dropped = 0; rejected = 0 };
  total_bytes = 3;
  track = record { deliver_hi = 0; unacked = []; cap_unacked = 0; consume_replicated = 0 };
  waiters = [];
  cap_waiters = 0;
  consumers = 0;
  refcount = 1;
  exclusive_owner = 0;
}

pub two_queue-IsQueue : (ov : Overflow) → IsQueue (two_queue ov) (first ∷ second ∷ [])
two_queue-IsQueue ov = record { ring = two_ring-Holds; bytes = refl }

abbrev no_queue : Queue
unfolding queue_new
no_queue = record (queue_new none 0) {
  ring = record { slots = replicate 4 none; head = 0; tail = 0; count = 0; cap = 4 };
}

no_queue-IsQueue : IsQueue no_queue []
unfolding no_queue queue_new linearize
no_queue-IsQueue = record {
  ring = record {
    size = refl;
    head_in = omega arith;
    counted = refl;
    room = omega arith;
    tail_at = refl;
    live = refl;
  };
  bytes = refl;
}

-- At the limit of two messages the head gives way.
drop_head_status : (queue_enqueue refuse_all true globals (two_queue drop_head) third).status ≡ ok
unfolding queue_enqueue queue_would_overflow ring_pop
drop_head_status = refl

reject_status :
    (queue_enqueue refuse_all true globals (two_queue reject_publish) third).status ≡ full
unfolding queue_enqueue queue_would_overflow
reject_status = refl

queue_enqueue_lem_example :
    let q = two_queue drop_head in
    Implements
      (enqueue_spec
        (max_len globals q)
        (max_bytes globals q)
        q.limits.overflow
        q.ring.cap
        true
        (first ∷ second ∷ [])
        third)
      (queue_enqueue refuse_all true globals q third)
queue_enqueue_lem_example =
    queue_enqueue_lem refuse_all true globals third (two_queue-IsQueue drop_head) (omega arith)

queue_drain_consumed_lem_example :
    let (drained, g', q') = queue_drain_consumed globals (two_queue reject_publish) 1 in
    (drained ≡ (drained_by 1 (first ∷ second ∷ [])).0)
    × IsQueue q' (drained_by 1 (first ∷ second ∷ [])).1
queue_drain_consumed_lem_example =
    queue_drain_consumed_lem globals 1 (first ∷ second ∷ []) (two_queue-IsQueue reject_publish)
      (omega arith)

queue_enqueue-limits_example :
    let q = two_queue drop_head in
    let q' = (queue_enqueue refuse_all true globals q third).queue in
    ((max_len globals q ≡ 0) ⊎ (q'.ring.count ≤ max_len globals q))
    × ((max_bytes globals q ≡ 0) ⊎ (q'.total_bytes ≤ max_bytes globals q) ⊎ (q'.ring.count ≡ 1))
queue_enqueue-limits_example =
    queue_enqueue-limits refuse_all true globals third (two_queue-IsQueue drop_head) (omega arith)
      drop_head_status

-- Two deliveries to be acknowledged, the second one first.
abbrev tracked : Track
tracked = record { deliver_hi = 5; unacked = 3 ∷ 5 ∷ []; cap_unacked = 2; consume_replicated = 0 }

tracked-IsTracked : IsTracked tracked
tracked-IsTracked = record { ascending = ground arith; below = ground arith }

abbrev untracked : Track
untracked = record { deliver_hi = 0; unacked = []; cap_unacked = 0; consume_replicated = 0 }

untracked-IsTracked : IsTracked untracked
untracked-IsTracked = record { ascending = tt; below = tt }

abbrev later_events : List Event
later_events = deliver true 8 false ∷ ack 5 ∷ deliver true 3 true ∷ []

run-watermark_example :
    In 3 (run tracked later_events).unacked × (consume_watermark (run tracked later_events) < 3)
run-watermark_example =
    run-watermark 3 later_events tracked tracked-IsTracked (ground arith) (ground arith)

delivered-watermark_example :
    consume_watermark (run untracked (deliver true 4 false ∷ later_events)) < 4
delivered-watermark_example =
    delivered-watermark true 4 later_events untracked untracked-IsTracked (omega arith)
      (inr (refl, refl)) (ground arith)
