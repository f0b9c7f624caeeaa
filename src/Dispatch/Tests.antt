-- ===== src/Dispatch/Tests.antt =====
-- A worker with one queue and one consumer: runs, and the theorems on it at concrete inputs.
use beaver_mq.Prelude.{
  ℕ, ◌≡◌, refl, Bool, ◌&&◌, not, true, false, some, List, [], ◌∷◌, length, codes,
}
use beaver_mq.Message.{Message}
use beaver_mq.Queue.State.{Globals, queue_new}
use beaver_mq.Dispatch.State.{Unacked, Consumer, Worker, Outside, find_group}
use beaver_mq.Dispatch.Settle.{How, matches, split_last, last_first, settle_loop}
use beaver_mq.Dispatch.Registry.{dispatcher_add_consumer}
use beaver_mq.Dispatch.Acks.{how_many, up_to, settle_multiple}
use beaver_mq.Dispatch.Settled.{Settled}
use beaver_mq.Dispatch.Interest.{refused-no_waiter}

abbrev letter : Message
letter = record {
  id = 1;
  cluster_id = 0;
  exchange = [];
  routing_key = codes "q";
  body = 1 ∷ 2 ∷ [];
  props = [];
  dl_hops = 0;
}

abbrev globals : Globals
globals = record {
  max_length = 0;
  max_bytes = 0;
  flow_alarm_count = 0;
  mem_alarm = false;
  mem_high_bytes = 0;
}

abbrev delivery : ℕ → Unacked
delivery t = record { tag = t; msg = letter }

abbrev three : List Unacked
three = delivery 1 ∷ delivery 2 ∷ delivery 3 ∷ []

abbrev consumer : Consumer
consumer = record {
  id = 1;
  conn = 10;
  channel = 1;
  tag = codes "c";
  queue = 5;
  no_ack = false;
  prefetch = 4;
  unacked = three;
  cap_unacked = 4;
}

abbrev outside : Bool → Outside
outside member = record {
  closing = λ i. false;
  full = λ i t. false;
  slot_memory = λ i. true;
  sends = λ i. true;
  track_memory = λ i. true;
  requeue_memory = λ i. true;
  pending_memory = true;
  consumer_memory = true;
  group_memory = true;
  member_memory = member;
  waiter_memory = true;
}

abbrev worker : Worker
worker = record {
  globals = globals;
  queues = λ k. queue_new (some (codes "q")) 0;
  consumers = consumer ∷ [];
  groups = record { queue = 5; members = 1 ∷ []; cap = 4; rr = 0 } ∷ [];
  pending = 5 ∷ [];
  cap_pending = 8;
  async_closing = false;
  tearing_down = false;
  next_delivery_tag = 3;
  clustered = false;
  paused = λ i. false;
  actions = [];
}

abbrev up_to_two : How
up_to_two = record { delivery_tag = 2; multiple = true; requeue = false; rejected = false }

-- The last delivery takes the first one's place.
third_left : (settle_loop (outside true) up_to_two 5 3 [] three 0 worker).0 ≡ delivery 3 ∷ []
unfolding settle_loop matches last_first split_last
third_left = refl

settle_multiple_example :
    let (left, n, v) = settle_loop (outside true) up_to_two 5 (length three) [] three 0 worker in
    ((p : Unacked → Bool) → how_many p left ≡ how_many (λ u. p u && not (up_to 2 u)) three)
    × (n ≡ how_many (up_to 2) three)
    × (done : List Unacked) × ((p : Unacked → Bool)
        → how_many p done ≡ how_many (λ u. p u && up_to 2 u) three)
    × Settled false 5 done worker v
settle_multiple_example = settle_multiple (outside true) up_to_two 5 three worker refl refl

abbrev idle : Worker
idle = record worker { consumers = []; groups = []; pending = [] }

refused-no_waiter_example :
    let (ok1, w1) = dispatcher_add_consumer 7 1 (outside false) consumer idle in
    let (ok2, w2) = dispatcher_add_consumer 7 1 (outside true) consumer w1 in
    (ok1 ≡ false) × (ok2 ≡ true) × ((w2.queues 5).waiters ≡ (idle.queues 5).waiters)
unfolding find_group
refused-no_waiter_example =
    refused-no_waiter 7 1 (outside false) (outside true) consumer consumer idle refl refl refl refl
      refl refl refl
