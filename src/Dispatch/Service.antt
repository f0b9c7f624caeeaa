-- ===== src/Dispatch/Service.antt =====
-- src/dispatch.c: deliveries, round robin over the consumers of a queue.
use beaver_mq.Prelude.{
  ℕ, zero, suc, ◌+◌, ◌%◌, Bool, true, false, not, ◌&&◌, ◌||◌, Option, none, some, List, [], ◌∷◌,
  ◌++◌, length, get_or, ltb, leb, ◌==◌, if◌then◌else◌, add_size,
}
use beaver_mq.Message.{Message}
use beaver_mq.Queue.State.{Globals, Queue}
use beaver_mq.Queue.Ops.{queue_dequeue}
use beaver_mq.Queue.Track.{consume_on_deliver}
use beaver_mq.Dispatch.State.{
  Unacked, Consumer, Group, delivered, Worker, Outside, put_queue, act, doubled_from, find_consumer,
  put_consumer, find_group, put_group,
}
use beaver_mq.Dispatch.Settle.{requeue_message}

-- Whether there is room for one more delivery, and the consumer.
unfoldable pub consumer_reserve_unacked : Outside → Consumer → Bool × Consumer
consumer_reserve_unacked o c =
    if ltb (length c.unacked) c.cap_unacked
    then (true, c)
    else if o.slot_memory c.id
    then (true, record c { cap_unacked = doubled_from 4 c.cap_unacked })
    else (false, c)

-- After a reservation there is room.
unfoldable pub consumer_add_unacked : Unacked → Consumer → Consumer
consumer_add_unacked u c = record c { unacked = c.unacked ++ u ∷ [] }

abbrev pub window_full : Consumer → Bool
window_full c = (not c.no_ack && not (c.prefetch == 0)) && leb c.prefetch (length c.unacked)

-- Whether the candidate takes a delivery, and the state.
unfoldable pub try_candidate : Outside → Consumer → Worker → Bool × Worker
unfolding consumer_reserve_unacked put_consumer
try_candidate o c w =
    let (room, d) = consumer_reserve_unacked o c in
    if o.closing c.conn
    then (false, w)
    else if w.paused c.conn || o.full c.conn w.next_delivery_tag
    then (false, record w { paused = λ j. if j == c.conn then true else w.paused j })
    else if window_full c
    then (false, w)
    else if c.no_ack
    then (true, w)
    else (room, record w { consumers = put_consumer d w.consumers })

abbrev pub tried : Outside → Option Consumer → Worker → Bool × Worker
tried o none w = (false, w)
tried o (some c) w = try_candidate o c w

-- The search for a consumer: `tries` are left. Gives the address found, the cursor and the state.
unfoldable pub pick : Outside → List ℕ → ℕ → ℕ → Worker → Option ℕ × ℕ × Worker
unfolding try_candidate find_consumer
pick o members zero rr w = (none, rr, w)
pick o members (suc tries) rr w =
    let i = get_or members (rr % length members) 0 in
    let (takes, v) = tried o (find_consumer i w.consumers) w in
    let rest = pick o members tries (add_size rr 1) v in
    if takes then (some i, add_size rr 1, v) else rest

abbrev pub record_delivery : Consumer → ℕ → Message → Worker → Worker
record_delivery c tag m w = if c.no_ack then w else record w {
  consumers = put_consumer (consumer_add_unacked (record { tag = tag; msg = m }) c) w.consumers;
}

abbrev pub track_delivery : Outside → Consumer → ℕ → Message → Worker → Worker
track_delivery o c tag m w =
    let q = w.queues c.queue in
    put_queue c.queue
      (record q { track = consume_on_deliver (o.track_memory tag) q.track m.cluster_id c.no_ack }) w

-- Whether it returns 0. The frames are those of the codec; `sends` covers building and sending them.
unfoldable pub deliver : Outside → Consumer → Message → Worker → Bool × Worker
unfolding put_consumer consumer_add_unacked consume_on_deliver
deliver o c m w =
    let tag = add_size w.next_delivery_tag 1 in
    let v = record w { next_delivery_tag = tag } in
    if o.sends tag
    then (true, track_delivery o c tag m (record_delivery c tag m (act (delivered c.id tag m) v)))
    else (false, v)

-- A round after a message has left the queue: whether the loop goes on, and the state.
abbrev pub delivered_to : Outside → ℕ → Option Consumer → Message → Worker → Bool × Worker
delivered_to o k none m w = (false, w)
delivered_to o k (some c) m w =
    let (sent, v) = deliver o c m w in
    if sent
    then (true, v)
    else (false, requeue_message o k (record { tag = v.next_delivery_tag; msg = m }) v)

abbrev pub dequeue_for : Outside → ℕ → ℕ → Option Message × Globals × Queue → Worker → Bool × Worker
dequeue_for o k i (none, g, q) w = (false, w)
dequeue_for o k i (some m, g, q) w =
    let v = put_queue k q (record w { globals = g }) in
    delivered_to o k (find_consumer i v.consumers) m v

-- The round for the consumer that was found, if any: whether the loop goes on, and the state.
abbrev pub served : Outside → ℕ → Option ℕ → Worker → Bool × Worker
served o k none v = (false, v)
served o k (some i) v = dequeue_for o k i (queue_dequeue v.globals (v.queues k)) v

-- One round of the loop: whether it goes on, the cursor, and the state.
unfoldable pub service_round : Outside → Group → ℕ → Worker → Bool × ℕ × Worker
unfolding pick queue_dequeue deliver requeue_message find_consumer
service_round o g rr w =
    let (found, rr', v) = pick o g.members (length g.members) rr w in
    let (more, u) = served o g.queue found v in (more, rr', u)

-- Each round but the last takes a message off the queue.
unfoldable pub service_loop : Outside → Group → ℕ → ℕ → Worker → ℕ × Worker
unfolding service_round
service_loop o g zero rr w = (rr, w)
service_loop o g (suc fuel) rr w =
    let (more, rr', v) = service_round o g rr w in
    let rest = service_loop o g fuel rr' v in if more then rest else (rr', v)

unfoldable pub service_group : Outside → Group → Worker → Worker
unfolding service_loop put_group
service_group o g w =
    let (rr, v) = service_loop o g ((w.queues g.queue).ring.count + 1) g.rr w in
    if length g.members == 0
    then w
    else record v { groups = put_group (record g { rr = rr }) v.groups }

abbrev pub service_found : Outside → Option Group → Worker → Worker
service_found o none w = w
service_found o (some g) w = service_group o g w

-- The loop of on_async over the pending list that it took.
unfoldable pub service_all : Outside → List ℕ → Worker → Worker
unfolding service_group find_group
service_all o [] w = w
service_all o (q ∷ qs) w = service_all o qs (service_found o (find_group q w.groups) w)

unfoldable pub on_async : Outside → Worker → Worker
unfolding service_all
on_async o w = service_all o w.pending (record w { pending = []; cap_pending = 0 })
